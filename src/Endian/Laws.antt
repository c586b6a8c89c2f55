-- ===== src/Endian/Laws.antt =====
-- Round trips between integers, their bytes in memory and their bytes on the wire.
use m_rpc.Prelude.{
  ℕ, zero, suc, ◌+◌, ◌*◌, ◌/◌, ◌%◌, ◌^◌, ◌<◌, ◌≡◌, refl, sym, ap, ◌∙◌, [], ◌∷◌, ◌++◌, All, length,
  length-append, arith,
}
use m_rpc.Endian.{
  Bytes, IsByte, ByteOrder, little, big, le_bytes, le_value, be_bytes, image, load, host_to_network,
  network_to_host, host_to_network32, network_to_host32, host_to_network64, network_to_host64,
  host_to_network16, network_to_host16,
}
use mathlib.Core.List.{reverse, reverse-reverse, reverse-append}
use native.Mathlib.Nat.{pow-suc}

pub length-reverse : (xs : Bytes) → length (reverse xs) ≡ length xs
length-reverse [] = refl
length-reverse (x ∷ xs) =
    ap length (reverse-append (x ∷ []) xs)
    ∙ length-append (reverse xs) (x ∷ [])
    ∙ omega (arith, length-reverse xs)

pub length-le_bytes : (w x : ℕ) → length (le_bytes w x) ≡ w
unfolding le_bytes
length-le_bytes zero x = refl
length-le_bytes (suc w) x = ap suc (length-le_bytes w (x / 256))

pub length-be_bytes : (w x : ℕ) → length (be_bytes w x) ≡ w
unfolding be_bytes
length-be_bytes w x = length-reverse (le_bytes w x) ∙ length-le_bytes w x

-- `x / 256` has a byte less.
div-lt : (w x : ℕ) → x < 256 ^ suc w → x / 256 < 256 ^ w
div-lt w x h = let e : 256 ^ suc w ≡ 256 ^ w * 256 = pow-suc 256 w in omega arith

pub le_value-le_bytes : (w x : ℕ) → x < 256 ^ w → le_value (le_bytes w x) ≡ x
unfolding le_value le_bytes
le_value-le_bytes zero x h = omega arith
le_value-le_bytes (suc w) x h = omega (arith, le_value-le_bytes w (x / 256) (div-lt w x h))

pub le_bytes-le_value : (bs : Bytes) → All IsByte bs → le_bytes (length bs) (le_value bs) ≡ bs
unfolding le_value le_bytes
le_bytes-le_value [] h = refl
le_bytes-le_value (b ∷ bs) (hb, hbs) =
    let q : (b + 256 * le_value bs) / 256 ≡ le_value bs = omega arith in
    let r : (b + 256 * le_value bs) % 256 ≡ b = omega arith in rw (q, r, le_bytes-le_value bs hbs)

pub load-image : (o : ByteOrder) (w x : ℕ) → x < 256 ^ w → load o (image o w x) ≡ x
unfolding load image be_bytes
load-image little w x h = le_value-le_bytes w x h
load-image big w x h = rw reverse-reverse (le_value-le_bytes w x h)

le_bytes-IsByte : (w x : ℕ) → All IsByte (le_bytes w x)
unfolding le_bytes
le_bytes-IsByte zero x = tt
le_bytes-IsByte (suc w) x = (omega arith, le_bytes-IsByte w (x / 256))

All-append : (xs ys : Bytes) → All IsByte xs → All IsByte ys → All IsByte (xs ++ ys)
All-append [] ys h k = k
All-append (x ∷ xs) ys h k = (h.0, All-append xs ys h.1 k)

All-reverse : (xs : Bytes) → All IsByte xs → All IsByte (reverse xs)
All-reverse [] h = tt
All-reverse (x ∷ xs) h =
    rw (reverse-append (x ∷ []) xs)
      (All-append (reverse xs) (x ∷ []) (All-reverse xs h.1) (h.0, tt))

image-load : (o : ByteOrder) (bs : Bytes) → All IsByte bs → image o (length bs) (load o bs) ≡ bs
unfolding load image be_bytes
image-load little bs h = le_bytes-le_value bs h
image-load big bs h =
    rw (← length-reverse bs)
      (ap reverse (le_bytes-le_value (reverse bs) (All-reverse bs h)) ∙ reverse-reverse bs)

pub be_bytes-IsByte : (w x : ℕ) → All IsByte (be_bytes w x)
unfolding be_bytes
be_bytes-IsByte w x = All-reverse (le_bytes w x) (le_bytes-IsByte w x)

-- The memory of a converted integer holds the wire's bytes, whatever the host's order is.
pub image-host_to_network :
    (o : ByteOrder) (w x : ℕ) → image o w (host_to_network o w x) ≡ be_bytes w x
unfolding host_to_network
image-host_to_network o w x =
    ap (λ k. image o k (load o (be_bytes w x))) (sym (length-be_bytes w x))
    ∙ image-load o (be_bytes w x) (be_bytes-IsByte w x)

pub network_to_host-host_to_network :
    (o : ByteOrder) (w x : ℕ) → x < 256 ^ w → network_to_host o w (host_to_network o w x) ≡ x
unfolding network_to_host
network_to_host-host_to_network o w x h =
    rw (image-host_to_network o w x)
      (unfold be_bytes in rw reverse-reverse (le_value-le_bytes w x h))

-- On a host of either order, converting an unsigned integer to network order and back gives it
-- again, at 64, 32 and 16 bits.
pub network_to_host-inverse :
    (o : ByteOrder) (x y z : ℕ)
    → x < 2 ^ 64
    → y < 2 ^ 32
    → z < 2 ^ 16
    → (network_to_host64 o (host_to_network64 o x) ≡ x)
      × (network_to_host32 o (host_to_network32 o y) ≡ y)
      × (network_to_host16 o (host_to_network16 o z) ≡ z)
unfolding network_to_host64 host_to_network64 network_to_host32 host_to_network32 network_to_host16
    host_to_network16
network_to_host-inverse o x y z hx hy hz = (
  network_to_host-host_to_network o 8 x hx,
  network_to_host-host_to_network o 4 y hy,
  network_to_host-host_to_network o 2 z hz,
)

-- What a four-byte integer, copied out of a wire's bytes, is worth after its conversion.
pub network_to_host32-load :
    (o : ByteOrder) (x : ℕ) → x < 2 ^ 32 → network_to_host32 o (load o (be_bytes 4 x)) ≡ x
unfolding network_to_host32 host_to_network
network_to_host32-load o x h = network_to_host-host_to_network o 4 x h
