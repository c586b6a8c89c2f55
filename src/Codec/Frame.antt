-- ===== src/Codec/Frame.antt =====
-- What the sending half of src/codeClite.cpp writes: the frame of a message.
use m_rpc.Prelude.{
  ℕ, ◌+◌, ◌≡◌, sym, ap, ◌∙◌, true, List, [], ◌∷◌, ◌++◌, foldl, append-nil, append_assoc, length,
  length-append, concat, arith,
}
use m_rpc.Endian.{Bytes, be_bytes}
use m_rpc.Endian.Laws.{length-be_bytes}
use m_rpc.Platform.{EvBuffer, Adler32, MessageClass}
use m_rpc.Codec.{Config, checksum}
use native.Mathlib.Nat.{mod-eq_of_lt}

-- No call of the buffer library fails.
pub record Reliable (ev : EvBuffer) : Type 0 where
  pub add_works : (b : ev.Buf) (xs : Bytes) → (ev.add b xs).0 ≡ true
  pub prepend_works : (b : ev.Buf) (xs : Bytes) → (ev.prepend b xs).0 ≡ true
  pub reserve_works : (b : ev.Buf) (n : ℕ) → (ev.reserve b n).0 ≡ true
  pub commit_works : (b : ev.Buf) (xs : Bytes) → (ev.commit b xs).0 ≡ true
  pub add_buffer_works : (d s : ev.Buf) → (ev.add_buffer d s).0 ≡ true

module _ (z : Adler32) where
  carry_on :
      (xss : List Bytes) (ys : Bytes)
      → foldl z.update (z.update z.initial ys) xss ≡ z.update z.initial (ys ++ concat xss)
  carry_on [] ys = ap (z.update z.initial) (sym (append-nil ys))
  carry_on (xs ∷ xss) ys =
      rw (z.update-append ys xs, carry_on xss (ys ++ xs), append_assoc ys xs (concat xss))

  -- The extents of a buffer are checked as one text.
  pub update-extents :
      (xss : List Bytes) → foldl z.update z.initial xss ≡ z.update z.initial (concat xss)
  update-extents xss = ap (λ a. foldl z.update a xss) (sym z.update-nil) ∙ carry_on xss []

  pub checksum-contents :
      (ev : EvBuffer) (buf : ev.Buf) (n : ℕ)
      → n ≡ length (ev.contents buf)
      → checksum ev z buf n ≡ z.update z.initial (ev.contents buf)
  unfolding checksum
  checksum-contents ev buf n h =
      rw (h, update-extents (ev.peek buf (length (ev.contents buf))), ev.peek_all buf)
        (mod-eq_of_lt (z.update-lt (ev.contents buf)))

-- The value of the size field.
abbrev pub frame_len : (p : MessageClass) → Config → p.Msg → ℕ
frame_len p c m = length c.tag + p.byte_size m + 4

module _ (z : Adler32) (p : MessageClass) where
  open p use {Msg, serialize}

  -- The checksum of tag and payload.
  unfoldable pub frame_check : Config → Msg → ℕ
  frame_check c m = z.update z.initial (c.tag ++ serialize m)

  -- Tag, payload and checksum, which the size field counts.
  unfoldable pub body : Config → Msg → Bytes
  body c m = c.tag ++ (serialize m ++ be_bytes 4 (frame_check c m))

  -- The wire format that the comment at the head of codeClite.h describes.
  unfoldable pub frame : Config → Msg → Bytes
  unfolding body
  frame c m = be_bytes 4 (frame_len p c m) ++ body c m

  pub length-body : (c : Config) (m : Msg) → p.IsProper m → length (body c m) ≡ frame_len p c m
  unfolding body
  length-body c m proper = omega (
    arith,
    length-append c.tag (serialize m ++ be_bytes 4 (frame_check c m)),
    length-append (serialize m) (be_bytes 4 (frame_check c m)),
    length-be_bytes 4 (frame_check c m),
    p.length-serialize m proper,
  )

  pub length-frame :
      (c : Config) (m : Msg) → p.IsProper m → length (frame c m) ≡ frame_len p c m + 4
  unfolding frame
  length-frame c m proper = omega (
    arith,
    length-append (be_bytes 4 (frame_len p c m)) (body c m),
    length-be_bytes 4 (frame_len p c m),
    length-body c m proper,
  )
