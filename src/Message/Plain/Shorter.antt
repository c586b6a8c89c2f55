-- ===== src/Message/Plain/Shorter.antt =====
-- The reader of the examples gives no bytes back.
use m_rpc.Prelude.{
  ℕ, zero, suc, ◌≤◌, ◌<◌, ◌≡◌, refl, Option, none, some, [], ◌∷◌, length, length-drop, Option-cases,
  ◌⊎◌, inl, inr, arith,
}
use m_rpc.Endian.{Bytes}
use m_rpc.Message.{UnknownFields}
use m_rpc.Message.Termination.{Advances}
-- A wire format in protobuf's manner.
use m_rpc.Message.Plain.{
  group, unvarint, byte, unle, cut, fixed, tag_of, at_tag, skip, plain_reader,
}

-- What is left after a number is shorter.
Shorter : Bytes → Option (ℕ × Bytes) → Type 0
Shorter s o = (n : ℕ) (left : Bytes) → o ≡ some (n, left) → length left < length s

unvarint-Shorter : (k : ℕ) (s : Bytes) → Shorter s (unvarint k s)
unfolding Shorter unvarint group
unvarint-Shorter zero s n left h = ground arith
unvarint-Shorter (suc k) [] n left h = ground arith
unvarint-Shorter (suc k) (b ∷ s) n left h = elim (Option-cases (unvarint k s)) [
  | inl failed ↦ ground arith
  | inr ((v, rest), read) ↦ let shorter = unvarint-Shorter k s v rest read in ground arith
]

unle_shorter :
    (k : ℕ) (s : Bytes) (n : ℕ) (left : Bytes) → unle k s ≡ some (n, left) → length left ≤ length s
unfolding unle byte
unle_shorter zero s n left h = ground arith
unle_shorter (suc k) [] n left h = ground arith
unle_shorter (suc k) (b ∷ s) n left h = elim (Option-cases (unle k s)) [
  | inl failed ↦ ground arith
  | inr ((v, rest), read) ↦ let shorter = unle_shorter k s v rest read in ground arith
]

cut-Shorter :
    (o : Option (ℕ × Bytes)) (old s : Bytes) → Shorter s o → length (cut o old s).2 ≤ length s
unfolding Shorter cut
cut-Shorter none old s h = omega arith
cut-Shorter (some (n, left)) old s h =
    let shorter = h n left refl in let dropped = length-drop n left in ground arith

at_tag_shorter : (tag : ℕ) (s : Bytes) → length (at_tag tag s).1 ≤ length s
unfolding at_tag
at_tag_shorter tag [] = omega arith
at_tag_shorter tag (b ∷ s) = ground arith

tag_of-Shorter :
    (o : Option (ℕ × Bytes)) (s : Bytes)
    → Shorter s o
    → ((tag_of o s).0.0 ≡ 0) ⊎ (length (tag_of o s).1 < length s)
unfolding Shorter tag_of
tag_of-Shorter none s h = inl refl
tag_of-Shorter (some (n, left)) s h = inr (h n left refl)

fixed_shorter :
    (o : Option (ℕ × Bytes)) (old : ℕ) (s : Bytes)
    → ((n : ℕ) (left : Bytes) → o ≡ some (n, left) → length left ≤ length s)
    → length (fixed o old s).2 ≤ length s
unfolding fixed
fixed_shorter none old s h = omega arith
fixed_shorter (some (n, left)) old s h = h n left refl

skip_shorter : (tag : ℕ) (u : UnknownFields) (s : Bytes) → length (skip tag u s).2 ≤ length s
unfolding skip
skip_shorter tag u s =
    let shorter = cut-Shorter (unvarint 10 s) [] s (unvarint-Shorter 10 s) in ground arith

pub plain-Advances : Advances plain_reader
unfolding Shorter
plain-Advances = record {
  read_tag_advances = λ s. tag_of-Shorter (unvarint 5 s) s (unvarint-Shorter 5 s);
  expect_tag_advances = at_tag_shorter;
  read_enum_advances =
      λ s v left read. let shorter = unvarint-Shorter 10 s v left read in omega arith;
  read_fixed64_advances = λ old s. fixed_shorter (unle 8 s) old s (unle_shorter 8 s);
  read_string_advances = λ old s. cut-Shorter (unvarint 10 s) old s (unvarint-Shorter 10 s);
  read_bytes_advances = λ old s. cut-Shorter (unvarint 10 s) old s (unvarint-Shorter 10 s);
  skip_field_advances = skip_shorter;
}
