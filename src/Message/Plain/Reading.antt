-- ===== src/Message/Plain/Reading.antt =====
-- The reader of the examples gives back what the wire format of the examples writes.
use m_rpc.Prelude.{
  ℕ, zero, suc, ◌+◌, ◌*◌, ◌/◌, ◌%◌, ◌^◌, ◌<◌, ◌≡◌, refl, ap, ◌∙◌, true, false, some, [], ◌∷◌, ◌++◌,
  append_assoc, length, length-append, take-append, drop-append, lt→ltb, le→leb, arith,
}
use m_rpc.Endian.{Bytes}
use m_rpc.Message.Labels.{Reads}
-- A wire format in protobuf's manner.
use m_rpc.Message.Plain.{
  varint, le, delimited, plain, group, unvarint, byte, unle, cut, fixed, tag_of, at_tag, empty,
  plain_reader,
}

unvarint-varint :
    (k n : ℕ) (rest : Bytes)
    → n < 128 ^ suc k
    → unvarint (suc k) (varint (suc k) n ++ rest) ≡ some (n, rest)
unfolding unvarint varint group
unvarint-varint zero n rest h = ground arith
unvarint-varint (suc k) n rest h = ground (arith, unvarint-varint k (n / 128) rest (omega arith))

unle-le : (k n : ℕ) (rest : Bytes) → n < 256 ^ k → unle k (le k n ++ rest) ≡ some (n, rest)
unfolding unle le byte
unle-le zero n rest h = ap (λ m. some (m, rest)) (omega arith)
unle-le (suc k) n rest h =
    ap (byte (n % 256)) (unle-le k (n / 256) rest (omega arith))
    ∙ ap (λ m. some (m, rest)) (omega arith)

-- A field number and a wire type come back as they were written.
tag_of-unvarint :
    (n : ℕ) (s : Bytes) → n < 128 → tag_of (unvarint 5 (n ∷ s)) (n ∷ s) ≡ ((n, true), s)
unfolding tag_of unvarint
tag_of-unvarint n s h = ground (arith, lt→ltb n 128 h)

cut-delimited :
    (s old rest : Bytes)
    → length s < 2 ^ 31
    → cut (unvarint 10 (delimited s ++ rest)) old (delimited s ++ rest) ≡ (true, s, rest)
unfolding cut delimited
cut-delimited s old rest h =
    let whole : unvarint 10 (delimited s ++ rest) ≡ some (length s, s ++ rest) =
      ap (unvarint 10) (append_assoc (varint 10 (length s)) s rest)
      ∙ unvarint-varint 9 (length s) (s ++ rest) (omega arith) in
    ap (λ o. cut o old (delimited s ++ rest)) whole
    ∙ rw
        (
          le→leb (length s) (length (s ++ rest)) (omega (arith, length-append s rest)),
          take-append (length s) s rest refl,
          drop-append (length s) s rest refl,
        )
        refl

at_tag-hit :
    (tag : ℕ) (s : Bytes)
    → (at_tag tag s).0 ≡ true
    → tag_of (unvarint 5 s) s ≡ ((tag, true), (at_tag tag s).1)
unfolding at_tag tag_of unvarint
at_tag-hit tag [] h = ground arith
at_tag-hit tag (b ∷ s) h = ground arith

at_tag-miss : (tag : ℕ) (s : Bytes) → (at_tag tag s).0 ≡ false → (at_tag tag s).1 ≡ s
unfolding at_tag
at_tag-miss tag [] h = refl
at_tag-miss tag (b ∷ s) h = ground arith

empty-nil : (s : Bytes) → empty s ≡ true → s ≡ []
unfolding empty
empty-nil [] h = refl
empty-nil (b ∷ s) h = ground arith

pub plain-Reads : Reads plain plain_reader
unfolding tag_of unvarint fixed
plain-Reads = record {
  at_end = refl;
  reads_enum = λ n v rest hn hv. (
    varint 10 v ++ rest,
    tag_of-unvarint (n * 8) (varint 10 v ++ rest) (omega arith),
    unvarint-varint 9 v rest (omega arith),
  );
  reads_fixed64 = λ n v old rest hn hv. (
    le 8 v ++ rest,
    tag_of-unvarint (n * 8 + 1) (le 8 v ++ rest) (omega arith),
    ap (λ o. fixed o old (le 8 v ++ rest)) (unle-le 8 v rest (omega arith)),
  );
  reads_string = λ n s old rest hn hs. (
    delimited s ++ rest,
    tag_of-unvarint (n * 8 + 2) (delimited s ++ rest) (omega arith),
    cut-delimited s old rest hs,
    cut-delimited s old rest hs,
  );
  expect_tag_hit = at_tag-hit;
  expect_tag_miss = at_tag-miss;
  expect_at_end_hit = empty-nil;
}
