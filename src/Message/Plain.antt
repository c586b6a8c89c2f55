-- ===== src/Message/Plain.antt =====
-- A wire format in protobuf's manner, and a reader of it, on which the examples run.
pub mod Reading
pub mod Shorter
use m_rpc.Prelude.{
  ℕ, zero, suc, ◌+◌, ◌-◌, ◌*◌, ◌/◌, ◌%◌, ◌^◌, ◌≤◌, ◌<◌, ◌≡◌, refl, sym, ap, ◌∙◌, Bool, true, false,
  ◌&&◌, Option, none, some, List, [], ◌∷◌, ◌++◌, append_assoc, length, length-append, take, drop,
  take-append, drop-append, length-drop, Option-cases, ◌⊎◌, inl, inr, ltb, leb, lt→ltb,
  le→ltb_false, le→leb, Bool-cases, ◌==◌, if◌then◌else◌, arith,
}
use m_rpc.Endian.{Bytes}
use m_rpc.Message.{UnknownFields}
use m_rpc.Message.Wire.{WireFormat}
use m_rpc.Message.Parse.{WireReader}
use m_rpc.Message.Labels.{Reads}
use m_rpc.Message.Termination.{Advances}

-- A wire format in protobuf's manner.
unfoldable pub varint : ℕ → ℕ → Bytes
varint zero n = []
varint (suc fuel) n =
    let rest = varint fuel (n / 128) in if ltb n 128 then n ∷ [] else (n % 128 + 128) ∷ rest

unfoldable pub le : ℕ → ℕ → Bytes
le zero n = []
le (suc k) n = n % 256 ∷ le k (n / 256)

pub length-le : (k n : ℕ) → length (le k n) ≡ k
unfolding le
length-le zero n = refl
length-le (suc k) n = ap suc (length-le k (n / 256))

unfoldable pub delimited : Bytes → Bytes
delimited s = varint 10 (length s) ++ s

pub unknowns : UnknownFields → Bytes
unknowns [] = []
unknowns ((n, s) ∷ u) = varint 5 (n * 8 + 2) ++ (delimited s ++ unknowns u)

abbrev pub plain : WireFormat
plain = record {
  enum_bytes = λ n v. (n * 8) ∷ varint 10 v;
  fixed64_bytes = λ n v. (n * 8 + 1) ∷ le 8 v;
  string_bytes = λ n s. (n * 8 + 2) ∷ delimited s;
  unknown_bytes = unknowns;
  write_enum = λ n v o. o ++ (n * 8) ∷ varint 10 v;
  write_enum_to_array = λ n v o. o ++ (n * 8) ∷ varint 10 v;
  write_fixed64 = λ n v o. o ++ (n * 8 + 1) ∷ le 8 v;
  write_fixed64_to_array = λ n v o. o ++ (n * 8 + 1) ∷ le 8 v;
  write_string = λ n s o. o ++ (n * 8 + 2) ∷ delimited s;
  write_string_to_array = λ n s o. o ++ (n * 8 + 2) ∷ delimited s;
  write_bytes = λ n s o. o ++ (n * 8 + 2) ∷ delimited s;
  write_bytes_to_array = λ n s o. o ++ (n * 8 + 2) ∷ delimited s;
  serialize_unknown = λ u o. o ++ unknowns u;
  serialize_unknown_to_array = λ u o. o ++ unknowns u;
  enum_size = λ v. length (varint 10 v);
  string_size = λ s. length (delimited s);
  bytes_size = λ s. length (delimited s);
  unknown_size = λ u. length (unknowns u);
  write_enum_lem = λ n v o. refl;
  write_enum_to_array_lem = λ n v o. refl;
  write_fixed64_lem = λ n v o. refl;
  write_fixed64_to_array_lem = λ n v o. refl;
  write_string_lem = λ n s o. refl;
  write_string_to_array_lem = λ n s o. refl;
  write_bytes_lem = λ n s o. refl;
  write_bytes_to_array_lem = λ n s o. refl;
  serialize_unknown_lem = λ u o. refl;
  serialize_unknown_to_array_lem = λ u o. refl;
  length-enum = λ n v h. omega arith;
  length-fixed64 = λ n v h. ap suc (length-le 8 v);
  length-string = λ n s h small. omega arith;
  length-bytes = λ n s h small. omega arith;
  length-unknown = λ u small. refl;
}

-- Reading, the other way round.
unfoldable pub group : ℕ → Option (ℕ × Bytes) → Option (ℕ × Bytes)
group b none = none
group b (some (n, left)) = some (b + 128 * n, left)

unfoldable pub unvarint : ℕ → Bytes → Option (ℕ × Bytes)
unvarint zero s = none
unvarint (suc k) [] = none
unvarint (suc k) (b ∷ s) =
    let rest = unvarint k s in if ltb b 128 then some (b, s) else group (b - 128) rest

unfoldable pub byte : ℕ → Option (ℕ × Bytes) → Option (ℕ × Bytes)
byte b none = none
byte b (some (n, left)) = some (b + 256 * n, left)

unfoldable pub unle : ℕ → Bytes → Option (ℕ × Bytes)
unle zero s = some (0, s)
unle (suc k) [] = none
unle (suc k) (b ∷ s) = byte b (unle k s)

-- A length, and that many bytes.
unfoldable pub cut : Option (ℕ × Bytes) → Bytes → Bytes → Bool × Bytes × Bytes
cut none old input = (false, old, input)
cut (some (n, left)) old input =
    if leb n (length left) then (true, take n left, drop n left) else (false, old, left)

unfoldable pub fixed : Option (ℕ × Bytes) → ℕ → Bytes → Bool × ℕ × Bytes
fixed none old input = (false, old, input)
fixed (some (n, left)) old input = (true, n, left)

unfoldable pub tag_of : Option (ℕ × Bytes) → Bytes → (ℕ × Bool) × Bytes
tag_of none input = ((0, true), input)
tag_of (some (n, left)) input = ((n, ltb n 128), left)

unfoldable pub at_tag : ℕ → Bytes → Bool × Bytes
at_tag tag [] = (false, [])
at_tag tag (b ∷ s) = if b == tag && ltb b 128 then (true, s) else (false, b ∷ s)

unfoldable pub empty : Bytes → Bool
empty [] = true
empty (b ∷ s) = false

-- A field of bytes becomes an unknown field; others stop the reader.
unfoldable pub skip : ℕ → UnknownFields → Bytes → Bool × UnknownFields × Bytes
skip tag u s =
    let (fine, x, left) = cut (unvarint 10 s) [] s in
    if tag % 8 == 2 then (fine, u ++ (tag / 8, x) ∷ [], left) else (false, u, s)

abbrev pub plain_reader : WireReader
plain_reader = record {
  read_tag = λ s. tag_of (unvarint 5 s) s;
  expect_tag = at_tag;
  expect_at_end = empty;
  read_enum = unvarint 10;
  read_fixed64 = λ old s. fixed (unle 8 s) old s;
  read_string = λ old s. cut (unvarint 10 s) old s;
  read_bytes = λ old s. cut (unvarint 10 s) old s;
  skip_field = skip;
  varint = varint 10;
}
