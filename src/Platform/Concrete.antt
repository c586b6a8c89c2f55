-- ===== src/Platform/Concrete.antt =====
-- Values of the three records: the assumptions can be met. A buffer is a list of bytes whose calls
-- never fail, and the checksum is the sum of the bytes below 2 ^ 32.
use m_rpc.Prelude.{
  ℕ, ◌+◌, ◌%◌, ◌^◌, ◌<◌, ◌≡◌, refl, true, [], ◌∷◌, ◌++◌, append-nil, length, take, drop, some,
  arith,
}
use m_rpc.Platform.{EvBuffer, Adler32, MessageClass}
use m_rpc.Endian.{Bytes}

abbrev pub list_buffer : EvBuffer
list_buffer = record {
  Buf = Bytes;
  contents = λ b. b;
  empty = [];
  get_length = λ b. length b;
  add = λ b xs. (true, b ++ xs);
  prepend = λ b xs. (true, xs ++ b);
  reserve = λ b n. (true, b);
  commit = λ b xs. (true, b ++ xs);
  remove = λ b n. (take n b, drop n b);
  drain = λ b n. drop n b;
  copyout = λ b n. take n b;
  pullup = λ b n. (some (take n b), b);
  peek = λ b n. b ∷ [];
  add_buffer = λ d s. (true, d ++ s, []);
  contents-empty = refl;
  get_length_lem = λ b. refl;
  contents-add = λ b xs h. refl;
  contents-prepend = λ b xs h. refl;
  contents-reserve = λ b n h. refl;
  contents-commit = λ b xs h. refl;
  remove_bytes = λ b n. refl;
  contents-remove = λ b n. refl;
  contents-drain = λ b n. refl;
  copyout_bytes = λ b n. refl;
  pullup_bytes = λ b n h. refl;
  contents-pullup = λ b n. refl;
  peek_all = λ b. append-nil b;
  contents-add_buffer = λ d s h. (refl, refl);
}

unfoldable pub sum_bytes : ℕ → Bytes → ℕ
sum_bytes a [] = a
sum_bytes a (x ∷ xs) = sum_bytes ((a + x) % 2 ^ 32) xs

pub sum_bytes-append :
    (a : ℕ) (xs ys : Bytes) → sum_bytes (sum_bytes a xs) ys ≡ sum_bytes a (xs ++ ys)
unfolding sum_bytes
sum_bytes-append a [] ys = refl
sum_bytes-append a (x ∷ xs) ys = sum_bytes-append ((a + x) % 2 ^ 32) xs ys

pub sum_bytes-lt : (a : ℕ) (xs : Bytes) → a < 2 ^ 32 → sum_bytes a xs < 2 ^ 32
unfolding sum_bytes
sum_bytes-lt a [] h = h
sum_bytes-lt a (x ∷ xs) h = sum_bytes-lt ((a + x) % 2 ^ 32) xs (omega arith)

pub sum_bytes_nil : sum_bytes 1 [] ≡ 1
unfolding sum_bytes
sum_bytes_nil = refl

pub one_lt : 1 < 2 ^ 32
one_lt = omega arith

abbrev pub sum_checksum : Adler32
sum_checksum = record {
  initial = 1;
  update = sum_bytes;
  update-nil = sum_bytes_nil;
  update-append = λ xs ys. sum_bytes-append 1 xs ys;
  update-lt = λ xs. sum_bytes-lt 1 xs one_lt;
}

-- Messages that are their own bytes.
abbrev pub raw_message : MessageClass
raw_message = record {
  Msg = Bytes;
  byte_size = λ m. length m;
  serialize = λ m. m;
  parse_from = λ bs. (true, bs);
  IsProper = λ m. Unit {0};
  length-serialize = λ m proper. refl;
  parse_from-serialize = λ m proper. refl;
}
