-- ===== src/Platform.antt =====
-- What the code takes from other projects: libevent's `evbuffer`, zlib's `adler32`, and the
-- protobuf runtime behind a message. Each is a record of operations with the documented facts that
-- the code relies on; nothing is said of a call that reports a failure.
pub mod Concrete
use m_rpc.Prelude.{
  ℕ, ◌+◌, ◌%◌, ◌^◌, ◌≤◌, ◌<◌, ◌≡◌, Bool, true, List, [], ◌++◌, length, take, drop, concat, Option,
  some,
}
use m_rpc.Endian.{Bytes}

-- `contents` is the sequence of bytes that an evbuffer holds. An operation that can fail answers
-- with `true` when it returned 0.
pub record EvBuffer : Type 1 where
  pub Buf : Type 0
  pub contents : Buf → Bytes
  -- evbuffer_new
  pub empty : Buf
  -- evbuffer_get_length
  pub get_length : Buf → ℕ
  -- evbuffer_add, evbuffer_prepend
  pub add : Buf → Bytes → Bool × Buf
  pub prepend : Buf → Bytes → Bool × Buf
  -- evbuffer_reserve_space with one extent, and evbuffer_commit_space of the bytes written there
  pub reserve : Buf → ℕ → Bool × Buf
  pub commit : Buf → Bytes → Bool × Buf
  -- evbuffer_remove, evbuffer_drain
  pub remove : Buf → ℕ → Bytes × Buf
  pub drain : Buf → ℕ → Buf
  -- evbuffer_copyout
  pub copyout : Buf → ℕ → Bytes
  -- evbuffer_pullup: `none` is NULL
  pub pullup : Buf → ℕ → Option Bytes × Buf
  -- evbuffer_peek: the extents that hold the first bytes
  pub peek : Buf → ℕ → List Bytes
  -- evbuffer_add_buffer: the destination, and the source when it was moved
  pub add_buffer : Buf → Buf → Bool × Buf × Buf
  pub contents-empty : contents empty ≡ []
  pub get_length_lem : (b : Buf) → get_length b ≡ length (contents b)
  pub contents-add :
      (b : Buf) (xs : Bytes) → (add b xs).0 ≡ true → contents (add b xs).1 ≡ contents b ++ xs
  pub contents-prepend :
      (b : Buf) (xs : Bytes)
      → (prepend b xs).0 ≡ true
      → contents (prepend b xs).1 ≡ xs ++ contents b
  pub contents-reserve :
      (b : Buf) (n : ℕ) → (reserve b n).0 ≡ true → contents (reserve b n).1 ≡ contents b
  pub contents-commit :
      (b : Buf) (xs : Bytes) → (commit b xs).0 ≡ true → contents (commit b xs).1 ≡ contents b ++ xs
  pub remove_bytes : (b : Buf) (n : ℕ) → (remove b n).0 ≡ take n (contents b)
  pub contents-remove : (b : Buf) (n : ℕ) → contents (remove b n).1 ≡ drop n (contents b)
  pub contents-drain : (b : Buf) (n : ℕ) → contents (drain b n) ≡ drop n (contents b)
  pub copyout_bytes : (b : Buf) (n : ℕ) → copyout b n ≡ take n (contents b)
  pub pullup_bytes :
      (b : Buf) (n : ℕ) → n ≤ length (contents b) → (pullup b n).0 ≡ some (take n (contents b))
  pub contents-pullup : (b : Buf) (n : ℕ) → contents (pullup b n).1 ≡ contents b
  pub peek_all : (b : Buf) → concat (peek b (length (contents b))) ≡ contents b
  pub contents-add_buffer :
      (d s : Buf)
      → (add_buffer d s).0 ≡ true
      → (contents (add_buffer d s).1 ≡ contents d ++ contents s)
        × (contents (add_buffer d s).2 ≡ [])

-- A running checksum: `initial` is `adler32(0, Z_NULL, 0)`, and a checksum of a text is that of its
-- front, carried on over the rest.
pub record Adler32 : Type 0 where
  pub initial : ℕ
  pub update : ℕ → Bytes → ℕ
  pub update-nil : update initial [] ≡ initial
  pub update-append : (xs ys : Bytes) → update (update initial xs) ys ≡ update initial (xs ++ ys)
  pub update-lt : (xs : Bytes) → update initial xs < 2 ^ 32

-- A type of protobuf messages: `ByteSize`, `SerializeWithCachedSizesToArray`, and `ParseFromArray`
-- on a new message, which answers whether it succeeded and leaves what it read in the message. The
-- laws are for the messages that are proper, such as those that are small enough.
pub record MessageClass : Type 1 where
  pub Msg : Type 0
  pub byte_size : Msg → ℕ
  pub serialize : Msg → Bytes
  pub parse_from : Bytes → Bool × Msg
  pub IsProper : Msg → Type 0
  pub length-serialize : (m : Msg) → IsProper m → length (serialize m) ≡ byte_size m
  pub parse_from-serialize : (m : Msg) → IsProper m → parse_from (serialize m) ≡ (true, m)
