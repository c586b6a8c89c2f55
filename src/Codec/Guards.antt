-- ===== src/Codec/Guards.antt =====
-- The guards and the error paths of `onMessage` in src/codeClite.cpp.
use m_rpc.Prelude.{
  ℕ, suc, ◌+◌, ◌-◌, ◌%◌, ◌^◌, ◌≤◌, ◌<◌, ◌≡◌, ◌⊎◌, refl, ap, ◌∙◌, Bool, true, false, none, some,
  List, [], ◌∷◌, ◌++◌, length, take, drop, length-append, take-append, drop-append, starts_with,
  ltb, lt→ltb, le→ltb_false, lt→leb_false, if◌then◌else◌, Returns, arith,
}
use m_rpc.Endian.{Bytes, be_bytes}
use m_rpc.Endian.Laws.{length-be_bytes}
use m_rpc.Platform.{EvBuffer, Adler32, MessageClass}
use m_rpc.Codec.{
  Config, no_error, invalid_length, unknown_message_type, parse_error, Event, delivered, failed,
  Session, bad_length, max_message_len, min_message_len, read_buffer_len, validate_checksum, parse,
  examine, dispatch, take_frame, round, on_message,
}
use m_rpc.Codec.Body.{as_int32-be_bytes}
use m_rpc.Codec.Receive.{raw_consumes-none, round-take_frame}
use native.Mathlib.Nat.{mod-eq_of_lt}

module _ (ev : EvBuffer) (z : Adler32) (p : MessageClass) (c : Config) where
  open ev use {Buf, contents, remove, drain, pullup}
  open p use {Msg, parse_from}

  -- The bytes after a header, when the input is a header and these.
  behind_header :
      (s : Session ev z p) (n : ℕ) (rest : Bytes)
      → contents s.input ≡ be_bytes 4 n ++ rest
      → ((remove s.input 4).0 ≡ be_bytes 4 n)
        × (contents (remove s.input 4).1 ≡ rest)
        × (length (contents s.input) ≡ 4 + length rest)
  behind_header s n rest e = (
    ev.remove_bytes s.input 4
        ∙ ap (take 4) e
        ∙ take-append 4 (be_bytes 4 n) rest (length-be_bytes 4 n),
    ev.contents-remove s.input 4
        ∙ ap (drop 4) e
        ∙ drop-append 4 (be_bytes 4 n) rest (length-be_bytes 4 n),
    omega (arith, ap length e, length-append (be_bytes 4 n) rest, length-be_bytes 4 n),
  )

  -- Enough bytes for a header and the least message pass the loop's test.
  long_enough :
      (s : Session ev z p)
      → length c.tag + 8 ≤ length (contents s.input)
      → length (contents s.input) < 2 ^ 32
      → ltb (read_buffer_len ev s.input) ((min_message_len c + 4) % 2 ^ 32) ≡ false
  long_enough s lo hi =
      rw
        (
          ev.get_length_lem s.input,
          mod-eq_of_lt {n = length (contents s.input)} {m = 2 ^ 32} hi,
          mod-eq_of_lt {n = length c.tag + 4} {m = 2 ^ 32} (omega arith),
          mod-eq_of_lt {n = length c.tag + 4 + 4} {m = 2 ^ 32} (omega arith),
        )
        (le→ltb_false (length (contents s.input)) (length c.tag + 4 + 4) (omega arith))

  -- A length field above 64 MiB that is not negative, or below tag and checksum: `onMessage` calls
  -- the error callback once, with `invalidLength`, and takes only the length field off the input.
  pub on_message-invalid_length :
      (n : ℕ) (rest : Bytes) (fuel : ℕ) (s : Session ev z p)
      → contents s.input ≡ be_bytes 4 n ++ rest
      → length c.tag + 4 ≤ length rest
      → length rest + 4 < 2 ^ 32
      → n < 2 ^ 31
      → (max_message_len < n) ⊎ (n < length c.tag + 4)
      → Returns
          (λ s'. (contents s'.input ≡ rest) × (s'.events ≡ s.events ++ failed invalid_length ∷ []))
          (on_message ev z p c (suc fuel) s)
  unfolding on_message round
  on_message-invalid_length n rest fuel s e enough bound pos bad =
      let (header, left, total) = behind_header s n rest e in
      rw
        (
          header,
          as_int32-be_bytes c n (omega arith),
          long_enough s (omega arith) (omega arith),
          refused bad,
        )
        (left, refl)
    where
      refused : (max_message_len < n) ⊎ (n < length c.tag + 4) → bad_length c n ≡ true
      refused b =
          let wide : (length c.tag + 4) % 2 ^ 32 ≡ length c.tag + 4 = omega arith in
          unfold bad_length in rw wide (ground arith)

  -- A length field from 2 ^ 31 on, which is a negative `int32_t`, passes the guard as a signed
  -- number and then exceeds the bytes that are there: `onMessage` takes it off the input, calls no
  -- callback at all, and returns.
  pub on_message-negative_length :
      (n : ℕ) (rest : Bytes) (fuel : ℕ) (s : Session ev z p)
      → contents s.input ≡ be_bytes 4 n ++ rest
      → length c.tag + 4 ≤ length rest
      → length rest + 4 < 2 ^ 31
      → 2 ^ 31 ≤ n
      → n < 2 ^ 32
      → Returns
          (λ s'. (contents s'.input ≡ rest) × (s'.events ≡ s.events))
          (on_message ev z p c (suc fuel) s)
  unfolding on_message round
  on_message-negative_length n rest fuel s e enough bound neg word =
      let (header, left, total) = behind_header s n rest e in
      let have : read_buffer_len ev (remove s.input 4).1 ≡ length rest =
        ap (λ (k : ℕ). k % 2 ^ 32) (ev.get_length_lem _ ∙ ap length left)
        ∙ mod-eq_of_lt (omega arith) in
      rw
        (
          header,
          as_int32-be_bytes c n word,
          long_enough s (omega arith) (omega arith),
          passed,
          have,
          lt→leb_false n (length rest) (omega arith),
        )
        (left, refl)
    where
      passed : bad_length c n ≡ false
      passed =
          let wide : (length c.tag + 4) % 2 ^ 32 ≡ length c.tag + 4 = omega arith in
          unfold bad_length in rw wide (ground arith)

  -- A frame with an admissible length field of which a part is there, at least a header and the
  -- least message: `onMessage` takes the length field off the input and calls no callback, so
  -- that what is left is the part without its header.
  pub on_message-part :
      (n : ℕ) (part : Bytes) (fuel : ℕ) (s : Session ev z p)
      → contents s.input ≡ be_bytes 4 n ++ part
      → length c.tag + 4 ≤ length part
      → length part < n
      → n ≤ max_message_len
      → Returns
          (λ s'. (contents s'.input ≡ part) × (s'.events ≡ s.events))
          (on_message ev z p c (suc fuel) s)
  unfolding on_message round
  on_message-part n part fuel s e enough less hi =
      let (header, left, total) = behind_header s n part e in
      let have : read_buffer_len ev (remove s.input 4).1 ≡ length part =
        ap (λ (k : ℕ). k % 2 ^ 32) (ev.get_length_lem _ ∙ ap length left)
        ∙ mod-eq_of_lt (omega arith) in
      rw
        (
          header,
          as_int32-be_bytes c n (omega arith),
          long_enough s (omega arith) (omega arith),
          passed,
          have,
          lt→leb_false n (length part) less,
        )
        (left, refl)
    where
      passed : bad_length c n ≡ false
      passed =
          let wide : (length c.tag + 4) % 2 ^ 32 ≡ length c.tag + 4 = omega arith in
          unfold bad_length in rw wide (ground arith)

  -- What a round makes of a whole frame, by the outcome of its two checks.
  abbrev pub Verdict : Bool → Bool → ℕ → Bytes → List (Event Msg) → Bool × Session ev z p → Type 0
  Verdict true true n rest es (more, s) =
      (more ≡ true)
      × (contents s.input ≡ drop n rest)
      × (s.events
          ≡ es
            ++ delivered
                (parse_from (take (n - 4 - length c.tag) (drop (length c.tag) (take n rest)))).1
              ∷ [])
  Verdict true false n rest es (more, s) =
      (more ≡ false) × (contents s.input ≡ rest) × (s.events ≡ es ++ failed parse_error ∷ [])
  Verdict false _ n rest es (more, s) =
      (more ≡ false)
      × (contents s.input ≡ rest)
      × (s.events ≡ es ++ failed unknown_message_type ∷ [])

  -- `examine` by the outcome of its two checks; whether the payload parses makes no difference.
  examine_code :
      (bytes : Bytes) (n : ℕ) (valid tagged : Bool)
      → validate_checksum z c bytes n ≡ valid
      → starts_with bytes c.tag ≡ tagged
      → examine ev z p c bytes n ≡ (
        if valid then if tagged then no_error else parse_error else unknown_message_type,
        (parse_from (take (n - 4 - length c.tag) (drop (length c.tag) bytes))).1,
      )
  unfolding examine
  examine_code bytes n valid tagged v t = ground arith

  take_frame-Verdict :
      (n : ℕ) (rest : Bytes) (es : List (Event Msg)) (buf : Buf)
      → c.raw_cb ≡ none
      → contents buf ≡ rest
      → n ≤ length rest
      → n < 2 ^ 31
      → Returns
          (Verdict
            (validate_checksum z c (take n rest) n)
            (starts_with (take n rest) c.tag)
            n
            rest
            es)
          (take_frame ev z p c es buf n)
  unfolding take_frame parse dispatch
  take_frame-Verdict n rest es buf raw left have small =
      let pulled : (pullup buf n).0 ≡ some (take n rest) =
        ev.pullup_bytes buf n (rw left have) ∙ ap some (ap (take n) left) in
      rw (raw_consumes-none ev z p c buf n raw, pulled, lt→leb_false (2 ^ 31) n small)
        (settle (validate_checksum z c (take n rest) n) (starts_with (take n rest) c.tag) refl refl)
    where
      kept : contents (pullup buf n).1 ≡ rest
      kept = ev.contents-pullup buf n ∙ left

      settle :
          (valid tagged : Bool)
          → validate_checksum z c (take n rest) n ≡ valid
          → starts_with (take n rest) c.tag ≡ tagged
          → Returns
              (Verdict valid tagged n rest es)
              (dispatch ev z p n es (examine ev z p c (take n rest) n, (pullup buf n).1))
      settle true true v t =
          rw (examine_code (take n rest) n true true v t, lt→ltb n (2 ^ 31) small)
            (refl, ev.contents-drain _ n ∙ ap (drop n) kept, refl)
      settle true false v t = rw (examine_code (take n rest) n true false v t) (refl, kept, refl)
      settle false true v t = rw (examine_code (take n rest) n false true v t) (refl, kept, refl)
      settle false false v t = rw (examine_code (take n rest) n false false v t) (refl, kept, refl)

  -- A whole frame with an admissible length field, in a codec with no raw callback. If the checksum
  -- and the tag are right, its payload is delivered as `ParseFromArray` left it, whether or not that
  -- call succeeded, the frame is taken off the input, and the loop goes on. If the checksum is
  -- wrong the error callback gets `unknownMessageType`, if only the tag is wrong `parseError`; the
  -- loop ends, and of the frame only the length field is taken off.
  pub round-Verdict :
      (n : ℕ) (rest : Bytes) (s : Session ev z p)
      → c.raw_cb ≡ none
      → contents s.input ≡ be_bytes 4 n ++ rest
      → n ≤ length rest
      → length rest + 4 < 2 ^ 32
      → length c.tag + 4 ≤ n
      → n ≤ max_message_len
      → Returns
          (Verdict
            (validate_checksum z c (take n rest) n)
            (starts_with (take n rest) c.tag)
            n
            rest
            s.events)
          (round ev z p c s)
  round-Verdict n rest s raw e whole bound lo hi =
      let (header, left, total) = behind_header s n rest e in
      rw (round-take_frame ev z p c s n (length rest - n) header (omega arith) (omega arith) lo hi)
        (take_frame-Verdict n rest s.events _ raw left whole (omega arith))
