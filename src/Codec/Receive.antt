-- ===== src/Codec/Receive.antt =====
-- `onMessage` of src/codeClite.cpp on the frames that the sending half writes.
use m_rpc.Prelude.{
  ℕ, zero, suc, ◌+◌, ◌^◌, ◌≤◌, ◌<◌, ◌≡◌, sym, ap, ◌∙◌, true, false, none, List, [], ◌∷◌, ◌++◌, map,
  append-nil, append_assoc, length, take, drop, concat, All, length-append, length-drop,
  take-append, drop-append, le→ltb_false, lt→ltb, le→leb, ok, Returns, arith,
}
use m_rpc.Endian.{Bytes, be_bytes}
use m_rpc.Endian.Laws.{length-be_bytes}
use m_rpc.Platform.{EvBuffer, Adler32, MessageClass}
use m_rpc.Codec.{
  Config, Event, delivered, Session, max_message_len, bad_length, raw_consumes, dispatch,
  take_frame, round, on_message,
}
use m_rpc.Codec.Frame.{body, frame, frame_len, length-body, length-frame}
use native.Mathlib.Nat.{mod-eq_of_lt}
use m_rpc.Codec.Body.{as_int32-be_bytes, parse-body}

module _ (ev : EvBuffer) (z : Adler32) (p : MessageClass) (c : Config) where
  open ev use {Buf, contents, remove, drain, pullup}
  open p use {Msg, serialize, parse_from}

  pub raw_consumes-none : (buf : Buf) (n : ℕ) → c.raw_cb ≡ none → raw_consumes ev c buf n ≡ false
  unfolding raw_consumes
  raw_consumes-none buf n raw = rw raw

  take_frame-body :
      (m : Msg) (rest : Bytes) (events : List (Event Msg)) (buf : Buf)
      → p.IsProper m
      → c.raw_cb ≡ none
      → contents buf ≡ body z p c m ++ rest
      → frame_len p c m < 2 ^ 31
      → (buf' : Buf) × (take_frame ev z p c events buf (frame_len p c m)
          ≡ ok (true, record { input = buf'; events = events ++ delivered m ∷ [] }))
        × (contents buf' ≡ rest)
  unfolding take_frame dispatch
  take_frame-body m rest events buf proper raw e h =
      let pulled = (pullup buf (frame_len p c m)).1 in
      (
        drain pulled (frame_len p c m),
        rw (
          raw_consumes-none buf (frame_len p c m) raw,
          parse-body ev z p c m rest buf proper e h,
          lt→ltb (frame_len p c m) (2 ^ 31) h,
        ),
        ev.contents-drain pulled (frame_len p c m)
            ∙ ap (drop (frame_len p c m)) (ev.contents-pullup buf (frame_len p c m) ∙ e)
            ∙ drop-append (frame_len p c m) (body z p c m) rest (length-body z p c m proper),
      )

  -- A length that a frame can have passes the guard.
  good_length : (n : ℕ) → length c.tag + 4 ≤ n → n ≤ max_message_len → bad_length c n ≡ false
  unfolding bad_length
  good_length n lo hi = rw (
    mod-eq_of_lt {n = length c.tag + 4} {m = 2 ^ 32} (omega arith),
    le→ltb_false max_message_len n hi,
    le→ltb_false n (length c.tag + 4) lo,
    lt→ltb n (2 ^ 31) (omega arith),
  )

  -- Past the guards a round is the branch for a whole frame.
  pub round-take_frame :
      (s : Session ev z p) (len more : ℕ)
      → (remove s.input 4).0 ≡ be_bytes 4 len
      → length (contents s.input) ≡ 4 + len + more
      → 4 + len + more < 2 ^ 32
      → length c.tag + 4 ≤ len
      → len ≤ max_message_len
      → round ev z p c s ≡ take_frame ev z p c s.events (remove s.input 4).1 len
  unfolding round
  round-take_frame s len more header total bound lo hi =
      let have : ev.get_length (remove s.input 4).1 ≡ len + more =
        ev.get_length_lem (remove s.input 4).1
        ∙ ap length (ev.contents-remove s.input 4)
        ∙ length-drop 4 (contents s.input)
        ∙ omega arith in
      rw (
        header,
        as_int32-be_bytes c len (omega arith),
        ev.get_length_lem s.input,
        total,
        mod-eq_of_lt bound,
        mod-eq_of_lt {n = length c.tag + 4} {m = 2 ^ 32} (omega arith),
        mod-eq_of_lt {n = length c.tag + 4 + 4} {m = 2 ^ 32} (omega arith),
        le→ltb_false (4 + len + more) (length c.tag + 4 + 4) (omega arith),
        good_length len lo hi,
        have,
        mod-eq_of_lt {n = len + more} {m = 2 ^ 32} (omega arith),
        le→leb len (len + more) (omega arith),
      )

  -- One round takes one frame and delivers its message.
  pub round-frame :
      (m : Msg) (rest : Bytes) (s : Session ev z p)
      → p.IsProper m
      → c.raw_cb ≡ none
      → contents s.input ≡ frame z p c m ++ rest
      → frame_len p c m ≤ max_message_len
      → length (contents s.input) < 2 ^ 32
      → (input' : Buf) × (round ev z p c s
          ≡ ok (true, record { input = input'; events = s.events ++ delivered m ∷ [] }))
        × (contents input' ≡ rest)
  unfolding frame
  round-frame m rest s proper raw e small total =
      let len = frame_len p c m in
      let head = be_bytes 4 len in
      let e' : contents s.input ≡ head ++ (body z p c m ++ rest) =
        e ∙ append_assoc head (body z p c m) rest in
      let header : (remove s.input 4).0 ≡ head =
        ev.remove_bytes s.input 4 ∙ ap (take 4) e' ∙ take-append 4 head _ (length-be_bytes 4 len) in
      let left : contents (remove s.input 4).1 ≡ body z p c m ++ rest =
        ev.contents-remove s.input 4
        ∙ ap (drop 4) e'
        ∙ drop-append 4 head _ (length-be_bytes 4 len) in
      let whole : length (contents s.input) ≡ 4 + len + length rest =
        omega
          (arith, ap length e, length-append (frame z p c m) rest, length-frame z p c m proper) in
      let (input', run, kept) =
        take_frame-body m rest s.events (remove s.input 4).1 proper raw left (omega arith) in
      (
        input',
        round-take_frame s len (length rest) header whole (omega arith) (omega arith) small ∙ run,
        kept,
      )

  -- A buffer too short for a header and the least message is left alone.
  pub round-short :
      (s : Session ev z p)
      → length (contents s.input) < length c.tag + 8
      → length c.tag + 8 < 2 ^ 32
      → round ev z p c s ≡ ok (false, s)
  unfolding round
  round-short s h fits = rw (
    ev.get_length_lem s.input,
    mod-eq_of_lt {n = length (contents s.input)} {m = 2 ^ 32} (omega arith),
    mod-eq_of_lt {n = length c.tag + 4} {m = 2 ^ 32} (omega arith),
    mod-eq_of_lt {n = length c.tag + 4 + 4} {m = 2 ^ 32} (omega arith),
    lt→ltb (length (contents s.input)) (length c.tag + 4 + 4) (omega arith),
  )

  -- Frames of at most 64 MiB of proper messages, one after the other, and at their end less than a header and the
  -- least message: `onMessage` calls the message callback once for each message, in their order,
  -- calls no error callback, and leaves exactly the unfinished end in the buffer. This is for a
  -- codec with no raw callback and less than 4 GiB of input, and with as many rounds as there are
  -- messages and one more.
  pub on_message-frames :
      (ms : List Msg) (rest : Bytes) (fuel : ℕ) (s : Session ev z p)
      → c.raw_cb ≡ none
      → contents s.input ≡ concat (map (frame z p c) ms) ++ rest
      → All (λ m. p.IsProper m × (frame_len p c m ≤ max_message_len)) ms
      → length rest < length c.tag + 8
      → length c.tag + 8 < 2 ^ 32
      → length (contents s.input) < 2 ^ 32
      → length ms < fuel
      → Returns
          (λ s'. (contents s'.input ≡ rest) × (s'.events ≡ s.events ++ map delivered ms))
          (on_message ev z p c fuel s)
  unfolding on_message
  on_message-frames ms rest zero s raw e small short fits total h = absurd (omega arith)
  on_message-frames [] rest (suc fuel) s raw e small short fits total h =
      rw (round-short s (omega (arith, ap length e)) fits) (e, sym (append-nil s.events))
  on_message-frames (m ∷ ms) rest (suc fuel) s raw e ((proper, sm), small) short fits total h =
      let e' : contents s.input ≡ frame z p c m ++ (concat (map (frame z p c) ms) ++ rest) =
        e ∙ append_assoc (frame z p c m) (concat (map (frame z p c) ms)) rest in
      let (input', run, kept) = round-frame m _ s proper raw e' sm total in
      let shorter : length (contents input') < 2 ^ 32 = omega (
        arith,
        ap length kept,
        ap length e',
        length-append (frame z p c m) (concat (map (frame z p c) ms) ++ rest),
      ) in
      rw (run, sym (append_assoc s.events (delivered m ∷ []) (map delivered ms)))
        (on_message-frames ms rest fuel _ raw kept small short fits shorter (omega arith))
