-- ===== src/Codec/Total.antt =====
-- `onMessage` of src/codeClite.cpp on any input, well formed or not.
use m_rpc.Prelude.{
  ℕ, zero, suc, ◌+◌, ◌-◌, ◌%◌, ◌^◌, ◌≤◌, ◌<◌, ◌≡◌, ◌⊎◌, inl, inr, refl, ap, ◌∙◌, Bool, true, false,
  List, [], ◌∷◌, ◌++◌, length, take, drop, length-drop, drop-drop, ltb, leb, lt→ltb, lt→leb_false,
  leb→le, ltb_false→le, Bool-cases, ok, Returns, Returns-bind, Returns-mono, arith,
}
use m_rpc.Endian.{Bytes}
use m_rpc.Platform.{EvBuffer, Adler32, MessageClass}
use m_rpc.Codec.{
  Config, ErrorCode, no_error, invalid_length, Event, delivered, failed, Session, bad_length,
  min_message_len, as_int32, raw_consumes, read_buffer_len, parse, examine, dispatch, take_frame,
  round, on_message,
}
use native.Mathlib.Nat.{mod-eq_of_lt}

-- The callbacks of one call: messages, then at most one error.
pub data Extends {M : Type 0} : List (Event M) → List (Event M) → Type 0 where
  stop : {es : List (Event M)} → Extends es es
  error : {es : List (Event M)} (e : ErrorCode) → Extends es (es ++ failed e ∷ [])
  deliver : {es fs : List (Event M)} (m : M) → Extends (es ++ delivered m ∷ []) fs → Extends es fs

module _ (ev : EvBuffer) (z : Adler32) (p : MessageClass) (c : Config) where
  open ev use {Buf, contents, remove, drain, pullup}
  open p use {Msg}

  abbrev Grows : Bool → List (Event Msg) → List (Event Msg) → Type 0
  Grows true es fs = (fs ≡ es) ⊎ ((m : Msg) × (fs ≡ es ++ delivered m ∷ []))
  Grows false es fs = (fs ≡ es) ⊎ ((e : ErrorCode) × (fs ≡ es ++ failed e ∷ []))

  -- What a round leaves of the input `xs` and of the callbacks `es`: less input if it goes on.
  record Leaves (xs : Bytes) (es : List (Event Msg)) (r : Bool × Session ev z p) : Type 0 where
    cut : ℕ
    suffix : contents r.1.input ≡ drop cut xs
    shrinks : r.0 ≡ true → length (contents r.1.input) + 4 ≤ length xs
    grows : Grows r.0 es r.1.events

  dispatch-Leaves :
      (xs : Bytes) (len : ℕ) (es : List (Event Msg)) (e : ErrorCode) (m : Msg) (buf : Buf)
      → contents buf ≡ drop 4 xs
      → 4 ≤ length xs
      → len < 2 ^ 31
      → Returns (Leaves xs es) (dispatch ev z p len es ((e, m), buf))
  unfolding dispatch
  dispatch-Leaves xs len es no_error m buf kept h small =
      let rest : contents (drain buf len) ≡ drop (4 + len) xs =
        ev.contents-drain buf len ∙ ap (drop len) kept ∙ drop-drop len 4 xs in
      rw (lt→ltb len (2 ^ 31) small) (record {
        cut = 4 + len;
        suffix = rest;
        shrinks = λ _. omega (arith, ap length rest, length-drop (4 + len) xs);
        grows = inr (m, refl);
      })
  dispatch-Leaves xs len es e m buf kept h small = record {
    cut = 4;
    suffix = kept;
    shrinks = λ more. cc;
    grows = inr (e, refl);
  }

  -- On a buffer that holds the `len` bytes `parse` returns, whatever they are.
  pub parse_returns :
      (buf : Buf) (len : ℕ)
      → len ≤ length (contents buf)
      → len < 2 ^ 31
      → (r : ErrorCode × Msg) × (parse ev z p c buf len ≡ ok (r, (pullup buf len).1))
  unfolding parse
  parse_returns buf len h small = (
    examine ev z p c (take len (contents buf)) len,
    rw (ev.pullup_bytes buf len h, lt→leb_false (2 ^ 31) len small),
  )

  take_frame-Leaves :
      (xs : Bytes) (len : ℕ) (es : List (Event Msg)) (buf : Buf)
      → contents buf ≡ drop 4 xs
      → 4 ≤ length xs
      → len ≤ length (contents buf)
      → len < 2 ^ 31
      → Returns (Leaves xs es) (take_frame ev z p c es buf len)
  unfolding take_frame
  take_frame-Leaves xs len es buf kept h have small =
      elim (Bool-cases (raw_consumes ev c buf len)) [
        | inl raw ↦
            let rest : contents (drain buf len) ≡ drop (4 + len) xs =
              ev.contents-drain buf len ∙ ap (drop len) kept ∙ drop-drop len 4 xs in
            rw (raw, lt→ltb len (2 ^ 31) small)
              (record {
                cut = 4 + len;
                suffix = rest;
                shrinks = λ _. omega (arith, ap length rest, length-drop (4 + len) xs);
                grows = inl refl;
              })
        | inr not_raw ↦
            let ((e, m), run) = parse_returns buf len have small in
            rw (not_raw, run)
              (dispatch-Leaves xs len es e m _ (ev.contents-pullup buf len ∙ kept) h small)
      ]

  -- A round returns on every input below 2 GiB, and goes on only after taking four bytes or more.
  round-Leaves :
      (s : Session ev z p)
      → length (contents s.input) < 2 ^ 31
      → length c.tag + 8 < 2 ^ 32
      → Returns (Leaves (contents s.input) s.events) (round ev z p c s)
  unfolding round
  round-Leaves s bound fits =
      let xs = contents s.input in
      let buf = (remove s.input 4).1 in
      let len = as_int32 c.order (remove s.input 4).0 in
      let kept : contents buf ≡ drop 4 xs = ev.contents-remove s.input 4 in
      let left : length (contents buf) ≡ length xs - 4 = ap length kept ∙ length-drop 4 xs in
      let sizes : ((length c.tag + 4) % 2 ^ 32 + 4) % 2 ^ 32 ≡ length c.tag + 8 = omega arith in
      let have : read_buffer_len ev s.input ≡ length xs =
        ap (λ (k : ℕ). k % 2 ^ 32) (ev.get_length_lem s.input) ∙ mod-eq_of_lt (omega arith) in
      let more : read_buffer_len ev buf ≡ length (contents buf) =
        ap (λ (k : ℕ). k % 2 ^ 32) (ev.get_length_lem buf) ∙ mod-eq_of_lt (omega arith) in
      elim (Bool-cases (ltb (read_buffer_len ev s.input) ((min_message_len c + 4) % 2 ^ 32))) [
        | inl short ↦
            rw short (record { cut = 0; suffix = refl; shrinks = λ e. cc; grows = inl refl })
        | inr long ↦
            let enough : 4 ≤ length xs = omega (arith, ltb_false→le _ _ long) in
            elim (Bool-cases (bad_length c len)) [
              | inl bad ↦
                  rw (long, bad)
                    (record {
                      cut = 4;
                      suffix = kept;
                      shrinks = λ e. cc;
                      grows = inr (invalid_length, refl);
                    })
              | inr good ↦ elim (Bool-cases (leb len (read_buffer_len ev buf))) [
                | inl whole ↦
                    let there : len ≤ length (contents buf) =
                      omega (arith, leb→le len (read_buffer_len ev buf) whole) in
                    rw (long, good, whole)
                      (take_frame-Leaves xs len s.events buf kept enough there (omega arith))
                | inr part ↦
                    rw (long, good, part)
                      (record { cut = 4; suffix = kept; shrinks = λ e. cc; grows = inl refl })
              ]
            ]
      ]

  -- Callbacks after those of a round that goes on.
  Extends-Grows : (es fs gs : List (Event Msg)) → Grows true es fs → Extends fs gs → Extends es gs
  Extends-Grows es fs gs (inl e) t = rw e at t
  Extends-Grows es fs gs (inr (m, e)) t = deliver m (rw e at t)

  Extends-Grows_stop : (es fs : List (Event Msg)) → Grows false es fs → Extends es fs
  Extends-Grows_stop es fs (inl e) = rw e stop
  Extends-Grows_stop es fs (inr (x, e)) = rw e (error x)

  -- On any input below 2 GiB, well formed or not, `onMessage` ends within as many rounds as there
  -- are bytes and one more, without a crash. It has called the message callback some times and
  -- then the error callback at most once, and what is left of the input is a suffix of it.
  pub on_message_total :
      (fuel : ℕ) (s : Session ev z p)
      → length (contents s.input) < 2 ^ 31
      → length c.tag + 8 < 2 ^ 32
      → length (contents s.input) < fuel
      → Returns
          (λ s'.
            ((cut : ℕ) × (contents s'.input ≡ drop cut (contents s.input)))
            × Extends s.events s'.events)
          (on_message ev z p c fuel s)
  unfolding on_message
  on_message_total zero s bound fits h = absurd (omega arith)
  on_message_total (suc fuel) s bound fits h =
      Returns-bind (Leaves (contents s.input) s.events) _ (round ev z p c s) _
        (round-Leaves s bound fits) λ r l. go r l (on_message_total fuel)
    where
      go :
          (r : Bool × Session ev z p)
          → Leaves (contents s.input) s.events r
          → ((t : Session ev z p)
              → length (contents t.input) < 2 ^ 31
              → length c.tag + 8 < 2 ^ 32
              → length (contents t.input) < fuel
              → Returns
                  (λ s'.
                    ((cut : ℕ) × (contents s'.input ≡ drop cut (contents t.input)))
                    × Extends t.events s'.events)
                  (on_message ev z p c fuel t))
          → Returns
              (λ s'.
                ((cut : ℕ) × (contents s'.input ≡ drop cut (contents s.input)))
                × Extends s.events s'.events)
              (elim r.0 [ true ↦ on_message ev z p c fuel r.1 | false ↦ ok r.1 ])
      go (false, t) l ih = ((l.cut, l.suffix), Extends-Grows_stop s.events t.events l.grows)
      go (true, t) l ih =
          let less = l.shrinks refl in
          Returns-mono _ _ (on_message ev z p c fuel t) (ih t (omega arith) fits (omega arith))
            (λ u ((cut, e), x). (
              (l.cut + cut, e ∙ ap (drop cut) l.suffix ∙ drop-drop cut l.cut (contents s.input)),
              Extends-Grows s.events t.events u.events l.grows x,
            ))
