-- ===== src/Message/Termination.antt =====
-- The loop of MergePartialFromCodedStream in src/rpc.pb.cc ends on every input.
use m_rpc.Prelude.{
  ℕ, zero, suc, ◌%◌, ◌≤◌, ◌<◌, ◌≡◌, refl, ◌⊎◌, inl, inr, Bool, true, false, Option-cases, some,
  length, ◌==◌, ◌||◌, if◌then◌else◌, ok, arith,
}
use m_rpc.Endian.{Bytes}
use m_rpc.Message.{
  RpcMessage, UnknownFields, get_id, get_service, get_method, get_request, get_response, set_id,
  set_service, set_method, set_request, set_response,
}
use m_rpc.Message.Parse.{
  WireReader, message_type, error_code, take_type, take_error, Parsed, Continue, expect, parse_type,
  parse_id, parse_service, parse_method, parse_request, parse_response, parse_error, dispatch_tag,
  handle_unusual, merge_loop, merge_partial_from_coded_stream,
}

-- No read of the runtime gives bytes back, and a tag other than 0 takes a byte or more.
pub record Advances (r : WireReader) : Type 0 where
  pub read_tag_advances :
      (s : Bytes) → ((r.read_tag s).0.0 ≡ 0) ⊎ (length (r.read_tag s).1 < length s)
  pub expect_tag_advances : (tag : ℕ) (s : Bytes) → length (r.expect_tag tag s).1 ≤ length s
  pub read_enum_advances :
      (s : Bytes) (v : ℕ) (left : Bytes) → r.read_enum s ≡ some (v, left) → length left ≤ length s
  pub read_fixed64_advances : (old : ℕ) (s : Bytes) → length (r.read_fixed64 old s).2 ≤ length s
  pub read_string_advances : (old s : Bytes) → length (r.read_string old s).2 ≤ length s
  pub read_bytes_advances : (old s : Bytes) → length (r.read_bytes old s).2 ≤ length s
  pub skip_field_advances :
      (tag : ℕ) (u : UnknownFields) (s : Bytes) → length (r.skip_field tag u s).2 ≤ length s

abbrev Answers : Parsed → Type 0
Answers p = (answer : Bool × RpcMessage) × (p ≡ ok answer)

-- A part of the parser that answers on inputs of at most `n` bytes.
abbrev AnswersTo : ℕ → Continue → Type 0
AnswersTo n next = (m : RpcMessage) (s : Bytes) → length s ≤ n → Answers (next m s)

pick : (b : Bool) (p q : Parsed) → Answers p → Answers q → Answers (if b then p else q)
pick true p q hp hq = hp
pick false p q hp hq = hq

choose :
    (b : Bool) (p q : Parsed) → Answers p → Answers q → Answers (elim b [ true ↦ p | false ↦ q ])
choose true p q hp hq = hp
choose false p q hp hq = hq

module _ (r : WireReader) (advances : Advances r) (n : ℕ) where
  expect-AnswersTo :
      (tag : ℕ) (label next : Continue)
      → AnswersTo n label
      → AnswersTo n next
      → AnswersTo n (expect r tag label next)
  unfolding expect
  expect-AnswersTo tag label next hl hn m s h =
      let shorter = advances.expect_tag_advances tag s in
      let left = (r.expect_tag tag s).1 in
      choose (r.expect_tag tag s).0 _ _ (hl m left (omega arith)) (hn m left (omega arith))

  parse_error-AnswersTo : (next : Continue) → AnswersTo n next → AnswersTo n (parse_error r next)
  unfolding parse_error
  parse_error-AnswersTo next hn m s h = elim (Option-cases (r.read_enum s)) [
    | inl failed ↦ rw (failed, parse_error) ((false, m), refl)
    | inr ((v, left), read) ↦
        let m' = take_error (error_code v) (r.varint v) m in
        let shorter = advances.read_enum_advances s v left read in
        rw (read, parse_error)
          (choose (r.expect_at_end left) _ _ ((true, m'), refl) (hn m' left (omega arith)))
  ]

  parse_response-AnswersTo :
      (next : Continue) → AnswersTo n next → AnswersTo n (parse_response r next)
  unfolding parse_response
  parse_response-AnswersTo next hn m s h =
      let (fine, v, left) = r.read_bytes (get_response m) s in
      let shorter = advances.read_bytes_advances (get_response m) s in
      choose fine _ _
        (expect-AnswersTo 56 (parse_error r next) next (parse_error-AnswersTo next hn) hn
          (set_response v m) left (omega arith))
        ((false, set_response (r.read_bytes (get_response m) s).1 m), refl)

  parse_request-AnswersTo :
      (next : Continue) → AnswersTo n next → AnswersTo n (parse_request r next)
  unfolding parse_request
  parse_request-AnswersTo next hn m s h =
      let (fine, v, left) = r.read_bytes (get_request m) s in
      let shorter = advances.read_bytes_advances (get_request m) s in
      choose fine _ _
        (expect-AnswersTo 50 (parse_response r next) next (parse_response-AnswersTo next hn) hn
          (set_request v m) left (omega arith))
        ((false, set_request (r.read_bytes (get_request m) s).1 m), refl)

  parse_method-AnswersTo : (next : Continue) → AnswersTo n next → AnswersTo n (parse_method r next)
  unfolding parse_method
  parse_method-AnswersTo next hn m s h =
      let (fine, v, left) = r.read_string (get_method m) s in
      let shorter = advances.read_string_advances (get_method m) s in
      choose fine _ _
        (expect-AnswersTo 42 (parse_request r next) next (parse_request-AnswersTo next hn) hn
          (set_method v m) left (omega arith))
        ((false, set_method (r.read_string (get_method m) s).1 m), refl)

  parse_service-AnswersTo :
      (next : Continue) → AnswersTo n next → AnswersTo n (parse_service r next)
  unfolding parse_service
  parse_service-AnswersTo next hn m s h =
      let (fine, v, left) = r.read_string (get_service m) s in
      let shorter = advances.read_string_advances (get_service m) s in
      choose fine _ _
        (expect-AnswersTo 34 (parse_method r next) next (parse_method-AnswersTo next hn) hn
          (set_service v m) left (omega arith))
        ((false, set_service (r.read_string (get_service m) s).1 m), refl)

  parse_id-AnswersTo : (next : Continue) → AnswersTo n next → AnswersTo n (parse_id r next)
  unfolding parse_id
  parse_id-AnswersTo next hn m s h =
      let (fine, v, left) = r.read_fixed64 (get_id m) s in
      let shorter = advances.read_fixed64_advances (get_id m) s in
      choose fine _ _
        (expect-AnswersTo 26 (parse_service r next) next (parse_service-AnswersTo next hn) hn
          (set_id v m) left (omega arith))
        (
          (
            false,
            record m { id_field = record m.id_field { value = (r.read_fixed64 (get_id m) s).1 } },
          ),
          refl,
        )

  parse_type-AnswersTo : (next : Continue) → AnswersTo n next → AnswersTo n (parse_type r next)
  unfolding parse_type
  parse_type-AnswersTo next hn m s h = elim (Option-cases (r.read_enum s)) [
    | inl failed ↦ rw (failed, parse_type) ((false, m), refl)
    | inr ((v, left), read) ↦
        let shorter = advances.read_enum_advances s v left read in
        rw (read, parse_type)
          (expect-AnswersTo 17 (parse_id r next) next (parse_id-AnswersTo next hn) hn
            (take_type (message_type v) (r.varint v) m) left (omega arith))
  ]

  handle_unusual-AnswersTo :
      (tag : ℕ) (next : Continue) → AnswersTo n next → AnswersTo n (handle_unusual r tag next)
  unfolding handle_unusual
  handle_unusual-AnswersTo tag next hn m s h =
      let (fine, u, left) = r.skip_field tag m.unknown_fields s in
      let m' = record m { unknown_fields = u } in
      let shorter = advances.skip_field_advances tag m.unknown_fields s in
      pick (tag == 0 || tag % 8 == 4) _ _ ((true, m), refl)
        (choose fine _ _ (hn m' left (omega arith)) ((false, m'), refl))

  dispatch_tag-AnswersTo :
      (tag : ℕ × Bool) (next : Continue) → AnswersTo n next → AnswersTo n (dispatch_tag r tag next)
  unfolding dispatch_tag
  dispatch_tag-AnswersTo (tag, false) next hn m s h = handle_unusual-AnswersTo tag next hn m s h
  dispatch_tag-AnswersTo (tag, true) next hn m s h =
      pick (tag == 8) _ _ (parse_type-AnswersTo next hn m s h) (
        pick (tag == 17) _ _ (parse_id-AnswersTo next hn m s h) (
          pick (tag == 26) _ _ (parse_service-AnswersTo next hn m s h) (
            pick (tag == 34) _ _ (parse_method-AnswersTo next hn m s h) (
              pick (tag == 42) _ _ (parse_request-AnswersTo next hn m s h) (
                pick (tag == 50) _ _ (parse_response-AnswersTo next hn m s h) (
                  pick (tag == 56) _ _ (parse_error-AnswersTo next hn m s h)
                    (handle_unusual-AnswersTo tag next hn m s h)))))))

-- A tag of 0 ends the loop.
dispatch_tag_zero :
    (r : WireReader) (tag : ℕ × Bool) (next : Continue) (m : RpcMessage) (s : Bytes)
    → tag.0 ≡ 0
    → dispatch_tag r tag next m s ≡ ok (true, m)
unfolding dispatch_tag handle_unusual
dispatch_tag_zero r (tag, false) next m s h = rw h refl
dispatch_tag_zero r (tag, true) next m s h = rw h refl

module _ (r : WireReader) (advances : Advances r) where
  merge_loop-AnswersTo : (n : ℕ) → AnswersTo n (merge_loop r (suc n))
  unfolding merge_loop
  merge_loop-AnswersTo zero m s h =
      let (tag, left) = r.read_tag s in
      elim (advances.read_tag_advances s) [
        | inl ended ↦ ((true, m), dispatch_tag_zero r tag (merge_loop r 0) m left ended)
        | inr shorter ↦ absurd (omega arith)
      ]
  merge_loop-AnswersTo (suc n) m s h =
      let (tag, left) = r.read_tag s in
      elim (advances.read_tag_advances s) [
        | inl ended ↦ ((true, m), dispatch_tag_zero r tag (merge_loop r (suc n)) m left ended)
        | inr shorter ↦
            dispatch_tag-AnswersTo r advances n tag (merge_loop r (suc n)) (merge_loop-AnswersTo n)
              m left (omega arith)
      ]

  -- The parser answers on every input, whatever it holds and whether or not the input is a message,
  -- when no read of the runtime gives bytes back and a tag other than 0 takes a byte or more.
  pub merge_partial_from_coded_stream-Answers :
      (m : RpcMessage) (s : Bytes)
      → (answer : Bool × RpcMessage) × (merge_partial_from_coded_stream r m s ≡ ok answer)
  unfolding merge_partial_from_coded_stream
  merge_partial_from_coded_stream-Answers m s = merge_loop-AnswersTo (length s) m s (omega arith)
