-- ===== src/Message/Labels.antt =====
-- The labels of MergePartialFromCodedStream in src/rpc.pb.cc, where the reads of the runtime
-- succeed.
use m_rpc.Prelude.{
  ℕ, zero, suc, ◌+◌, ◌*◌, ◌^◌, ◌≤◌, ◌<◌, ◌≡◌, refl, sym, ap, ◌∙◌, Bool, true, false, Bool-cases,
  inl, inr, some, [], ◌++◌, length, ok, arith,
}
use m_rpc.Endian.{Bytes}
use m_rpc.Message.{
  MessageType, ErrorCode, RpcMessage, get_id, get_service, get_method, get_request, get_response,
  set_type, set_id, set_service, set_method, set_request, set_response, set_error,
}
use m_rpc.Message.Wire.{WireFormat, type_number, error_number}
use m_rpc.Message.Parse.{
  WireReader, message_type, error_code, take_type, take_error, Parsed, Continue, expect, parse_type,
  parse_id, parse_service, parse_method, parse_request, parse_response, parse_error, dispatch_tag,
  handle_unusual, merge_loop,
}

-- What the runtime documents of its reads: they give back what its writes wrote, whatever follows.
pub record Reads (w : WireFormat) (r : WireReader) : Type 0 where
  pub at_end : (r.read_tag []).0 ≡ (0, true)
  pub reads_enum :
      (n v : ℕ) (rest : Bytes)
      → n < 16
      → v < 2 ^ 31
      → (left : Bytes) × (r.read_tag (w.enum_bytes n v ++ rest) ≡ ((n * 8, true), left))
        × (r.read_enum left ≡ some (v, rest))
  pub reads_fixed64 :
      (n v old : ℕ) (rest : Bytes)
      → n < 16
      → v < 2 ^ 64
      → (left : Bytes) × (r.read_tag (w.fixed64_bytes n v ++ rest) ≡ ((n * 8 + 1, true), left))
        × (r.read_fixed64 old left ≡ (true, v, rest))
  pub reads_string :
      (n : ℕ) (s old rest : Bytes)
      → n < 16
      → length s < 2 ^ 31
      → (left : Bytes) × (r.read_tag (w.string_bytes n s ++ rest) ≡ ((n * 8 + 2, true), left))
        × (r.read_string old left ≡ (true, s, rest))
        × (r.read_bytes old left ≡ (true, s, rest))
  -- ExpectTag answers true only where ReadTag would have given the tag, and takes it then;
  -- ExpectAtEnd answers true only at the end.
  pub expect_tag_hit :
      (tag : ℕ) (input : Bytes)
      → (r.expect_tag tag input).0 ≡ true
      → r.read_tag input ≡ ((tag, true), (r.expect_tag tag input).1)
  pub expect_tag_miss :
      (tag : ℕ) (input : Bytes)
      → (r.expect_tag tag input).0 ≡ false
      → (r.expect_tag tag input).1 ≡ input
  pub expect_at_end_hit : (input : Bytes) → r.expect_at_end input ≡ true → input ≡ []

pub error_code-number : (e : ErrorCode) → error_code (error_number e) ≡ some e
unfolding error_code error_number
error_code-number ErrorCode.no_error = refl
error_code-number ErrorCode.wrong_proto = refl
error_code-number ErrorCode.no_service = refl
error_code-number ErrorCode.no_method = refl
error_code-number ErrorCode.invalid_request = refl
error_code-number ErrorCode.invalid_response = refl
error_code-number ErrorCode.timeout = refl

pub error_number_small : (e : ErrorCode) → error_number e < 2 ^ 31
unfolding error_number
error_number_small e = ground arith

pub message_type-number : (t : MessageType) → message_type (type_number t) ≡ some t
unfolding message_type type_number
message_type-number MessageType.unknow = refl
message_type-number MessageType.request = refl
message_type-number MessageType.response = refl
message_type-number MessageType.error = refl

pub type_number_small : (t : MessageType) → type_number t < 2 ^ 31
unfolding type_number
type_number_small t = ground arith

module _ (w : WireFormat) (r : WireReader) (reads : Reads w r) where
  -- Whether a tag is taken by ExpectTag or in the next round, the same is read.
  pub expect-merge_loop :
      (tag fuel : ℕ) (label : Continue) (m : RpcMessage) (input : Bytes) (result : Parsed)
      → ((m : RpcMessage) (left : Bytes)
          → dispatch_tag r (tag, true) (merge_loop r fuel) m left ≡ label m left)
      → merge_loop r fuel m input ≡ result
      → merge_loop r (suc fuel) m input ≡ result
      → expect r tag label (merge_loop r fuel) m input ≡ result
  unfolding expect merge_loop
  expect-merge_loop tag fuel label m input result same now later =
      elim (Bool-cases (r.expect_tag tag input).0) [
        | inl hit ↦
            rw (hit, expect)
              (sym (same m (r.expect_tag tag input).1)
                ∙ ap
                    (λ ((t, left) : (ℕ × Bool) × Bytes).
                      dispatch_tag r t (merge_loop r fuel) m left)
                    (sym (reads.expect_tag_hit tag input hit))
                ∙ later)
        | inr miss ↦ rw (miss, reads.expect_tag_miss tag input miss, expect) now
      ]

  -- One round at a tag that comes first.
  pub loop_round :
      (fuel tag : ℕ) (label : Continue) (m : RpcMessage) (input left : Bytes)
      → r.read_tag input ≡ ((tag, true), left)
      → ((m : RpcMessage) (left : Bytes)
          → dispatch_tag r (tag, true) (merge_loop r fuel) m left ≡ label m left)
      → merge_loop r (suc fuel) m input ≡ label m left
  unfolding merge_loop
  loop_round fuel tag label m input left first same =
      ap (λ ((t, left) : (ℕ × Bool) × Bytes). dispatch_tag r t (merge_loop r fuel) m left) first
      ∙ same m left

  pub done : (fuel : ℕ) (m : RpcMessage) → 1 ≤ fuel → merge_loop r fuel m [] ≡ ok (true, m)
  unfolding merge_loop dispatch_tag handle_unusual
  done zero m h = absurd (omega arith)
  done (suc fuel) m h = rw (reads.at_end, merge_loop) refl

  -- The labels, where their reads succeed.
  pub parse_error-read :
      (fuel v : ℕ) (m : RpcMessage) (left : Bytes) (e : ErrorCode)
      → r.read_enum left ≡ some (v, [])
      → error_code v ≡ some e
      → 1 ≤ fuel
      → parse_error r (merge_loop r fuel) m left ≡ ok (true, set_error e m)
  unfolding parse_error take_error
  parse_error-read fuel v m left e read known h =
      let m' = take_error (error_code v) (r.varint v) m in
      rw (read, parse_error)
        (elim (Bool-cases (r.expect_at_end [])) [
          | inl stop ↦ rw stop refl
          | inr more ↦ rw more (done fuel m' h)
        ])
      ∙ ap (λ o. ok (true, take_error o (r.varint v) m)) known

  pub parse_response-read :
      (next : Continue) (m : RpcMessage) (left s rest : Bytes)
      → r.read_bytes (get_response m) left ≡ (true, s, rest)
      → parse_response r next m left ≡ expect r 56 (parse_error r next) next (set_response s m) rest
  unfolding parse_response
  parse_response-read next m left s rest read =
      let step : Bool × Bytes × Bytes → Parsed = λ ((fine, s, left) : Bool × Bytes × Bytes).
        elim fine [
          | true ↦ expect r 56 (parse_error r next) next (set_response s m) left
          | false ↦ ok (false, set_response s m)
        ] in
      ap step read

  pub parse_request-read :
      (next : Continue) (m : RpcMessage) (left s rest : Bytes)
      → r.read_bytes (get_request m) left ≡ (true, s, rest)
      → parse_request r next m left
        ≡ expect r 50 (parse_response r next) next (set_request s m) rest
  unfolding parse_request
  parse_request-read next m left s rest read =
      let step : Bool × Bytes × Bytes → Parsed = λ ((fine, s, left) : Bool × Bytes × Bytes).
        elim fine [
          | true ↦ expect r 50 (parse_response r next) next (set_request s m) left
          | false ↦ ok (false, set_request s m)
        ] in
      ap step read

  pub parse_method-read :
      (next : Continue) (m : RpcMessage) (left s rest : Bytes)
      → r.read_string (get_method m) left ≡ (true, s, rest)
      → parse_method r next m left ≡ expect r 42 (parse_request r next) next (set_method s m) rest
  unfolding parse_method
  parse_method-read next m left s rest read =
      let step : Bool × Bytes × Bytes → Parsed = λ ((fine, s, left) : Bool × Bytes × Bytes).
        elim fine [
          | true ↦ expect r 42 (parse_request r next) next (set_method s m) left
          | false ↦ ok (false, set_method s m)
        ] in
      ap step read

  pub parse_service-read :
      (next : Continue) (m : RpcMessage) (left s rest : Bytes)
      → r.read_string (get_service m) left ≡ (true, s, rest)
      → parse_service r next m left ≡ expect r 34 (parse_method r next) next (set_service s m) rest
  unfolding parse_service
  parse_service-read next m left s rest read =
      let step : Bool × Bytes × Bytes → Parsed = λ ((fine, s, left) : Bool × Bytes × Bytes).
        elim fine [
          | true ↦ expect r 34 (parse_method r next) next (set_service s m) left
          | false ↦ ok (false, set_service s m)
        ] in
      ap step read

  pub parse_id-read :
      (next : Continue) (m : RpcMessage) (left rest : Bytes) (v : ℕ)
      → r.read_fixed64 (get_id m) left ≡ (true, v, rest)
      → parse_id r next m left ≡ expect r 26 (parse_service r next) next (set_id v m) rest
  unfolding parse_id
  parse_id-read next m left rest v read =
      let step : Bool × ℕ × Bytes → Parsed = λ ((fine, v, left) : Bool × ℕ × Bytes). elim fine [
        | true ↦ expect r 26 (parse_service r next) next (set_id v m) left
        | false ↦ ok (false, record m { id_field = record m.id_field { value = v } })
      ] in
      ap step read

  pub parse_type-read :
      (next : Continue) (m : RpcMessage) (left rest : Bytes) (v : ℕ) (t : MessageType)
      → r.read_enum left ≡ some (v, rest)
      → message_type v ≡ some t
      → parse_type r next m left ≡ expect r 17 (parse_id r next) next (set_type t m) rest
  unfolding parse_type take_type
  parse_type-read next m left rest v t read known = rw (read, known, parse_type, take_type) refl
