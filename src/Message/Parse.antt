-- ===== src/Message/Parse.antt =====
-- RpcMessage::MergePartialFromCodedStream of src/rpc.pb.cc. A label of the source is a function, which
-- is given what follows a `break`: the next round of the loop.
use m_rpc.Prelude.{
  ℕ, zero, suc, ◌%◌, Bool, true, false, ◌||◌, Option, none, some, [], ◌∷◌, ◌++◌, length, ◌==◌,
  if◌then◌else◌, Run, ok, out_of_fuel,
}
use m_rpc.Endian.{Bytes}
use m_rpc.Message.{
  MessageType, ErrorCode, RpcMessage, UnknownFields, get_id, get_service, get_method, get_request,
  get_response, set_type, set_id, set_service, set_method, set_request, set_response, set_error,
}

-- CodedInputStream, WireFormatLite and WireFormat of the protobuf runtime. A stream is the bytes
-- that are left. A read into an object is given what it holds, and answers whether it succeeded,
-- what the object holds then, and what is left.
pub record WireReader : Type 0 where
  -- ReadTagWithCutoff(127): the tag, 0 at the end, and whether it is at most 127
  pub read_tag : Bytes → (ℕ × Bool) × Bytes
  -- ExpectTag: whether the tag came next; it is taken then
  pub expect_tag : ℕ → Bytes → Bool × Bytes
  -- ExpectAtEnd
  pub expect_at_end : Bytes → Bool
  -- ReadPrimitive of an enum into a local variable; `none` is a failure
  pub read_enum : Bytes → Option (ℕ × Bytes)
  -- ReadPrimitive of a fixed64, ReadString, ReadBytes
  pub read_fixed64 : ℕ → Bytes → Bool × ℕ × Bytes
  pub read_string : Bytes → Bytes → Bool × Bytes × Bytes
  pub read_bytes : Bytes → Bytes → Bool × Bytes × Bytes
  -- SkipField, into the unknown fields
  pub skip_field : ℕ → UnknownFields → Bytes → Bool × UnknownFields × Bytes
  -- The contents of a field that AddVarint adds
  pub varint : ℕ → Bytes

-- MessageType_IsValid and ErrorCode_IsValid, with the cast of a valid number.
unfoldable pub message_type : ℕ → Option MessageType
message_type v =
    if v == 0
    then some MessageType.unknow
    else if v == 1
    then some MessageType.request
    else if v == 2
    then some MessageType.response
    else if v == 3
    then some MessageType.error
    else none

unfoldable pub error_code : ℕ → Option ErrorCode
error_code v =
    if v == 0
    then some ErrorCode.no_error
    else if v == 1
    then some ErrorCode.wrong_proto
    else if v == 2
    then some ErrorCode.no_service
    else if v == 3
    then some ErrorCode.no_method
    else if v == 4
    then some ErrorCode.invalid_request
    else if v == 5
    then some ErrorCode.invalid_response
    else if v == 6
    then some ErrorCode.timeout
    else none

-- `mutable_unknown_fields()->AddVarint(n, v)`, given the contents
abbrev pub add_unknown : ℕ → Bytes → RpcMessage → RpcMessage
add_unknown n contents m = record m { unknown_fields = m.unknown_fields ++ (n, contents) ∷ [] }

-- The answer of the parser, and the message as it leaves it, whether or not it succeeded.
abbrev pub Parsed : Type 0
Parsed = Run (Bool × RpcMessage)

-- What becomes of the number of an enum: a field, or an unknown field with these contents.
unfoldable pub take_type : Option MessageType → Bytes → RpcMessage → RpcMessage
take_type (some t) contents m = set_type t m
take_type none contents m = add_unknown 1 contents m

unfoldable pub take_error : Option ErrorCode → Bytes → RpcMessage → RpcMessage
take_error (some e) contents m = set_error e m
take_error none contents m = add_unknown 7 contents m

abbrev pub Continue : Type 0
Continue = RpcMessage → Bytes → Parsed

module _ (r : WireReader) where
  -- `if (input->ExpectTag(tag)) goto label; break;`
  unfoldable pub expect : ℕ → Continue → Continue → Continue
  expect tag label next m input =
      let (hit, left) = r.expect_tag tag input in
      elim hit [ true ↦ label m left | false ↦ next m left ]

  -- The labels parse_error to parse_id, and `case 1`.
  unfoldable pub parse_error : Continue → Continue
  parse_error next m input = elim (r.read_enum input) [
    | none ↦ ok (false, m)
    | some (v, left) ↦
        let m' = take_error (error_code v) (r.varint v) m in
        elim (r.expect_at_end left) [ true ↦ ok (true, m') | false ↦ next m' left ]
  ]

  unfoldable pub parse_response : Continue → Continue
  parse_response next m input =
      let (fine, s, left) = r.read_bytes (get_response m) input in
      let m' = set_response s m in
      elim fine [ true ↦ expect 56 (parse_error next) next m' left | false ↦ ok (false, m') ]

  unfoldable pub parse_request : Continue → Continue
  parse_request next m input =
      let (fine, s, left) = r.read_bytes (get_request m) input in
      let m' = set_request s m in
      elim fine [ true ↦ expect 50 (parse_response next) next m' left | false ↦ ok (false, m') ]

  unfoldable pub parse_method : Continue → Continue
  parse_method next m input =
      let (fine, s, left) = r.read_string (get_method m) input in
      let m' = set_method s m in
      elim fine [ true ↦ expect 42 (parse_request next) next m' left | false ↦ ok (false, m') ]

  unfoldable pub parse_service : Continue → Continue
  parse_service next m input =
      let (fine, s, left) = r.read_string (get_service m) input in
      let m' = set_service s m in
      elim fine [ true ↦ expect 34 (parse_method next) next m' left | false ↦ ok (false, m') ]

  unfoldable pub parse_id : Continue → Continue
  parse_id next m input =
      let (fine, v, left) = r.read_fixed64 (get_id m) input in
      elim fine [
        | true ↦ expect 26 (parse_service next) next (set_id v m) left
        | false ↦ ok (false, record m { id_field = record m.id_field { value = v } })
      ]

  unfoldable pub parse_type : Continue → Continue
  parse_type next m input = elim (r.read_enum input) [
    | none ↦ ok (false, m)
    | some (v, left) ↦
        expect 17 (parse_id next) next (take_type (message_type v) (r.varint v) m) left
  ]

  -- The label handle_unusual; 4 is WIRETYPE_END_GROUP.
  unfoldable pub handle_unusual : ℕ → Continue → Continue
  handle_unusual tag next m input =
      if tag == 0 || tag % 8 == 4
      then ok (true, m)
      else let (fine, u, left) = r.skip_field tag m.unknown_fields input in
        let m' = record m { unknown_fields = u } in
        elim fine [ true ↦ next m' left | false ↦ ok (false, m') ]

  -- The `switch`: only one tag with the number of a field is not unusual.
  unfoldable pub dispatch_tag : ℕ × Bool → Continue → Continue
  dispatch_tag (tag, below) next m input = elim (below) [
    | false ↦ handle_unusual tag next m input
    | true ↦
        if tag == 8
        then parse_type next m input
        else if tag == 17
        then parse_id next m input
        else if tag == 26
        then parse_service next m input
        else if tag == 34
        then parse_method next m input
        else if tag == 42
        then parse_request next m input
        else if tag == 50
        then parse_response next m input
        else if tag == 56
        then parse_error next m input
        else handle_unusual tag next m input
  ]

  -- The loop, with a bound on the rounds.
  unfoldable pub merge_loop : ℕ → Continue
  merge_loop zero m input = out_of_fuel
  merge_loop (suc fuel) m input =
      let (tag, left) = r.read_tag input in dispatch_tag tag (merge_loop fuel) m left

  -- RpcMessage::MergePartialFromCodedStream; every round but the last takes a byte or more
  unfoldable pub merge_partial_from_coded_stream : RpcMessage → Bytes → Parsed
  merge_partial_from_coded_stream m input = merge_loop (suc (length input)) m input
