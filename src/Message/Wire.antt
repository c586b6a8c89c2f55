-- ===== src/Message/Wire.antt =====
-- The writing of a message in src/rpc.pb.cc: ByteSize and the two serialisers.
use m_rpc.Prelude.{
  ℕ, ◌+◌, ◌%◌, ◌^◌, ◌<◌, ◌≡◌, Bool, true, false, [], ◌∷◌, ◌++◌, length, if◌then◌else◌,
}
use m_rpc.Endian.{Bytes}
use m_rpc.Message.{
  MessageType, ErrorCode, RpcMessage, UnknownFields, has_any, has_type, get_type, has_id, get_id,
  has_service, get_service, has_method, get_method, has_request, get_request, has_response,
  get_response, has_error, get_error,
}

-- WireFormatLite and WireFormat of the protobuf runtime. A `write` appends its bytes to an output
-- stream, a `to_array` to an array; both are given what was written before. A field number below
-- 16 takes one byte, and a size is that of a value without its number.
pub record WireFormat : Type 0 where
  pub enum_bytes : ℕ → ℕ → Bytes
  pub fixed64_bytes : ℕ → ℕ → Bytes
  pub string_bytes : ℕ → Bytes → Bytes
  pub unknown_bytes : UnknownFields → Bytes
  pub write_enum : ℕ → ℕ → Bytes → Bytes
  pub write_enum_to_array : ℕ → ℕ → Bytes → Bytes
  pub write_fixed64 : ℕ → ℕ → Bytes → Bytes
  pub write_fixed64_to_array : ℕ → ℕ → Bytes → Bytes
  pub write_string : ℕ → Bytes → Bytes → Bytes
  pub write_string_to_array : ℕ → Bytes → Bytes → Bytes
  pub write_bytes : ℕ → Bytes → Bytes → Bytes
  pub write_bytes_to_array : ℕ → Bytes → Bytes → Bytes
  pub serialize_unknown : UnknownFields → Bytes → Bytes
  pub serialize_unknown_to_array : UnknownFields → Bytes → Bytes
  -- EnumSize, StringSize, BytesSize, ComputeUnknownFieldsSize
  pub enum_size : ℕ → ℕ
  pub string_size : Bytes → ℕ
  pub bytes_size : Bytes → ℕ
  pub unknown_size : UnknownFields → ℕ
  pub write_enum_lem : (n v : ℕ) (o : Bytes) → write_enum n v o ≡ o ++ enum_bytes n v
  pub write_enum_to_array_lem :
      (n v : ℕ) (o : Bytes) → write_enum_to_array n v o ≡ o ++ enum_bytes n v
  pub write_fixed64_lem : (n v : ℕ) (o : Bytes) → write_fixed64 n v o ≡ o ++ fixed64_bytes n v
  pub write_fixed64_to_array_lem :
      (n v : ℕ) (o : Bytes) → write_fixed64_to_array n v o ≡ o ++ fixed64_bytes n v
  pub write_string_lem : (n : ℕ) (s o : Bytes) → write_string n s o ≡ o ++ string_bytes n s
  pub write_string_to_array_lem :
      (n : ℕ) (s o : Bytes) → write_string_to_array n s o ≡ o ++ string_bytes n s
  pub write_bytes_lem : (n : ℕ) (s o : Bytes) → write_bytes n s o ≡ o ++ string_bytes n s
  pub write_bytes_to_array_lem :
      (n : ℕ) (s o : Bytes) → write_bytes_to_array n s o ≡ o ++ string_bytes n s
  pub serialize_unknown_lem :
      (u : UnknownFields) (o : Bytes) → serialize_unknown u o ≡ o ++ unknown_bytes u
  pub serialize_unknown_to_array_lem :
      (u : UnknownFields) (o : Bytes) → serialize_unknown_to_array u o ≡ o ++ unknown_bytes u
  pub length-enum : (n v : ℕ) → n < 16 → length (enum_bytes n v) ≡ 1 + enum_size v
  pub length-fixed64 : (n v : ℕ) → n < 16 → length (fixed64_bytes n v) ≡ 1 + 8
  pub length-string :
      (n : ℕ) (s : Bytes)
      → n < 16
      → length (string_bytes n s) < 2 ^ 31
      → length (string_bytes n s) ≡ 1 + string_size s
  pub length-bytes :
      (n : ℕ) (s : Bytes)
      → n < 16
      → length (string_bytes n s) < 2 ^ 31
      → length (string_bytes n s) ≡ 1 + bytes_size s
  pub length-unknown :
      (u : UnknownFields)
      → length (unknown_bytes u) < 2 ^ 31
      → length (unknown_bytes u) ≡ unknown_size u

-- The numbers of the enumerators.
unfoldable pub type_number : MessageType → ℕ
type_number MessageType.unknow = 0
type_number MessageType.request = 1
type_number MessageType.response = 2
type_number MessageType.error = 3

unfoldable pub error_number : ErrorCode → ℕ
error_number ErrorCode.no_error = 0
error_number ErrorCode.wrong_proto = 1
error_number ErrorCode.no_service = 2
error_number ErrorCode.no_method = 3
error_number ErrorCode.invalid_request = 4
error_number ErrorCode.invalid_response = 5
error_number ErrorCode.timeout = 6

abbrev pub is_empty : UnknownFields → Bool
is_empty [] = true
is_empty (u ∷ us) = false

module _ (w : WireFormat) where
  -- RpcMessage::SerializeWithCachedSizes, given the output so far. VerifyUTF8StringNamedField only
  -- logs.
  unfoldable pub serialize_with_cached_sizes : RpcMessage → Bytes → Bytes
  serialize_with_cached_sizes m output =
      let o₁ = if has_type m then w.write_enum 1 (type_number (get_type m)) output else output in
      let o₂ = if has_id m then w.write_fixed64 2 (get_id m) o₁ else o₁ in
      let o₃ = if has_service m then w.write_string 3 (get_service m) o₂ else o₂ in
      let o₄ = if has_method m then w.write_string 4 (get_method m) o₃ else o₃ in
      let o₅ = if has_request m then w.write_bytes 5 (get_request m) o₄ else o₄ in
      let o₆ = if has_response m then w.write_bytes 6 (get_response m) o₅ else o₅ in
      let o₇ = if has_error m then w.write_enum 7 (error_number (get_error m)) o₆ else o₆ in
      if is_empty m.unknown_fields then o₇ else w.serialize_unknown m.unknown_fields o₇

  -- RpcMessage::SerializeWithCachedSizesToArray, given the array so far.
  unfoldable pub serialize_with_cached_sizes_to_array : RpcMessage → Bytes → Bytes
  serialize_with_cached_sizes_to_array m target =
      let o₁ =
        if has_type m then w.write_enum_to_array 1 (type_number (get_type m)) target else target in
      let o₂ = if has_id m then w.write_fixed64_to_array 2 (get_id m) o₁ else o₁ in
      let o₃ = if has_service m then w.write_string_to_array 3 (get_service m) o₂ else o₂ in
      let o₄ = if has_method m then w.write_string_to_array 4 (get_method m) o₃ else o₃ in
      let o₅ = if has_request m then w.write_bytes_to_array 5 (get_request m) o₄ else o₄ in
      let o₆ = if has_response m then w.write_bytes_to_array 6 (get_response m) o₅ else o₅ in
      let o₇ =
        if has_error m then w.write_enum_to_array 7 (error_number (get_error m)) o₆ else o₆ in
      if is_empty m.unknown_fields then o₇ else w.serialize_unknown_to_array m.unknown_fields o₇

  -- RpcMessage::ByteSize; the sum is an `int`.
  unfoldable pub byte_size : RpcMessage → ℕ
  byte_size m =
      let fields =
        if has_any m
        then (if has_type m then 1 + w.enum_size (type_number (get_type m)) else 0)
          + (if has_id m then 1 + 8 else 0)
          + (if has_service m then 1 + w.string_size (get_service m) else 0)
          + (if has_method m then 1 + w.string_size (get_method m) else 0)
          + (if has_request m then 1 + w.bytes_size (get_request m) else 0)
          + (if has_response m then 1 + w.bytes_size (get_response m) else 0)
          + (if has_error m then 1 + w.enum_size (error_number (get_error m)) else 0)
        else 0 in
      (fields + (if is_empty m.unknown_fields then 0 else w.unknown_size m.unknown_fields)) % 2 ^ 32
