-- ===== src/Message/Written.antt =====
-- The bytes that SerializeWithCachedSizes of src/rpc.pb.cc leaves, field by field.
use m_rpc.Prelude.{
  ◌≡◌, sym, ap, ◌∙◌, refl, Bool, true, false, [], ◌++◌, append-nil, append_assoc, if◌then◌else◌,
}
use m_rpc.Endian.{Bytes}
use m_rpc.Message.{
  RpcMessage, has_type, get_type, has_id, get_id, has_service, get_service, has_method, get_method,
  has_request, get_request, has_response, get_response, has_error, get_error,
}
use m_rpc.Message.Wire.{
  WireFormat, type_number, error_number, is_empty, serialize_with_cached_sizes,
}

abbrev pub part : Bool → Bytes → Bytes
part b x = if b then x else []

-- The bytes of a message with no unknown fields, from a field on.
module _ (w : WireFormat) (m : RpcMessage) where
  unfoldable pub from_error : Bytes
  from_error = part (has_error m) (w.enum_bytes 7 (error_number (get_error m))) ++ []

  unfoldable pub from_response : Bytes
  from_response = part (has_response m) (w.string_bytes 6 (get_response m)) ++ from_error

  unfoldable pub from_request : Bytes
  from_request = part (has_request m) (w.string_bytes 5 (get_request m)) ++ from_response

  unfoldable pub from_method : Bytes
  from_method = part (has_method m) (w.string_bytes 4 (get_method m)) ++ from_request

  unfoldable pub from_service : Bytes
  from_service = part (has_service m) (w.string_bytes 3 (get_service m)) ++ from_method

  unfoldable pub from_id : Bytes
  from_id = part (has_id m) (w.fixed64_bytes 2 (get_id m)) ++ from_service

  unfoldable pub from_type : Bytes
  from_type = part (has_type m) (w.enum_bytes 1 (type_number (get_type m))) ++ from_id

  carry :
      (b : Bool) (o x y rest : Bytes)
      → y ≡ o ++ x
      → o ++ (part b x ++ rest) ≡ (if b then y else o) ++ rest
  carry true o x y rest e = sym (append_assoc o x rest) ∙ ap (λ t. t ++ rest) (sym e)
  carry false o x y rest e = refl

  pub serialize-from_type :
      is_empty m.unknown_fields ≡ true → serialize_with_cached_sizes w m [] ≡ from_type
  unfolding serialize_with_cached_sizes from_type from_id from_service from_method from_request
      from_response from_error
  serialize-from_type none_unknown =
      let o₁ = if has_type m then w.write_enum 1 (type_number (get_type m)) [] else [] in
      let o₂ = if has_id m then w.write_fixed64 2 (get_id m) o₁ else o₁ in
      let o₃ = if has_service m then w.write_string 3 (get_service m) o₂ else o₂ in
      let o₄ = if has_method m then w.write_string 4 (get_method m) o₃ else o₃ in
      let o₅ = if has_request m then w.write_bytes 5 (get_request m) o₄ else o₄ in
      let o₆ = if has_response m then w.write_bytes 6 (get_response m) o₅ else o₅ in
      let o₇ = if has_error m then w.write_enum 7 (error_number (get_error m)) o₆ else o₆ in
      let all : from_type ≡ o₇ ++ [] =
        carry (has_type m) [] _ _ from_id (w.write_enum_lem 1 (type_number (get_type m)) [])
        ∙ carry (has_id m) o₁ _ _ from_service (w.write_fixed64_lem 2 (get_id m) o₁)
        ∙ carry (has_service m) o₂ _ _ from_method (w.write_string_lem 3 (get_service m) o₂)
        ∙ carry (has_method m) o₃ _ _ from_request (w.write_string_lem 4 (get_method m) o₃)
        ∙ carry (has_request m) o₄ _ _ from_response (w.write_bytes_lem 5 (get_request m) o₄)
        ∙ carry (has_response m) o₅ _ _ from_error (w.write_bytes_lem 6 (get_response m) o₅)
        ∙ carry (has_error m) o₆ _ _ [] (w.write_enum_lem 7 (error_number (get_error m)) o₆) in
      rw none_unknown (sym (all ∙ append-nil o₇))
