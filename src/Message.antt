-- ===== src/Message.antt =====
-- src/rpc.pb.h and src/rpc.pb.cc: the message that travels, `RpcMessage`, with a presence bit
-- for each field. The bits of `_has_bits_` are the Booleans `present`; a string is its bytes.

pub mod Merge
pub mod Sizes
pub mod Strings
pub mod Wire
pub mod Parse
pub mod Written
pub mod Labels
pub mod LastFields
pub mod RoundTrip
pub mod Termination
pub mod Plain
mod Examples
use m_rpc.Prelude.{ℕ, ◌≡◌, Bool, true, false, List, [], ◌∷◌, ◌++◌, ◌==◌, ◌||◌, if◌then◌else◌}
use m_rpc.Endian.{Bytes}

pub data MessageType : Type 0 where
  unknow request response error : MessageType

pub data ErrorCode : Type 0 where
  no_error wrong_proto no_service no_method invalid_request invalid_response timeout : ErrorCode

pub record Field {ℓ} (A : Type ℓ) : Type ℓ where
  pub present : Bool
  pub value : A

abbrev pub present_field {ℓ} : {A : Type ℓ} → A → Field A
present_field a = record { present = true; value = a }

abbrev pub absent_field {ℓ} : {A : Type ℓ} → A → Field A
absent_field a = record { present = false; value = a }

-- An `UnknownFieldSet` that only `AddVarint` and `SkipField` fill: field numbers and contents.
abbrev pub UnknownFields : Type 0
UnknownFields = List (ℕ × Bytes)

pub record RpcMessage : Type 0 where
  pub type_field : Field MessageType
  pub id_field : Field ℕ
  pub service_field : Field Bytes
  pub method_field : Field Bytes
  pub request_field : Field Bytes
  pub response_field : Field Bytes
  pub error_field : Field ErrorCode
  pub unknown_fields : UnknownFields

-- RpcMessage::SharedCtor
abbrev pub new_message : RpcMessage
new_message = record {
  type_field = absent_field MessageType.unknow;
  id_field = absent_field 0;
  service_field = absent_field [];
  method_field = absent_field [];
  request_field = absent_field [];
  response_field = absent_field [];
  error_field = absent_field ErrorCode.no_error;
  unknown_fields = [];
}

abbrev pub has_type : RpcMessage → Bool
has_type m = m.type_field.present

abbrev pub get_type : RpcMessage → MessageType
get_type m = m.type_field.value

abbrev pub set_type : MessageType → RpcMessage → RpcMessage
set_type v m = record m { type_field = present_field v }

abbrev pub clear_type : RpcMessage → RpcMessage
clear_type m = record m { type_field = absent_field MessageType.unknow }

abbrev pub has_id : RpcMessage → Bool
has_id m = m.id_field.present

abbrev pub get_id : RpcMessage → ℕ
get_id m = m.id_field.value

abbrev pub set_id : ℕ → RpcMessage → RpcMessage
set_id v m = record m { id_field = present_field v }

abbrev pub clear_id : RpcMessage → RpcMessage
clear_id m = record m { id_field = absent_field 0 }

abbrev pub has_service : RpcMessage → Bool
has_service m = m.service_field.present

abbrev pub get_service : RpcMessage → Bytes
get_service m = m.service_field.value

abbrev pub set_service : Bytes → RpcMessage → RpcMessage
set_service v m = record m { service_field = present_field v }

abbrev pub clear_service : RpcMessage → RpcMessage
clear_service m = record m { service_field = absent_field [] }

abbrev pub has_method : RpcMessage → Bool
has_method m = m.method_field.present

abbrev pub get_method : RpcMessage → Bytes
get_method m = m.method_field.value

abbrev pub set_method : Bytes → RpcMessage → RpcMessage
set_method v m = record m { method_field = present_field v }

abbrev pub clear_method : RpcMessage → RpcMessage
clear_method m = record m { method_field = absent_field [] }

abbrev pub has_request : RpcMessage → Bool
has_request m = m.request_field.present

abbrev pub get_request : RpcMessage → Bytes
get_request m = m.request_field.value

abbrev pub set_request : Bytes → RpcMessage → RpcMessage
set_request v m = record m { request_field = present_field v }

abbrev pub clear_request : RpcMessage → RpcMessage
clear_request m = record m { request_field = absent_field [] }

abbrev pub has_response : RpcMessage → Bool
has_response m = m.response_field.present

abbrev pub get_response : RpcMessage → Bytes
get_response m = m.response_field.value

abbrev pub set_response : Bytes → RpcMessage → RpcMessage
set_response v m = record m { response_field = present_field v }

abbrev pub clear_response : RpcMessage → RpcMessage
clear_response m = record m { response_field = absent_field [] }

abbrev pub has_error : RpcMessage → Bool
has_error m = m.error_field.present

abbrev pub get_error : RpcMessage → ErrorCode
get_error m = m.error_field.value

abbrev pub set_error : ErrorCode → RpcMessage → RpcMessage
set_error v m = record m { error_field = present_field v }

abbrev pub clear_error : RpcMessage → RpcMessage
clear_error m = record m { error_field = absent_field ErrorCode.no_error }

-- Whether a bit of `_has_bits_` is set.
unfoldable pub has_any : RpcMessage → Bool
has_any m =
    has_type m
    || has_id m
    || has_service m
    || has_method m
    || has_request m
    || has_response m
    || has_error m

-- A number or enum of `Clear`, which is set to zero if some bit is set.
abbrev pub zeroed {ℓ} : {A : Type ℓ} → Bool → A → Field A → Field A
zeroed any zero_value f = absent_field (if any then zero_value else f.value)

-- A string of `Clear`, which is emptied if some bit and its own bit are set.
abbrev pub emptied : Bool → Field Bytes → Field Bytes
emptied any f = absent_field (if any then (if f.present then [] else f.value) else f.value)

-- RpcMessage::Clear: no bit and no unknown field is left
unfoldable pub clear : RpcMessage → RpcMessage
clear m =
    let any = has_any m in
    record {
      type_field = zeroed any MessageType.unknow m.type_field;
      id_field = zeroed any 0 m.id_field;
      service_field = emptied any m.service_field;
      method_field = emptied any m.method_field;
      request_field = emptied any m.request_field;
      response_field = emptied any m.response_field;
      error_field = zeroed any ErrorCode.no_error m.error_field;
      unknown_fields = [];
    }

-- RpcMessage::MergeFrom of another message: the fields that are present in `from`; the test of all
-- its bits at once only saves the single tests
unfoldable pub merge_from : RpcMessage → RpcMessage → RpcMessage
merge_from m from = record {
  type_field = if has_type from then present_field (get_type from) else m.type_field;
  id_field = if has_id from then present_field (get_id from) else m.id_field;
  service_field = if has_service from then present_field (get_service from) else m.service_field;
  method_field = if has_method from then present_field (get_method from) else m.method_field;
  request_field = if has_request from then present_field (get_request from) else m.request_field;
  response_field =
      if has_response from then present_field (get_response from) else m.response_field;
  error_field = if has_error from then present_field (get_error from) else m.error_field;
  unknown_fields = m.unknown_fields ++ from.unknown_fields;
}

-- RpcMessage::CopyFrom of another message
unfoldable pub copy_from : RpcMessage → RpcMessage → RpcMessage
unfolding clear merge_from
copy_from m from = merge_from (clear m) from

-- RpcMessage::Swap
unfoldable pub swap : RpcMessage → RpcMessage → RpcMessage × RpcMessage
swap m other = (other, m)
