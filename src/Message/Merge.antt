-- ===== src/Message/Merge.antt =====
-- MergeFrom, CopyFrom and Clear of src/rpc.pb.cc, compared with each other.
use m_rpc.Prelude.{
  inl, inr, Bool-cases, ◌≡◌, refl, ap, ◌∙◌, Bool, true, false, [], arith, append_assoc,
  if◌then◌else◌,
}
use m_rpc.Endian.{Bytes}
use m_rpc.Message.{
  zeroed, emptied, has_any, Field, present_field, absent_field, RpcMessage, MessageType, ErrorCode,
  new_message, clear, merge_from, copy_from,
}

module _ {A : Type 0} where
  -- What a merge does to one field.
  abbrev merge_field : Field A → Field A → Field A
  merge_field f g = if g.present then present_field g.value else f

  merge_field_assoc :
      (f g h : Field A) → merge_field (merge_field f g) h ≡ merge_field f (merge_field g h)
  merge_field_assoc f g h = ground arith

  -- An absent field has its default value.
  abbrev pub IsClean : A → Field A → Type 0
  IsClean d f = f.present ≡ false → f.value ≡ d

  merge_field-clean : (d : A) (g : Field A) → IsClean d g → merge_field (absent_field d) g ≡ g
  merge_field-clean d g c = ground arith

-- Merging is associative: to merge b and then c into a gives what merging into a the merge of b
-- and c gives, presence bits and unknown fields included.
pub merge_from_assoc :
    (a b c : RpcMessage) → merge_from (merge_from a b) c ≡ merge_from a (merge_from b c)
unfolding merge_from
merge_from_assoc a b c = λ i. record {
  type_field = merge_field_assoc a.type_field b.type_field c.type_field i;
  id_field = merge_field_assoc a.id_field b.id_field c.id_field i;
  service_field = merge_field_assoc a.service_field b.service_field c.service_field i;
  method_field = merge_field_assoc a.method_field b.method_field c.method_field i;
  request_field = merge_field_assoc a.request_field b.request_field c.request_field i;
  response_field = merge_field_assoc a.response_field b.response_field c.response_field i;
  error_field = merge_field_assoc a.error_field b.error_field c.error_field i;
  unknown_fields = append_assoc a.unknown_fields b.unknown_fields c.unknown_fields i;
}

-- A message all of whose absent fields have their default values.
pub record IsCleanMessage (m : RpcMessage) : Type 0 where
  pub type_clean : IsClean MessageType.unknow m.type_field
  pub id_clean : IsClean 0 m.id_field
  pub service_clean : IsClean [] m.service_field
  pub method_clean : IsClean [] m.method_field
  pub request_clean : IsClean [] m.request_field
  pub response_clean : IsClean [] m.response_field
  pub error_clean : IsClean ErrorCode.no_error m.error_field

merge_field-IsClean :
    {A : Type 0} (d : A) (f g : Field A) → IsClean d f → IsClean d g → IsClean d (merge_field f g)
merge_field-IsClean d f g cf cg = ground arith

-- The merge of two messages whose absent fields have their default values is such a message.
pub merge_from-IsCleanMessage :
    (a b : RpcMessage) → IsCleanMessage a → IsCleanMessage b → IsCleanMessage (merge_from a b)
unfolding merge_from
merge_from-IsCleanMessage a b ca cb = record {
  type_clean =
      merge_field-IsClean MessageType.unknow a.type_field b.type_field ca.type_clean cb.type_clean;
  id_clean = merge_field-IsClean 0 a.id_field b.id_field ca.id_clean cb.id_clean;
  service_clean =
      merge_field-IsClean [] a.service_field b.service_field ca.service_clean cb.service_clean;
  method_clean =
      merge_field-IsClean [] a.method_field b.method_field ca.method_clean cb.method_clean;
  request_clean =
      merge_field-IsClean [] a.request_field b.request_field ca.request_clean cb.request_clean;
  response_clean =
      merge_field-IsClean [] a.response_field b.response_field ca.response_clean cb.response_clean;
  error_clean =
      merge_field-IsClean ErrorCode.no_error a.error_field b.error_field ca.error_clean
        cb.error_clean;
}

-- What `clear` leaves of a field with its default value when it is absent.
zeroed_lem :
    {A : Type 0} (d : A) (any : Bool) (f : Field A)
    → IsClean d f
    → (any ≡ false → f.present ≡ false)
    → zeroed any d f ≡ absent_field d
zeroed_lem d true f c h = refl
zeroed_lem d false f c h = ap absent_field (c (h refl))

emptied_lem :
    (any : Bool) (f : Field Bytes)
    → IsClean [] f
    → (any ≡ false → f.present ≡ false)
    → emptied any f ≡ absent_field []
emptied_lem true f c h = elim (Bool-cases f.present) [
  | inl set ↦ rw set refl
  | inr unset ↦ rw unset (ap absent_field (c unset))
]
emptied_lem false f c h = ap absent_field (c (h refl))

module _ (m : RpcMessage) where
  type_bit : has_any m ≡ false → m.type_field.present ≡ false
  unfolding has_any
  type_bit h = ground arith

  id_bit : has_any m ≡ false → m.id_field.present ≡ false
  unfolding has_any
  id_bit h = ground arith

  service_bit : has_any m ≡ false → m.service_field.present ≡ false
  unfolding has_any
  service_bit h = ground arith

  method_bit : has_any m ≡ false → m.method_field.present ≡ false
  unfolding has_any
  method_bit h = ground arith

  request_bit : has_any m ≡ false → m.request_field.present ≡ false
  unfolding has_any
  request_bit h = ground arith

  response_bit : has_any m ≡ false → m.response_field.present ≡ false
  unfolding has_any
  response_bit h = ground arith

  error_bit : has_any m ≡ false → m.error_field.present ≡ false
  unfolding has_any
  error_bit h = ground arith

-- Clear of a message whose absent fields have their default values is the message that the
-- constructor makes.
pub clear_lem : (m : RpcMessage) → IsCleanMessage m → clear m ≡ new_message
unfolding clear has_any
clear_lem m c = λ i. record {
  type_field =
      zeroed_lem MessageType.unknow (has_any m) m.type_field c.type_clean (λ h. type_bit m h) i;
  id_field = zeroed_lem 0 (has_any m) m.id_field c.id_clean (λ h. id_bit m h) i;
  service_field = emptied_lem (has_any m) m.service_field c.service_clean (λ h. service_bit m h) i;
  method_field = emptied_lem (has_any m) m.method_field c.method_clean (λ h. method_bit m h) i;
  request_field = emptied_lem (has_any m) m.request_field c.request_clean (λ h. request_bit m h) i;
  response_field =
      emptied_lem (has_any m) m.response_field c.response_clean (λ h. response_bit m h) i;
  error_field =
      zeroed_lem ErrorCode.no_error (has_any m) m.error_field c.error_clean (λ h. error_bit m h) i;
  unknown_fields = [];
}

-- CopyFrom gives the message itself, whatever was set before, if the absent fields of both have
-- their default values.
pub copy_from_lem :
    (m from : RpcMessage) → IsCleanMessage m → IsCleanMessage from → copy_from m from ≡ from
unfolding copy_from merge_from
copy_from_lem m from cm c = ap (λ t. merge_from t from) (clear_lem m cm) ∙ (λ i. record {
  type_field = merge_field-clean MessageType.unknow from.type_field c.type_clean i;
  id_field = merge_field-clean 0 from.id_field c.id_clean i;
  service_field = merge_field-clean [] from.service_field c.service_clean i;
  method_field = merge_field-clean [] from.method_field c.method_clean i;
  request_field = merge_field-clean [] from.request_field c.request_clean i;
  response_field = merge_field-clean [] from.response_field c.response_clean i;
  error_field = merge_field-clean ErrorCode.no_error from.error_field c.error_clean i;
  unknown_fields = from.unknown_fields;
})
