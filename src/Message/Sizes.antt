-- ===== src/Message/Sizes.antt =====
-- The bytes that the serialisers of src/rpc.pb.cc write, against each other and against ByteSize.
use m_rpc.Prelude.{
  ℕ, ◌||◌, ◌+◌, ◌^◌, ◌<◌, ◌≡◌, refl, ap, ◌∙◌, Bool, true, false, ◌++◌, length, length-append,
  if◌then◌else◌, arith,
}
use m_rpc.Endian.{Bytes}
use m_rpc.Message.{
  RpcMessage, has_any, has_type, get_type, has_id, get_id, has_service, get_service, has_method,
  get_method, has_request, get_request, has_response, get_response, has_error, get_error,
}
use m_rpc.Message.Wire.{
  WireFormat, type_number, error_number, is_empty, serialize_with_cached_sizes,
  serialize_with_cached_sizes_to_array, byte_size,
}

module _ (w : WireFormat) where
  -- The two serialisers write the same bytes, after the same front.
  pub serialize_with_cached_sizes_to_array_lem :
      (m : RpcMessage) (front : Bytes)
      → serialize_with_cached_sizes_to_array w m front ≡ serialize_with_cached_sizes w m front
  unfolding serialize_with_cached_sizes serialize_with_cached_sizes_to_array
  serialize_with_cached_sizes_to_array_lem m front = simp (
    w.write_enum_lem, w.write_enum_to_array_lem, w.write_fixed64_lem, w.write_fixed64_to_array_lem,
    w.write_string_lem, w.write_string_to_array_lem, w.write_bytes_lem, w.write_bytes_to_array_lem,
    w.serialize_unknown_lem, w.serialize_unknown_to_array_lem,
  )

  abbrev part : Bool → Bytes → ℕ
  part b x = if b then length x else 0

  length-if :
      (b : Bool) (o x y : Bytes) → y ≡ o ++ x → length (if b then y else o) ≡ length o + part b x
  length-if true o x y e = ap length e ∙ length-append o x
  length-if false o x y e = omega arith

  length-unless :
      (b : Bool) (o x y : Bytes)
      → y ≡ o ++ x
      → length (if b then o else y) ≡ length o + (if b then 0 else length x)
  length-unless true o x y e = omega arith
  length-unless false o x y e = ap length e ∙ length-append o x

  -- The length that is written, field by field.
  length-serialize_parts :
      (m : RpcMessage) (front : Bytes)
      → length (serialize_with_cached_sizes w m front)
        ≡ length front
          + part (has_type m) (w.enum_bytes 1 (type_number (get_type m)))
          + part (has_id m) (w.fixed64_bytes 2 (get_id m))
          + part (has_service m) (w.string_bytes 3 (get_service m))
          + part (has_method m) (w.string_bytes 4 (get_method m))
          + part (has_request m) (w.string_bytes 5 (get_request m))
          + part (has_response m) (w.string_bytes 6 (get_response m))
          + part (has_error m) (w.enum_bytes 7 (error_number (get_error m)))
          + (if is_empty m.unknown_fields then 0 else length (w.unknown_bytes m.unknown_fields))
  unfolding serialize_with_cached_sizes
  length-serialize_parts m front =
      let o₁ = if has_type m then w.write_enum 1 (type_number (get_type m)) front else front in
      let o₂ = if has_id m then w.write_fixed64 2 (get_id m) o₁ else o₁ in
      let o₃ = if has_service m then w.write_string 3 (get_service m) o₂ else o₂ in
      let o₄ = if has_method m then w.write_string 4 (get_method m) o₃ else o₃ in
      let o₅ = if has_request m then w.write_bytes 5 (get_request m) o₄ else o₄ in
      let o₆ = if has_response m then w.write_bytes 6 (get_response m) o₅ else o₅ in
      let o₇ = if has_error m then w.write_enum 7 (error_number (get_error m)) o₆ else o₆ in
      omega (
        arith,
        length-if (has_type m) front _ _ (w.write_enum_lem 1 (type_number (get_type m)) front),
        length-if (has_id m) o₁ _ _ (w.write_fixed64_lem 2 (get_id m) o₁),
        length-if (has_service m) o₂ _ _ (w.write_string_lem 3 (get_service m) o₂),
        length-if (has_method m) o₃ _ _ (w.write_string_lem 4 (get_method m) o₃),
        length-if (has_request m) o₄ _ _ (w.write_bytes_lem 5 (get_request m) o₄),
        length-if (has_response m) o₅ _ _ (w.write_bytes_lem 6 (get_response m) o₅),
        length-if (has_error m) o₆ _ _ (w.write_enum_lem 7 (error_number (get_error m)) o₆),
        length-unless (is_empty m.unknown_fields) o₇ _ _
            (w.serialize_unknown_lem m.unknown_fields o₇),
      )

  -- The size that is counted for a field.
  part_size :
      (b : Bool) (x : Bytes) (size : ℕ)
      → part b x < 2 ^ 31
      → (length x < 2 ^ 31 → length x ≡ size)
      → part b x ≡ (if b then size else 0)
  part_size true x size small h = h small
  part_size false x size small h = refl

  unknown_part_size :
      (b : Bool) (x : Bytes) (size : ℕ)
      → (if b then 0 else length x) < 2 ^ 31
      → (length x < 2 ^ 31 → length x ≡ size)
      → ◌≡◌ {A = ℕ} (if b then 0 else length x) (if b then 0 else size)
  unknown_part_size true x size small h = refl
  unknown_part_size false x size small h = h small

  -- With no bit set there is nothing to count.
  fields_guard :
      (a b c d e f g : Bool) (i j k l m n o : ℕ)
      → ◌≡◌ {A = ℕ}
          (if a || b || c || d || e || f || g
            then (if a then i else 0)
              + (if b then j else 0)
              + (if c then k else 0)
              + (if d then l else 0)
              + (if e then m else 0)
              + (if f then n else 0)
              + (if g then o else 0)
            else 0)
          ((if a then i else 0)
            + (if b then j else 0)
            + (if c then k else 0)
            + (if d then l else 0)
            + (if e then m else 0)
            + (if f then n else 0)
            + (if g then o else 0))
  fields_guard true b c d e f g i j k l m n o = refl
  fields_guard false true c d e f g i j k l m n o = refl
  fields_guard false false true d e f g i j k l m n o = refl
  fields_guard false false false true e f g i j k l m n o = refl
  fields_guard false false false false true f g i j k l m n o = refl
  fields_guard false false false false false true g i j k l m n o = refl
  fields_guard false false false false false false true i j k l m n o = refl
  fields_guard false false false false false false false i j k l m n o = refl

  -- `ByteSize` is the number of bytes that the serialisers append to any front, if that number is
  -- below 2 ^ 31.
  pub byte_size_lem :
      (m : RpcMessage) (front : Bytes)
      → length (serialize_with_cached_sizes w m front) < length front + 2 ^ 31
      → length (serialize_with_cached_sizes w m front) ≡ length front + byte_size w m
  unfolding byte_size has_any
  byte_size_lem m front small =
      let parts = length-serialize_parts m front in
      omega (
        arith,
        parts,
        small,
        part_size (has_type m) (w.enum_bytes 1 (type_number (get_type m))) _
            (omega (arith, parts, small))
            (λ h. w.length-enum 1 (type_number (get_type m)) (omega arith)),
        part_size (has_id m) (w.fixed64_bytes 2 (get_id m)) _ (omega (arith, parts, small))
            (λ h. w.length-fixed64 2 (get_id m) (omega arith)),
        part_size (has_service m) (w.string_bytes 3 (get_service m)) _ (omega (arith, parts, small))
            (λ h. w.length-string 3 (get_service m) (omega arith) h),
        part_size (has_method m) (w.string_bytes 4 (get_method m)) _ (omega (arith, parts, small))
            (λ h. w.length-string 4 (get_method m) (omega arith) h),
        part_size (has_request m) (w.string_bytes 5 (get_request m)) _ (omega (arith, parts, small))
            (λ h. w.length-bytes 5 (get_request m) (omega arith) h),
        part_size (has_response m) (w.string_bytes 6 (get_response m)) _
            (omega (arith, parts, small)) (λ h. w.length-bytes 6 (get_response m) (omega arith) h),
        part_size (has_error m) (w.enum_bytes 7 (error_number (get_error m))) _
            (omega (arith, parts, small))
            (λ h. w.length-enum 7 (error_number (get_error m)) (omega arith)),
        unknown_part_size (is_empty m.unknown_fields) (w.unknown_bytes m.unknown_fields) _
            (omega (arith, parts, small)) (λ h. w.length-unknown m.unknown_fields h),
        fields_guard (has_type m) (has_id m) (has_service m) (has_method m) (has_request m)
            (has_response m) (has_error m) (1 + w.enum_size (type_number (get_type m))) (1 + 8)
            (1 + w.string_size (get_service m)) (1 + w.string_size (get_method m))
            (1 + w.bytes_size (get_request m)) (1 + w.bytes_size (get_response m))
            (1 + w.enum_size (error_number (get_error m))),
      )
