-- ===== src/Message/RoundTrip.antt =====
-- A message that is written and read again: the serialiser and the parser of src/rpc.pb.cc.
use m_rpc.Prelude.{
  ℕ, zero, suc, ◌<◌, ◌≡◌, refl, sym, ap, ◌∙◌, true, [], ◌++◌, append-nil, length, ok, arith,
}
use m_rpc.Message.{
  RpcMessage, present_field, has_type, get_type, has_id, get_id, has_service, get_service, set_type,
  set_id, set_service, merge_from,
}
use m_rpc.Message.Wire.{WireFormat, type_number, is_empty, serialize_with_cached_sizes}
use m_rpc.Message.Parse.{
  WireReader, parse_type, parse_id, parse_service, parse_method, dispatch_tag, merge_loop,
  merge_partial_from_coded_stream,
}
use m_rpc.Message.Written.{from_method, from_service, from_id, from_type, serialize-from_type}
use m_rpc.Message.Labels.{
  Reads, message_type-number, type_number_small, loop_round, expect-merge_loop, parse_service-read,
  parse_id-read, parse_type-read,
}
use m_rpc.Message.LastFields.{
  Carried, field_shortens, field, put_method, put_service, put_id, put_type, at_method,
}

module _ (w : WireFormat) (r : WireReader) (reads : Reads w r) where
  module _ (src : RpcMessage) (fits : Carried src) where
    service_present :
        (fuel : ℕ) (m : RpcMessage)
        → length (from_method w src) < fuel
        → merge_loop r (suc fuel) m (w.string_bytes 3 (get_service src) ++ from_method w src)
          ≡ ok (true, put_method w r reads src fits (set_service (get_service src) m))
    unfolding dispatch_tag
    service_present fuel m h =
        let (left, first, read, _) =
          reads.reads_string 3 (get_service src) (get_service m) (from_method w src) (omega arith)
            fits.service_small in
        loop_round w r reads fuel 26 (parse_service r (merge_loop r fuel)) m _ left first
          (λ m left. refl)
        ∙ parse_service-read w r reads (merge_loop r fuel) m left (get_service src) _ read
        ∙ expect-merge_loop w r reads 34 fuel (parse_method r (merge_loop r fuel))
            (set_service (get_service src) m) (from_method w src) _ (λ m left. refl)
            (at_method w r reads src fits fuel (set_service (get_service src) m) h)
            (at_method w r reads src fits (suc fuel) (set_service (get_service src) m)
              (omega arith))

    -- The loop on the bytes from service on.
    at_service :
        (fuel : ℕ) (m : RpcMessage)
        → length (from_service w src) < fuel
        → merge_loop r fuel m (from_service w src) ≡ ok (true, put_service w r reads src fits m)
    unfolding from_service
    at_service zero m h = absurd (omega arith)
    at_service (suc fuel) m h =
        let (left, first, _, _) =
          reads.reads_string 3 (get_service src) (get_service m) [] (omega arith)
            fits.service_small in
        field w r reads (has_service src) (present_field (get_service src)) m.service_field
          (λ g. put_method w r reads src fits (record m { service_field = g })) (suc fuel) m
          (w.string_bytes 3 (get_service src)) (from_method w src)
          (λ h. service_present fuel m (
            field_shortens w r reads 25 (w.string_bytes 3 (get_service src)) left
              (from_method w src) fuel first h))
          (at_method w r reads src fits (suc fuel) m) h

    id_present :
        (fuel : ℕ) (m : RpcMessage)
        → length (from_service w src) < fuel
        → merge_loop r (suc fuel) m (w.fixed64_bytes 2 (get_id src) ++ from_service w src)
          ≡ ok (true, put_service w r reads src fits (set_id (get_id src) m))
    unfolding dispatch_tag
    id_present fuel m h =
        let (left, first, read) =
          reads.reads_fixed64 2 (get_id src) (get_id m) (from_service w src) (omega arith)
            fits.id_small in
        loop_round w r reads fuel 17 (parse_id r (merge_loop r fuel)) m _ left first
          (λ m left. refl)
        ∙ parse_id-read w r reads (merge_loop r fuel) m left _ (get_id src) read
        ∙ expect-merge_loop w r reads 26 fuel (parse_service r (merge_loop r fuel))
            (set_id (get_id src) m) (from_service w src) _ (λ m left. refl)
            (at_service fuel (set_id (get_id src) m) h)
            (at_service (suc fuel) (set_id (get_id src) m) (omega arith))

    -- The loop on the bytes from id on.
    at_id :
        (fuel : ℕ) (m : RpcMessage)
        → length (from_id w src) < fuel
        → merge_loop r fuel m (from_id w src) ≡ ok (true, put_id w r reads src fits m)
    unfolding from_id
    at_id zero m h = absurd (omega arith)
    at_id (suc fuel) m h =
        let (left, first, _) =
          reads.reads_fixed64 2 (get_id src) (get_id m) [] (omega arith) fits.id_small in
        field w r reads (has_id src) (present_field (get_id src)) m.id_field
          (λ g. put_service w r reads src fits (record m { id_field = g })) (suc fuel) m
          (w.fixed64_bytes 2 (get_id src)) (from_service w src)
          (λ h. id_present fuel m (
            field_shortens w r reads 16 (w.fixed64_bytes 2 (get_id src)) left (from_service w src)
              fuel first h))
          (at_service (suc fuel) m) h

    type_present :
        (fuel : ℕ) (m : RpcMessage)
        → length (from_id w src) < fuel
        → merge_loop r (suc fuel) m (w.enum_bytes 1 (type_number (get_type src)) ++ from_id w src)
          ≡ ok (true, put_id w r reads src fits (set_type (get_type src) m))
    unfolding dispatch_tag
    type_present fuel m h =
        let (left, first, read) =
          reads.reads_enum 1 (type_number (get_type src)) (from_id w src) (omega arith)
            (type_number_small (get_type src)) in
        loop_round w r reads fuel 8 (parse_type r (merge_loop r fuel)) m _ left first
          (λ m left. refl)
        ∙ parse_type-read w r reads (merge_loop r fuel) m left _ (type_number (get_type src))
            (get_type src) read (message_type-number (get_type src))
        ∙ expect-merge_loop w r reads 17 fuel (parse_id r (merge_loop r fuel))
            (set_type (get_type src) m) (from_id w src) _ (λ m left. refl)
            (at_id fuel (set_type (get_type src) m) h)
            (at_id (suc fuel) (set_type (get_type src) m) (omega arith))

    -- The loop on the bytes from type on.
    at_type :
        (fuel : ℕ) (m : RpcMessage)
        → length (from_type w src) < fuel
        → merge_loop r fuel m (from_type w src) ≡ ok (true, put_type w r reads src fits m)
    unfolding from_type
    at_type zero m h = absurd (omega arith)
    at_type (suc fuel) m h =
        let (left, first, _) =
          reads.reads_enum 1 (type_number (get_type src)) [] (omega arith)
            (type_number_small (get_type src)) in
        field w r reads (has_type src) (present_field (get_type src)) m.type_field
          (λ g. put_id w r reads src fits (record m { type_field = g })) (suc fuel) m
          (w.enum_bytes 1 (type_number (get_type src))) (from_id w src)
          (λ h. type_present fuel m (
            field_shortens w r reads 7 (w.enum_bytes 1 (type_number (get_type src))) left
              (from_id w src) fuel first h))
          (at_id (suc fuel) m) h

    pub merge_partial_from_coded_stream-serialize_with_cached_sizes :
        (m : RpcMessage)
        → src.unknown_fields ≡ []
        → merge_partial_from_coded_stream r m (serialize_with_cached_sizes w src [])
          ≡ ok (true, merge_from m src)
    unfolding merge_partial_from_coded_stream merge_from
    merge_partial_from_coded_stream-serialize_with_cached_sizes m none_unknown =
        ap (merge_partial_from_coded_stream r m)
          (serialize-from_type w src (ap is_empty none_unknown))
        ∙ at_type (suc (length (from_type w src))) m (omega arith)
        ∙ ap (λ u. ok (true, record (put_type w r reads src fits m) { unknown_fields = u }))
            (sym (append-nil m.unknown_fields) ∙ ap (λ u. m.unknown_fields ++ u) (sym none_unknown))
