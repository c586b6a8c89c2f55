-- ===== src/Message/LastFields.antt =====
-- The last fields of a message, written by the serialiser of src/rpc.pb.cc and read by its parser.
use m_rpc.Prelude.{
  ℕ, zero, suc, ◌^◌, ◌≤◌, ◌<◌, ◌≡◌, refl, sym, ap, ◌∙◌, Bool, true, false, [], ◌∷◌, ◌++◌, length,
  length-append, if◌then◌else◌, ok, arith,
}
use m_rpc.Endian.{Bytes}
use m_rpc.Message.{
  RpcMessage, Field, present_field, has_type, get_type, has_id, get_id, has_service, get_service,
  has_method, get_method, has_request, get_request, has_response, get_response, has_error,
  get_error, set_method, set_request, set_response, set_error,
}
use m_rpc.Message.Wire.{WireFormat, error_number}
use m_rpc.Message.Parse.{
  WireReader, parse_method, parse_request, parse_response, parse_error, dispatch_tag, merge_loop,
}
use m_rpc.Message.Written.{part, from_error, from_response, from_request, from_method}
use m_rpc.Message.Labels.{
  Reads, error_code-number, error_number_small, done, loop_round, expect-merge_loop,
  parse_error-read, parse_response-read, parse_request-read, parse_method-read,
}

-- The numbers that protobuf can carry.
pub record Carried (m : RpcMessage) : Type 0 where
  pub id_small : get_id m < 2 ^ 64
  pub service_small : length (get_service m) < 2 ^ 31
  pub method_small : length (get_method m) < 2 ^ 31
  pub request_small : length (get_request m) < 2 ^ 31
  pub response_small : length (get_response m) < 2 ^ 31

module _ (w : WireFormat) (r : WireReader) (reads : Reads w r) where
  -- A field that is present takes a byte or more.
  pub field_shortens :
      (tag : ℕ) (x left rest : Bytes) (fuel : ℕ)
      → r.read_tag (x ++ []) ≡ ((suc tag, true), left)
      → length (x ++ rest) < suc fuel
      → length rest < fuel
  field_shortens tag [] left rest fuel read h =
      let none_read : suc tag ≡ 0 =
        sym (ap (λ (t : (ℕ × Bool) × Bytes). t.0.0) read)
        ∙ ap (λ (t : ℕ × Bool). t.0) reads.at_end in
      absurd (omega arith)
  field_shortens tag (b ∷ x) left rest fuel read h = let sum = length-append x rest in omega arith

  -- A field that may be absent.
  pub field :
      {A : Type 0} (b : Bool) (new old : Field A) (goal : Field A → RpcMessage) (fuel : ℕ)
      (m : RpcMessage) (x rest : Bytes)
      → (length (x ++ rest) < fuel → merge_loop r fuel m (x ++ rest) ≡ ok (true, goal new))
      → (length rest < fuel → merge_loop r fuel m rest ≡ ok (true, goal old))
      → length (part b x ++ rest) < fuel
      → merge_loop r fuel m (part b x ++ rest) ≡ ok (true, goal (if b then new else old))
  field true new old goal fuel m x rest there absent h = there h
  field false new old goal fuel m x rest there absent h = absent h

  module _ (src : RpcMessage) (fits : Carried src) where
    abbrev pub put_error : RpcMessage → RpcMessage
    put_error m = record m {
      error_field = if has_error src then present_field (get_error src) else m.error_field;
    }

    abbrev pub put_response : RpcMessage → RpcMessage
    put_response m = put_error (record m {
      response_field =
          if has_response src then present_field (get_response src) else m.response_field;
    })

    abbrev pub put_request : RpcMessage → RpcMessage
    put_request m = put_response (record m {
      request_field = if has_request src then present_field (get_request src) else m.request_field;
    })

    abbrev pub put_method : RpcMessage → RpcMessage
    put_method m = put_request (record m {
      method_field = if has_method src then present_field (get_method src) else m.method_field;
    })

    abbrev pub put_service : RpcMessage → RpcMessage
    put_service m = put_method (record m {
      service_field = if has_service src then present_field (get_service src) else m.service_field;
    })

    abbrev pub put_id : RpcMessage → RpcMessage
    put_id m =
        put_service
          (record m { id_field = if has_id src then present_field (get_id src) else m.id_field })

    abbrev pub put_type : RpcMessage → RpcMessage
    put_type m = put_id (record m {
      type_field = if has_type src then present_field (get_type src) else m.type_field;
    })

    error_present :
        (fuel : ℕ) (m : RpcMessage)
        → 1 ≤ fuel
        → merge_loop r (suc fuel) m (w.enum_bytes 7 (error_number (get_error src)) ++ [])
          ≡ ok (true, set_error (get_error src) m)
    unfolding dispatch_tag
    error_present fuel m h =
        let (left, first, read) =
          reads.reads_enum 7 (error_number (get_error src)) [] (omega arith)
            (error_number_small (get_error src)) in
        loop_round w r reads fuel 56 (parse_error r (merge_loop r fuel)) m _ left first
          (λ m left. refl)
        ∙ parse_error-read w r reads fuel (error_number (get_error src)) m left (get_error src) read
            (error_code-number (get_error src)) h

    -- The loop on the bytes from error on.
    pub at_error :
        (fuel : ℕ) (m : RpcMessage)
        → length (from_error w src) < fuel
        → merge_loop r fuel m (from_error w src) ≡ ok (true, put_error m)
    unfolding from_error
    at_error zero m h = absurd (omega arith)
    at_error (suc fuel) m h =
        let (left, first, _) =
          reads.reads_enum 7 (error_number (get_error src)) [] (omega arith)
            (error_number_small (get_error src)) in
        field (has_error src) (present_field (get_error src)) m.error_field
          (λ g. record m { error_field = g }) (suc fuel) m
          (w.enum_bytes 7 (error_number (get_error src))) []
          (λ h. error_present fuel m (
            field_shortens 55 (w.enum_bytes 7 (error_number (get_error src))) left [] fuel first h))
          (λ h. done w r reads (suc fuel) m (omega arith)) h

    response_present :
        (fuel : ℕ) (m : RpcMessage)
        → length (from_error w src) < fuel
        → merge_loop r (suc fuel) m (w.string_bytes 6 (get_response src) ++ from_error w src)
          ≡ ok (true, put_error (set_response (get_response src) m))
    unfolding dispatch_tag
    response_present fuel m h =
        let (left, first, _, read) =
          reads.reads_string 6 (get_response src) (get_response m) (from_error w src) (omega arith)
            fits.response_small in
        loop_round w r reads fuel 50 (parse_response r (merge_loop r fuel)) m _ left first
          (λ m left. refl)
        ∙ parse_response-read w r reads (merge_loop r fuel) m left (get_response src) _ read
        ∙ expect-merge_loop w r reads 56 fuel (parse_error r (merge_loop r fuel))
            (set_response (get_response src) m) (from_error w src) _ (λ m left. refl)
            (at_error fuel (set_response (get_response src) m) h)
            (at_error (suc fuel) (set_response (get_response src) m) (omega arith))

    -- The loop on the bytes from response on.
    pub at_response :
        (fuel : ℕ) (m : RpcMessage)
        → length (from_response w src) < fuel
        → merge_loop r fuel m (from_response w src) ≡ ok (true, put_response m)
    unfolding from_response
    at_response zero m h = absurd (omega arith)
    at_response (suc fuel) m h =
        let (left, first, _, _) =
          reads.reads_string 6 (get_response src) (get_response m) [] (omega arith)
            fits.response_small in
        field (has_response src) (present_field (get_response src)) m.response_field
          (λ g. put_error (record m { response_field = g })) (suc fuel) m
          (w.string_bytes 6 (get_response src)) (from_error w src)
          (λ h. response_present fuel m (
            field_shortens 49 (w.string_bytes 6 (get_response src)) left (from_error w src) fuel
              first h))
          (at_error (suc fuel) m) h

    request_present :
        (fuel : ℕ) (m : RpcMessage)
        → length (from_response w src) < fuel
        → merge_loop r (suc fuel) m (w.string_bytes 5 (get_request src) ++ from_response w src)
          ≡ ok (true, put_response (set_request (get_request src) m))
    unfolding dispatch_tag
    request_present fuel m h =
        let (left, first, _, read) =
          reads.reads_string 5 (get_request src) (get_request m) (from_response w src) (omega arith)
            fits.request_small in
        loop_round w r reads fuel 42 (parse_request r (merge_loop r fuel)) m _ left first
          (λ m left. refl)
        ∙ parse_request-read w r reads (merge_loop r fuel) m left (get_request src) _ read
        ∙ expect-merge_loop w r reads 50 fuel (parse_response r (merge_loop r fuel))
            (set_request (get_request src) m) (from_response w src) _ (λ m left. refl)
            (at_response fuel (set_request (get_request src) m) h)
            (at_response (suc fuel) (set_request (get_request src) m) (omega arith))

    -- The loop on the bytes from request on.
    pub at_request :
        (fuel : ℕ) (m : RpcMessage)
        → length (from_request w src) < fuel
        → merge_loop r fuel m (from_request w src) ≡ ok (true, put_request m)
    unfolding from_request
    at_request zero m h = absurd (omega arith)
    at_request (suc fuel) m h =
        let (left, first, _, _) =
          reads.reads_string 5 (get_request src) (get_request m) [] (omega arith)
            fits.request_small in
        field (has_request src) (present_field (get_request src)) m.request_field
          (λ g. put_response (record m { request_field = g })) (suc fuel) m
          (w.string_bytes 5 (get_request src)) (from_response w src)
          (λ h. request_present fuel m (
            field_shortens 41 (w.string_bytes 5 (get_request src)) left (from_response w src) fuel
              first h))
          (at_response (suc fuel) m) h

    method_present :
        (fuel : ℕ) (m : RpcMessage)
        → length (from_request w src) < fuel
        → merge_loop r (suc fuel) m (w.string_bytes 4 (get_method src) ++ from_request w src)
          ≡ ok (true, put_request (set_method (get_method src) m))
    unfolding dispatch_tag
    method_present fuel m h =
        let (left, first, read, _) =
          reads.reads_string 4 (get_method src) (get_method m) (from_request w src) (omega arith)
            fits.method_small in
        loop_round w r reads fuel 34 (parse_method r (merge_loop r fuel)) m _ left first
          (λ m left. refl)
        ∙ parse_method-read w r reads (merge_loop r fuel) m left (get_method src) _ read
        ∙ expect-merge_loop w r reads 42 fuel (parse_request r (merge_loop r fuel))
            (set_method (get_method src) m) (from_request w src) _ (λ m left. refl)
            (at_request fuel (set_method (get_method src) m) h)
            (at_request (suc fuel) (set_method (get_method src) m) (omega arith))

    -- The loop on the bytes from method on.
    pub at_method :
        (fuel : ℕ) (m : RpcMessage)
        → length (from_method w src) < fuel
        → merge_loop r fuel m (from_method w src) ≡ ok (true, put_method m)
    unfolding from_method
    at_method zero m h = absurd (omega arith)
    at_method (suc fuel) m h =
        let (left, first, _, _) =
          reads.reads_string 4 (get_method src) (get_method m) [] (omega arith) fits.method_small in
        field (has_method src) (present_field (get_method src)) m.method_field
          (λ g. put_request (record m { method_field = g })) (suc fuel) m
          (w.string_bytes 4 (get_method src)) (from_request w src)
          (λ h. method_present fuel m (
            field_shortens 33 (w.string_bytes 4 (get_method src)) left (from_request w src) fuel
              first h))
          (at_request (suc fuel) m) h
