-- ===== src/RpcCodec/Proto.antt =====
-- RpcMessage of src/rpc.pb.cc as the message class of the codec: its own ByteSize, serialiser and
-- parser, on the protobuf runtime.
use m_rpc.Prelude.{ℕ, ◌^◌, ◌<◌, ◌≡◌, refl, ap, ◌∙◌, Bool, true, [], length, ok, arith}
use m_rpc.Endian.{Bytes}
use m_rpc.Message.{ErrorCode, RpcMessage, new_message, clear, copy_from}
use m_rpc.Message.Merge.{IsCleanMessage, copy_from_lem}
use m_rpc.Message.Wire.{
  WireFormat, byte_size, serialize_with_cached_sizes, serialize_with_cached_sizes_to_array,
}
use m_rpc.Message.Sizes.{byte_size_lem, serialize_with_cached_sizes_to_array_lem}
use m_rpc.Message.Parse.{WireReader, merge_partial_from_coded_stream}
use m_rpc.Message.Labels.{Reads}
use m_rpc.Message.LastFields.{Carried}
use m_rpc.Message.RoundTrip.{merge_partial_from_coded_stream-serialize_with_cached_sizes}
use m_rpc.Channel.{ServiceClass, request_message, response_message, error_message}
use m_rpc.RpcCodec.Link.{RpcProto}

-- The protobuf runtime: what it writes, what it reads, ConsumedEntireMessage after a parse of these
-- bytes, and ParseFromArray on a new message, which clears the message, lets
-- MergePartialFromCodedStream read into it, and succeeds if that does and all was consumed.
pub record Runtime : Type 0 where
  pub format : WireFormat
  pub reader : WireReader
  pub consumed : Bytes → Bool
  pub parse_from_array : Bytes → Bool × RpcMessage
  pub reads : Reads format reader
  pub consumed-serialize :
      (m : RpcMessage)
      → m.unknown_fields ≡ []
      → consumed (serialize_with_cached_sizes format m []) ≡ true
  pub parse_from_array_lem :
      (s : Bytes) (m : RpcMessage)
      → merge_partial_from_coded_stream reader (clear new_message) s ≡ ok (true, m)
      → consumed s ≡ true
      → parse_from_array s ≡ (true, m)

module _ (t : Runtime) where
  -- A message that has no unknown fields, whose absent fields have their default values, and that
  -- protobuf can carry.
  pub record IsProper (m : RpcMessage) : Type 0 where
    pub carried : Carried m
    pub clean : IsCleanMessage m
    pub none_unknown : m.unknown_fields ≡ []
    pub small : length (serialize_with_cached_sizes t.format m []) < 2 ^ 31

  new_message-IsCleanMessage : IsCleanMessage new_message
  new_message-IsCleanMessage = record {
    type_clean = λ h. refl;
    id_clean = λ h. refl;
    service_clean = λ h. refl;
    method_clean = λ h. refl;
    request_clean = λ h. refl;
    response_clean = λ h. refl;
    error_clean = λ h. refl;
  }

  pub length-byte_size :
      (m : RpcMessage)
      → IsProper m
      → length (serialize_with_cached_sizes_to_array t.format m []) ≡ byte_size t.format m
  length-byte_size m proper =
      ap length (serialize_with_cached_sizes_to_array_lem t.format m [])
      ∙ omega (arith, byte_size_lem t.format m [] proper.small)

  parse_from_array-serialize :
      (m : RpcMessage)
      → IsProper m
      → t.parse_from_array (serialize_with_cached_sizes t.format m []) ≡ (true, m)
  unfolding copy_from
  parse_from_array-serialize m proper =
      t.parse_from_array_lem (serialize_with_cached_sizes t.format m []) m
        (merge_partial_from_coded_stream-serialize_with_cached_sizes t.format t.reader t.reads m
            proper.carried (clear new_message) proper.none_unknown
          ∙ ap (λ m. ok (true, m))
              (copy_from_lem new_message m new_message-IsCleanMessage proper.clean))
        (t.consumed-serialize m proper.none_unknown)

  pub parse_from_array-to_array :
      (m : RpcMessage)
      → IsProper m
      → t.parse_from_array (serialize_with_cached_sizes_to_array t.format m []) ≡ (true, m)
  parse_from_array-to_array m proper =
      ap t.parse_from_array (serialize_with_cached_sizes_to_array_lem t.format m [])
      ∙ parse_from_array-serialize m proper

  -- The message class of the channel's codec.
  abbrev pub rpc_proto : RpcProto
  rpc_proto = record {
    byte_size = byte_size t.format;
    serialize = λ m. serialize_with_cached_sizes_to_array t.format m [];
    parse_from = t.parse_from_array;
    IsProper = IsProper;
    length-serialize = length-byte_size;
    parse_from-serialize = parse_from_array-to_array;
  }

  -- The messages that a channel sends are proper, if their texts and the bytes written are short.
  module _ (sc : ServiceClass) where
    pub request_message-IsProper :
        (id : ℕ) (service method bytes : Bytes)
        → id < 2 ^ 64
        → length service < 2 ^ 31
        → length method < 2 ^ 31
        → length bytes < 2 ^ 31
        → length
            (serialize_with_cached_sizes t.format (request_message sc id service method bytes) [])
          < 2 ^ 31
        → IsProper (request_message sc id service method bytes)
    request_message-IsProper id service method bytes hi hs hm hb small = record {
      carried = record {
        id_small = hi;
        service_small = hs;
        method_small = hm;
        request_small = hb;
        response_small = omega arith;
      };
      clean = record {
        type_clean = λ h. cc;
        id_clean = λ h. cc;
        service_clean = λ h. cc;
        method_clean = λ h. cc;
        request_clean = λ h. cc;
        response_clean = λ h. refl;
        error_clean = λ h. refl;
      };
      none_unknown = refl;
      small = small;
    }

    pub response_message-IsProper :
        (id : ℕ) (bytes : Bytes)
        → id < 2 ^ 64
        → length bytes < 2 ^ 31
        → length (serialize_with_cached_sizes t.format (response_message sc id bytes) []) < 2 ^ 31
        → IsProper (response_message sc id bytes)
    response_message-IsProper id bytes hi hb small = record {
      carried = record {
        id_small = hi;
        service_small = omega arith;
        method_small = omega arith;
        request_small = omega arith;
        response_small = hb;
      };
      clean = record {
        type_clean = λ h. cc;
        id_clean = λ h. cc;
        service_clean = λ h. refl;
        method_clean = λ h. refl;
        request_clean = λ h. refl;
        response_clean = λ h. cc;
        error_clean = λ h. refl;
      };
      none_unknown = refl;
      small = small;
    }

    pub error_message-IsProper :
        (id : ℕ) (e : ErrorCode)
        → id < 2 ^ 64
        → length (serialize_with_cached_sizes t.format (error_message sc id e) []) < 2 ^ 31
        → IsProper (error_message sc id e)
    error_message-IsProper id e hi small = record {
      carried = record {
        id_small = hi;
        service_small = omega arith;
        method_small = omega arith;
        request_small = omega arith;
        response_small = omega arith;
      };
      clean = record {
        type_clean = λ h. cc;
        id_clean = λ h. cc;
        service_clean = λ h. refl;
        method_clean = λ h. refl;
        request_clean = λ h. refl;
        response_clean = λ h. refl;
        error_clean = λ h. cc;
      };
      none_unknown = refl;
      small = small;
    }
