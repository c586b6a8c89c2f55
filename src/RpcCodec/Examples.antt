-- ===== src/RpcCodec/Examples.antt =====
-- A client and a server that speak over lists of bytes.
use m_rpc.Prelude.{
  ◌≢◌, ◌==◌, Bool, Run, sym, ◌∙◌, ℕ, ◌≡◌, refl, true, none, some, [], ◌∷◌, ◌++◌, ok, ◌>>=◌, Returns,
  arith,
}
use m_rpc.Endian.{Bytes, little, be_bytes}
use m_rpc.Platform.Concrete.{list_buffer, sum_checksum, sum_bytes}
use m_rpc.Message.Parse.{merge_partial_from_coded_stream}
use m_rpc.Message.Termination.{merge_partial_from_coded_stream-Answers}
use m_rpc.Message.{clear, new_message, ErrorCode, RpcMessage, has_any}
use m_rpc.Codec.Frame.{Reliable, frame, body, frame_check}
use m_rpc.Channel.{
  ServiceClass, Channel, ran, deleted, find, request_message, error_message, call_method,
  set_services, set_connection, new_channel,
}
use m_rpc.Channel.Calls.{Counting}
use m_rpc.RpcCodec.{rpc_codec, send}
use m_rpc.RpcCodec.Link.{RpcProto, Link, rpc_class, on_message, take_all, on_message-take_all}
use m_rpc.RpcCodec.Proto.{
  request_message-IsProper, error_message-IsProper, Runtime, IsProper, rpc_proto,
}
use m_rpc.Message.Plain.{plain, plain_reader, varint, le, delimited}
use m_rpc.Message.Plain.Reading.{plain-Reads}
use m_rpc.Message.Plain.Shorter.{plain-Advances}
use m_rpc.Message.Wire.{
  byte_size, serialize_with_cached_sizes, serialize_with_cached_sizes_to_array, type_number,
  error_number,
}
use m_rpc.Channel.Refusals.{here, sets}
use m_rpc.RpcCodec.Trip.{Fits, bytes_refused}

abbrev names : ServiceClass
names = record {
  Service = ℕ;
  Method = Bytes;
  Request = Bytes;
  find_method = λ s name. some name;
  parse_request = λ s f bytes. (true, bytes);
  is_null = λ s. s == 0;
  call = λ s f req. none;
}

-- ParseFromArray, where all is always consumed.
parse_from_array : Bytes → Bool × RpcMessage
parse_from_array s =
    (merge_partial_from_coded_stream-Answers plain_reader plain-Advances (clear new_message) s).0

parse_from_array_lem :
    (s : Bytes) (m : RpcMessage)
    → merge_partial_from_coded_stream plain_reader (clear new_message) s ≡ ok (true, m)
    → parse_from_array s ≡ (true, m)
unfolding parse_from_array
parse_from_array_lem s m read =
    let (answer, run) =
      merge_partial_from_coded_stream-Answers plain_reader plain-Advances (clear new_message) s in
    same answer (sym run ∙ read)
  where
    same :
        (a : Bool × RpcMessage)
        → ◌≡◌ {A = Run (Bool × RpcMessage)} (ok a) (ok (true, m))
        → a ≡ (true, m)
    same a h = cc

abbrev runtime : Runtime
runtime = record {
  format = plain;
  reader = plain_reader;
  consumed = λ s. true;
  parse_from_array = parse_from_array;
  reads = plain-Reads;
  consumed-serialize = λ m none_unknown. refl;
  parse_from_array_lem = λ s m read all_read. parse_from_array_lem s m read;
}

abbrev proto : RpcProto
proto = rpc_proto runtime

abbrev client : Channel names
client = record {
  conn = 5;
  last_id = 3;
  outstandings = [];
  services = none;
  sent = [];
  pending = [];
  effects = [];
}

abbrev server : Link list_buffer sum_checksum proto names little
server = record {
  channel = set_services names ((1 ∷ [], 7) ∷ []) (set_connection names 6 (new_channel names 0 6));
  closed = [];
}

list_works : Reliable list_buffer
list_works = record {
  add_works = λ b xs. refl;
  prepend_works = λ b xs. refl;
  reserve_works = λ b n. refl;
  commit_works = λ b xs. refl;
  add_buffer_works = λ d s. refl;
}

abbrev request : RpcMessage
request = request_message names 4 (1 ∷ []) (2 ∷ []) (3 ∷ [])

request-IsProper : IsProper runtime request
unfolding serialize_with_cached_sizes type_number error_number varint le delimited
request-IsProper =
    request_message-IsProper runtime names 4 (1 ∷ []) (2 ∷ []) (3 ∷ []) (omega arith) (omega arith)
      (omega arith) (omega arith) (omega arith)

request-Fits : Fits list_buffer sum_checksum proto names little request
unfolding byte_size has_any type_number error_number varint delimited
request-Fits = (request-IsProper, omega arith)

abbrev refusal : RpcMessage
refusal = error_message names 4 ErrorCode.no_service

refusal-IsProper : IsProper runtime refusal
unfolding serialize_with_cached_sizes type_number error_number varint le delimited
refusal-IsProper =
    error_message-IsProper runtime names 4 ErrorCode.no_service (omega arith) (omega arith)

refusal-Fits : Fits list_buffer sum_checksum proto names little refusal
unfolding byte_size has_any type_number error_number varint delimited
refusal-Fits = (refusal-IsProper, omega arith)

client-Counting : Counting names client
client-Counting = record { below = tt; positive = omega arith }

abbrev calling : Channel names
calling =
    call_method names (1 ∷ []) (2 ∷ []) (3 ∷ []) (record { response = 101; done = 201 }) client

bytes_refused_example :
    Returns
      (λ sent.
        Returns
          (λ after.
            (after.effects ≡ server.channel.effects)
            × (after.pending ≡ [])
            × (after.sent ≡ server.channel.sent ++ (6, refusal) ∷ []))
          (on_message list_buffer sum_checksum proto names little 6 sent.output server
            >>= λ (left, l). ok l.channel))
      (send list_buffer sum_checksum (rpc_class proto) (rpc_codec little) [] request)
    × Returns
        (λ sent.
          Returns
            (λ after.
              (after.effects ≡ ran 201 ∷ deleted 101 ∷ [])
              × (find 4 after.outstandings ≡ none)
              × ((j : ℕ) → j ≢ 4 → find j after.outstandings ≡ find j client.outstandings))
            (on_message list_buffer sum_checksum proto names little 5 sent.output
                (record { channel = calling; closed = [] })
              >>= λ (left, l). ok l.channel))
        (send list_buffer sum_checksum (rpc_class proto) (rpc_codec little) [] refusal)
bytes_refused_example =
    bytes_refused list_buffer sum_checksum proto names little list_works (1 ∷ []) (2 ∷ []) (3 ∷ [])
      (record { response = 101; done = 201 }) client server 0 6 6 [] []
      (sets 6 ((1 ∷ [], 7) ∷ []) here) client-Counting (omega arith) (omega arith) (omega arith)
      (omega arith) (omega arith) request-Fits refusal-Fits

abbrev input : Bytes
input =
    (frame sum_checksum (rpc_class proto) (rpc_codec little) request
      ++ (frame sum_checksum (rpc_class proto) (rpc_codec little) refusal ++ []))
    ++ 5 ∷ []

on_message-take_all_example :
    (left : Bytes) × (left ≡ 5 ∷ [])
    × (on_message list_buffer sum_checksum proto names little 6 input server ≡ (
        take_all list_buffer sum_checksum proto names little 6
          (request ∷ refusal ∷ [])
          server.channel
        >>= λ ch. ok (left, record server { channel = ch })))
unfolding frame body frame_check sum_bytes be_bytes byte_size has_any
    serialize_with_cached_sizes_to_array type_number error_number varint le delimited
on_message-take_all_example =
    on_message-take_all list_buffer sum_checksum proto names little 6 (request ∷ refusal ∷ [])
      (5 ∷ []) input server (omega arith) refl (request-Fits, (refusal-Fits, tt)) (omega arith)
      (omega arith)
