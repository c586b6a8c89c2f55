-- ===== src/RpcCodec/Trip.antt =====
-- A call from end to end over the bytes of two connections: src/rpcChannel.cpp with src/codeClite.cpp.
use m_rpc.Prelude.{
  ℕ, ◌+◌, ◌^◌, ◌≤◌, ◌<◌, ◌≡◌, ◌≢◌, sym, ap, ◌∙◌, List, [], ◌∷◌, ◌++◌, append-nil, length, Run, ok,
  ◌>>=◌, Returns, Returns-mono, bind_ok, none, arith,
}
use m_rpc.Endian.{Bytes, ByteOrder}
use m_rpc.Platform.{EvBuffer, Adler32}
use m_rpc.Message.{ErrorCode, RpcMessage}
use m_rpc.Codec.{Config, max_message_len, Sent}
use m_rpc.Codec
use m_rpc.Codec.Frame.{Reliable, frame, frame_len, length-frame}
use m_rpc.Codec.Send.{send-frame}
use m_rpc.Channel.{
  Ptr, ServiceClass, OutstandingCall, Channel, ran, deleted, find, request_message, error_message,
  call_method, on_rpc_message, new_channel,
}
use m_rpc.Channel.Calls.{Counting}
use m_rpc.Channel.Refusals.{History}
use m_rpc.Channel.Requests.{call_refused}
use m_rpc.RpcCodec.{rpc_codec, send}
use m_rpc.RpcCodec.Link.{RpcProto, rpc_class, Link, take_all, on_message, on_message-take_all}

module _ (ev : EvBuffer) (z : Adler32) (p : RpcProto) (sc : ServiceClass) (order : ByteOrder) where
  open ev use {Buf, contents, empty}

  -- A proper message that fits the receiver's bound.
  abbrev pub Fits : RpcMessage → Type 0
  Fits m = p.IsProper m × (frame_len (rpc_class p) (rpc_codec order) m ≤ max_message_len)

  one :
      {B : Type 0} (conn : Ptr) (l : Link ev z p sc order) (P : B → Type 0)
      (after : Channel sc → Run B) (left : Buf) (r : Run (Channel sc))
      → Returns P (r >>= after)
      → Returns P (
          ◌>>=◌ {A = Buf × Link ev z p sc order}
            (◌>>=◌ {B = Buf × Link ev z p sc order}
              (r >>= take_all ev z p sc order conn [])
              (λ ch. ok (left, record l { channel = ch })))
            (λ (b, l'). after l'.channel))
  unfolding take_all
  one conn l P after left (ok ch) h = h
  one conn l P after left Run.crash h = h
  one conn l P after left Run.out_of_fuel h = h

  -- What a receiver makes of the bytes that are sent for one message on an empty buffer, and then
  -- of the channel that results.
  carried :
      {B : Type 0} (works : Reliable ev) (m : RpcMessage) (conn : Ptr) (l : Link ev z p sc order)
      (P : B → Type 0) (after : Channel sc → Run B)
      → conn ≢ 0
      → Fits m
      → Returns P (on_rpc_message sc conn m l.channel >>= after)
      → Returns
          (λ sent.
            Returns P
              (on_message ev z p sc order conn sent.output l >>= λ (left, l'). after l'.channel))
          (send ev z (rpc_class p) (rpc_codec order) empty m)
  unfolding send take_all
  carried works m conn l P after ne fits h =
      Returns-mono _ _ (Codec.send ev z (rpc_class p) c empty m)
        (send-frame ev z (rpc_class p) works c m empty fits.0 (omega (arith, fits.1)))
        (λ sent (filled, queued, text).
          let (left, rest, run) =
            on_message-take_all ev z p sc order conn (m ∷ []) [] sent.output l ne (whole sent text)
              (fits, tt) (omega arith) (omega (arith, ap length text, size sent text, fits.1)) in
          rw run (one conn l P after left (on_rpc_message sc conn m l.channel) h))
    where
      c : Config
      c = rpc_codec order

      whole :
          (sent : Sent ev z (rpc_class p))
          → contents sent.output ≡ contents empty ++ frame z (rpc_class p) (rpc_codec order) m
          → contents sent.output ≡ (frame z (rpc_class p) (rpc_codec order) m ++ []) ++ []
      whole sent text =
          text
          ∙ ap (λ t. t ++ frame z (rpc_class p) (rpc_codec order) m) ev.contents-empty
          ∙ sym (append-nil (frame z (rpc_class p) (rpc_codec order) m))
          ∙ sym (append-nil (frame z (rpc_class p) (rpc_codec order) m ++ []))

      size :
          (sent : Sent ev z (rpc_class p))
          → contents sent.output ≡ contents empty ++ frame z (rpc_class p) (rpc_codec order) m
          → length (contents sent.output) ≡ frame_len (rpc_class p) (rpc_codec order) m + 4
      size sent text =
          ap length
            (text ∙ ap (λ t. t ++ frame z (rpc_class p) (rpc_codec order) m) ev.contents-empty)
          ∙ length-frame z (rpc_class p) (rpc_codec order) m fits.0

  -- A call over bytes. What the codec writes for a client's request, on a buffer that is empty, is
  -- given to the `onMessage` of a server's channel, after any history of that channel from its
  -- constructor; the channel calls no service and sends one NO_SERVICE error. What the codec
  -- writes for that error is given to the `onMessage` of the client's channel after the call:
  -- nothing is parsed, the caller's closure is run and then the object is deleted, and the call is
  -- no longer outstanding. No call of the buffer library fails, the messages are proper, the
  -- frames are at most 64 MiB, the connections are not NULL, the caller gave an object and a
  -- closure, and the client's counter is below 2 ^ 31 - 1.
  pub bytes_refused :
      (works : Reliable ev) (service method bytes : Bytes) (out : OutstandingCall)
      (client : Channel sc) (server : Link ev z p sc order) (last_id : ℕ) (own conn : Ptr)
      (closed : List Ptr) (asked : List (Ptr × RpcMessage))
      → History sc (new_channel sc last_id own) asked server.channel
      → Counting sc client
      → client.last_id + 1 < 2 ^ 31
      → out.response ≢ 0
      → out.done ≢ 0
      → conn ≢ 0
      → client.conn ≢ 0
      → Fits (request_message sc (client.last_id + 1) service method bytes)
      → Fits (error_message sc (client.last_id + 1) ErrorCode.no_service)
      → Returns
          (λ sent.
            Returns
              (λ after.
                (after.effects ≡ server.channel.effects)
                × (after.pending ≡ [])
                × (after.sent
                    ≡ server.channel.sent
                      ++ (conn, error_message sc (client.last_id + 1) ErrorCode.no_service) ∷ []))
              (on_message ev z p sc order conn sent.output server >>= λ (left, l). ok l.channel))
          (send ev z
            (rpc_class p)
            (rpc_codec order)
            empty
            (request_message sc (client.last_id + 1) service method bytes))
        × Returns
            (λ sent.
              Returns
                (λ after.
                  (after.effects ≡ client.effects ++ (ran out.done ∷ deleted out.response ∷ []))
                  × (find (client.last_id + 1) after.outstandings ≡ none)
                  × ((j : ℕ)
                      → j ≢ client.last_id + 1
                      → find j after.outstandings ≡ find j client.outstandings))
                (on_message ev z p sc order client.conn sent.output (record {
                  channel = call_method sc service method bytes out client;
                  closed = closed;
                })
                  >>= λ (left, l). ok l.channel))
            (send ev z
              (rpc_class p)
              (rpc_codec order)
              empty
              (error_message sc (client.last_id + 1) ErrorCode.no_service))
  bytes_refused works service method bytes out client server last_id own conn closed asked past inv
        fits r≢ d≢ ne own_ne small₁ small₂ =
      let request = request_message sc (client.last_id + 1) service method bytes in
      let refusal = error_message sc (client.last_id + 1) ErrorCode.no_service in
      let calling = call_method sc service method bytes out client in
      let trip =
        call_refused sc service method bytes out client server.channel last_id own conn asked past
          inv fits r≢ d≢ in
      (
        carried works request conn server _ ok ne small₁
            (rw (bind_ok (on_rpc_message sc conn request server.channel)) trip.0),
        carried works refusal client.conn (record { channel = calling; closed = closed }) _ ok
            own_ne small₂ (rw (bind_ok (on_rpc_message sc client.conn refusal calling)) trip.1),
      )
