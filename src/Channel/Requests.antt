-- ===== src/Channel/Requests.antt =====
-- The answering side of src/rpcChannel.cpp: requests in onRpcMessage, and doneCallback.
use m_rpc.Prelude.{
  ℕ, ◌+◌, ◌^◌, ◌<◌, ◌≡◌, ◌≢◌, refl, ap, ◌∙◌, none, List, [], ◌∷◌, ◌++◌, ne→==_false, if◌then◌else◌,
  Returns, Returns-mono,
}
use m_rpc.Endian.{Bytes}
use m_rpc.Message.{MessageType, ErrorCode, RpcMessage, get_type, get_id}
use m_rpc.Channel.{
  Ptr, ServiceClass, OutstandingCall, find, Channel, ran, deleted, resolve, answer, error_message,
  request_message, call_method, on_response, on_typed_message, on_rpc_message, set_services,
  new_channel,
}
use m_rpc.Channel.Calls.{Counting, call_method_lem, on_response_once}
use m_rpc.Channel.Refusals.{History, History-Refusing}

module _ (sc : ServiceClass) where
  open sc use {Service}

  on_rpc_message-request :
      (conn : Ptr) (m : RpcMessage) (ch : Channel sc)
      → get_type m ≡ MessageType.request
      → on_rpc_message sc conn m ch ≡ answer sc conn m (resolve sc ch.services m) ch
  unfolding on_rpc_message on_typed_message
  on_rpc_message-request conn m ch e = ap (λ t. on_typed_message sc t conn m ch) e

  on_rpc_message-response :
      (conn : Ptr) (m : RpcMessage) (ch : Channel sc)
      → get_type m ≡ MessageType.response
      → on_rpc_message sc conn m ch ≡ on_response sc m ch
  unfolding on_rpc_message on_typed_message
  on_rpc_message-response conn m ch e = ap (λ t. on_typed_message sc t conn m ch) e

  -- `setServices` assigns its parameter to itself, so that a channel of either constructor refuses
  -- every request with NO_SERVICE, whatever services were set.
  pub set_services-refuses :
      (last_id : ℕ) (own conn : Ptr) (table : List (Bytes × Service)) (m : RpcMessage)
      → get_type m ≡ MessageType.request
      → Returns
          (λ ch.
            (ch.sent ≡ (conn, error_message sc (get_id m) ErrorCode.no_service) ∷ [])
            × (ch.pending ≡ [])
            × (ch.effects ≡ []))
          (on_rpc_message sc conn m (set_services sc table (new_channel sc last_id own)))
  unfolding on_rpc_message on_typed_message set_services new_channel resolve answer
  set_services-refuses last_id own conn table m e = rw e (refl, refl, refl)

  -- A call in this program. A client's channel, whose counter is below 2 ^ 31 - 1, calls a method
  -- with an answer object and a closure. A server's channel, after any history from its constructor,
  -- takes the request and sends one NO_SERVICE error for it on the connection it came from, and
  -- calls no service. The client's channel takes that error response: nothing is parsed, the
  -- caller's closure is run and then the object is deleted, no call with this identifier is
  -- outstanding and all others are as before.
  pub call_refused :
      (service method bytes : Bytes) (out : OutstandingCall) (client server : Channel sc)
      (last_id : ℕ) (own conn : Ptr) (asked : List (Ptr × RpcMessage))
      → History sc (new_channel sc last_id own) asked server
      → Counting sc client
      → client.last_id + 1 < 2 ^ 31
      → out.response ≢ 0
      → out.done ≢ 0
      → Returns
          (λ server'.
            (server'.effects ≡ server.effects)
            × (server'.pending ≡ [])
            × (server'.sent
                ≡ server.sent
                  ++ (conn, error_message sc (client.last_id + 1) ErrorCode.no_service) ∷ []))
          (on_rpc_message sc conn
            (request_message sc (client.last_id + 1) service method bytes)
            server)
        × Returns
            (λ client'.
              (client'.effects ≡ client.effects ++ (ran out.done ∷ deleted out.response ∷ []))
              × (find (client.last_id + 1) client'.outstandings ≡ none)
              × ((j : ℕ)
                  → j ≢ client.last_id + 1
                  → find j client'.outstandings ≡ find j client.outstandings))
            (on_rpc_message sc client.conn
              (error_message sc (client.last_id + 1) ErrorCode.no_service)
              (call_method sc service method bytes out client))
  call_refused service method bytes out client server last_id own conn asked past inv fits r≢ d≢ =
      let calling = call_method sc service method bytes out client in
      let refusal = error_message sc (client.last_id + 1) ErrorCode.no_service in
      let (fresh, found, kept, sent, counts) =
        call_method_lem sc service method bytes out client inv fits in
      let same : calling.effects ≡ client.effects = unfold call_method in refl in
      let state = History-Refusing sc last_id own past in
      let request = request_message sc (client.last_id + 1) service method bytes in
      (
        rw (on_rpc_message-request conn request server refl, state.services)
            (unfold resolve answer in (refl, state.pending, refl)),
        rw (on_rpc_message-response client.conn refusal calling refl) (
            Returns-mono _ _ (on_response sc refusal calling)
              (on_response_once sc refusal out calling refl found r≢)
              (λ client' (gone, others, effects, sent', again). (
                effects
                    ∙ ap
                        (λ b.
                          calling.effects
                          ++ ((if b then [] else ran out.done ∷ []) ++ deleted out.response ∷ []))
                        (ne→==_false out.done 0 d≢)
                    ∙ ap (λ t. t ++ (ran out.done ∷ deleted out.response ∷ [])) same,
                gone,
                λ j ne. others j ne ∙ kept j ne,
              ))),
      )
