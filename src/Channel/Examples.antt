-- ===== src/Channel/Examples.antt =====
-- The theorems at a service whose methods are named by their bytes and take any bytes.
use m_rpc.Prelude.{
  ◌<◌, ◌+◌, ◌^◌, ℕ, ◌≡◌, ◌≢◌, refl, true, none, some, List, [], ◌∷◌, ◌==◌, ok, Returns, arith,
}
use m_rpc.Endian.{Bytes}
use m_rpc.Message.{ErrorCode, RpcMessage}
use m_rpc.Channel.{
  on_typed_message, finish_call, assign, erase, destroy, ServiceClass, OutstandingCall, find,
  Channel, parsed, ran, deleted, resolve, answer, error_message, response_message, request_message,
  call_method, on_response, on_rpc_message, set_services, set_connection, new_channel,
}
use m_rpc.Channel.Calls.{Counting, call_method_lem, on_response_once}
use m_rpc.Channel.Deletions.{deletions}
use m_rpc.Channel.Race.{Threads, Reach, start, counted, same_id}
use m_rpc.Channel.Ownership
use m_rpc.Channel.Ownership.{count, destroy-deletions}
use m_rpc.Channel.Refusals.{History, here, receives, sets, Refusing, History-Refusing}
use m_rpc.Channel.Requests.{set_services-refuses, call_refused}

abbrev echo : ServiceClass
echo = record {
  Service = ℕ;
  Method = Bytes;
  Request = Bytes;
  find_method = λ s name. some name;
  parse_request = λ s f bytes. (true, bytes);
  is_null = λ s. s == 0;
  call = λ s f req. some req;
}

abbrev table : List (Bytes × ℕ)
table = (1 ∷ [], 7) ∷ []

-- A channel on connection 5 that waits for the answer of one call, with identifier 3.
abbrev waiting : Channel echo
waiting = record {
  conn = 5;
  last_id = 3;
  outstandings = (3, record { response = 100; done = 200 }) ∷ [];
  services = none;
  sent = [];
  pending = [];
  effects = [];
}

waiting-Counting : Counting echo waiting
waiting-Counting = record { below = omega arith; positive = omega arith }

abbrev out : OutstandingCall
out = record { response = 101; done = 201 }

call_method_lem_example :
    (find 4 waiting.outstandings ≡ none)
    × (find 4 (call_method echo (1 ∷ []) (2 ∷ []) (3 ∷ []) out waiting).outstandings ≡ some out)
    × ((j : ℕ)
        → j ≢ 4
        → find j (call_method echo (1 ∷ []) (2 ∷ []) (3 ∷ []) out waiting).outstandings
          ≡ find j waiting.outstandings)
    × ((call_method echo (1 ∷ []) (2 ∷ []) (3 ∷ []) out waiting).sent
        ≡ (5, request_message echo 4 (1 ∷ []) (2 ∷ []) (3 ∷ [])) ∷ [])
    × Counting echo (call_method echo (1 ∷ []) (2 ∷ []) (3 ∷ []) out waiting)
call_method_lem_example =
    call_method_lem echo (1 ∷ []) (2 ∷ []) (3 ∷ []) out waiting waiting-Counting (omega arith)

abbrev reply : RpcMessage
reply = response_message echo 3 (9 ∷ [])

on_response_once_example :
    Returns
      (λ ch'.
        (find 3 ch'.outstandings ≡ none)
        × ((j : ℕ) → j ≢ 3 → find j ch'.outstandings ≡ find j waiting.outstandings)
        × (ch'.effects ≡ parsed 100 (9 ∷ []) ∷ ran 200 ∷ deleted 100 ∷ [])
        × (ch'.sent ≡ [])
        × (on_response echo reply ch' ≡ ok ch'))
      (on_response echo reply waiting)
on_response_once_example =
    on_response_once echo reply (record { response = 100; done = 200 }) waiting refl
      (unfold find in refl) (omega arith)

abbrev request : ℕ → RpcMessage
request id = request_message echo id (1 ∷ []) (2 ∷ []) (3 ∷ [])

abbrev refusal : ℕ → RpcMessage
refusal id = error_message echo id ErrorCode.no_service

abbrev fresh : Channel echo
fresh = set_services echo table (set_connection echo 6 (new_channel echo 0 6))

abbrev refused : Channel echo
refused = record {
  conn = 6;
  last_id = 0;
  outstandings = [];
  services = none;
  sent = (6, refusal 8) ∷ [];
  pending = [];
  effects = [];
}

takes_request : on_rpc_message echo 6 (request 8) fresh ≡ ok refused
unfolding on_rpc_message on_typed_message resolve answer set_services set_connection new_channel
takes_request = refl

past : History echo (new_channel echo 0 6) ((6, request 8) ∷ []) refused
past = receives 6 (request 8) takes_request (sets 6 table here)

History-Refusing_example : Refusing echo ((6, request 8) ∷ []) refused
History-Refusing_example = History-Refusing echo 0 6 past

set_services-refuses_example :
    Returns
      (λ ch.
        (ch.sent ≡ (6, error_message echo 8 ErrorCode.no_service) ∷ [])
        × (ch.pending ≡ [])
        × (ch.effects ≡ []))
      (on_rpc_message echo 6 (request 8) (set_services echo table (new_channel echo 0 6)))
set_services-refuses_example = set_services-refuses echo 0 6 6 table (request 8) refl

call_refused_example :
    Returns
      (λ server'.
        (server'.effects ≡ [])
        × (server'.pending ≡ [])
        × (server'.sent ≡ (6, refusal 8) ∷ (6, refusal 4) ∷ []))
      (on_rpc_message echo 6 (request 4) refused)
    × Returns
        (λ client'.
          (client'.effects ≡ ran 201 ∷ deleted 101 ∷ [])
          × (find 4 client'.outstandings ≡ none)
          × ((j : ℕ) → j ≢ 4 → find j client'.outstandings ≡ find j waiting.outstandings))
        (on_rpc_message echo 5
          (refusal 4)
          (call_method echo (1 ∷ []) (2 ∷ []) (3 ∷ []) out waiting))
call_refused_example =
    call_refused echo (1 ∷ []) (2 ∷ []) (3 ∷ []) out waiting refused 0 6 6 ((6, request 8) ∷ [])
      past waiting-Counting (omega arith) (omega arith) (omega arith)

abbrev called_once : Channel echo
called_once = call_method echo (1 ∷ []) (2 ∷ []) (3 ∷ []) out (new_channel echo 0 5)

abbrev answered : Channel echo
answered = record {
  conn = 5;
  last_id = 1;
  outstandings = [];
  services = none;
  sent = (5, request_message echo 1 (1 ∷ []) (2 ∷ []) (3 ∷ [])) ∷ [];
  pending = [];
  effects = parsed 101 (9 ∷ []) ∷ ran 201 ∷ deleted 101 ∷ [];
}

takes_answer : on_rpc_message echo 5 (response_message echo 1 (9 ∷ [])) called_once ≡ ok answered
unfolding on_rpc_message on_typed_message on_response finish_call call_method new_channel assign
    find erase
takes_answer = refl

start_small : (new_channel echo 0 5).last_id + 1 < 2 ^ 31
unfolding new_channel
start_small = omega arith

destroy-deletions_example : deletions echo 101 (destroy echo answered) ≡ count echo 101 (101 ∷ [])
destroy-deletions_example = destroy-deletions echo 101 0 5 (omega arith) (omega arith) (
    Ownership.receives 5 (response_message echo 1 (9 ∷ [])) takes_answer
      (Ownership.calls (1 ∷ []) (2 ∷ []) (3 ∷ []) out start_small Ownership.here))

same_id_example :
    (s : Threads) × Reach (start 8) s
    × (s.pc 0 ≡ counted 9)
    × (s.pc 1 ≡ counted 9)
    × (s.last_id ≡ 9)
same_id_example = same_id 8
