-- ===== src/Channel.antt =====
-- src/rpcChannel.h and src/rpcChannel.cpp: calls, their identifiers, and the answers to them.
pub mod Calls
pub mod Refusals
pub mod Requests
pub mod Unique
pub mod Deletions
pub mod Ownership
pub mod Race
mod Examples
use m_rpc.Prelude.{
  ℕ, ◌+◌, ◌-◌, ◌%◌, ◌^◌, ◌≡◌, Bool, true, false, not, ◌||◌, ◌&&◌, Option, none, some, List, [], ◌∷◌,
  ◌++◌, ltb, ◌==◌, starts_with, length, if◌then◌else◌, Run, ok, crash,
}
use m_rpc.Endian.{Bytes}
use m_rpc.Message.{
  MessageType, ErrorCode, RpcMessage, new_message, clear, get_type, get_id, get_service, get_method,
  get_request, get_response, has_response, has_error, set_type, set_id, set_service, set_method,
  set_request, set_response, set_error,
}

-- An object of the caller, or NULL, which is 0.
abbrev pub Ptr : Type 0
Ptr = ℕ

-- The services that a user registers: FindMethodByName of a service's descriptor, and
-- ParseFromString of a new request of the method's class. A table may have a NULL for a service.
-- `call` is CallMethod of a service: the serialised response when the closure it is given is run
-- before it returns, and none when the closure is kept for later.
pub record ServiceClass : Type 1 where
  pub Service : Type 0
  pub Method : Type 0
  pub Request : Type 0
  pub find_method : Service → Bytes → Option Method
  pub parse_request : Service → Method → Bytes → Bool × Request
  pub is_null : Service → Bool
  pub call : Service → Method → Request → Option Bytes

pub record OutstandingCall : Type 0 where
  pub response : Ptr
  pub done : Ptr

-- std::map: one entry to a key.
module _ {V : Type 0} where
  pub find : ℕ → List (ℕ × V) → Option V
  find k [] = none
  find k ((j, v) ∷ m) = if k == j then some v else find k m

  pub erase : ℕ → List (ℕ × V) → List (ℕ × V)
  erase k [] = []
  erase k ((j, v) ∷ m) = if k == j then erase k m else (j, v) ∷ erase k m

  -- `m[k] = v`
  pub assign : ℕ → V → List (ℕ × V) → List (ℕ × V)
  assign k v m = (k, v) ∷ erase k m

pub remove_one : ℕ → List ℕ → List ℕ
remove_one k [] = []
remove_one k (j ∷ js) = if k == j then js else j ∷ remove_one k js

-- Equality of two strings.
unfoldable pub bytes_eq : Bytes → Bytes → Bool
bytes_eq [] [] = true
bytes_eq (x ∷ xs) (y ∷ ys) = x == y && bytes_eq xs ys
bytes_eq _ _ = false

unfoldable pub find_service {ℓ} : {S : Type ℓ} → Bytes → List (Bytes × S) → Option S
find_service k [] = none
find_service k ((j, s) ∷ m) = if bytes_eq k j then some s else find_service k m

-- An `int` made an `int64_t`, both as bit patterns.
abbrev pub int64_of_int : ℕ → ℕ
int64_of_int n = if ltb n (2 ^ 31) then n else n + (2 ^ 64 - 2 ^ 32)

module _ (sc : ServiceClass) where
  open sc use {Service, Method, Request, find_method, parse_request, is_null, call}

  -- What a channel does to objects of its callers.
  pub data Effect : Type 0 where
    parsed : Ptr → Bytes → Effect
    ran : Ptr → Effect
    deleted : Ptr → Effect
    closed : Ptr → Effect
    called : Service → Method → Request → ℕ → Effect

  -- `last_id` is the static `_id`. `sent` are the messages given to the codec with the connection
  -- they go to; `pending` the identifiers of the closures made for services and not yet run.
  pub record Channel : Type 0 where
    pub conn : Ptr
    pub last_id : ℕ
    pub outstandings : List (ℕ × OutstandingCall)
    pub services : Option (List (Bytes × Service))
    pub sent : List (Ptr × RpcMessage)
    pub pending : List ℕ
    pub effects : List Effect

  -- RpcChannel::RpcChannel(Conn*); `last_id` is shared by all channels
  pub new_channel : ℕ → Ptr → Channel
  new_channel last_id conn = record {
    conn = conn;
    last_id = last_id;
    outstandings = [];
    services = none;
    sent = [];
    pending = [];
    effects = [];
  }

  -- RpcChannel::RpcChannel(), which does not set `conn`: the pointer is what the memory held
  abbrev pub default_channel : ℕ → Ptr → Channel
  default_channel last_id held = new_channel last_id held

  -- RpcChannel::setConnection and setServices assign their parameters to themselves.
  pub set_connection : Ptr → Channel → Channel
  set_connection conn ch = ch

  pub set_services : List (Bytes × Service) → Channel → Channel
  set_services services ch = ch

  -- `rpcCodeDer.send(conn, message)`
  abbrev pub send : Ptr → RpcMessage → Channel → Channel
  send conn m ch = record ch { sent = ch.sent ++ (conn, m) ∷ [] }

  -- The message of RpcChannel::CallMethod.
  abbrev pub request_message : ℕ → Bytes → Bytes → Bytes → RpcMessage
  request_message id service method request = set_request request (
      set_method method
        (set_service service (set_id id (set_type MessageType.request new_message))))

  -- RpcChannel::CallMethod, with the names and the serialised request
  pub call_method : Bytes → Bytes → Bytes → OutstandingCall → Channel → Channel
  call_method service method request out ch =
      let next = (ch.last_id + 1) % 2 ^ 32 in
      let id = int64_of_int next in
      send ch.conn (request_message id service method request)
        (record ch { last_id = next; outstandings = assign id out ch.outstandings })

  -- The part of RpcChannel::onRpcMessage for a call that was found; a missing one is two NULLs.
  pub finish_call : RpcMessage → OutstandingCall → Channel → Channel
  finish_call m out ch = if out.response == 0 then ch else record ch {
    effects =
        ch.effects
        ++ ((if has_response m then parsed out.response (get_response m) ∷ [] else [])
            ++ ((if out.done == 0 then [] else ran out.done ∷ []) ++ deleted out.response ∷ []));
  }

  pub on_response : RpcMessage → Channel → Run Channel
  on_response m ch =
      if has_response m || has_error m
      then elim (find (get_id m) ch.outstandings) [
        | none ↦ ok (finish_call m (record { response = 0; done = 0 }) ch)
        | some out ↦
            ok (finish_call m out (record ch { outstandings = erase (get_id m) ch.outstandings }))
      ]
      else crash

  -- The outcome of a request: an error code, a failed assert(service), or the call that is made.
  pub data Outcome : Type 0 where
    refuse : ErrorCode → Outcome
    null_service : Outcome
    make : Service → Method → Request → Outcome

  unfoldable pub try_method : Service → Method → Bytes → Outcome
  try_method s f bytes =
      let (fine, req) = parse_request s f bytes in
      if fine then make s f req else refuse ErrorCode.invalid_request

  unfoldable pub try_service : Service → RpcMessage → Outcome
  try_service s m = elim (find_method s (get_method m)) [
    | none ↦ refuse ErrorCode.no_method
    | some f ↦ try_method s f (get_request m)
  ]

  unfoldable pub resolve : Option (List (Bytes × Service)) → RpcMessage → Outcome
  resolve none m = refuse ErrorCode.no_service
  resolve (some table) m = elim (find_service (get_service m) table) [
    | none ↦ refuse ErrorCode.no_service
    | some s ↦ if is_null s then null_service else try_service s m
  ]

  -- The answer that reports an error.
  abbrev pub error_message : ℕ → ErrorCode → RpcMessage
  error_message id e = set_error e (set_id id (set_type MessageType.response new_message))

  -- The answer of RpcChannel::doneCallback.
  abbrev pub response_message : ℕ → Bytes → RpcMessage
  response_message id bytes =
      set_response bytes (set_id id (set_type MessageType.response new_message))

  -- RpcChannel::doneCallback, with the serialised response, from a closure made for `id`; a closure
  -- is gone once it has run
  pub done_callback : Bytes → ℕ → Channel → Run Channel
  done_callback bytes id ch =
      if id == 0
      then crash
      else ok (
          send ch.conn (response_message id bytes)
            (record ch { pending = remove_one id ch.pending }))

  -- The closure made for a service, which is run at once or kept.
  unfoldable pub serve : Option Bytes → ℕ → Channel → Run Channel
  serve none id ch = ok ch
  serve (some bytes) id ch = done_callback bytes id ch

  pub answer : Ptr → RpcMessage → Outcome → Channel → Run Channel
  answer conn m (refuse e) ch = ok (send conn (error_message (get_id m) e) ch)
  answer conn m null_service ch = crash
  answer conn m (make s f req) ch = serve (call s f req) (get_id m) (record ch {
    pending = ch.pending ++ get_id m ∷ [];
    effects = ch.effects ++ called s f req (get_id m) ∷ [];
  })

  -- RpcChannel::onRpcMessage, by the type of the message
  pub on_typed_message : MessageType → Ptr → RpcMessage → Channel → Run Channel
  on_typed_message MessageType.response conn m ch = on_response m ch
  on_typed_message MessageType.request conn m ch = answer conn m (resolve ch.services m) ch
  on_typed_message MessageType.error conn m ch = ok ch
  on_typed_message MessageType.unknow conn m ch = ok ch

  pub on_rpc_message : Ptr → RpcMessage → Channel → Run Channel
  on_rpc_message conn m ch = on_typed_message (get_type m) conn m ch

  -- The loop of RpcChannel::~RpcChannel, which deletes what was not answered; `closed` is the
  -- deletion of a closure.
  pub delete_all : List (ℕ × OutstandingCall) → List Effect
  delete_all [] = []
  delete_all ((id, out) ∷ m) =
      (if out.response == 0 then [] else deleted out.response ∷ [])
      ++ ((if out.done == 0 then [] else closed out.done ∷ []) ++ delete_all m)

  pub destroy : Channel → List Effect
  destroy ch = ch.effects ++ delete_all ch.outstandings
