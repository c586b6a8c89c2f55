-- ===== src/Channel/Refusals.antt =====
-- What a channel of src/rpcChannel.cpp answers to requests, from its constructor on.
use m_rpc.Prelude.{
  ℕ, ◌≡◌, refl, sym, ap, ◌∙◌, Bool, true, false, Bool-cases, ◌||◌, inl, inr, none, Option-cases,
  List, [], ◌∷◌, ◌++◌, append-nil, append_assoc, ◌==◌, Run, ok, crash,
}
use m_rpc.Endian.{Bytes}
use m_rpc.Message.{MessageType, ErrorCode, RpcMessage, get_type, get_id, has_response, has_error}
use m_rpc.Channel.{
  Ptr, ServiceClass, OutstandingCall, find, Channel, call_method, finish_call, on_response,
  on_typed_message, on_rpc_message, resolve, answer, error_message, done_callback, set_services,
  set_connection, new_channel,
}

-- The message, when it is of the type REQUEST.
abbrev pub if_request : MessageType → Ptr × RpcMessage → List (Ptr × RpcMessage)
if_request MessageType.request e = e ∷ []
if_request _ e = []

-- The message, when it is of the type RESPONSE.
abbrev pub if_response : MessageType → Ptr × RpcMessage → List (Ptr × RpcMessage)
if_response MessageType.response e = e ∷ []
if_response _ e = []

-- The RESPONSE messages among those that were sent.
pub responses : List (Ptr × RpcMessage) → List (Ptr × RpcMessage)
responses [] = []
responses ((conn, m) ∷ ms) = if_response (get_type m) (conn, m) ++ responses ms

pub has_id : ℕ → List ℕ → Bool
has_id id [] = false
has_id id (j ∷ js) = id == j || has_id id js

responses-append :
    (ms ns : List (Ptr × RpcMessage)) → responses (ms ++ ns) ≡ responses ms ++ responses ns
unfolding responses
responses-append [] ns = refl
responses-append ((conn, m) ∷ ms) ns =
    ap (λ t. if_response (get_type m) (conn, m) ++ t) (responses-append ms ns)
    ∙ sym (append_assoc (if_response (get_type m) (conn, m)) (responses ms) (responses ns))

module _ (sc : ServiceClass) where
  open sc use {Service}

  -- What happens to a channel, with the requests that it was given, in their order: its own calls
  -- and those of other channels, which change the counter, messages that do not end the process,
  -- runs of closures that were made for services, and its two setters.
  pub data History (ch : Channel sc) : List (Ptr × RpcMessage) → Channel sc → Type 0 where
    here : History ch [] ch
    calls :
        {asked : List (Ptr × RpcMessage)} {c : Channel sc} (service method bytes : Bytes)
        (out : OutstandingCall)
        → History ch asked c
        → History ch asked (call_method sc service method bytes out c)
    others :
        {asked : List (Ptr × RpcMessage)} {c : Channel sc} (n : ℕ)
        → History ch asked c
        → History ch asked (record c { last_id = n })
    receives :
        {asked : List (Ptr × RpcMessage)} {c d : Channel sc} (conn : Ptr) (m : RpcMessage)
        → on_rpc_message sc conn m c ≡ ok d
        → History ch asked c
        → History ch (asked ++ if_request (get_type m) (conn, m)) d
    answers :
        {asked : List (Ptr × RpcMessage)} {c d : Channel sc} (bytes : Bytes) (id : ℕ)
        → has_id id c.pending ≡ true
        → done_callback sc bytes id c ≡ ok d
        → History ch asked c
        → History ch asked d
    sets :
        {asked : List (Ptr × RpcMessage)} {c : Channel sc} (conn : Ptr)
        (table : List (Bytes × Service))
        → History ch asked c
        → History ch asked (set_services sc table (set_connection sc conn c))

  -- A NO_SERVICE error for every request, on the connection it came from.
  pub refusals : List (Ptr × RpcMessage) → List (Ptr × RpcMessage)
  refusals [] = []
  refusals ((conn, m) ∷ ms) = (conn, error_message sc (get_id m) ErrorCode.no_service) ∷ refusals ms

  refusals-append :
      (ms ns : List (Ptr × RpcMessage)) → refusals (ms ++ ns) ≡ refusals ms ++ refusals ns
  unfolding refusals
  refusals-append [] ns = refl
  refusals-append ((conn, m) ∷ ms) ns =
      ap (λ t. (conn, error_message sc (get_id m) ErrorCode.no_service) ∷ t) (refusals-append ms ns)

  -- A channel without services that has refused what it was asked.
  pub record Refusing (asked : List (Ptr × RpcMessage)) (ch : Channel sc) : Type 0 where
    pub services : ch.services ≡ none
    pub pending : ch.pending ≡ []
    pub answered : responses ch.sent ≡ refusals asked

  -- Two channels that differ only in their calls and effects.
  record Alike (c d : Channel sc) : Type 0 where
    services : d.services ≡ c.services
    pending : d.pending ≡ c.pending
    sent : d.sent ≡ c.sent

  ok_eq : (c d : Channel sc) → ◌≡◌ {A = Run (Channel sc)} (ok c) (ok d) → d ≡ c
  ok_eq c d h = cc

  no_crash : (d : Channel sc) → ◌≡◌ {A = Run (Channel sc)} crash (ok d) → ⊥
  no_crash d h = cc

  finish_call-Alike :
      (m : RpcMessage) (out : OutstandingCall) (c : Channel sc) → Alike c (finish_call sc m out c)
  unfolding finish_call
  finish_call-Alike m out c = elim (Bool-cases (out.response == 0)) [
    | inl e ↦ rw (e, finish_call) (record { services = refl; pending = refl; sent = refl })
    | inr e ↦ rw (e, finish_call) (record { services = refl; pending = refl; sent = refl })
  ]

  on_response-Alike : (m : RpcMessage) (c d : Channel sc) → on_response sc m c ≡ ok d → Alike c d
  unfolding on_response
  on_response-Alike m c d h = elim (Bool-cases (has_response m || has_error m)) [
    | inr bare ↦ absurd (no_crash d (rw (bare, on_response) at h))
    | inl full ↦ elim (Option-cases (find (get_id m) c.outstandings)) [
      | inl missing ↦
          rw (ok_eq _ d (rw (full, missing, on_response) at h))
            (finish_call-Alike m (record { response = 0; done = 0 }) c)
      | inr (out, found) ↦ rw (ok_eq _ d (rw (full, found, on_response) at h)) (
          let same = finish_call-Alike m out _ in
          record { services = same.services; pending = same.pending; sent = same.sent })
    ]
  ]

  Alike-Refusing :
      (asked : List (Ptr × RpcMessage)) (c d : Channel sc)
      → Alike c d
      → Refusing asked c
      → Refusing (asked ++ []) d
  Alike-Refusing asked c d same old = record {
    services = same.services ∙ old.services;
    pending = same.pending ∙ old.pending;
    answered = ap responses same.sent ∙ old.answered ∙ ap refusals (sym (append-nil asked));
  }

  on_typed_message-Refusing :
      (t : MessageType) (asked : List (Ptr × RpcMessage)) (conn : Ptr) (m : RpcMessage)
      (c d : Channel sc)
      → on_typed_message sc t conn m c ≡ ok d
      → Refusing asked c
      → Refusing (asked ++ if_request t (conn, m)) d
  unfolding on_typed_message resolve answer responses refusals
  on_typed_message-Refusing MessageType.response asked conn m c d h old =
      Alike-Refusing asked c d (on_response-Alike m c d h) old
  on_typed_message-Refusing MessageType.request asked conn m c d h old =
      rw (ok_eq _ d (rw (old.services) at h)) (record {
        services = refl;
        pending = old.pending;
        answered =
            responses-append c.sent _
            ∙ ap (λ t. t ++ refusals ((conn, m) ∷ [])) old.answered
            ∙ sym (refusals-append asked ((conn, m) ∷ []));
      })
  on_typed_message-Refusing MessageType.error asked conn m c d h old =
      rw (ok_eq c d h)
        (Alike-Refusing asked c c (record { services = refl; pending = refl; sent = refl }) old)
  on_typed_message-Refusing MessageType.unknow asked conn m c d h old =
      rw (ok_eq c d h)
        (Alike-Refusing asked c c (record { services = refl; pending = refl; sent = refl }) old)

  no_closure : (id : ℕ) (ids : List ℕ) → ids ≡ [] → has_id id ids ≡ true → ⊥
  unfolding has_id
  no_closure id [] e h = cc
  no_closure id (j ∷ js) e h = cc

  -- From a channel's constructor on, whatever calls, messages, runs of closures and uses of its
  -- setters there were, it has no services and no closure is waiting, and the RESPONSE messages that
  -- it sent are exactly one NO_SERVICE error for each REQUEST it was given, in their order, each
  -- with the request's identifier and on the connection that the request came from.
  pub History-Refusing :
      (last_id : ℕ) (own : Ptr) {asked : List (Ptr × RpcMessage)} {ch : Channel sc}
      → History (new_channel sc last_id own) asked ch
      → Refusing asked ch
  unfolding new_channel call_method on_rpc_message responses refusals set_services set_connection
  History-Refusing last_id own here = record { services = refl; pending = refl; answered = refl }
  History-Refusing last_id own (calls {asked} {c} service method bytes out past) =
      let old = History-Refusing last_id own past in
      record {
        services = old.services;
        pending = old.pending;
        answered = responses-append c.sent _ ∙ append-nil (responses c.sent) ∙ old.answered;
      }
  History-Refusing last_id own (others n past) =
      let old = History-Refusing last_id own past in
      record { services = old.services; pending = old.pending; answered = old.answered }
  History-Refusing last_id own (receives {asked} {c} {d} conn m h past) =
      on_typed_message-Refusing (get_type m) asked conn m c d h (History-Refusing last_id own past)
  History-Refusing last_id own (answers {asked} {c} bytes id kept h past) =
      absurd (no_closure id c.pending (History-Refusing last_id own past).pending kept)
  History-Refusing last_id own (sets conn table past) = History-Refusing last_id own past
