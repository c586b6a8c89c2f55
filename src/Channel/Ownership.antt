-- ===== src/Channel/Ownership.antt =====
-- The response objects handed to RpcChannel::CallMethod of src/rpcChannel.cpp, up to their deletion.
use m_rpc.Prelude.{
  ℕ, ◌+◌, ◌%◌, ◌^◌, ◌≤◌, ◌<◌, ◌≡◌, ◌≢◌, inl, inr, refl, sym, ap, ◌∙◌, false, ◌||◌, Bool-cases,
  Option-cases, Option, none, some, List, [], ◌∷◌, ◌==◌, ==_iff, ne→==_false, lt→ltb, if◌then◌else◌,
  Run, ok, crash, arith,
}
use m_rpc.Endian.{Bytes}
use m_rpc.Message.{MessageType, RpcMessage, get_type, get_id, get_response, has_response, has_error}
use m_rpc.Channel.{
  Ptr, ServiceClass, OutstandingCall, find, erase, assign, Channel, called, call_method,
  finish_call, on_response, on_typed_message, on_rpc_message, Outcome, refuse, null_service, make,
  resolve, serve, answer, done_callback, new_channel, delete_all, destroy,
}
use m_rpc.Channel.Calls.{
  Counting, call_method_lem, on_response-missing, on_response-found, Below-mono, Below-erase,
}
use m_rpc.Channel.Unique.{waits, IsUnique, erase-none, erase-IsUnique, waits-erase}
use m_rpc.Channel.Deletions.{deletions, deletions-append, deletions-delete_all, deletions-finished}

module _ (sc : ServiceClass) where
  -- What happens to a channel: calls while the counter is below 2 ^ 31 - 1, calls of other channels,
  -- which share the counter, messages that do not end the process, and answers of services. The
  -- list has the response objects handed to `CallMethod`, the last one first.
  pub data Reach (ch : Channel sc) : List Ptr → Channel sc → Type 0 where
    here : Reach ch [] ch
    calls :
        {handed : List Ptr} {c : Channel sc} (service method bytes : Bytes) (out : OutstandingCall)
        → c.last_id + 1 < 2 ^ 31
        → Reach ch handed c
        → Reach ch (out.response ∷ handed) (call_method sc service method bytes out c)
    others :
        {handed : List Ptr} {c : Channel sc} (n : ℕ)
        → c.last_id ≤ n
        → n < 2 ^ 31
        → Reach ch handed c
        → Reach ch handed (record c { last_id = n })
    receives :
        {handed : List Ptr} {c d : Channel sc} (conn : Ptr) (m : RpcMessage)
        → on_rpc_message sc conn m c ≡ ok d
        → Reach ch handed c
        → Reach ch handed d
    answers :
        {handed : List Ptr} {c d : Channel sc} (bytes : Bytes) (id : ℕ)
        → done_callback sc bytes id c ≡ ok d
        → Reach ch handed c
        → Reach ch handed d

  pub count : Ptr → List Ptr → ℕ
  count v [] = 0
  count v (p ∷ ps) = (if v == p then 1 else 0) + count v ps

  record Owned (v : Ptr) (handed : List Ptr) (ch : Channel sc) : Type 0 where
    counting : Counting sc ch
    unique : IsUnique ch.outstandings
    balance : deletions sc v ch.effects + waits v ch.outstandings ≡ count v handed

  ok_eq : (c d : Channel sc) → ◌≡◌ {A = Run (Channel sc)} (ok c) (ok d) → d ≡ c
  ok_eq c d h = cc

  no_crash : (d : Channel sc) → ◌≡◌ {A = Run (Channel sc)} crash (ok d) → ⊥
  no_crash d h = cc

  call_method-Owned :
      (v : ℕ) (handed : List Ptr) (service method bytes : Bytes) (out : OutstandingCall)
      (c : Channel sc)
      → c.last_id + 1 < 2 ^ 31
      → Owned v handed c
      → Owned v (out.response ∷ handed) (call_method sc service method bytes out c)
  unfolding call_method assign count waits
  call_method-Owned v handed service method bytes out c fits own =
      let (fresh, found, other_calls, sent, counts) =
        call_method_lem sc service method bytes out c own.counting fits in
      let next : (c.last_id + 1) % 2 ^ 32 ≡ c.last_id + 1 = omega arith in
      let kept = erase-none (c.last_id + 1) c.outstandings fresh in
      record {
        counting = counts;
        unique = rw (next, lt→ltb (c.last_id + 1) (2 ^ 31) fits, kept) (fresh, own.unique);
        balance =
            rw (next, lt→ltb (c.last_id + 1) (2 ^ 31) fits, kept) (omega (arith, own.balance));
      }

  finish_call-Owned :
      (v : ℕ) (handed : List Ptr) (m : RpcMessage) (out : OutstandingCall) (c : Channel sc)
      → v ≢ 0
      → find (get_id m) c.outstandings ≡ some out
      → Owned v handed c
      → Owned v handed
          (finish_call sc m out (record c { outstandings = erase (get_id m) c.outstandings }))
  unfolding finish_call
  finish_call-Owned v handed m out c ne found own =
      let rest = erase (get_id m) c.outstandings in
      let counts : Counting sc (record c { outstandings = rest }) = record {
        below = Below-erase c.last_id (get_id m) c.outstandings own.counting.below;
        positive = own.counting.positive;
      } in
      let unique = erase-IsUnique (get_id m) c.outstandings own.unique in
      let erased = waits-erase v (get_id m) out c.outstandings own.unique found in
      elim (Bool-cases (out.response == 0)) [
        | inl e ↦
            let missing : (v == out.response) ≡ false =
              ne→==_false v out.response (λ h. ne (h ∙ (==_iff out.response 0).0 e)) in
            let same : waits v rest ≡ waits v c.outstandings =
              omega (arith, rw missing at erased) in
            rw (e, finish_call)
              (record {
                counting = counts;
                unique = unique;
                balance = omega (arith, same, own.balance);
              })
        | inr e ↦
            rw (e, finish_call)
              (record {
                counting = record { below = counts.below; positive = counts.positive };
                unique = unique;
                balance = omega (
                  arith,
                  erased,
                  own.balance,
                  deletions-append sc v c.effects _,
                  deletions-finished sc v out.response (get_response m) (has_response m) out.done,
                );
              })
      ]

  on_response-Owned :
      (v : ℕ) (handed : List Ptr) (m : RpcMessage) (c d : Channel sc)
      → v ≢ 0
      → on_response sc m c ≡ ok d
      → Owned v handed c
      → Owned v handed d
  unfolding on_response
  on_response-Owned v handed m c d ne h own = elim (Bool-cases (has_response m || has_error m)) [
    | inr bare ↦ absurd (no_crash d (rw (bare, on_response) at h))
    | inl full ↦ elim (Option-cases (find (get_id m) c.outstandings)) [
      | inl missing ↦ rw (ok_eq c d (sym (on_response-missing sc m c full missing) ∙ h)) own
      | inr (out, found) ↦
          rw (ok_eq _ d (sym (on_response-found sc m out c full found) ∙ h))
            (finish_call-Owned v handed m out c ne found own)
    ]
  ]

  done_callback-Owned :
      (v : ℕ) (handed : List Ptr) (bytes : Bytes) (id : ℕ) (c d : Channel sc)
      → done_callback sc bytes id c ≡ ok d
      → Owned v handed c
      → Owned v handed d
  unfolding done_callback
  done_callback-Owned v handed bytes id c d h own = elim (Bool-cases (id == 0)) [
    | inl zero_id ↦ absurd (no_crash d (rw (zero_id, done_callback) at h))
    | inr other ↦ rw (ok_eq _ d (rw (other, done_callback) at h)) (record {
      counting = record { below = own.counting.below; positive = own.counting.positive };
      unique = own.unique;
      balance = own.balance;
    })
  ]

  serve-Owned :
      (v : ℕ) (handed : List Ptr) (o : Option Bytes) (id : ℕ) (c d : Channel sc)
      → serve sc o id c ≡ ok d
      → Owned v handed c
      → Owned v handed d
  unfolding serve
  serve-Owned v handed none id c d h own = rw (ok_eq c d h) own
  serve-Owned v handed (some bytes) id c d h own = done_callback-Owned v handed bytes id c d h own

  answer-Owned :
      (v : ℕ) (handed : List Ptr) (conn : Ptr) (m : RpcMessage) (o : Outcome sc) (c d : Channel sc)
      → answer sc conn m o c ≡ ok d
      → Owned v handed c
      → Owned v handed d
  unfolding answer deletions
  answer-Owned v handed conn m (refuse e) c d h own = rw (ok_eq _ d h) (record {
    counting = record { below = own.counting.below; positive = own.counting.positive };
    unique = own.unique;
    balance = own.balance;
  })
  answer-Owned v handed conn m null_service c d h own = absurd (no_crash d h)
  answer-Owned v handed conn m (make s f req) c d h own =
      serve-Owned v handed (sc.call s f req) (get_id m) _ d h (record {
        counting = record { below = own.counting.below; positive = own.counting.positive };
        unique = own.unique;
        balance =
            omega (
              arith,
              own.balance,
              deletions-append sc v c.effects (called s f req (get_id m) ∷ []),
            );
      })

  on_typed_message-Owned :
      (t : MessageType) (v : ℕ) (handed : List Ptr) (conn : Ptr) (m : RpcMessage) (c d : Channel sc)
      → v ≢ 0
      → on_typed_message sc t conn m c ≡ ok d
      → Owned v handed c
      → Owned v handed d
  unfolding on_typed_message
  on_typed_message-Owned MessageType.response v handed conn m c d ne h own =
      on_response-Owned v handed m c d ne h own
  on_typed_message-Owned MessageType.request v handed conn m c d ne h own =
      answer-Owned v handed conn m (resolve sc c.services m) c d h own
  on_typed_message-Owned MessageType.error v handed conn m c d ne h own = rw (ok_eq c d h) own
  on_typed_message-Owned MessageType.unknow v handed conn m c d ne h own = rw (ok_eq c d h) own

  Reach-Owned :
      (v last_id : ℕ) (conn : Ptr) {handed : List Ptr} {ch : Channel sc}
      → v ≢ 0
      → last_id < 2 ^ 31
      → Reach (new_channel sc last_id conn) handed ch
      → Owned v handed ch
  unfolding new_channel on_rpc_message deletions waits count
  Reach-Owned v last_id conn ne fits here = record {
    counting = record { below = tt; positive = fits };
    unique = tt;
    balance = refl;
  }
  Reach-Owned v last_id conn ne fits (calls {handed} {c} service method bytes out below r) =
      call_method-Owned v handed service method bytes out c below
        (Reach-Owned v last_id conn ne fits r)
  Reach-Owned v last_id conn ne fits (others {handed} {c} n le small r) =
      let own = Reach-Owned v last_id conn ne fits r in
      record {
        counting = record {
          below = Below-mono c.last_id n c.outstandings le own.counting.below;
          positive = small;
        };
        unique = own.unique;
        balance = own.balance;
      }
  Reach-Owned v last_id conn ne fits (receives {handed} {c} {d} from m h r) =
      on_typed_message-Owned (get_type m) v handed from m c d ne h
        (Reach-Owned v last_id conn ne fits r)
  Reach-Owned v last_id conn ne fits (answers {handed} {c} {d} bytes id h r) =
      done_callback-Owned v handed bytes id c d h (Reach-Owned v last_id conn ne fits r)

  -- From the constructor to the destructor, whatever calls below identifier 2 ^ 31 and whatever
  -- messages there were: an object other than NULL is deleted as often as it was handed to
  -- `CallMethod` as a response.
  pub destroy-deletions :
      (v last_id : ℕ) (conn : Ptr) {handed : List Ptr} {ch : Channel sc}
      → v ≢ 0
      → last_id < 2 ^ 31
      → Reach (new_channel sc last_id conn) handed ch
      → deletions sc v (destroy sc ch) ≡ count v handed
  unfolding destroy
  destroy-deletions v last_id conn {handed} {ch} ne fits r =
      deletions-append sc v ch.effects (delete_all sc ch.outstandings)
      ∙ ap (λ n. deletions sc v ch.effects + n) (deletions-delete_all sc v ch.outstandings ne)
      ∙ (Reach-Owned v last_id conn ne fits r).balance
