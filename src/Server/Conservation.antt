-- ===== src/Server/Conservation.antt =====
-- Where a descriptor is, from `acceptCb` of src/tcpServer.cpp to the deletion of its connection.
use m_rpc.Prelude.{
  ℕ, zero, suc, ◌+◌, ◌<◌, ◌≡◌, ◌≢◌, refl, sym, ap, ◌∙◌, Bool, true, false, Option, some, List, [],
  ◌∷◌, ◌++◌, map, length, get_elem?, ◌==◌, ==_iff, if◌then◌else◌, ◌⊎◌, inl, inr, Bool-cases,
  Option-cases, Run, ok, crash, arith,
}
use m_rpc.Server.{
  Thread, Server, exit_code, copies, new_server, modify, send_to, accept_cb, tell_all, quit, handle,
  notify_handler, remove_one, mem, close_conn, buffer_event_cb, choose,
}
use m_rpc.Server.Choice.{choose-IsFirstLeast}
use m_rpc.Server.Counting.{count, count-append, count-remove_one, count_cons}

-- How often a descriptor is in the pipes and connections of the threads.
pub held : ℕ → List Thread → ℕ
unfolding count
held v [] = 0
held v (t ∷ ts) = count v t.pipe + count v t.conns + held v ts

held-modify :
    (v i : ℕ) (f : Thread → Thread) (ts : List Thread) (t : Thread)
    → get_elem? ts i ≡ some t
    → held v (modify i f ts) + (count v t.pipe + count v t.conns)
      ≡ held v ts + (count v (f t).pipe + count v (f t).conns)
unfolding held modify
held-modify v i f [] t e = cc
held-modify v zero f (u ∷ ts) t e = rw (some_eq e) (omega arith)
  where
    some_eq : ◌≡◌ {A = Option Thread} (some u) (some t) → t ≡ u
    some_eq h = cc
held-modify v (suc i) f (u ∷ ts) t e = omega (arith, held-modify v i f ts t e)

-- The descriptor is held, closed, dropped or lost as often as it was accepted.
abbrev pub Conserved : ℕ → Server → Type 0
Conserved v s =
    held v s.threads + count v s.closed + count v s.dropped + count v s.lost ≡ count v s.accepted

-- The events of the server's life.
pub data Step : Server → Server → Type 0 where
  accepts : {s t : Server} (fd : ℕ) (wrote : Bool) → accept_cb fd wrote s ≡ ok t → Step s t
  notifies : {s : Server} (i : ℕ) (made : Bool) → Step s (notify_handler i made s)
  ends : {s : Server} (i fd : ℕ) → Step s (buffer_event_cb i fd s)
  fails : {s : Server} (i fd : ℕ) → Step s (close_conn i fd s)
  quits : {s : Server} (wrote : List Bool) → Step s (quit wrote s)

pub data Reach (s : Server) : Server → Type 0 where
  here : Reach s s
  next : {t u : Server} → Reach s t → Step t u → Reach s u

held-send :
    (v : ℕ) (t : Thread) (w : ℕ) → count v (send_to w t).pipe ≡ count v t.pipe + count v (w ∷ [])
held-send v t w = count-append v t.pipe (w ∷ [])

held-quit :
    (v : ℕ) (wrote : List Bool) (ts : List Thread)
    → v ≢ exit_code
    → held v (tell_all wrote ts) ≡ held v ts
unfolding held tell_all
held-quit v [] ts ne = refl
held-quit v (w ∷ ws) [] ne = refl
held-quit v (true ∷ ws) (t ∷ ts) ne =
    let none_more : count v (exit_code ∷ []) ≡ 0 = unfold count in ground arith in
    omega (arith, held-quit v ws ts ne, held-send v t exit_code)
held-quit v (false ∷ ws) (t ∷ ts) ne = omega (arith, held-quit v ws ts ne)

held-get : (i : ℕ) (ts : List Thread) → i < length ts → (t : Thread) × (get_elem? ts i ≡ some t)
held-get i [] h = absurd (omega arith)
held-get zero (t ∷ ts) h = (t, refl)
held-get (suc i) (t ∷ ts) h = held-get i ts (omega arith)

length-map : (f : Thread → ℕ) (ts : List Thread) → length (map f ts) ≡ length ts
length-map f [] = refl
length-map f (t ∷ ts) = ap suc (length-map f ts)

count-one : (v w : ℕ) → count v (w ∷ []) ≡ (if v == w then 1 else 0)
unfolding count
count-one v w = omega arith

List-cases : {A : Type 0} (l : List A) → (l ≡ []) ⊎ ((a : A) × (r : List A) × (l ≡ a ∷ r))
List-cases [] = inl refl
List-cases (a ∷ r) = inr (a, r, refl)

held-handle :
    (v i : ℕ) (made : Bool) (confd : ℕ) (rest : List ℕ) (s : Server) (t : Thread)
    → v ≢ exit_code
    → get_elem? s.threads i ≡ some t
    → t.pipe ≡ confd ∷ rest
    → Conserved v s
    → Conserved v (handle i made confd rest s)
unfolding handle
held-handle v i made confd rest s t ne there full inv =
    let front : count v t.pipe ≡ (if v == confd then 1 else 0) + count v rest =
      ap (count v) full ∙ count_cons v confd rest in
    elim (Bool-cases (confd == exit_code)) [
      | inl leave ↦
          let stop = λ (t : Thread). record t { pipe = rest; running = false } in
          rw leave
            (omega (arith, inv, front, held-modify v i stop s.threads t there, other confd leave))
      | inr stay ↦ rw stay (elim (Bool-cases made) [
        | inl ready ↦
            let add = λ (t : Thread). record t { pipe = rest; conns = confd ∷ t.conns } in
            rw ready (
              omega (
                arith,
                inv,
                front,
                held-modify v i add s.threads t there,
                count_cons v confd t.conns,
              ))
        | inr failed ↦
            let skip = λ (t : Thread). record t { pipe = rest } in
            rw failed (
              omega (
                arith,
                inv,
                front,
                held-modify v i skip s.threads t there,
                count-append v s.dropped (confd ∷ []),
                count-one v confd,
              ))
      ])
    ]
  where
    other : (w : ℕ) → (w == exit_code) ≡ true → ◌≡◌ {A = ℕ} (if v == w then 1 else 0) 0
    other w same = ground (arith, ne, (==_iff w exit_code).0 same)

held-removed :
    (v i fd : ℕ) (s : Server) (t : Thread)
    → get_elem? s.threads i ≡ some t
    → mem fd t.conns ≡ true
    → Conserved v s
    → held v (modify i (λ t. record t { conns = remove_one fd t.conns }) s.threads)
        + count v (s.closed ++ fd ∷ [])
        + count v s.dropped
        + count v s.lost
      ≡ count v s.accepted
held-removed v i fd s t there member inv =
    let gone = λ (t : Thread). record t { conns = remove_one fd t.conns } in
    omega (
      arith,
      inv,
      held-modify v i gone s.threads t there,
      count-remove_one v fd t.conns member,
      count-append v s.closed (fd ∷ []),
      count-one v fd,
    )

held-close_conn : (v i fd : ℕ) (s : Server) → Conserved v s → Conserved v (close_conn i fd s)
unfolding close_conn
held-close_conn v i fd s inv = elim (Option-cases (get_elem? s.threads i)) [
  | inl none_there ↦ rw (none_there, close_conn) inv
  | inr (t, there) ↦
      rw (there, close_conn)
        (elim (Bool-cases (mem fd t.conns)) [
          | inr absent ↦ rw absent inv
          | inl member ↦ rw member (held-removed v i fd s t there member inv)
        ])
]

held-buffer_event : (v i fd : ℕ) (s : Server) → Conserved v s → Conserved v (buffer_event_cb i fd s)
unfolding buffer_event_cb
held-buffer_event v i fd s inv = elim (Option-cases (get_elem? s.threads i)) [
  | inl none_there ↦ rw (none_there, buffer_event_cb) inv
  | inr (t, there) ↦
      rw (there, buffer_event_cb)
        (elim (Bool-cases (mem fd t.conns)) [
          | inr absent ↦ rw absent inv
          | inl member ↦ rw member (held-removed v i fd s t there member inv)
        ])
]

-- The thread that `acceptCb` chooses is there.
held-send_chosen :
    (v fd : ℕ) (u : Thread) (us : List Thread)
    → held v (modify (choose (map (λ t. length t.conns) (u ∷ us))) (send_to fd) (u ∷ us))
      ≡ held v (u ∷ us) + count v (fd ∷ [])
held-send_chosen v fd u us =
    let counts = λ (t : Thread). length t.conns in
    let num = choose (map counts (u ∷ us)) in
    let inside : num < length (map counts (u ∷ us)) =
      (choose-IsFirstLeast (counts u) (map counts us)).inside in
    let (t, there) = held-get num (u ∷ us) (rw (sym (length-map counts (u ∷ us))) inside) in
    omega (arith, held-modify v num (send_to fd) (u ∷ us) t there, held-send v t fd)

crashed : (t : Server) → ◌≡◌ {A = Run Server} crash (ok t) → ⊥
crashed t h = cc

ok_eq : (a t : Server) → ◌≡◌ {A = Run Server} (ok a) (ok t) → a ≡ t
ok_eq a t h = cc

held-accept :
    (v fd : ℕ) (wrote : Bool) (s t : Server)
    → accept_cb fd wrote s ≡ ok t
    → Conserved v s
    → Conserved v t
unfolding accept_cb
held-accept v fd wrote s t e inv = elim (List-cases s.threads) [
  | inl none_there ↦ absurd (crashed t (rw (none_there, accept_cb) at e))
  | inr (u, us, some_there) ↦
      let num = choose (map (λ t. length t.conns) s.threads) in
      elim (Bool-cases wrote) [
        | inl sent ↦
            let after : Server = record s {
              threads = modify num (send_to fd) s.threads;
              accepted = s.accepted ++ fd ∷ [];
            } in
            let run : ok after ≡ ok t = rw (some_there, sent, accept_cb) at e in
            let more : held v after.threads ≡ held v s.threads + count v (fd ∷ []) =
              rw some_there (held-send_chosen v fd u us) in
            rw (sym (ok_eq after t run))
              (omega (arith, inv, more, count-append v s.accepted (fd ∷ [])))
        | inr failed ↦
            let after : Server = record s {
              accepted = s.accepted ++ fd ∷ [];
              lost = s.lost ++ fd ∷ [];
            } in
            let run : ok after ≡ ok t = rw (some_there, failed, accept_cb) at e in
            rw (sym (ok_eq after t run)) (
              omega
                (arith, inv, count-append v s.accepted (fd ∷ []), count-append v s.lost (fd ∷ [])))
      ]
]

held-notify :
    (v i : ℕ) (made : Bool) (s : Server)
    → v ≢ exit_code
    → Conserved v s
    → Conserved v (notify_handler i made s)
unfolding notify_handler
held-notify v i made s ne inv = elim (Option-cases (get_elem? s.threads i)) [
  | inl none_there ↦ rw (none_there, notify_handler) inv
  | inr (t, there) ↦
      rw (there, notify_handler)
        (elim (List-cases t.pipe) [
          | inl empty ↦ rw empty inv
          | inr (confd, rest, full) ↦ rw full (elim (Bool-cases t.running) [
            | inl runs ↦ rw runs (held-handle v i made confd rest s t ne there full inv)
            | inr done ↦ rw done inv
          ])
        ])
]

copies-held : (v n : ℕ) → held v (copies n) ≡ 0
unfolding held count
copies-held v zero = refl
copies-held v (suc n) = omega (arith, copies-held v n)

Step-Conserved : (v : ℕ) {s t : Server} → v ≢ exit_code → Step s t → Conserved v s → Conserved v t
unfolding quit
Step-Conserved v ne (accepts {s} {t} fd wrote e) inv = held-accept v fd wrote s t e inv
Step-Conserved v ne (notifies {s} i made) inv = held-notify v i made s ne inv
Step-Conserved v ne (ends {s} i fd) inv = held-buffer_event v i fd s inv
Step-Conserved v ne (fails {s} i fd) inv = held-close_conn v i fd s inv
Step-Conserved v ne (quits {s} wrote) inv = omega (arith, inv, held-quit v wrote s.threads ne)

-- However accepted sockets, notifications, ended connections, errors of the codec and calls of
-- `quit` follow each other, with any of their writes failing, on a server of any number of threads:
-- every descriptor but EXIT_CODE was accepted as often as it is in a pipe, in a connection, closed,
-- dropped for want of a bufferevent, or lost by a write that failed. A read of a pipe that has a
-- descriptor gives all of it.
pub Reach-Conserved :
    (v n : ℕ) {s : Server} → v ≢ exit_code → Reach (new_server n) s → Conserved v s
unfolding new_server count
Reach-Conserved v n ne here = omega (arith, copies-held v n)
Reach-Conserved v n ne (next r step) = Step-Conserved v ne step (Reach-Conserved v n ne r)
