-- ===== src/Server/Serving.antt =====
-- A thread of src/tcpServer.cpp in both models: the callbacks of the event loop on `Server`, and the
-- calls that they make on the thread's linked queue.
mod Examples
use mathlib.Core.Path.{subst}
use m_rpc.Prelude.{
  ℕ, ◌%◌, ◌^◌, ◌≡◌, ◌≢◌, refl, sym, ap, ◌∙◌, true, false, none, some, List, [], ◌∷◌, ◌++◌, length,
  get_elem?, ◌==◌, ok,
}
use m_rpc.ConnQueue.{
  Ptr, null, Heap, ConnQueue, construct, get_count, insert_conn, delete_conn, has, IsQueue,
}
use m_rpc.Server.{
  Thread, Server, exit_code, modify, handle, notify_handler, buffer_event_cb, mem, remove_one,
}
use m_rpc.Server.Progress.{get_elem?-modify, notify_handler-handle, handled}
use m_rpc.Server.Queues.{Runs, starts, inserts, deletes, ptrs, fds, Holding, Runs_lem}

-- The events of thread `i`, whose object is `t`, with the calls that its callbacks make on the
-- queue: a descriptor is taken off the pipe and a new connection inserted, or a connection ends and
-- is deleted. Events that leave the thread's connections alone come in between. `new` returns an
-- unused address, and an open socket has a descriptor of its own.
pub data Serves (t : Ptr) (i : ℕ)
    : Server → Thread → ConnQueue → Heap → List (Ptr × ℕ) → Type 0 where
  begins :
      {q : ConnQueue} {g : Heap} (s : Server) (th : Thread) (h : Heap) (a b : Ptr)
      → get_elem? s.threads i ≡ some th
      → th.conns ≡ []
      → a ≢ null
      → b ≢ null
      → a ≢ b
      → construct a b h ≡ ok (q, g)
      → Serves t i s th q g []
  takes :
      {s s' : Server} {th th' : Thread} {q q' : ConnQueue} {h g : Heap} {cs : List (Ptr × ℕ)}
      (rest : List ℕ) (c fd r : ℕ)
      → Serves t i s th q h cs
      → th.running ≡ true
      → th.pipe ≡ fd ∷ rest
      → (fd == exit_code) ≡ false
      → h c ≡ none
      → c ≢ null
      → has fd th.conns ≡ false
      → notify_handler i true s ≡ s'
      → get_elem? s'.threads i ≡ some th'
      → insert_conn c fd t q h ≡ ok ((r, q'), g)
      → Serves t i s' th' q' g ((c, fd) ∷ cs)
  ends :
      {s s' : Server} {th th' : Thread} {q q' : ConnQueue} {h g : Heap} (xs ys : List (Ptr × ℕ))
      (c fd : ℕ)
      → Serves t i s th q h (xs ++ (c, fd) ∷ ys)
      → mem fd th.conns ≡ true
      → buffer_event_cb i fd s ≡ s'
      → get_elem? s'.threads i ≡ some th'
      → delete_conn c q h ≡ ok (q', g)
      → Serves t i s' th' q' g (xs ++ ys)
  others :
      {s : Server} {th : Thread} {q : ConnQueue} {h : Heap} {cs : List (Ptr × ℕ)} (s' : Server)
      (th' : Thread)
      → Serves t i s th q h cs
      → get_elem? s'.threads i ≡ some th'
      → th'.conns ≡ th.conns
      → Serves t i s' th' q h cs

some_eq : (a b : Thread) → some a ≡ some b → b ≡ a
some_eq a b h = cc

-- What `notifyHandler` makes of the thread's connections.
taken :
    (i : ℕ) (s s' : Server) (th th' : Thread) (fd : ℕ) (rest : List ℕ)
    → get_elem? s.threads i ≡ some th
    → th.running ≡ true
    → th.pipe ≡ fd ∷ rest
    → (fd == exit_code) ≡ false
    → notify_handler i true s ≡ s'
    → get_elem? s'.threads i ≡ some th'
    → th'.conns ≡ fd ∷ th.conns
taken i s s' th th' fd rest there runs full stays step after =
    let moved = notify_handler-handle i true s th fd rest there runs full in
    let now =
      sym (handled i true s th fd rest there stays)
      ∙ ap (λ (x : Server). get_elem? x.threads i) (sym moved ∙ step)
      ∙ after in
    ap (λ (x : Thread). x.conns) (some_eq _ th' now)

-- What `bufferEventCb` makes of them.
ended :
    (i : ℕ) (s s' : Server) (th th' : Thread) (fd : ℕ)
    → get_elem? s.threads i ≡ some th
    → mem fd th.conns ≡ true
    → buffer_event_cb i fd s ≡ s'
    → get_elem? s'.threads i ≡ some th'
    → th'.conns ≡ remove_one fd th.conns
unfolding buffer_event_cb
ended i s s' th th' fd there member step after =
    let gone = λ (t : Thread). record t { conns = remove_one fd t.conns } in
    let run : get_elem? (buffer_event_cb i fd s).threads i ≡ some (gone th) =
      rw (there, member, buffer_event_cb) (get_elem?-modify i gone s.threads th there) in
    ap (λ (x : Thread). x.conns)
      (some_eq _ th' (sym run ∙ ap (λ (x : Server). get_elem? x.threads i) step ∙ after))

Serves-there :
    {t : Ptr} {i : ℕ} {s : Server} {th : Thread} {q : ConnQueue} {h : Heap} {cs : List (Ptr × ℕ)}
    → Serves t i s th q h cs
    → get_elem? s.threads i ≡ some th
Serves-there (begins s th h a b there empty a≢ b≢ ne run) = there
Serves-there (takes rest c fd r before runs full stays free c≢ new_fd step after run) = after
Serves-there (ends xs ys c fd before member step after run) = after
Serves-there (others s' th' before after same) = after

Serves-Runs :
    {t : Ptr} {i : ℕ} {s : Server} {th : Thread} {q : ConnQueue} {h : Heap} {cs : List (Ptr × ℕ)}
    → Serves t i s th q h cs
    → Runs t q h cs th.conns
Serves-Runs {t} {i} {q = q} {h = g} (begins s th h a b there empty a≢ b≢ ne run) =
    subst (λ l. Runs t q g [] l) (sym empty) (starts h a b a≢ b≢ ne run)
Serves-Runs {t} {i} {s = s'} {th = th'} {q = q'} {h = g}
      (takes {s = s} {th = th} {q = q} {h = h} {cs = cs} rest c fd r before runs full stays free c≢
        new_fd step after run) =
    subst (λ l. Runs t q' g ((c, fd) ∷ cs) l)
      (sym (taken i s s' th th' fd rest (Serves-there before) runs full stays step after))
      (inserts q h c fd r (Serves-Runs before) free c≢ new_fd run)
Serves-Runs {t} {i} {s = s'} {th = th'} {q = q'} {h = g}
      (ends {s = s} {th = th} {q = q} {h = h} xs ys c fd before member step after run) =
    subst (λ l. Runs t q' g (xs ++ ys) l)
      (sym (ended i s s' th th' fd (Serves-there before) member step after))
      (deletes q h xs ys c fd (Serves-Runs before) run)
Serves-Runs {t} {i} {q = q} {h = h} {cs = cs} (others s' th' before after same) =
    subst (λ l. Runs t q h cs l) (sym same) (Serves-Runs before)

-- Whatever notifications and ends of connections a thread of a server has served, with other events
-- of the server in between that leave its connections alone: the queue that its callbacks have kept
-- is well linked; it has the connections that were inserted and not deleted, each with its
-- descriptor; these descriptors, in the same order, are the connections of the thread in `Server`
-- after the same events; and `getCount` is their number, up to the width of its counter.
pub Serves_lem :
    {t : Ptr} {i : ℕ} {s : Server} {th : Thread} {q : ConnQueue} {h : Heap} {cs : List (Ptr × ℕ)}
    → Serves t i s th q h cs
    → (get_elem? s.threads i ≡ some th)
      × IsQueue h q (ptrs cs)
      × Holding h cs
      × (th.conns ≡ fds cs)
      × (get_count q ≡ length th.conns % 2 ^ 64)
Serves_lem serves =
    let (linked, holding, same, counted) = Runs_lem (Serves-Runs serves) in
    (Serves-there serves, linked, holding, same, counted)
