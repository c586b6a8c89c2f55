-- ===== src/Server/Queues.antt =====
-- The connections of a thread of src/tcpServer.cpp, as descriptors in `Server` and as objects in a
-- ConnQueue of src/tcpServer.h.
use m_rpc.Prelude.{
  ℕ, ==_refl, ◌%◌, ◌^◌, ◌≡◌, ◌≢◌, refl, sym, ap, ◌∙◌, none, some, List, [], ◌∷◌, ◌++◌, length,
  false, ◌||◌, ◌==◌, ok, Returns-ok, arith,
}
use m_rpc.ConnQueue.{
  Ptr, null, Heap, ConnQueue, construct, get_count, insert_conn, delete_conn, has, Distinct,
  IsQueue,
}
use m_rpc.ConnQueue.Linked.{has-append, Distinct-append}
use m_rpc.ConnQueue.Fields.{fd_of, Keeps-insert_conn, Keeps-delete_conn}
use m_rpc.ConnQueue.Insert.{insert_conn-cons}
use m_rpc.ConnQueue.Delete.{delete_conn-append}
use m_rpc.ConnQueue.Lifetime.{construct-nil}
use m_rpc.Server.{remove_one}

abbrev pub ptrs : List (Ptr × ℕ) → List Ptr
ptrs [] = []
ptrs ((c, fd) ∷ cs) = c ∷ ptrs cs

abbrev pub fds : List (Ptr × ℕ) → List ℕ
fds [] = []
fds ((c, fd) ∷ cs) = fd ∷ fds cs

-- The calls that the callbacks of thread `t` make on its queue. Beside the queue and the heap it has
-- the connections with their descriptors, the newest first, and what `Server` keeps for them.
-- `new` returns an unused address, and an open socket has a descriptor of its own.
pub data Runs (t : Ptr) : ConnQueue → Heap → List (Ptr × ℕ) → List ℕ → Type 0 where
  starts :
      {q : ConnQueue} {g : Heap} (h : Heap) (a b : Ptr)
      → a ≢ null
      → b ≢ null
      → a ≢ b
      → construct a b h ≡ ok (q, g)
      → Runs t q g [] []
  inserts :
      {q' : ConnQueue} {g : Heap} {cs : List (Ptr × ℕ)} {conns : List ℕ} (q : ConnQueue) (h : Heap)
      (c fd r : ℕ)
      → Runs t q h cs conns
      → h c ≡ none
      → c ≢ null
      → has fd conns ≡ false
      → insert_conn c fd t q h ≡ ok ((r, q'), g)
      → Runs t q' g ((c, fd) ∷ cs) (fd ∷ conns)
  deletes :
      {q' : ConnQueue} {g : Heap} {conns : List ℕ} (q : ConnQueue) (h : Heap)
      (xs ys : List (Ptr × ℕ)) (c fd : ℕ)
      → Runs t q h (xs ++ (c, fd) ∷ ys) conns
      → delete_conn c q h ≡ ok (q', g)
      → Runs t q' g (xs ++ ys) (remove_one fd conns)

abbrev pub Holding : Heap → List (Ptr × ℕ) → Type 0
Holding h [] = Unit {0}
Holding h ((c, fd) ∷ cs) = (fd_of h c ≡ some fd) × Holding h cs

-- The queue stands for the connections, each of which has its descriptor.
record Represents (q : ConnQueue) (h : Heap) (cs : List (Ptr × ℕ)) (conns : List ℕ) : Type 0 where
  queue : IsQueue h q (ptrs cs)
  holding : Holding h cs
  same : conns ≡ fds cs
  apart : Distinct (fds cs)

ptrs-append : (xs ys : List (Ptr × ℕ)) → ptrs (xs ++ ys) ≡ ptrs xs ++ ptrs ys
ptrs-append [] ys = refl
ptrs-append ((c, fd) ∷ xs) ys = ap (λ l. c ∷ l) (ptrs-append xs ys)

unused :
    (h : Heap) (c : Ptr) (cs : List (Ptr × ℕ)) → h c ≡ none → Holding h cs → has c (ptrs cs) ≡ false
unused h c [] free k = refl
unused h c ((p, fd) ∷ cs) free k = ground (arith, unused h c cs free k.1)

Holding-kept :
    (h g : Heap) (c : Ptr) (cs : List (Ptr × ℕ))
    → ((p : Ptr) → p ≢ c → fd_of g p ≡ fd_of h p)
    → has c (ptrs cs) ≡ false
    → Holding h cs
    → Holding g cs
Holding-kept h g c [] same out k = tt
Holding-kept h g c ((p, fd) ∷ cs) same out k =
    (same p (λ e. ground arith) ∙ k.0, Holding-kept h g c cs same (ground arith) k.1)

Holding-without :
    (h : Heap) (xs : List (Ptr × ℕ)) (c fd : ℕ) (ys : List (Ptr × ℕ))
    → Holding h (xs ++ (c, fd) ∷ ys)
    → Holding h (xs ++ ys)
Holding-without h [] c fd ys k = k.1
Holding-without h ((p, k') ∷ xs) c fd ys k = (k.0, Holding-without h xs c fd ys k.1)

-- An element of a list without repetitions stands there once.
has-without : (c : Ptr) (xs zs : List Ptr) → Distinct (xs ++ c ∷ zs) → has c (xs ++ zs) ≡ false
has-without c [] zs d = d.0
has-without c (x ∷ xs) zs d = ground (arith, has-without c xs zs d.1, has-append x xs (c ∷ zs))

has-fds :
    (k : ℕ) (xs : List (Ptr × ℕ)) (c fd : ℕ) (ys : List (Ptr × ℕ))
    → has k (fds (xs ++ (c, fd) ∷ ys)) ≡ (has k (fds (xs ++ ys)) || (k == fd))
has-fds k [] c fd ys = ground arith
has-fds k ((p, j) ∷ xs) c fd ys = ground (arith, has-fds k xs c fd ys)

remove_one-fds :
    (xs : List (Ptr × ℕ)) (c fd : ℕ) (ys : List (Ptr × ℕ))
    → Distinct (fds (xs ++ (c, fd) ∷ ys))
    → (remove_one fd (fds (xs ++ (c, fd) ∷ ys)) ≡ fds (xs ++ ys)) × Distinct (fds (xs ++ ys))
unfolding remove_one
remove_one-fds [] c fd ys d = rw (==_refl fd) (refl, d.1)
remove_one-fds ((p, k) ∷ xs) c fd ys d =
    let (removed, rest) = remove_one-fds xs c fd ys d.1 in
    let other : (fd == k) ≡ false = ground (arith, has-fds k xs c fd ys) in
    let out : has k (fds (xs ++ ys)) ≡ false = ground (arith, has-fds k xs c fd ys) in
    rw (other, removed, remove_one) (refl, (out, rest))

module _ (t : Ptr) (q : ConnQueue) (h : Heap) where
  insert-Represents :
      (cs : List (Ptr × ℕ)) (conns : List ℕ) (c fd : ℕ)
      → Represents q h cs conns
      → h c ≡ none
      → c ≢ null
      → has fd conns ≡ false
      → (q' : ConnQueue) × (g : Heap) × (insert_conn c fd t q h ≡ ok ((c, q'), g))
        × Represents q' g ((c, fd) ∷ cs) (fd ∷ conns)
  insert-Represents cs conns c fd rep free c≢ new_fd =
      let (((r, q'), g), run, (at, is, (n, there, has_fd, _), _)) =
        Returns-ok _ (insert_conn c fd t q h)
          (insert_conn-cons h q (ptrs cs) c fd t rep.queue free c≢) in
      let run' : insert_conn c fd t q h ≡ ok ((c, q'), g) = run ∙ ap (λ r. ok ((r, q'), g)) at in
      let keeps = λ (p : Ptr) (ne : p ≢ c). Keeps-insert_conn p c fd t q ne h g (c, q') run' in
      (
        q',
        g,
        run',
        record {
          queue = is;
          holding = (
            rw (there, has_fd, fd_of) refl,
            Holding-kept h g c cs keeps (unused h c cs free rep.holding) rep.holding,
          );
          same = ap (λ l. fd ∷ l) rep.same;
          apart = (rw rep.same at new_fd, rep.apart);
        },
      )

  delete-Represents :
      (xs : List (Ptr × ℕ)) (c fd : ℕ) (ys : List (Ptr × ℕ)) (conns : List ℕ)
      → Represents q h (xs ++ (c, fd) ∷ ys) conns
      → (q' : ConnQueue) × (g : Heap) × (delete_conn c q h ≡ ok (q', g))
        × Represents q' g (xs ++ ys) (remove_one fd conns)
  delete-Represents xs c fd ys conns rep =
      let old = ptrs-append xs ((c, fd) ∷ ys) in
      let ((q', g), run, (is, _, _)) =
        Returns-ok _ (delete_conn c q h)
          (delete_conn-append h q (ptrs xs) c (ptrs ys) (rw old at rep.queue)) in
      let apart : Distinct ((ptrs xs ++ c ∷ ptrs ys) ++ q.tail ∷ []) =
        (rw old at rep.queue.distinct).1 in
      let once = has-without c (ptrs xs) (ptrs ys) (Distinct-append _ (q.tail ∷ []) apart).0 in
      let (removed, rest) = remove_one-fds xs c fd ys rep.apart in
      (
        q',
        g,
        run,
        record {
          queue = rw (ptrs-append xs ys) is;
          holding =
              Holding-kept h g c (xs ++ ys) (λ p ne. Keeps-delete_conn p c q ne h g q' run)
                (rw (ptrs-append xs ys) once) (Holding-without h xs c fd ys rep.holding);
          same = ap (remove_one fd) rep.same ∙ removed;
          apart = rest;
        },
      )

ok_eq : {A : Type 0} (a b : A) → ok a ≡ ok b → a ≡ b
ok_eq a b e = cc

Runs-Represents :
    {t : Ptr} {q : ConnQueue} {h : Heap} {cs : List (Ptr × ℕ)} {conns : List ℕ}
    → Runs t q h cs conns
    → Represents q h cs conns
Runs-Represents (starts h a b a≢ b≢ ne run) = record {
  queue = (rw run at (construct-nil h a b a≢ b≢ ne)).0;
  holding = tt;
  same = refl;
  apart = tt;
}
Runs-Represents {t} (inserts q h c fd r before free c≢ new_fd run) =
    let (q', g, run', rep) =
      insert-Represents t q h _ _ c fd (Runs-Represents before) free c≢ new_fd in
    let e = ok_eq _ _ (sym run' ∙ run) in rw (sym (ap (λ o. o.0.1) e), sym (ap (λ o. o.1) e)) rep
Runs-Represents {t} (deletes q h xs ys c fd before run) =
    let (q', g, run', rep) = delete-Represents t q h xs c fd ys _ (Runs-Represents before) in
    let e = ok_eq _ _ (sym run' ∙ run) in rw (sym (ap (λ o. o.0) e), sym (ap (λ o. o.1) e)) rep

length-ptrs : (cs : List (Ptr × ℕ)) → length (ptrs cs) ≡ length (fds cs)
length-ptrs [] = refl
length-ptrs ((c, fd) ∷ cs) = omega (arith, length-ptrs cs)

-- Whatever calls a thread has made on its queue, the queue is well linked and stands for the
-- connections that were inserted and not deleted, each with its descriptor; these descriptors, in
-- the same order, are what `Server` keeps as the connections of the thread; and `getCount` is their
-- number, up to the width of its counter.
pub Runs_lem :
    {t : Ptr} {q : ConnQueue} {h : Heap} {cs : List (Ptr × ℕ)} {conns : List ℕ}
    → Runs t q h cs conns
    → IsQueue h q (ptrs cs)
      × Holding h cs
      × (conns ≡ fds cs)
      × (get_count q ≡ length conns % 2 ^ 64)
Runs_lem {cs = cs} runs =
    let rep = Runs-Represents runs in
    (
      rep.queue,
      rep.holding,
      rep.same,
      rep.queue.counted ∙ ap (λ n. n % 2 ^ 64) (length-ptrs cs ∙ ap length (sym rep.same)),
    )
