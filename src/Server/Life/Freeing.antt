-- ===== src/Server/Life/Freeing.antt =====
-- What stays open of a server of src/tcpServer.cpp, after its constructor and its destructor.
use m_rpc.Prelude.{
  ℕ, ◌+◌, ◌≤◌, ◌≡◌, refl, ap, ◌∙◌, inl, inr, Bool, true, false, Bool-cases, Option, none, some,
  List, [], ◌∷◌, ◌++◌, length, ◌==◌, ==_refl, if◌then◌else◌, Returns, Returns-mono, arith,
}
use m_rpc.Server.{mem}
use m_rpc.Server.Counting.{count, count-remove_one}
use m_rpc.Server.Life.{
  Ended, returned, threw, Resources, no_resources, LibeventThread, SetupCalls, setup_all, TcpServer,
  construct, quit, free_bases, freed_base, destroy, add_base, listen, start_run, start_threads,
  with_listeners, thread_process,
}
use m_rpc.Server.Life.SettingUp.{uses, Ended-cases, setup_all-SetUp}

-- A server that holds the base of the main loop, a base and a pipe for each thread, and no other.
pub record Holds (s : TcpServer) : Type 0 where
  pub bases :
      (b : ℕ)
      → count b s.open_resources.bases ≡ uses b s.threads + (if b == s.main_base then 1 else 0)
  pub pipes : length s.open_resources.pipes ≡ length s.threads

pair_eq :
    (s s' : TcpServer) (r r' : Resources)
    → ◌≡◌ {A = Ended TcpServer × Resources} (returned s, r) (returned s', r')
    → s' ≡ s
pair_eq s s' r r' h = cc

pair_ne :
    (s : TcpServer) (r r' : Resources)
    → ◌≡◌ {A = Ended TcpServer × Resources} (threw, r) (returned s, r')
    → ⊥
pair_ne s r r' h = cc

construct-Holds :
    (has_ip : Bool) (new_base : Option ℕ) (calls : List SetupCalls) (s : TcpServer) (r : Resources)
    → construct has_ip new_base calls ≡ (returned s, r)
    → Holds s
unfolding construct count
construct-Holds has_ip none calls s r h = absurd (pair_ne s no_resources r h)
construct-Holds has_ip (some b) calls s r h =
    elim (Ended-cases (setup_all calls (add_base b no_resources)).0) [
      | inl thrown ↦ absurd (pair_ne s _ r (rw (thrown, construct) at h))
      | inr (ts, made) ↦
          let up = setup_all-SetUp calls (add_base b no_resources) ts made in
          rw (pair_eq _ s _ r (rw (made, construct) at h))
            (record { bases = λ k. omega (arith, up.bases k); pipes = omega (arith, up.pipes) })
    ]

mem_of_count : (b : ℕ) (xs : List ℕ) → 1 ≤ count b xs → mem b xs ≡ true
unfolding count mem
mem_of_count b [] h = absurd (omega arith)
mem_of_count b (x ∷ xs) h = ground (arith, mem_of_count b xs)

-- A server whose bases were freed for the threads, and nothing else.
record Freed (ts : List LibeventThread) (s s' : TcpServer) : Type 0 where
  bases : (b : ℕ) → count b s'.open_resources.bases + uses b ts ≡ count b s.open_resources.bases
  pipes : s'.open_resources.pipes ≡ s.open_resources.pipes
  running : s'.running ≡ s.running

free_bases-Freed :
    (ts : List LibeventThread) (s : TcpServer)
    → ((b : ℕ) → uses b ts ≤ count b s.open_resources.bases)
    → Returns (Freed ts s) (free_bases ts s)
unfolding free_bases uses
free_bases-Freed [] s enough = record { bases = λ b. omega arith; pipes = refl; running = refl }
free_bases-Freed (t ∷ ts) s enough =
    let all = s.open_resources.bases in
    let there : mem t.base all ≡ true =
      mem_of_count t.base all (omega (arith, rw (==_refl t.base) at (enough t.base))) in
    rw (there, free_bases)
      (Returns-mono (Freed ts (freed_base t.base s)) _ (free_bases ts (freed_base t.base s))
        (free_bases-Freed ts (freed_base t.base s)
          (λ k. omega (arith, enough k, count-remove_one k t.base all there)))
        (λ s' f. record {
          bases = λ b. omega (arith, f.bases b, count-remove_one b t.base all there);
          pipes = f.pipes;
          running = f.running;
        }))

start_threads-rest :
    (i : ℕ) (ts : List LibeventThread) (results : List Bool) (s : TcpServer)
    → Holds s
    → Holds (start_threads i ts results s).1
unfolding start_threads
start_threads-rest i [] results s h = h
start_threads-rest i (t ∷ ts) [] s h = h
start_threads-rest i (t ∷ ts) (true ∷ results) s h =
    start_threads-rest (i + 1) ts results (record s { running = s.running ++ i ∷ [] })
      (record { bases = h.bases; pipes = h.pipes })
start_threads-rest i (t ∷ ts) (false ∷ results) s h = h

-- The calls on a server after its constructor, and the ends of its threads.
pub data Step (s : TcpServer) : TcpServer → Type 0 where
  starts :
      (address : Bool) (listener : Option ℕ) (results : List Bool)
      → Step s (start_run address listener results s).1
  quits : Step s (quit s)
  ends : (i : ℕ) → Step s (thread_process i s)

pub data Reach (s : TcpServer) : TcpServer → Type 0 where
  here : Reach s s
  next : {t u : TcpServer} → Reach s t → Step t u → Reach s u

listen-Holds :
    (listener : Option ℕ) (results : List Bool) (s : TcpServer)
    → Holds s
    → Holds (listen listener results s).1
unfolding listen
listen-Holds none results s h = h
listen-Holds (some l) results s h =
    let before = s.open_resources.listeners in
    let s' = with_listeners (l ∷ before) s in
    let after =
      start_threads-rest 0 s.threads results s' (record { bases = h.bases; pipes = h.pipes }) in
    elim (Bool-cases (start_threads 0 s.threads results s').0) [
      | inl made ↦ rw (made, listen) (record { bases = after.bases; pipes = after.pipes })
      | inr failed ↦ rw (failed, listen) after
    ]

start_run-Holds :
    (address : Bool) (listener : Option ℕ) (results : List Bool) (s : TcpServer)
    → Holds s
    → Holds (start_run address listener results s).1
unfolding start_run
start_run-Holds address listener results s h = go s.has_ip address
  where
    go :
        (asked valid : Bool)
        → Holds
            (if asked
              then if valid then listen listener results s else (threw, s)
              else listen listener results s).1
    go true true = listen-Holds listener results s h
    go true false = h
    go false valid = listen-Holds listener results s h

Step-Holds : {s t : TcpServer} → Step s t → Holds s → Holds t
unfolding quit thread_process
Step-Holds {s} (starts address listener results) h = start_run-Holds address listener results s h
Step-Holds quits h = record { bases = h.bases; pipes = h.pipes }
Step-Holds (ends i) h = record { bases = h.bases; pipes = h.pipes }

Reach-Holds : {s t : TcpServer} → Holds s → Reach s t → Holds t
Reach-Holds h here = h
Reach-Holds h (next r step) = Step-Holds step (Reach-Holds h r)

-- The destructor of a server that was constructed and then used in any way: it returns, and frees
-- every event base once, the main one and those of the threads; it closes no pipe, so that one for
-- each thread stays open; and it waits for no thread, so that a thread that runs goes on on a freed
-- base.
pub destroy_lem :
    (has_ip : Bool) (new_base : Option ℕ) (calls : List SetupCalls) (s t : TcpServer)
    (r : Resources)
    → construct has_ip new_base calls ≡ (returned s, r)
    → Reach s t
    → Returns
        (λ d.
          ((b : ℕ) → count b d.open_resources.bases ≡ 0)
          × (length d.open_resources.pipes ≡ length t.threads)
          × (d.running ≡ t.running))
        (destroy t)
unfolding destroy quit
destroy_lem has_ip new_base calls s t r made used =
    let h = Reach-Holds (construct-Holds has_ip new_base calls s r made) used in
    let all = t.open_resources.bases in
    let main_there : mem t.main_base all ≡ true =
      mem_of_count t.main_base all
        (omega (arith, rw (==_refl t.main_base) at (h.bases t.main_base))) in
    let t' = freed_base t.main_base (quit t) in
    rw (main_there, destroy)
      (Returns-mono (Freed t.threads t') _ (free_bases t.threads t')
        (free_bases-Freed t.threads t'
          (λ k. omega (arith, h.bases k, count-remove_one k t.main_base all main_there)))
        (λ d f. (
          λ b. omega (arith, h.bases b, count-remove_one b t.main_base all main_there, f.bases b),
          ap length f.pipes ∙ h.pipes,
          f.running,
        )))
