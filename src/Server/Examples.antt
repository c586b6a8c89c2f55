-- ===== src/Server/Examples.antt =====
-- A server of two threads that takes in two connections and closes the first.
use m_rpc.Prelude.{◌≡◌, refl, true, false, some, get_elem?, [], ◌∷◌, ok, crash, arith}
use m_rpc.Server.{
  exit_code, Server, new_server, accept_cb, quit, handle, notify_handler, close_conn, choose,
  choose_loop, modify, remove_one, mem,
}
use m_rpc.Server.Progress.{connections, notify_all, notify_all-exit}
use m_rpc.Server.Choice.{IsFirstLeast, choose-IsFirstLeast}
use m_rpc.Server.Conservation.{
  Conserved, accepts, notifies, fails, quits, Reach, here, next, Reach-Conserved,
}

choose-IsFirstLeast_example : IsFirstLeast (3 ∷ 1 ∷ 2 ∷ 1 ∷ []) 4 (choose (3 ∷ 1 ∷ 2 ∷ 1 ∷ []))
choose-IsFirstLeast_example = choose-IsFirstLeast 3 (1 ∷ 2 ∷ 1 ∷ [])

choose_test : choose (3 ∷ 1 ∷ 2 ∷ 1 ∷ []) ≡ 1
unfolding choose choose_loop
choose_test = refl

no_threads_test : accept_cb 5 true (new_server 0) ≡ crash
unfolding accept_cb new_server
no_threads_test = refl

abbrev with_pipe : Server
with_pipe = record {
  threads =
      record { pipe = 5 ∷ []; conns = []; running = true }
      ∷ record { pipe = []; conns = []; running = true }
      ∷ [];
  has_connect_cb = false;
  has_event_cb = false;
  accepted = 5 ∷ [];
  closed = [];
  dropped = [];
  lost = [];
  callbacks = [];
}

accepts_test : accept_cb 5 true (new_server 2) ≡ ok with_pipe
unfolding accept_cb new_server choose choose_loop modify
accepts_test = refl

abbrev last : Server
last = quit (true ∷ false ∷ []) (close_conn 0 5 (notify_handler 0 true with_pipe))

all_events : Reach (new_server 2) last
all_events =
    next (next (next (next here (accepts 5 true accepts_test)) (notifies 0 true)) (fails 0 5))
      (quits (true ∷ false ∷ []))

closed_test : last.closed ≡ 5 ∷ []
unfolding quit close_conn notify_handler handle modify mem remove_one
closed_test = refl

Reach-Conserved_example : Conserved 5 last
Reach-Conserved_example = Reach-Conserved 5 2 (omega arith) all_events

-- A thread that is told to leave between the descriptors 6 and 9.
abbrev leaving : Server
leaving = record with_pipe {
  threads = record { pipe = 5 ∷ 6 ∷ exit_code ∷ 9 ∷ []; conns = 4 ∷ []; running = true } ∷ [];
}

notify_all-exit_example :
    get_elem?
      (notify_all 0 ((5, true) ∷ (6, false) ∷ (exit_code, true) ∷ (9, true) ∷ []) leaving).threads
      0
    ≡ some (record { pipe = 9 ∷ []; conns = 5 ∷ 4 ∷ []; running = false })
unfolding connections mem
notify_all-exit_example =
    notify_all-exit 0 ((5, true) ∷ (6, false) ∷ []) ((9, true) ∷ []) true (9 ∷ []) leaving _ refl
      refl refl refl
