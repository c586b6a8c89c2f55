-- ===== src/Server/Life.antt =====
-- src/tcpServer.cpp: what a server makes, starts and frees. The results of the calls of the system
-- are arguments. A handle of an event base, a pipe's end or a listener is a number.
pub mod Examples
pub mod SettingUp
pub mod Freeing
use m_rpc.Prelude.{
  ℕ, zero, suc, ◌+◌, ◌==◌, Bool, true, false, Option, none, some, List, [], ◌∷◌, ◌++◌, length, map,
  if◌then◌else◌, Run, ok, crash, ◌>>=◌,
}
use m_rpc.Server.{remove_one, mem}

-- How a call ended: it returned a value, or threw a NetErr.
pub data Ended (A : Type 0) : Type 0 where
  returned : A → Ended A
  threw : Ended A

-- What is open: event bases, pipes as receiving and sending end, and listeners.
pub record Resources : Type 0 where
  pub bases : List ℕ
  pub pipes : List (ℕ × ℕ)
  pub listeners : List ℕ

abbrev pub no_resources : Resources
no_resources = record { bases = []; pipes = []; listeners = [] }

-- LibeventThread, once it is set up
pub record LibeventThread : Type 0 where
  pub base : ℕ
  pub notify_recv_fd : ℕ
  pub notify_send_fd : ℕ

-- What event_base_new, pipe and event_add give for one thread; `none` is NULL, or a failure.
pub record SetupCalls : Type 0 where
  pub new_base : Option ℕ
  pub new_pipe : Option (ℕ × ℕ)
  pub event_added : Bool

abbrev pub add_base : ℕ → Resources → Resources
add_base b r = record r { bases = b ∷ r.bases }

abbrev pub add_pipe : ℕ × ℕ → Resources → Resources
add_pipe p r = record r { pipes = p ∷ r.pipes }

-- TcpServer::setupThread
pub setup_thread : SetupCalls → Resources → Ended LibeventThread × Resources
setup_thread calls r = elim calls.new_base [
  | none ↦ (threw, r)
  | some b ↦ elim calls.new_pipe [
    | none ↦ (threw, add_base b r)
    | some (fd_recv, fd_send) ↦
        if calls.event_added
        then (
          returned (record { base = b; notify_recv_fd = fd_recv; notify_send_fd = fd_send }),
          add_pipe (fd_recv, fd_send) (add_base b r),
        )
        else (threw, add_pipe (fd_recv, fd_send) (add_base b r))
  ]
]

-- The loop of the constructor over the threads.
unfoldable pub setup_all : List SetupCalls → Resources → Ended (List LibeventThread) × Resources
setup_all [] r = (returned [], r)
setup_all (c ∷ cs) r =
    let (first, r') = setup_thread c r in
    let (others, r'') = setup_all cs r' in
    elim first [
      | threw ↦ (threw, r')
      | returned t ↦ elim others [ threw ↦ (threw, r'') | returned ts ↦ (returned (t ∷ ts), r'') ]
    ]

-- `running` are the threads whose loops run, by their index.
pub record TcpServer : Type 0 where
  pub main_base : ℕ
  pub threads : List LibeventThread
  pub has_ip : Bool
  pub running : List ℕ
  pub told : List ℕ
  pub open_resources : Resources

-- TcpServer::TcpServer, given what event_base_new makes of the main base; a NetErr that is thrown
-- frees nothing, since the destructor does not run.
unfoldable pub construct : Bool → Option ℕ → List SetupCalls → Ended TcpServer × Resources
construct has_ip new_base calls = elim new_base [
  | none ↦ (threw, no_resources)
  | some b ↦
      let (threads, r) = setup_all calls (add_base b no_resources) in
      elim threads [
        | threw ↦ (threw, r)
        | returned ts ↦ (
          returned (record {
            main_base = b;
            threads = ts;
            has_ip = has_ip;
            running = [];
            told = [];
            open_resources = r;
          }),
          r,
        )
      ]
]

-- TcpServer::quit: EXIT_CODE into every pipe
pub quit : TcpServer → TcpServer
quit s = record s { told = s.told ++ map (λ t. t.notify_send_fd) s.threads }

abbrev pub freed_base : ℕ → TcpServer → TcpServer
freed_base b s = record s {
  open_resources = record s.open_resources { bases = remove_one b s.open_resources.bases };
}

-- `event_base_free`, which must be given a base that is there.
abbrev pub free_base : ℕ → TcpServer → Run TcpServer
free_base b s = if mem b s.open_resources.bases then ok (freed_base b s) else crash

pub free_bases : List LibeventThread → TcpServer → Run TcpServer
free_bases [] s = ok s
free_bases (t ∷ ts) s = do s' ← free_base t.base s; free_bases ts s'

-- TcpServer::~TcpServer
pub destroy : TcpServer → Run TcpServer
destroy s = do s' ← free_base s.main_base (quit s); free_bases s.threads s'

-- The loop of startRun: one result of pthread_create for each thread, from index `i` on.
pub start_threads : ℕ → List LibeventThread → List Bool → TcpServer → Bool × TcpServer
start_threads i [] results s = (true, s)
start_threads i (t ∷ ts) [] s = (false, s)
start_threads i (t ∷ ts) (made ∷ results) s =
    let rest = start_threads (i + 1) ts results (record s { running = s.running ++ i ∷ [] }) in
    if made then rest else (false, s)

abbrev pub with_listeners : List ℕ → TcpServer → TcpServer
with_listeners ls s = record s { open_resources = record s.open_resources { listeners = ls } }

-- The part of TcpServer::startRun from the listener on, up to the end of the main loop. No thread
-- is waited for.
pub listen : Option ℕ → List Bool → TcpServer → Ended (Unit {0}) × TcpServer
listen none results s = (threw, s)
listen (some l) results s =
    let before = s.open_resources.listeners in
    let (all_made, s') = start_threads 0 s.threads results (with_listeners (l ∷ before) s) in
    if all_made then (returned tt, with_listeners before s') else (threw, s')

-- TcpServer::startRun: whether inet_pton read the address, which is asked if there is one; the
-- listener; and the results of pthread_create
pub start_run : Bool → Option ℕ → List Bool → TcpServer → Ended (Unit {0}) × TcpServer
start_run address listener results s =
    if s.has_ip
    then if address then listen listener results s else (threw, s)
    else listen listener results s

-- TcpServer::threadProcess of thread `i`, once event_base_dispatch has returned
pub thread_process : ℕ → TcpServer → TcpServer
thread_process i s = record s { running = remove_one i s.running }
