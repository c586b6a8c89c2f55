-- ===== src/Server.antt =====
-- src/tcpServer.h and src/tcpServer.cpp: a server's threads, the pipes to them, and the callbacks
-- of the event loop. A thread's connections are the descriptors in its queue, which ConnQueue
-- keeps as a linked list; the newest is first. A descriptor is an `int`'s bit pattern.
pub mod Choice
pub mod Counting
pub mod Conservation
pub mod Life
pub mod Queues
pub mod Objects
pub mod Opening
pub mod Reading
pub mod Progress
pub mod Serving
mod Examples
use m_rpc.Prelude.{
  ℕ, zero, suc, ◌+◌, ◌-◌, ◌^◌, ◌≡◌, Bool, true, false, ◌||◌, Option, none, some, List, [], ◌∷◌,
  ◌++◌, map, ltb, ◌==◌, length, get_elem?, if◌then◌else◌, Run, ok, crash,
}

-- TcpServer::EXIT_CODE, which is -1
abbrev pub exit_code : ℕ
exit_code = 2 ^ 32 - 1

-- What a thread has in its pipe, its connections, and whether its loop still runs.
pub record Thread : Type 0 where
  pub pipe : List ℕ
  pub conns : List ℕ
  pub running : Bool

-- The calls of the user's callbacks: `connect_cb`, `event_cb`.
pub data Callback : Type 0 where
  connected : ℕ → Callback
  event : ℕ → Callback

-- `accepted` are the descriptors given to `acceptCb`, `closed` those of the connections that were
-- deleted, `dropped` those for which no bufferevent could be made, `lost` those that were not written
-- to a pipe.
pub record Server : Type 0 where
  pub threads : List Thread
  pub has_connect_cb : Bool
  pub has_event_cb : Bool
  pub accepted : List ℕ
  pub closed : List ℕ
  pub dropped : List ℕ
  pub lost : List ℕ
  pub callbacks : List Callback

abbrev pub new_thread : Thread
new_thread = record { pipe = []; conns = []; running = true }

abbrev pub copies : ℕ → List Thread
copies zero = []
copies (suc n) = new_thread ∷ copies n

-- TcpServer::TcpServer, where every thread could be set up
pub new_server : ℕ → Server
new_server thread_count = record {
  threads = copies thread_count;
  has_connect_cb = false;
  has_event_cb = false;
  accepted = [];
  closed = [];
  dropped = [];
  lost = [];
  callbacks = [];
}

-- `threads[i]` becomes `f threads[i]`.
pub modify : ℕ → (Thread → Thread) → List Thread → List Thread
modify i f [] = []
modify zero f (t ∷ ts) = f t ∷ ts
modify (suc i) f (t ∷ ts) = t ∷ modify i f ts

abbrev pub get_or : List ℕ → ℕ → ℕ
get_or [] i = 0
get_or (n ∷ ns) zero = n
get_or (n ∷ ns) (suc i) = get_or ns i

-- The loop of TcpServer::acceptCb over the counts from index `i` on.
pub choose_loop : List ℕ → ℕ → ℕ → List ℕ → ℕ
choose_loop counts num i [] = num
choose_loop counts num i (n ∷ rest) =
    choose_loop counts (if ltb n (get_or counts num) then i else num) (i + 1) rest

pub choose : List ℕ → ℕ
unfolding choose_loop
choose counts = choose_loop counts 0 0 counts

abbrev pub send_to : ℕ → Thread → Thread
send_to v t = record t { pipe = t.pipe ++ v ∷ [] }

-- TcpServer::acceptCb; `wrote` is whether its write succeeds, which it does not look at. With no
-- thread it writes through `threads[0]`.
pub accept_cb : ℕ → Bool → Server → Run Server
accept_cb fd wrote s = elim s.threads [
  | [] ↦ crash
  | t ∷ ts ↦
      let num = choose (map (λ t. length t.conns) s.threads) in
      if wrote
      then ok (record s {
        threads = modify num (send_to fd) s.threads;
        accepted = s.accepted ++ fd ∷ [];
      })
      else ok (record s { accepted = s.accepted ++ fd ∷ []; lost = s.lost ++ fd ∷ [] })
]

-- EXIT_CODE to every thread; the list says which of the writes succeed, and those past its end fail.
pub tell_all : List Bool → List Thread → List Thread
tell_all [] ts = ts
tell_all (w ∷ ws) [] = []
tell_all (w ∷ ws) (t ∷ ts) = (if w then send_to exit_code t else t) ∷ tell_all ws ts

-- TcpServer::quit
pub quit : List Bool → Server → Server
quit wrote s = record s { threads = tell_all wrote s.threads }

-- TcpServer::notifyHandler of thread `i`, which has read `confd`; `made` says whether
-- bufferevent_socket_new succeeded.
pub handle : ℕ → Bool → ℕ → List ℕ → Server → Server
handle i made confd rest s =
    if confd == exit_code
    then record s { threads = modify i (λ t. record t { pipe = rest; running = false }) s.threads }
    else if made
    then record s {
      threads = modify i (λ t. record t { pipe = rest; conns = confd ∷ t.conns }) s.threads;
      callbacks = s.callbacks ++ (if s.has_connect_cb then connected confd ∷ [] else []);
    }
    else record s {
      threads = modify i (λ t. record t { pipe = rest }) s.threads;
      dropped = s.dropped ++ confd ∷ [];
    }

-- TcpServer::notifyHandler: a read that fails changes nothing, and the loop of a thread that has
-- seen EXIT_CODE is not run again.
pub notify_handler : ℕ → Bool → Server → Server
notify_handler i made s = elim (get_elem? s.threads i) [
  | none ↦ s
  | some t ↦ elim t.pipe [
    | [] ↦ s
    | confd ∷ rest ↦ if t.running then handle i made confd rest s else s
  ]
]

unfoldable pub remove_one : ℕ → List ℕ → List ℕ
remove_one k [] = []
remove_one k (j ∷ js) = if k == j then js else j ∷ remove_one k js

unfoldable pub mem : ℕ → List ℕ → Bool
mem k [] = false
mem k (j ∷ js) = (k == j) || mem k js

-- The deletion of a connection of thread `i`, as ProtobufCodecLite::defaultErrorCallback does it.
pub close_conn : ℕ → ℕ → Server → Server
close_conn i fd s = elim (get_elem? s.threads i) [
  | none ↦ s
  | some t ↦
      if mem fd t.conns
      then record s {
        threads = modify i (λ t. record t { conns = remove_one fd t.conns }) s.threads;
        closed = s.closed ++ fd ∷ [];
      }
      else s
]

-- TcpServer::bufferEventCb of a connection of thread `i`: the user's callback, then deleteConn.
pub buffer_event_cb : ℕ → ℕ → Server → Server
buffer_event_cb i fd s = elim (get_elem? s.threads i) [
  | none ↦ s
  | some t ↦
      if mem fd t.conns
      then record s {
        threads = modify i (λ t. record t { conns = remove_one fd t.conns }) s.threads;
        closed = s.closed ++ fd ∷ [];
        callbacks = s.callbacks ++ (if s.has_event_cb then event fd ∷ [] else []);
      }
      else s
]
