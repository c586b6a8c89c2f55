-- ===== src/Server/Objects.antt =====
-- src/tcpServer.h and src/tcpServer.cpp: the callbacks of a server, on the connections, bufferevents
-- and queues of its threads. NULL is 0, and a use of it is a crash.
use m_rpc.Prelude.{ℕ, true, Option, none, some, ◌==◌, ◌||◌, if◌then◌else◌, Run, ok, crash, ◌>>=◌}
use m_rpc.ConnQueue.{Ptr, null, Conn, write, insert_conn}
use m_rpc.Codec.Closing.{World, free_bufferevent, delete_from}

-- dataCallback and eventCallback, which may change what they like; an empty one is `none`.
abbrev pub DataCallback : Type 0
DataCallback = Option (Ptr → World → Run World)

abbrev pub EventCallback : Type 0
EventCallback = Option (Ptr → ℕ → World → Run World)

-- The callbacks of a TcpServer.
pub record Callbacks : Type 0 where
  pub read_cb : DataCallback
  pub write_cb : DataCallback
  pub connect_cb : DataCallback
  pub event_cb : EventCallback

-- The callbacks that TcpServer::TcpServer sets.
abbrev pub no_callbacks : Callbacks
no_callbacks = record { read_cb = none; write_cb = none; connect_cb = none; event_cb = none }

pub set_read_callback : DataCallback → Callbacks → Callbacks
set_read_callback cb s = record s { read_cb = cb }

pub set_write_callback : DataCallback → Callbacks → Callbacks
set_write_callback cb s = record s { write_cb = cb }

pub set_connection_callback : DataCallback → Callbacks → Callbacks
set_connection_callback cb s = record s { connect_cb = cb }

pub set_event_callback : EventCallback → Callbacks → Callbacks
set_event_callback cb s = record s { event_cb = cb }

-- A callback that may be empty, on a connection.
abbrev pub call : DataCallback → Ptr → World → Run World
call none conn w = ok w
call (some f) conn w = f conn w

abbrev pub call_event : EventCallback → Ptr → ℕ → World → Run World
call_event none conn events w = ok w
call_event (some f) conn events w = f conn events w

-- The connection at an address, which must be there.
unfoldable pub read_conn : Ptr → World → Run Conn
read_conn p w = if p == null then crash else elim (w.heap p) [ none ↦ crash | some c ↦ ok c ]

unfoldable pub put_conn : Ptr → Conn → World → World
put_conn p c w = record w { heap = write w.heap p (some c) }

-- `conn->getThread()->tcp_server`, of which every thread of the server has the same
unfoldable pub with_server : Conn → Run World → Run World
with_server c r = if c.thread == null then crash else r

-- `bufferevent_get_input` and `bufferevent_get_output`.
module _ (get_input get_output : Ptr → Ptr) where
  -- The first lines of both data callbacks.
  abbrev pub with_buffers : Ptr → Conn → Conn
  with_buffers bev c = record c { read_buf = get_input bev; write_buf = get_output bev }

  -- TcpServer::bufferReadCb
  unfoldable pub buffer_read_cb : Callbacks → Ptr → Ptr → World → Run World
  buffer_read_cb s bev conn w = do
    c ← read_conn conn w
    with_server c (call s.read_cb conn (put_conn conn (with_buffers bev c) w))

  -- TcpServer::bufferWriteCb
  unfoldable pub buffer_write_cb : Callbacks → Ptr → Ptr → World → Run World
  buffer_write_cb s bev conn w = if (bev == null) || (conn == null) then ok w else do
    c ← read_conn conn w
    with_server c (call s.write_cb conn (put_conn conn (with_buffers bev c) w))

-- TcpServer::bufferEventCb, after the log
unfoldable pub buffer_event_cb : Callbacks → Ptr → ℕ → Ptr → World → Run World
buffer_event_cb s bev events conn w = do
  c ← read_conn conn w
  w' ← with_server c (call_event s.event_cb conn events w)
  c' ← read_conn conn w'
  w'' ← delete_from c'.thread conn w'
  free_bufferevent bev w''

-- `insertConn` of a thread's queue, with what `new` returns
unfoldable pub insert_into : Ptr → ℕ → Ptr → World → Run World
insert_into thread fd new_conn w = elim (w.queues thread) [
  | none ↦ crash
  | some q ↦ elim (insert_conn new_conn fd thread q w.heap) [
    | ok ((_, q'), g) ↦
        ok (record w { heap = g; queues = λ t. if t == thread then some q' else w.queues t })
    | crash ↦ crash
    | Run.out_of_fuel ↦ Run.out_of_fuel
  ]
]

-- TcpServer::notifyHandler of `thread` from bufferevent_socket_new on, which gives `bev`; NULL is
-- only logged
unfoldable pub open_conn : Callbacks → Ptr → ℕ → Ptr → Ptr → World → Run World
open_conn s thread confd bev new_conn w = if bev == null then ok w else do
  w₁ ←
      insert_into thread confd new_conn
        (record w { live = λ b. if b == bev then true else w.live b })
  c ← read_conn new_conn w₁
  call s.connect_cb new_conn (put_conn new_conn (record c { bev = bev; thread = thread }) w₁)
