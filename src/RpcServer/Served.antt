-- ===== src/RpcServer/Served.antt =====
-- An RpcServer of src/rpcServer.cpp on the connections of its TcpServer: the callbacks that
-- src/tcpServer.cpp calls, with the read callback that onConnection sets.
use m_rpc.Prelude.{
  ℕ, ◌≡◌, Bool, Option, none, some, List, ◌==◌, if◌then◌else◌, Run, ok, crash, ◌>>=◌,
}
use m_rpc.Endian.{Bytes}
use m_rpc.ConnQueue.{Ptr, null}
use m_rpc.Codec.Closing.{World}
use m_rpc.Server.Objects.{
  Callbacks, no_callbacks, DataCallback, buffer_read_cb, buffer_write_cb, buffer_event_cb,
  open_conn,
}
use m_rpc.RpcServer.{RpcServer, register_service, start, is_live, on_connection}

pub record Served : Type 0 where
  pub rpc : RpcServer
  pub world : World

-- `deliver` is RpcChannel::onMessage of a channel that is there.
module _ (get_input get_output : Ptr → Ptr) (deliver : ℕ → Ptr → World → Run World) where
  -- The read callback: RpcChannel::onMessage through the plain pointer.
  unfoldable pub read_callback : RpcServer → DataCallback
  read_callback s = elim s.read_cb [
    | none ↦ none
    | some channel ↦
        some (λ conn w. if is_live channel s.channels then deliver channel conn w else crash)
  ]

  -- The callbacks of the TcpServer but the one for new connections, which `new_connection` calls.
  unfoldable pub server_callbacks : RpcServer → Callbacks
  server_callbacks s = record no_callbacks { read_cb = read_callback s }

  -- TcpServer::bufferReadCb, bufferWriteCb and bufferEventCb of the server
  unfoldable pub data_ready : Ptr → Ptr → Served → Run Served
  data_ready bev conn s = do
    w ← buffer_read_cb get_input get_output (server_callbacks s.rpc) bev conn s.world
    ok (record s { world = w })

  unfoldable pub data_sent : Ptr → Ptr → Served → Run Served
  data_sent bev conn s = do
    w ← buffer_write_cb get_input get_output (server_callbacks s.rpc) bev conn s.world
    ok (record s { world = w })

  unfoldable pub conn_event : Ptr → ℕ → Ptr → Served → Run Served
  conn_event bev events conn s = do
    w ← buffer_event_cb (server_callbacks s.rpc) bev events conn s.world
    ok (record s { world = w })

  -- TcpServer::notifyHandler for a new connection, with RpcServer::onConnection at its end
  unfoldable pub new_connection : Ptr → ℕ → Ptr → Ptr → Served → Run Served
  new_connection thread confd bev new_conn s = do
    w ← open_conn no_callbacks thread confd bev new_conn s.world
    ok (record { rpc = if bev == null then s.rpc else on_connection new_conn s.rpc; world = w })

  -- The life of a server, as far as it does not crash.
  pub data Step (s : Served) : Served → Type 0 where
    registers :
        (name : Bytes) (service : ℕ)
        → Step s (record s { rpc = register_service name service s.rpc })
    starts :
        (address : Bool) (listener : Option ℕ) (results : List Bool)
        → Step s (record s { rpc = (start address listener results s.rpc).1 })
    connects :
        {t : Served} (thread : Ptr) (confd : ℕ) (bev new_conn : Ptr)
        → new_connection thread confd bev new_conn s ≡ ok t
        → Step s t
    reads : {t : Served} (bev conn : Ptr) → data_ready bev conn s ≡ ok t → Step s t
    writes : {t : Served} (bev conn : Ptr) → data_sent bev conn s ≡ ok t → Step s t
    happens :
        {t : Served} (bev : Ptr) (events : ℕ) (conn : Ptr)
        → conn_event bev events conn s ≡ ok t
        → Step s t

  pub data Reach (s : Served) : Served → Type 0 where
    here : Reach s s
    next : {t u : Served} → Reach s t → Step t u → Reach s u
