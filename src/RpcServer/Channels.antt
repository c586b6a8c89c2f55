-- ===== src/RpcServer/Channels.antt =====
-- The life time of the channels that onConnection of src/rpcServer.cpp makes.
use m_rpc.Prelude.{
  Bool, true, false, Option, none, if◌then◌else◌, ℕ, ◌≡◌, ◌≢◌, inl, inr, refl, ap, ◌∙◌, arith,
  Bool-cases, some, [], ◌==◌, ==_refl, ne→==_false, crash, ok, Run, ◌>>=◌,
}
use m_rpc.Endian.{Bytes}
use m_rpc.ConnQueue.{Ptr, null, Conn}
use m_rpc.Codec.Closing.{World}
use m_rpc.Server.Life.{TcpServer}
use m_rpc.Server.Objects.{with_server, buffer_read_cb, read_conn}
use m_rpc.RpcServer.{
  RpcServer, new_rpc_server, register_service, free_channel, is_live, on_connection, start,
}
use m_rpc.RpcServer.Served.{
  Served, Step, Reach, here, next, registers, starts, connects, reads, writes, happens, data_ready,
  data_sent, conn_event, new_connection, server_callbacks, read_callback,
}

register-channels :
    (name : Bytes) (service : ℕ) (s : RpcServer)
    → (register_service name service s).channels ≡ s.channels
unfolding register_service
register-channels name service s = elim (Bool-cases (service == 0)) [
  | inl e ↦ rw (e, register_service) refl
  | inr e ↦ rw (e, register_service) refl
]

connection-channels :
    (conn : ℕ) (s : RpcServer) → s.channels ≡ [] → (on_connection conn s).channels ≡ []
unfolding on_connection free_channel
connection-channels conn s none_live = elim (Bool-cases (conn == 0)) [
  | inl e ↦ rw (e, on_connection) none_live
  | inr e ↦ rw (e, on_connection, none_live, ==_refl s.next_channel) refl
]

on_connection-read_cb :
    (conn : ℕ) (s : RpcServer) → conn ≢ 0 → (on_connection conn s).read_cb ≡ some s.next_channel
unfolding on_connection
on_connection-read_cb conn s ne = rw (ne→==_false conn 0 ne) refl

-- A step of a callback that returned changed no channel.
pub kept :
    (r : Run World) (s t : Served) → (r >>= λ w. ok (record s { world = w })) ≡ ok t → t.rpc ≡ s.rpc
kept (ok w) s t h = cc
kept crash s t h = cc
kept Run.out_of_fuel s t h = cc

pub connected :
    (r : Run World) (rpc : RpcServer) (t : Served)
    → (r >>= λ w. ok (record { rpc = rpc; world = w })) ≡ ok t
    → t.rpc ≡ rpc
connected (ok w) rpc t h = cc
connected crash rpc t h = cc
connected Run.out_of_fuel rpc t h = cc

-- A callback that crashes, on any connection.
use_crash :
    (r : Run Conn)
    → r ≢ Run.out_of_fuel
    → ◌≡◌ {A = Run World} (r >>= λ c. with_server c crash) crash
unfolding with_server
use_crash (ok c) ends = ground arith
use_crash crash ends = refl
use_crash Run.out_of_fuel ends = absurd (ends refl)

read_conn_ends : (p : Ptr) (w : World) → read_conn p w ≢ Run.out_of_fuel
unfolding read_conn
read_conn_ends p w = go (p == null) (w.heap p)
  where
    go :
        (b : Bool) (o : Option Conn)
        → (if b then crash else elim o [ none ↦ crash | some c ↦ ok c ]) ≢ Run.out_of_fuel
    go true o h = cc
    go false none h = cc
    go false (some c) h = cc

module _ (get_input get_output : Ptr → Ptr) (deliver : ℕ → Ptr → World → Run World) where
  Step-channels :
      {s t : Served}
      → Step get_input get_output deliver s t
      → s.rpc.channels ≡ []
      → t.rpc.channels ≡ []
  unfolding data_ready data_sent conn_event new_connection start
  Step-channels {s} (registers name service) h = register-channels name service s.rpc ∙ h
  Step-channels {s} (starts address listener results) h = h
  Step-channels {s} {t} (connects thread confd bev new_conn e) h =
      ap (λ p. p.channels) (connected _ _ t e) ∙ elim (Bool-cases (bev == null)) [
        | inl failed ↦ rw failed h
        | inr made ↦ rw made (connection-channels new_conn s.rpc h)
      ]
  Step-channels {s} {t} (reads bev conn e) h = ap (λ p. p.channels) (kept _ s t e) ∙ h
  Step-channels {s} {t} (writes bev conn e) h = ap (λ p. p.channels) (kept _ s t e) ∙ h
  Step-channels {s} {t} (happens bev events conn e) h = ap (λ p. p.channels) (kept _ s t e) ∙ h

  Reach-channels :
      {s t : Served}
      → Reach get_input get_output deliver s t
      → s.rpc.channels ≡ []
      → t.rpc.channels ≡ []
  Reach-channels here h = h
  Reach-channels (next r step) h = Step-channels step (Reach-channels r h)

  callback-dead :
      (k : ℕ) (s : RpcServer)
      → s.read_cb ≡ some k
      → s.channels ≡ []
      → read_callback get_input get_output deliver s ≡ some (λ conn w. crash)
  unfolding read_callback is_live
  callback-dead k s e none_live = rw (e, none_live) refl

  data_ready-dead :
      (k : ℕ) (s : Served) (bev conn : Ptr)
      → s.rpc.read_cb ≡ some k
      → s.rpc.channels ≡ []
      → data_ready get_input get_output deliver bev conn s ≡ crash
  unfolding data_ready buffer_read_cb server_callbacks
  data_ready-dead k s bev conn e none_live = rw (callback-dead k s.rpc e none_live) (
      ap (λ r. r >>= λ w. ok (record s { world = w }))
        (use_crash (read_conn conn s.world) (read_conn_ends conn s.world)))

  -- Whatever a server did since it was made: after one more connection, whose bufferevent and
  -- object are not NULL, the first bytes that arrive on any connection crash the process, since the
  -- channel that the read callback gives them to was freed.
  pub data_ready-crash :
      (server : TcpServer) (w : World) {s t : Served} (thread : Ptr) (confd : ℕ)
      (bev new_conn : Ptr)
      → Reach get_input get_output deliver (record { rpc = new_rpc_server server; world = w }) s
      → bev ≢ null
      → new_conn ≢ null
      → new_connection get_input get_output deliver thread confd bev new_conn s ≡ ok t
      → (bev' conn : Ptr) → data_ready get_input get_output deliver bev' conn t ≡ crash
  unfolding new_connection new_rpc_server
  data_ready-crash server w {s} {t} thread confd bev new_conn r real there opened bev' conn =
      let same : t.rpc ≡ on_connection new_conn s.rpc =
        connected _ _ t opened ∙ (rw (ne→==_false bev null real) refl) in
      data_ready-dead s.rpc.next_channel t bev' conn
        (ap (λ p. p.read_cb) same ∙ on_connection-read_cb new_conn s.rpc there)
        (ap (λ p. p.channels) same ∙ connection-channels new_conn s.rpc (Reach-channels r refl))
