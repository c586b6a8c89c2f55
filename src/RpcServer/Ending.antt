-- ===== src/RpcServer/Ending.antt =====
-- The end of an RpcServer of src/rpcServer.cpp: what its TcpServer frees.
use mathlib.Core.Path.{subst}
use m_rpc.Prelude.{
  ℕ, ◌≡◌, refl, ap, ◌∙◌, sym, inl, inr, Bool-cases, ◌==◌, Bool, Option, List, length, Run, Returns,
}
use m_rpc.Endian.{Bytes}
use m_rpc.ConnQueue.{Ptr, null}
use m_rpc.RpcServer.Channels.{kept, connected}
use m_rpc.Codec.Closing.{World}
use m_rpc.Server.Counting.{count}
use m_rpc.Server.Life
use m_rpc.Server.Life.{Ended, returned, threw, Resources, SetupCalls, TcpServer, start_run}
use m_rpc.Server.Life.Freeing
use m_rpc.Server.Life.Freeing.{destroy_lem}
use m_rpc.RpcServer.{
  RpcServer, new_rpc_server, make_rpc_server, register_service, on_connection, start, destroy,
}
use m_rpc.RpcServer.Served.{
  Served, Step, Reach, here, next, registers, starts, connects, reads, writes, happens, data_ready,
  data_sent, conn_event, new_connection,
}

server_of : Ended RpcServer → Ended TcpServer
server_of (returned s) = returned s.server
server_of threw = threw

make_rpc_server-server :
    (has_ip : Bool) (new_base : Option ℕ) (calls : List SetupCalls) (s : RpcServer) (r : Resources)
    → make_rpc_server has_ip new_base calls ≡ (returned s, r)
    → Life.construct has_ip new_base calls ≡ (returned s.server, r)
unfolding make_rpc_server new_rpc_server server_of
make_rpc_server-server has_ip new_base calls s r h = go (Life.construct has_ip new_base calls) h
  where
    go :
        (p : Ended TcpServer × Resources)
        → ◌≡◌ {A = Ended RpcServer × Resources}
            (elim p.0 [
              | returned server ↦ (returned (new_rpc_server server), p.1)
              | threw ↦ (threw, p.1)
            ])
            (returned s, r)
        → p ≡ (returned s.server, r)
    go (returned server, r') k = ap (λ (x : Ended RpcServer × Resources). (server_of x.0, x.1)) k
    go (threw, r') k = ap (λ (x : Ended RpcServer × Resources). (server_of x.0, x.1)) k

register-server :
    (name : Bytes) (service : ℕ) (s : RpcServer)
    → (register_service name service s).server ≡ s.server
unfolding register_service
register-server name service s = elim (Bool-cases (service == 0)) [
  | inl e ↦ rw e refl
  | inr e ↦ rw e refl
]

connection-server : (conn : ℕ) (s : RpcServer) → (on_connection conn s).server ≡ s.server
unfolding on_connection
connection-server conn s = elim (Bool-cases (conn == 0)) [ inl e ↦ rw e refl | inr e ↦ rw e refl ]

module _ (get_input get_output : Ptr → Ptr) (deliver : ℕ → Ptr → World → Run World) where
  -- What happens to a server happens to its TcpServer.
  Step-server :
      {s t : Served} (first : TcpServer)
      → Step get_input get_output deliver s t
      → Freeing.Reach first s.rpc.server
      → Freeing.Reach first t.rpc.server
  unfolding data_ready data_sent conn_event new_connection start
  Step-server {s} first (registers name service) h =
      subst (Freeing.Reach first) (sym (register-server name service s.rpc)) h
  Step-server {s} first (starts address listener results) h =
      Freeing.next h (Freeing.starts address listener results)
  Step-server {s} {t} first (connects thread confd bev new_conn e) h =
      subst (Freeing.Reach first)
        (sym (
          ap (λ p. p.server) (connected _ _ t e) ∙ elim (Bool-cases (bev == null)) [
            | inl failed ↦ rw failed refl
            | inr made ↦ rw made (connection-server new_conn s.rpc)
          ]))
        h
  Step-server {s} {t} first (reads bev conn e) h =
      subst (Freeing.Reach first) (sym (ap (λ p. p.server) (kept _ s t e))) h
  Step-server {s} {t} first (writes bev conn e) h =
      subst (Freeing.Reach first) (sym (ap (λ p. p.server) (kept _ s t e))) h
  Step-server {s} {t} first (happens bev events conn e) h =
      subst (Freeing.Reach first) (sym (ap (λ p. p.server) (kept _ s t e))) h

  Reach-server :
      {s t : Served}
      → Reach get_input get_output deliver s t
      → Freeing.Reach s.rpc.server t.rpc.server
  Reach-server here = Freeing.here
  Reach-server {s} (next r step) = Step-server s.rpc.server step (Reach-server r)

  -- The end of an RpcServer that was constructed and then used in any way, connections and their
  -- events included: every event base is freed, one pipe for each thread stays open, and a thread
  -- that runs goes on.
  pub destroy-server :
      (has_ip : Bool) (new_base : Option ℕ) (calls : List SetupCalls) (s : RpcServer) (w : World)
      (t : Served) (r : Resources)
      → make_rpc_server has_ip new_base calls ≡ (returned s, r)
      → Reach get_input get_output deliver (record { rpc = s; world = w }) t
      → Returns
          (λ d.
            ((b : ℕ) → count b d.open_resources.bases ≡ 0)
            × (length d.open_resources.pipes ≡ length t.rpc.server.threads)
            × (d.running ≡ t.rpc.server.running))
          (destroy t.rpc)
  unfolding destroy
  destroy-server has_ip new_base calls s w t r made used =
      destroy_lem has_ip new_base calls s.server t.rpc.server r
        (make_rpc_server-server has_ip new_base calls s r made) (Reach-server used)
