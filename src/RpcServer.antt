-- ===== src/RpcServer.antt =====
-- src/rpcServer.h and src/rpcServer.cpp: the table of services, the channel made for a connection,
-- which the server's one read callback points to, and the TCP server below.
pub mod Registry
pub mod Served
pub mod Channels
pub mod Ending
mod Examples
use m_rpc.Prelude.{
  ℕ, ◌+◌, ◌≡◌, Bool, true, false, Option, none, some, List, [], ◌∷◌, ◌++◌, ◌==◌, ◌||◌,
  if◌then◌else◌, Run, ok, crash,
}
use m_rpc.Endian.{Bytes}
use m_rpc.Channel.{bytes_eq}
use m_rpc.Server.Life
use m_rpc.Server.Life.{Ended, returned, threw, Resources, SetupCalls, TcpServer, start_run}

-- `channels` are the channels that were made and not freed, `next_channel` the name of the next
-- one; `read_cb` is the channel that the read callback of the TcpServer holds a plain pointer to.
-- The TcpServer is `server`; its other callbacks are in the module Served.
pub record RpcServer : Type 0 where
  pub server : TcpServer
  pub services : List (Bytes × ℕ)
  pub next_channel : ℕ
  pub channels : List ℕ
  pub read_cb : Option ℕ

-- RpcServer::RpcServer, on a TcpServer that was made
unfoldable pub new_rpc_server : TcpServer → RpcServer
new_rpc_server server = record {
  server = server;
  services = [];
  next_channel = 0;
  channels = [];
  read_cb = none;
}

-- RpcServer::RpcServer, given what the calls of the system give TcpServer::TcpServer
unfoldable pub make_rpc_server : Bool → Option ℕ → List SetupCalls → Ended RpcServer × Resources
make_rpc_server has_ip new_base calls =
    let (made, r) = Life.construct has_ip new_base calls in
    elim made [ returned server ↦ (returned (new_rpc_server server), r) | threw ↦ (threw, r) ]

-- RpcServer::start
unfoldable pub start : Bool → Option ℕ → List Bool → RpcServer → Ended (Unit {0}) × RpcServer
start address listener results s =
    let (ended, server) = start_run address listener results s.server in
    (ended, record s { server = server })

-- The destructor, which the compiler writes: the members, `server` the last.
unfoldable pub destroy : RpcServer → Run TcpServer
destroy s = Life.destroy s.server

-- `services[name] = service`, one entry to a name
pub erase_service : Bytes → List (Bytes × ℕ) → List (Bytes × ℕ)
erase_service k [] = []
erase_service k ((j, v) ∷ m) =
    let rest = erase_service k m in if bytes_eq k j then rest else (j, v) ∷ rest

-- RpcServer::registerService, with the full name of the service's descriptor; NULL is 0
unfoldable pub register_service : Bytes → ℕ → RpcServer → RpcServer
register_service name service s =
    if service == 0
    then s
    else record s { services = (name, service) ∷ erase_service name s.services }

unfoldable pub is_live : ℕ → List ℕ → Bool
is_live k [] = false
is_live k (j ∷ js) = (k == j) || is_live k js

unfoldable pub free_channel : ℕ → List ℕ → List ℕ
free_channel k [] = []
free_channel k (j ∷ js) = let rest = free_channel k js in if k == j then rest else j ∷ rest

-- RpcServer::onConnection: the channel is owned by a local shared_ptr alone.
unfoldable pub on_connection : ℕ → RpcServer → RpcServer
on_connection conn s =
    if conn == 0
    then s
    else let channel = s.next_channel in
      let made = channel ∷ s.channels in
      record s {
        next_channel = s.next_channel + 1;
        read_cb = some channel;
        channels = free_channel channel made;
      }
