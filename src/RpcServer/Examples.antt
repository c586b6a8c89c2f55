-- ===== src/RpcServer/Examples.antt =====
-- A server with one service and one connection, that gets another.
use m_rpc.Prelude.{ℕ, List, ◌≤◌, ◌+◌, ◌≡◌, refl, false, some, [], ◌∷◌, Run, ok, crash, arith}
use m_rpc.Endian.{Bytes}
use m_rpc.ConnQueue.{Ptr, load, write, set_pre, set_next, insert_conn}
use m_rpc.ConnQueue.Examples.{world}
use m_rpc.Codec.Closing.{World}
use m_rpc.Channel.{find_service}
use m_rpc.Server.Life.{TcpServer, Resources}
use m_rpc.Server.Objects.{no_callbacks, open_conn, insert_into, read_conn, put_conn}
use m_rpc.RpcServer.{new_rpc_server, register_service, on_connection}
use m_rpc.RpcServer.Served.{Served, here, next, registers, data_ready, new_connection}
use m_rpc.RpcServer.Channels.{data_ready-crash}
use m_rpc.RpcServer.Registry.{register_all, last_registered, entries, register_all_lem}
use m_rpc.Channel.{bytes_eq}

abbrev one_base : Resources
one_base = record { bases = 1 ∷ []; pipes = []; listeners = [] }

abbrev server : TcpServer
server = record {
  main_base = 1;
  threads = [];
  has_ip = false;
  running = [];
  told = [];
  open_resources = one_base;
}

abbrev input_of : Ptr → Ptr
input_of bev = bev + 100

abbrev output_of : Ptr → Ptr
output_of bev = bev + 200

-- A channel that reads and keeps everything as it is.
abbrev deliver : ℕ → Ptr → World → Run World
deliver channel conn w = ok w

abbrev after : Run World → World
after (ok w) = w
after crash = world
after Run.out_of_fuel = world

abbrev before : Served
before = record { rpc = register_service (1 ∷ []) 5 (new_rpc_server server); world = world }

abbrev opened : Served
opened = record {
  rpc = on_connection 6 before.rpc;
  world = after (open_conn no_callbacks 8 30 7 6 world);
}

opens : new_connection input_of output_of deliver 8 30 7 6 before ≡ ok opened
unfolding new_connection open_conn insert_into insert_conn read_conn put_conn load write set_pre
    set_next
opens = refl

data_ready-crash_example : data_ready input_of output_of deliver 4 3 opened ≡ crash
data_ready-crash_example =
    data_ready-crash input_of output_of deliver server world 8 30 7 6
      (next here (registers (1 ∷ []) 5)) (omega arith) (omega arith) opens 4 3

abbrev names : List (Bytes × ℕ)
names = (2 ∷ [], 6) ∷ (2 ∷ [], 7) ∷ (3 ∷ [], 8) ∷ (2 ∷ [], 0) ∷ []

register_all_lem_example :
    (find_service (2 ∷ []) (register_all names (new_rpc_server server)).services ≡ some 7)
    × (entries (2 ∷ []) (register_all names (new_rpc_server server)).services ≤ 1)
unfolding last_registered bytes_eq
register_all_lem_example = register_all_lem (2 ∷ []) names server
