-- ===== src/Server/Serving/Examples.antt =====
-- The theorem at the only thread of a server that takes the descriptor 20 off its pipe.
use m_rpc.Prelude.{◌%◌, ◌^◌, ◌≡◌, refl, true, false, none, some, [], ◌∷◌, get_elem?, arith}
use m_rpc.ConnQueue.{
  Heap, ConnQueue, IsQueue, construct, get_count, insert_conn, set_pre, set_next, load, write,
}
use m_rpc.Server.{Thread, Server, handle, modify, notify_handler}
use m_rpc.Server.Queues.{Holding}
use m_rpc.Server.Serving.{Serves, begins, takes, Serves_lem}

abbrev none_heap : Heap
none_heap p = none

abbrev one_thread : Thread → Server
one_thread t = record {
  threads = t ∷ [];
  has_connect_cb = false;
  has_event_cb = false;
  accepted = 20 ∷ [];
  closed = [];
  dropped = [];
  lost = [];
  callbacks = [];
}

abbrev waiting : Thread
waiting = record { pipe = 20 ∷ []; conns = []; running = true }

abbrev serving : Thread
serving = record { pipe = []; conns = 20 ∷ []; running = true }

abbrev used :
    (q : ConnQueue) × (g : Heap) × Serves 8 0 (one_thread serving) serving q g ((3, 20) ∷ [])
unfolding construct insert_conn set_pre set_next load write notify_handler handle modify
used = (
  _,
  _,
  takes [] 3 20 3
      (begins (one_thread waiting) waiting none_heap 1 2 refl refl (omega arith) (omega arith)
        (omega arith) refl)
      refl refl refl refl (omega arith) refl refl refl refl,
)

Serves_lem_example :
    (get_elem? (one_thread serving).threads 0 ≡ some serving)
    × IsQueue used.1 used.0 (3 ∷ [])
    × Holding used.1 ((3, 20) ∷ [])
    × (serving.conns ≡ 20 ∷ [])
    × (get_count used.0 ≡ 1 % 2 ^ 64)
Serves_lem_example = Serves_lem used.2
