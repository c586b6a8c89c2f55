-- ===== src/ConnQueue/Examples.antt =====
-- The theorems at a queue with its sentinels at 1 and 2, empty and with a connection at 3.
use m_rpc.Prelude.{
  ℕ, ◌+◌, ◌>>=◌, ◌≡◌, ◌≢◌, refl, none, some, [], ◌∷◌, false, true, ◌==◌, if◌then◌else◌, crash,
  Returns, arith,
}
use m_rpc.ConnQueue.{
  Ptr, Conn, new_conn, Heap, ConnQueue, insert_conn, delete_conn, destroy_loop, has, nodes, IsQueue,
}
use m_rpc.Codec.{checksum_error}
use m_rpc.Codec.Closing.{World, default_error_callback, default_error_callback_lem}
use m_rpc.Server.Objects.{Callbacks, no_callbacks, buffer_event_cb, open_conn}
use m_rpc.Server.Opening.{buffer_event_cb-default_error_callback, open_conn-buffer_event_cb}
use m_rpc.ConnQueue.Insert.{insert_conn-cons}
use m_rpc.ConnQueue.Delete.{delete_conn-append}
use m_rpc.ConnQueue.Lifetime.{destroy_loop-nodes}

abbrev pub queue : ℕ → ConnQueue
queue n = record { total = n; head = 1; tail = 2 }

abbrev pub none_heap : Heap
none_heap p = none

abbrev empty_heap : Heap
empty_heap p =
    if p == 1
    then some (record (new_conn 0) { next = 2 })
    else if p == 2
    then some (record (new_conn 0) { pre = 1 })
    else none

abbrev pub one_heap : Heap
one_heap p =
    if p == 1
    then some (record (new_conn 0) { next = 3 })
    else if p == 2
    then some (record (new_conn 0) { pre = 3 })
    else if p == 3
    then some (record (new_conn 9) { pre = 1; next = 2 })
    else none

empty-IsQueue : IsQueue empty_heap (queue 0) []
empty-IsQueue = record {
  linked = (refl, refl, tt);
  distinct = (refl, (refl, tt));
  not_null = refl;
  counted = refl;
  front_end = refl;
  back_end = refl;
}

one-IsQueue : IsQueue one_heap (queue 1) (3 ∷ [])
one-IsQueue = record {
  linked = (refl, refl, (refl, refl, tt));
  distinct = (refl, (refl, (refl, tt)));
  not_null = refl;
  counted = refl;
  front_end = refl;
  back_end = refl;
}

insert_conn-cons_example :
    Returns
      (λ ((r, q'), g).
        (r ≡ 3)
        × IsQueue g q' (3 ∷ [])
        × ((n : Conn) × (g 3 ≡ some n) × (n.fd ≡ 9) × (n.thread ≡ 7))
        × ((p : Ptr) → has p (nodes q' (3 ∷ [])) ≡ false → g p ≡ empty_heap p))
      (insert_conn 3 9 7 (queue 0) empty_heap)
insert_conn-cons_example =
    insert_conn-cons empty_heap (queue 0) [] 3 9 7 empty-IsQueue refl (omega arith)

delete_conn-append_example :
    Returns
      (λ (q', g).
        IsQueue g q' []
        × (g 3 ≡ none)
        × ((p : Ptr) → has p (nodes q' []) ≡ false → p ≢ 3 → g p ≡ one_heap p))
      (delete_conn 3 (queue 1) one_heap)
delete_conn-append_example = delete_conn-append one_heap (queue 1) [] 3 [] one-IsQueue

destroy_loop-nodes_example :
    Returns
      (λ (_, g). (p : Ptr) → g p ≡ (if has p (1 ∷ 3 ∷ 2 ∷ []) then none else one_heap p))
      (destroy_loop 4 1 one_heap)
destroy_loop-nodes_example =
    destroy_loop-nodes one_heap (queue 1) (3 ∷ []) 4 one-IsQueue (omega arith)

-- The connection of a client, which its constructor puts in no queue.
-- Thread 8 has the queue of the connection at 3, whose bufferevent is 4.
abbrev pub world : World
world = record {
  heap = λ p.
      if p == 3
      then some (record (new_conn 9) { pre = 1; next = 2; bev = 4; thread = 8 })
      else one_heap p;
  live = λ p. if p == 4 then true else false;
  queues = λ t. if t == 8 then some (queue 1) else none;
}

world-IsQueue : IsQueue world.heap (queue 1) (3 ∷ [])
world-IsQueue = record {
  linked = (refl, refl, (refl, refl, tt));
  distinct = (refl, (refl, (refl, tt)));
  not_null = refl;
  counted = refl;
  front_end = refl;
  back_end = refl;
}

default_error_callback_lem_example :
    Returns
      (λ w'.
        ((q' : ConnQueue) × (w'.queues 8 ≡ some q') × IsQueue w'.heap q' [])
        × (w'.heap 3 ≡ none)
        × (w'.live 4 ≡ false)
        × ((b : Ptr) → b ≢ 4 → w'.live b ≡ world.live b)
        × ((t : Ptr) → t ≢ 8 → w'.queues t ≡ world.queues t)
        × (default_error_callback 3 checksum_error w' ≡ crash))
      (default_error_callback 3 checksum_error world)
default_error_callback_lem_example =
    default_error_callback_lem checksum_error world 3 _ (queue 1) [] [] (omega arith) refl refl refl
      world-IsQueue

-- A server whose read callback closes the connection.
abbrev closing : Callbacks
closing = record no_callbacks {
  read_cb = some (λ conn w. default_error_callback conn checksum_error w);
}

buffer_event_cb-default_error_callback_example :
    buffer_event_cb closing 4 16 3 world ≡ default_error_callback 3 checksum_error world
buffer_event_cb-default_error_callback_example =
    buffer_event_cb-default_error_callback closing checksum_error 16 world 3 _ refl (omega arith)
      refl (omega arith) refl

open_conn-buffer_event_cb_example :
    Returns
      (λ w'.
        ((q' : ConnQueue) × (w'.queues 8 ≡ some q') × IsQueue w'.heap q' (3 ∷ []))
        × (w'.heap 6 ≡ none)
        × (w'.live 7 ≡ false)
        × ((b : Ptr) → b ≢ 7 → w'.live b ≡ world.live b)
        × ((t : Ptr) → t ≢ 8 → w'.queues t ≡ world.queues t)
        × (default_error_callback 6 checksum_error w' ≡ crash))
      (open_conn closing 8 30 7 6 world >>= buffer_event_cb closing 7 16 6)
open_conn-buffer_event_cb_example =
    open_conn-buffer_event_cb closing checksum_error 16 world 8 30 7 6 (queue 1) (3 ∷ []) refl refl
      (omega arith) (omega arith) (omega arith) refl refl world-IsQueue

input_of : Ptr → Ptr
input_of bev = bev + 100

output_of : Ptr → Ptr
output_of bev = bev + 200
