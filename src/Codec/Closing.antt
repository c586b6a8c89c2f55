-- ===== src/Codec/Closing.antt =====
-- ProtobufCodecLite::defaultErrorCallback of src/codeClite.cpp, on the connections and bufferevents
-- of a server's threads.
use m_rpc.Prelude.{
  ◌≡◌, ◌≢◌, refl, Bool, true, false, Option, none, some, List, ◌∷◌, ◌++◌, ◌==◌, ==_refl,
  ne→==_false, if◌then◌else◌, Run, ok, crash, Returns, Returns-ok,
}
use m_rpc.ConnQueue.{Ptr, null, Conn, Heap, ConnQueue, IsQueue, load, delete_conn}
use m_rpc.ConnQueue.Delete.{delete_conn-append}
use m_rpc.Codec.{ErrorCode}

-- The connections, the bufferevents that were not freed, and the `connect_queue` of each thread.
pub record World : Type 0 where
  pub heap : Heap
  pub live : Ptr → Bool
  pub queues : Ptr → Option ConnQueue

-- `bufferevent_free`; it must be given a bufferevent that was not freed.
unfoldable pub free_bufferevent : Ptr → World → Run World
free_bufferevent b w =
    if w.live b then ok (record w { live = λ p. if p == b then false else w.live p }) else crash

-- `connect_queue.deleteConn(conn)` of a thread
unfoldable pub delete_from : Ptr → Ptr → World → Run World
delete_from thread conn w = elim (w.queues thread) [
  | none ↦ crash
  | some q ↦ elim (delete_conn conn q w.heap) [
    | ok (q', g) ↦
        ok (record w { heap = g; queues = λ t. if t == thread then some q' else w.queues t })
    | crash ↦ crash
    | Run.out_of_fuel ↦ Run.out_of_fuel
  ]
]

-- ProtobufCodecLite::defaultErrorCallback; the error code is only for the log
unfoldable pub default_error_callback : Ptr → ErrorCode → World → Run World
default_error_callback conn e w = if conn == null then ok w else elim (load conn w.heap) [
  | ok (c, h) ↦ elim (free_bufferevent c.bev w) [
    | ok w' ↦ delete_from c.thread conn w'
    | crash ↦ crash
    | Run.out_of_fuel ↦ Run.out_of_fuel
  ]
  | crash ↦ crash
  | Run.out_of_fuel ↦ Run.out_of_fuel
]

-- A connection that stands in the queue of its thread and has a live bufferevent: the callback
-- frees that bufferevent and no other, takes the connection out of the queue, which keeps the rest
-- in their order, and deletes it; other threads keep their queues. Called once more for the same
-- connection, it follows a pointer to a deleted object.
pub default_error_callback_lem :
    (e : ErrorCode) (w : World) (conn : Ptr) (c : Conn) (q : ConnQueue) (xs ys : List Ptr)
    → conn ≢ null
    → w.heap conn ≡ some c
    → w.live c.bev ≡ true
    → w.queues c.thread ≡ some q
    → IsQueue w.heap q (xs ++ conn ∷ ys)
    → Returns
        (λ w'.
          ((q' : ConnQueue) × (w'.queues c.thread ≡ some q') × IsQueue w'.heap q' (xs ++ ys))
          × (w'.heap conn ≡ none)
          × (w'.live c.bev ≡ false)
          × ((b : Ptr) → b ≢ c.bev → w'.live b ≡ w.live b)
          × ((t : Ptr) → t ≢ c.thread → w'.queues t ≡ w.queues t)
          × (default_error_callback conn e w' ≡ crash))
        (default_error_callback conn e w)
unfolding default_error_callback free_bufferevent delete_from load
default_error_callback_lem e w conn c q xs ys ne there live own is =
    let ((q', g), run, (is', gone, elsewhere)) =
      Returns-ok _ (delete_conn conn q w.heap) (delete_conn-append w.heap q xs conn ys is) in
    rw (ne→==_false conn null ne, there, live, own, run)
      (
        (q', rw (==_refl c.thread) refl, is'),
        gone,
        rw (==_refl c.bev) refl,
        λ b d. rw (ne→==_false b c.bev d) refl,
        λ t d. rw (ne→==_false t c.thread d) refl,
        rw gone refl,
      )
