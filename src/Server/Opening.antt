-- ===== src/Server/Opening.antt =====
-- A connection from TcpServer::notifyHandler to TcpServer::bufferEventCb of src/tcpServer.cpp.
use m_rpc.Prelude.{
  ℕ, ◌≡◌, ◌≢◌, refl, sym, ◌∙◌, true, false, Option-cases, inl, inr, none, some, List, [], ◌∷◌, ◌==◌,
  ne→==_false, ==_refl, if◌then◌else◌, Run, ok, crash, out_of_fuel, ◌>>=◌, Returns, Returns-ok,
  Returns-mono,
}
use m_rpc.ConnQueue.{
  Ptr, null, Conn, Heap, write, ConnQueue, IsQueue, nodes, load, insert_conn, delete_conn,
}
use m_rpc.ConnQueue.Memory.{write_self}
use m_rpc.ConnQueue.Fields.{field-write}
use m_rpc.ConnQueue.Linked.{Linked-frame}
use m_rpc.ConnQueue.Insert.{insert_conn-cons}
use m_rpc.Codec.{ErrorCode}
use m_rpc.Codec.Closing.{
  World, free_bufferevent, delete_from, default_error_callback, default_error_callback_lem,
}
use m_rpc.Server.Objects.{
  Callbacks, call, read_conn, put_conn, with_server, buffer_event_cb, insert_into, open_conn,
}

pub read_conn-ok :
    (p : Ptr) (w : World) (c : Conn) → p ≢ null → w.heap p ≡ some c → read_conn p w ≡ ok c
unfolding read_conn
read_conn-ok p w c ne there = rw (ne→==_false p null ne, there) refl

-- To free a bufferevent after a connection was deleted, or before, is the same.
commute :
    (t conn b : Ptr) (w : World)
    → w.live b ≡ true
    → (delete_from t conn w >>= free_bufferevent b) ≡ (free_bufferevent b w >>= delete_from t conn)
unfolding free_bufferevent delete_from
commute t conn b w live = elim (Option-cases (w.queues t)) [
  | inl missing ↦ rw (live, missing, delete_from) refl
  | inr (q, own) ↦ rw (live, own, delete_from) (after (delete_conn conn q w.heap))
]
  where
    after :
        (r : Run (ConnQueue × Heap))
        → (elim r [
          | ok (q', g) ↦
              ok (record w { heap = g; queues = λ u. if u == t then some q' else w.queues u })
          | crash ↦ crash
          | Run.out_of_fuel ↦ Run.out_of_fuel
        ]
            >>= free_bufferevent b)
          ≡ elim r [
            | ok (q', g) ↦ ok (record w {
              heap = g;
              live = λ p. if p == b then false else w.live p;
              queues = λ u. if u == t then some q' else w.queues u;
            })
            | crash ↦ crash
            | Run.out_of_fuel ↦ Run.out_of_fuel
          ]
    after (ok (q', g)) = rw live refl
    after crash = refl
    after out_of_fuel = refl

-- `bufferEventCb` of a server without an event callback does to a connection and its bufferevent
-- what the default error callback of the codec does, whatever state the queue of its thread is in.
pub buffer_event_cb-default_error_callback :
    (s : Callbacks) (e : ErrorCode) (events : ℕ) (w : World) (conn : Ptr) (c : Conn)
    → s.event_cb ≡ none
    → conn ≢ null
    → w.heap conn ≡ some c
    → c.thread ≢ null
    → w.live c.bev ≡ true
    → buffer_event_cb s c.bev events conn w ≡ default_error_callback conn e w
unfolding buffer_event_cb default_error_callback with_server load free_bufferevent
buffer_event_cb-default_error_callback s e events w conn c silent ne there thread live =
    let read = read_conn-ok conn w c ne there in
    rw (ne→==_false conn null ne, there, live, read, silent, ne→==_false c.thread null thread, read)
      (commute c.thread conn c.bev w live ∙ rw (live, free_bufferevent) refl)

-- A change of an object that leaves its links leaves a queue.
pub IsQueue-write :
    (h : Heap) (q : ConnQueue) (xs : List Ptr) (p : Ptr) (n m : Conn)
    → h p ≡ some n
    → m.pre ≡ n.pre
    → m.next ≡ n.next
    → IsQueue h q xs
    → IsQueue (write h p (some m)) q xs
IsQueue-write h q xs p n m there pre next is =
    let g = write h p (some m) in
    let nexts = λ (a : Ptr). field-write (λ c. c.next) h p a n m there next in
    let pres = λ (a : Ptr). field-write (λ c. c.pre) h p a n m there pre in
    record {
      linked = Linked-frame h g (nodes q xs) (λ a i. nexts a) (λ a i. pres a) is.linked;
      distinct = is.distinct;
      not_null = is.not_null;
      counted = is.counted;
      front_end = pres q.head ∙ is.front_end;
      back_end = nexts q.tail ∙ is.back_end;
    }

-- A connection that was opened: where it stands, and what else is as before.
pub record Opened (w w' : World) (thread fd bev conn : ℕ) (xs : List Ptr) : Type 0 where
  pub queued : (q' : ConnQueue) × (w'.queues thread ≡ some q') × IsQueue w'.heap q' (conn ∷ xs)
  pub node :
      (n : Conn) × (w'.heap conn ≡ some n) × (n.fd ≡ fd) × (n.bev ≡ bev) × (n.thread ≡ thread)
  pub live : w'.live bev ≡ true
  pub other_live : (b : Ptr) → b ≢ bev → w'.live b ≡ w.live b
  pub other_queues : (t : Ptr) → t ≢ thread → w'.queues t ≡ w.queues t

-- `notifyHandler` for a descriptor for which a bufferevent was made: before it calls the connection
-- callback, the connection is the first of the thread's queue, and it has the descriptor, the thread
-- and the bufferevent.
open_conn-Opened :
    (s : Callbacks) (w : World) (thread fd bev conn : ℕ) (q : ConnQueue) (xs : List Ptr)
    → bev ≢ null
    → conn ≢ null
    → w.heap conn ≡ none
    → w.queues thread ≡ some q
    → IsQueue w.heap q xs
    → (w' : World) × (open_conn s thread fd bev conn w ≡ call s.connect_cb conn w')
      × Opened w w' thread fd bev conn xs
unfolding open_conn insert_into read_conn put_conn
open_conn-Opened s w thread fd bev conn q xs bev_ne conn_ne free own is =
    let (((r, q'), g), run, (_, is', (n, there, has_fd, has_thread), _)) =
      Returns-ok _ (insert_conn conn fd thread q w.heap)
        (insert_conn-cons w.heap q xs conn fd thread is free conn_ne) in
    let m : Conn = record n { bev = bev; thread = thread } in
    (
      record {
        heap = write g conn (some m);
        live = λ b. if b == bev then true else w.live b;
        queues = λ t. if t == thread then some q' else w.queues t;
      },
      rw (ne→==_false bev null bev_ne, own, run, ne→==_false conn null conn_ne, there) refl,
      record {
        queued = (
          q',
          rw (==_refl thread) refl,
          IsQueue-write g q' (conn ∷ xs) conn n m there refl refl is',
        );
        node = (m, write_self g conn (some m), has_fd, refl, refl);
        live = rw (==_refl bev) refl;
        other_live = λ b ne. rw (ne→==_false b bev ne) refl;
        other_queues = λ t ne. rw (ne→==_false t thread ne) refl;
      },
    )

-- A connection that a thread opens and that ends with the next event, in a server without connection
-- and event callbacks: `notifyHandler` and then `bufferEventCb` return; the queue of the thread has
-- the connections that it had, in their order and well linked; the connection is deleted and its
-- bufferevent freed; other bufferevents and the queues of other threads are as they were; and if the
-- codec's default error callback is then called for the connection, the process crashes.
pub open_conn-buffer_event_cb :
    (s : Callbacks) (e : ErrorCode) (events : ℕ) (w : World) (thread fd bev conn : ℕ)
    (q : ConnQueue) (xs : List Ptr)
    → s.connect_cb ≡ none
    → s.event_cb ≡ none
    → thread ≢ null
    → bev ≢ null
    → conn ≢ null
    → w.heap conn ≡ none
    → w.queues thread ≡ some q
    → IsQueue w.heap q xs
    → Returns
        (λ w'.
          ((q' : ConnQueue) × (w'.queues thread ≡ some q') × IsQueue w'.heap q' xs)
          × (w'.heap conn ≡ none)
          × (w'.live bev ≡ false)
          × ((b : Ptr) → b ≢ bev → w'.live b ≡ w.live b)
          × ((t : Ptr) → t ≢ thread → w'.queues t ≡ w.queues t)
          × (default_error_callback conn e w' ≡ crash))
        (open_conn s thread fd bev conn w >>= buffer_event_cb s bev events conn)
open_conn-buffer_event_cb s e events w thread fd bev conn q xs quiet silent thread_ne bev_ne conn_ne
      free own is =
    let (w₁, run, opened) =
      open_conn-Opened s w thread fd bev conn q xs bev_ne conn_ne free own is in
    let (q₁, own₁, is₁) = opened.queued in
    let (n, there, _, on_bev, on_thread) = opened.node in
    let ended : buffer_event_cb s bev events conn w₁ ≡ default_error_callback conn e w₁ =
      rw (sym on_bev) (
        buffer_event_cb-default_error_callback s e events w₁ conn n silent conn_ne there
          (rw on_thread thread_ne) (rw on_bev opened.live)) in
    let closed =
      default_error_callback_lem e w₁ conn n q₁ [] xs conn_ne there (rw on_bev opened.live)
        (rw on_thread own₁) is₁ in
    let closed' = rw (on_bev, on_thread) at closed in
    let ran : open_conn s thread fd bev conn w ≡ ok w₁ = run ∙ rw (quiet, call) refl in
    rw (ran, ended)
      (Returns-mono _ _ (default_error_callback conn e w₁) closed'
        (λ w' (queue, gone, freed, lives, queues, again). (
          queue,
          gone,
          freed,
          λ b ne. lives b ne ∙ opened.other_live b ne,
          λ t ne. queues t ne ∙ opened.other_queues t ne,
          again,
        )))
