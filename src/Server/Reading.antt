-- ===== src/Server/Reading.antt =====
-- TcpServer::bufferReadCb and bufferWriteCb of src/tcpServer.cpp.
use m_rpc.Prelude.{◌≡◌, ◌≢◌, refl, some, List, ok, ne→==_false}
use m_rpc.ConnQueue.{Ptr, null, Conn, ConnQueue, IsQueue}
use m_rpc.ConnQueue.Memory.{write_self, write_ne}
use m_rpc.Codec.Closing.{World}
use m_rpc.Server.Objects.{
  Callbacks, call, put_conn, with_server, with_buffers, buffer_read_cb, buffer_write_cb,
}
use m_rpc.Server.Opening.{read_conn-ok, IsQueue-write}

module _ (get_input get_output : Ptr → Ptr) where
  -- For a connection that is there, both callbacks of its bufferevent hand it to the server's
  -- callback of that kind with the two buffers of the bufferevent; a queue that held is as it was,
  -- and so is every other connection. A write callback that gets NULL does nothing.
  pub buffer_cb_lem :
      (s : Callbacks) (bev conn : Ptr) (w : World) (c : Conn) (q : ConnQueue) (xs : List Ptr)
      → bev ≢ null
      → conn ≢ null
      → w.heap conn ≡ some c
      → c.thread ≢ null
      → IsQueue w.heap q xs
      → (w' : World) × (buffer_read_cb get_input get_output s bev conn w ≡ call s.read_cb conn w')
        × (buffer_write_cb get_input get_output s bev conn w ≡ call s.write_cb conn w')
        × (w'.heap conn ≡ some (record c { read_buf = get_input bev; write_buf = get_output bev }))
        × ((p : Ptr) → p ≢ conn → w'.heap p ≡ w.heap p)
        × IsQueue w'.heap q xs
        × (buffer_write_cb get_input get_output s null conn w ≡ ok w)
        × (buffer_write_cb get_input get_output s bev null w ≡ ok w)
  unfolding buffer_read_cb buffer_write_cb with_server put_conn
  buffer_cb_lem s bev conn w c q xs bev_ne ne there thread is =
      let read = read_conn-ok conn w c ne there in
      let c' = with_buffers get_input get_output bev c in
      (
        put_conn conn c' w,
        rw (read, ne→==_false c.thread null thread) refl,
        rw
            (
              ne→==_false bev null bev_ne,
              ne→==_false conn null ne,
              read,
              ne→==_false c.thread null thread,
            )
            refl,
        write_self w.heap conn (some c'),
        λ p out. write_ne w.heap conn p (some c') out,
        IsQueue-write w.heap q xs conn c c' there refl refl is,
        refl,
        rw (ne→==_false bev null bev_ne) refl,
      )
