-- ===== src/Conn.antt =====
-- The class Conn of src/tcpServer.h: a socket, its thread, and the buffers that the callbacks of a
-- bufferevent put in. A buffer that was never put in is NULL, which no call may be given.
pub mod Laws
mod Examples
use m_rpc.Prelude.{ℕ, ◌%◌, ◌^◌, Bool, Option, none, some, Run, ok, crash}
use m_rpc.Endian.{Bytes}
use m_rpc.Platform.{EvBuffer}

module _ (ev : EvBuffer) where
  open ev use {Buf, get_length, add, remove, copyout, add_buffer}

  pub record Conn : Type 0 where
    pub fd : ℕ
    pub thread : ℕ
    pub bev : ℕ
    pub read_buf : Option Buf
    pub write_buf : Option Buf

  -- Conn::Conn; NULL is 0
  pub new_conn : ℕ → Conn
  new_conn fd = record { fd = fd; thread = 0; bev = 0; read_buf = none; write_buf = none }

  -- getThread, getFd and getBufferevent
  abbrev pub get_thread : Conn → ℕ
  get_thread c = c.thread

  abbrev pub get_fd : Conn → ℕ
  get_fd c = c.fd

  abbrev pub get_bufferevent : Conn → ℕ
  get_bufferevent c = c.bev

  -- A use of a buffer that may be NULL.
  abbrev pub with_buf {ℓ} : {A : Type ℓ} → Option Buf → (Buf → Run A) → Run A
  with_buf none f = crash
  with_buf (some b) f = f b

  -- getReadBufferLen and getWriteBufferLen, as uint32_t
  pub get_read_buffer_len : Conn → Run ℕ
  get_read_buffer_len c = with_buf c.read_buf λ b. ok (get_length b % 2 ^ 32)

  pub get_write_buffer_len : Conn → Run ℕ
  get_write_buffer_len c = with_buf c.write_buf λ b. ok (get_length b % 2 ^ 32)

  abbrev pub get_read_buffer : Conn → Option Buf
  get_read_buffer c = c.read_buf

  -- readBuffer: the bytes, which leave the buffer
  pub read_buffer : ℕ → Conn → Run (Bytes × Conn)
  read_buffer len c =
      with_buf c.read_buf λ b. ok ((remove b len).0, record c { read_buf = some (remove b len).1 })

  -- copyBuffer
  pub copy_buffer : ℕ → Conn → Run Bytes
  copy_buffer len c = with_buf c.read_buf λ b. ok (copyout b len)

  -- addToWriteBuffer: whether evbuffer_add returned 0
  pub add_to_write_buffer : Bytes → Conn → Run (Bool × Conn)
  add_to_write_buffer xs c =
      with_buf c.write_buf λ b. ok ((add b xs).0, record c { write_buf = some (add b xs).1 })

  -- addBufToWriteBuffer: also the buffer that was given
  pub add_buf_to_write_buffer : Buf → Conn → Run (Bool × Buf × Conn)
  add_buf_to_write_buffer s c = with_buf c.write_buf λ b.
      ok ((add_buffer b s).0, (add_buffer b s).2, record c { write_buf = some (add_buffer b s).1 })

  -- moveBufferReadToWrite; the result of evbuffer_add_buffer is not looked at
  pub move_buffer_read_to_write : Conn → Run Conn
  move_buffer_read_to_write c = with_buf c.write_buf λ b.
      with_buf c.read_buf λ s.
        ok (record c { write_buf = some (add_buffer b s).1; read_buf = some (add_buffer b s).2 })
