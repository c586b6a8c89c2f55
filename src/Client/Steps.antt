-- ===== src/Client/Steps.antt =====
-- What can happen to a client of src/tcpClient.cpp.
use m_rpc.Prelude.{ℕ, ◌≡◌, Bool, true, ok}
use m_rpc.Server.{mem}
use m_rpc.Client.{
  User, UserCall, Client, EventFlags, Ended, set_read_callback, set_write_callback,
  set_connection_callback, set_event_callback, buffer_read_cb, buffer_write_cb, buffer_event_cb,
  start_run, quit,
}

-- A use of the client's methods, by its owner or by a callback; `startRun` at any time.
pub data Use (c : Client) : Client → Type 0 where
  sets_read : Use c (set_read_callback c)
  sets_write : Use c (set_write_callback c)
  sets_connect : Use c (set_connection_callback c)
  sets_event : Use c (set_event_callback c)
  starts :
      {d : Client} (address made_it begun : Bool) (r : Ended)
      → start_run address made_it begun c ≡ ok (r, d)
      → Use c d
  quits : {d : Client} → quit c ≡ ok d → Use c d

pub data Uses (c : Client) : Client → Type 0 where
  none_more : Uses c c
  more : {d e : Client} → Uses c d → Use d e → Uses c e

-- Callbacks that change the client by its methods alone.
abbrev pub UsesMethods : User → Type 0
UsesMethods user = (k : UserCall) (c d : Client) → user k c ≡ ok d → Uses c d

-- The uses of a client, and the events of its live bufferevents.
pub data Step (user : User) (c : Client) : Client → Type 0 where
  uses : {d : Client} → Use c d → Step user c d
  reads :
      {d : Client} (bev : ℕ)
      → mem bev c.live ≡ true
      → buffer_read_cb user bev c ≡ ok d
      → Step user c d
  writes :
      {d : Client} (bev : ℕ)
      → mem bev c.live ≡ true
      → buffer_write_cb user bev c ≡ ok d
      → Step user c d
  happens :
      {d : Client} (bev : ℕ) (e : EventFlags) (new_fd : ℕ)
      → mem bev c.live ≡ true
      → buffer_event_cb user bev e new_fd c ≡ ok d
      → Step user c d

pub data Reach (user : User) (c : Client) : Client → Type 0 where
  here : Reach user c c
  next : {d e : Client} → Reach user c d → Step user d e → Reach user c e
