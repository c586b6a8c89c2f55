-- ===== src/Client.antt =====
-- src/tcpClient.h and src/tcpClient.cpp: the one connection of a client, and the bufferevents that
-- `startRun` makes for it.
pub mod Steps
pub mod Invariant
pub mod Lifetime
mod Examples
use m_rpc.Prelude.{
  ℕ, ◌+◌, ◌≡◌, ◌≢◌, Bool, true, false, Option, none, some, List, [], ◌∷◌, ◌++◌, if◌then◌else◌, Run,
  ok, crash, ◌>>=◌,
}
use m_rpc.Server.{mem, remove_one}

-- The two buffers of a bufferevent, or NULL.
pub data Buffer : Type 0 where
  no_buffer : Buffer
  input_of output_of : ℕ → Buffer

pub data CallbackKind : Type 0 where
  read wrote connected : CallbackKind
  event : ℕ → CallbackKind

-- A call of a callback of the user, with the buffers that `conn_` pointed to, and the bufferevent
-- whose event it is.
pub record UserCall : Type 0 where
  pub kind : CallbackKind
  pub given_read_buf : Buffer
  pub given_write_buf : Buffer
  pub of_bev : ℕ

-- `base` is whether the event base is there. A bufferevent is the number of its making, from 1 on:
-- `bev` is `conn_.bev`, with 0 for NULL, and `live` are the bufferevents that were made and not
-- freed; `made` and `released` count both.
pub record Client : Type 0 where
  pub base : Bool
  pub bev : ℕ
  pub live : List ℕ
  pub read_buf : Buffer
  pub write_buf : Buffer
  pub fd : ℕ
  pub has_read_cb : Bool
  pub has_write_cb : Bool
  pub has_connect_cb : Bool
  pub has_event_cb : Bool
  pub made : ℕ
  pub released : ℕ
  pub callbacks : List UserCall

-- What the callbacks of the user do to the client.
abbrev pub User : Type 0
User = UserCall → Client → Run Client

-- TcpClient::TcpClient, where event_base_new gives a base.
pub new_client : Client
new_client = record {
  base = true;
  bev = 0;
  live = [];
  read_buf = no_buffer;
  write_buf = no_buffer;
  fd = 0;
  has_read_cb = false;
  has_write_cb = false;
  has_connect_cb = false;
  has_event_cb = false;
  made = 0;
  released = 0;
  callbacks = [];
}

-- How a call ended: it returned, or threw a NetErr.
pub data Ended : Type 0 where
  returned threw : Ended

-- TcpClient::TcpClient, given whether event_base_new succeeded; there is no object if it throws.
pub make_client : Bool → Ended × Option Client
make_client base_made = if base_made then (returned, some new_client) else (threw, none)

-- The setters of callbacks.
pub set_read_callback : Client → Client
set_read_callback c = record c { has_read_cb = true }

pub set_write_callback : Client → Client
set_write_callback c = record c { has_write_cb = true }

pub set_connection_callback : Client → Client
set_connection_callback c = record c { has_connect_cb = true }

pub set_event_callback : Client → Client
set_event_callback c = record c { has_event_cb = true }

-- The call that a callback of this kind gets.
abbrev pub user_call : CallbackKind → ℕ → Client → UserCall
user_call k bev c = record {
  kind = k;
  given_read_buf = c.read_buf;
  given_write_buf = c.write_buf;
  of_bev = bev;
}

-- The user's callback, if there is one.
pub call_user : User → Bool → CallbackKind → ℕ → Client → Run Client
call_user user there k bev c =
    if there
    then user (user_call k bev c) (record c { callbacks = c.callbacks ++ user_call k bev c ∷ [] })
    else ok c

-- `conn->readBuf` and `conn->writeBuf` set to the buffers of a bufferevent.
abbrev pub with_buffers : ℕ → Client → Client
with_buffers bev c = record c { read_buf = input_of bev; write_buf = output_of bev }

abbrev pub freed : ℕ → Client → Client
freed bev c = record c { live = remove_one bev c.live; released = c.released + 1 }

-- `bufferevent_free`, which must be given a bufferevent that was made and not freed.
pub free_bev : ℕ → Client → Run Client
free_bev bev c = if mem bev c.live then ok (freed bev c) else crash

-- TcpClient::bufferReadCb and bufferWriteCb
pub buffer_read_cb : User → ℕ → Client → Run Client
buffer_read_cb user bev c = call_user user c.has_read_cb read bev (with_buffers bev c)

pub buffer_write_cb : User → ℕ → Client → Run Client
buffer_write_cb user bev c = call_user user c.has_write_cb wrote bev (with_buffers bev c)

-- The tests of TcpClient::bufferEventCb, in its order: of the flags only BEV_EVENT_CONNECTED
-- without a flag of an error counts as a connection.
pub record EventFlags : Type 0 where
  pub eof : Bool
  pub reading : Bool
  pub writing : Bool
  pub timeout : Bool
  pub error : Bool
  pub connected_flag : Bool
  pub bits : ℕ

pub is_connected : EventFlags → Bool
is_connected e =
    if e.eof
    then false
    else if e.reading
    then false
    else if e.writing
    then false
    else if e.timeout
    then false
    else if e.error
    then false
    else e.connected_flag

-- The two ends of TcpClient::bufferEventCb: after a connection, and after any other event.
pub on_connected : User → ℕ → ℕ → Client → Run Client
on_connected user bev new_fd c =
    call_user user c.has_connect_cb connected bev (with_buffers bev (record c { fd = new_fd }))

pub on_failed : User → ℕ → ℕ → Client → Run Client
on_failed user bev bits c = do d ← call_user user c.has_event_cb (event bits) bev c; free_bev bev d

-- TcpClient::bufferEventCb of a bufferevent; `new_fd` is bufferevent_getfd
pub buffer_event_cb : User → ℕ → EventFlags → ℕ → Client → Run Client
buffer_event_cb user bev e new_fd c =
    if is_connected e then on_connected user bev new_fd c else on_failed user bev e.bits c

-- The bufferevent that startRun makes, in `conn_.bev`.
abbrev pub with_bev : Client → Client
with_bev c = record c { bev = c.made + 1; live = (c.made + 1) ∷ c.live; made = c.made + 1 }

-- TcpClient::startRun up to event_base_dispatch: whether the address was read, the bufferevent
-- made, and the connection begun.
unfoldable pub start_run : Bool → Bool → Bool → Client → Run (Ended × Client)
start_run address made_it begun c =
    if address
    then if made_it
      then if begun
        then ok (returned, with_bev c)
        else (free_bev (c.made + 1) (with_bev c) >>= λ d. ok (returned, d))
      else ok (threw, record c { bev = 0 })
    else ok (threw, c)

-- `event_base_loopexit(main_base.base)` and `event_base_free(main_base.base)`
pub loopexit : Client → Run Client
loopexit c = if c.base then ok c else crash

pub free_main_base : Client → Run Client
free_main_base c = if c.base then ok (record c { base = false }) else crash

-- TcpClient::quit
pub quit : Client → Run Client
quit c = do d ← free_bev c.bev c; loopexit d

-- TcpClient::~TcpClient
pub destroy : Client → Run Client
destroy c = do d ← quit c; free_main_base d
