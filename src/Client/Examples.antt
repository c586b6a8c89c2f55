-- ===== src/Client/Examples.antt =====
-- A client whose event callback connects again, and whose peer ends its first connection.
use m_rpc.Prelude.{◌≡◌, refl, true, false, [], ◌∷◌, ok, All}
use m_rpc.Server.{mem, remove_one}
use m_rpc.Client.{
  no_buffer, Client, User, UserCall, EventFlags, returned, new_client, is_connected, on_failed,
  call_user, free_bev, set_event_callback, buffer_event_cb, with_bev, start_run, event,
}
use m_rpc.Client.Steps.{
  UsesMethods, none_more, more, sets_event, starts, uses, happens, Reach, here, next,
}
use m_rpc.Client.Invariant.{IsFitting, ok_eq}
use m_rpc.Client.Lifetime.{Reach-IsFitting}

abbrev reconnects : User
reconnects = λ (k : UserCall) (c : Client). ok (with_bev c)

starts_again : (c : Client) → start_run true true true c ≡ ok (returned, with_bev c)
unfolding start_run
starts_again c = refl

reconnects-UsesMethods : UsesMethods reconnects
reconnects-UsesMethods k c d h =
    rw (ok_eq (with_bev c) d h) (more none_more (starts true true true returned (starts_again c)))

abbrev ended : EventFlags
ended = record {
  eof = true;
  reading = false;
  writing = false;
  timeout = false;
  error = false;
  connected_flag = false;
  bits = 16;
}

abbrev started : Client
started = record {
  base = true;
  bev = 1;
  live = 1 ∷ [];
  read_buf = no_buffer;
  write_buf = no_buffer;
  fd = 0;
  has_read_cb = false;
  has_write_cb = false;
  has_connect_cb = false;
  has_event_cb = true;
  made = 1;
  released = 0;
  callbacks = [];
}

abbrev reconnected : Client
reconnected = record started {
  bev = 2;
  live = 2 ∷ [];
  made = 2;
  released = 1;
  callbacks =
      record {
        kind = event 16;
        given_read_buf = no_buffer;
        given_write_buf = no_buffer;
        of_bev = 1;
      }
      ∷ [];
}

opens : start_run true true true (set_event_callback new_client) ≡ ok (returned, started)
unfolding start_run set_event_callback new_client
opens = refl

is_live : mem 1 started.live ≡ true
unfolding mem
is_live = refl

ends : buffer_event_cb reconnects 1 ended 0 started ≡ ok reconnected
unfolding buffer_event_cb is_connected on_failed call_user free_bev mem remove_one
ends = refl

trace : Reach reconnects new_client reconnected
trace =
    next (next (next here (uses sets_event)) (uses (starts true true true returned opens)))
      (happens 1 ended 0 is_live ends)

Reach-IsFitting_example : All IsFitting reconnected.callbacks
Reach-IsFitting_example = Reach-IsFitting reconnects reconnects-UsesMethods trace
