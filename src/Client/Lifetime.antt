-- ===== src/Client/Lifetime.antt =====
-- The end of a client of src/tcpClient.cpp, and the buffers that its callbacks are given.
use m_rpc.Prelude.{All}
use m_rpc.Client.{User, Client, new_client}
use m_rpc.Client.Steps.{UsesMethods, Reach}
use m_rpc.Client.Invariant.{IsFitting, Reach-Sound}

module _ (user : User) (methods : UsesMethods user) where
  -- Whatever methods of a client are called, `startRun` at any time, by its owner and by its
  -- callbacks, which change it in no other way, and whatever events its live bufferevents have: every
  -- call of the callbacks for data and for a new connection was given the input and the output
  -- buffer of the bufferevent whose event it was; a call for any other event was given NULL twice, or
  -- the input and the output buffer of one bufferevent.
  pub Reach-IsFitting : {c : Client} → Reach user new_client c → All IsFitting c.callbacks
  Reach-IsFitting r = (Reach-Sound user methods r).calls
