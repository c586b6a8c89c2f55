-- ===== src/RpcCodec.antt =====
-- src/rpcCode.h, src/rpcCode.cpp and the template ProtobufCodecLiteDerived of src/codeClite.h: a codec
-- whose callbacks change a state of their owner, and the tag of the RPC codec.
pub mod Link
pub mod Trip
pub mod Proto
mod Examples
use m_rpc.Prelude.{
  ℕ, zero, suc, ◌+◌, ◌≡◌, ◌==◌, Bool, true, false, Option, none, some, List, [], ◌∷◌, ◌++◌,
  if◌then◌else◌, Run, ok, crash, ◌>>=◌,
}
use m_rpc.Endian.{Bytes, ByteOrder}
use m_rpc.Platform.{EvBuffer, Adler32, MessageClass}
use m_rpc.Codec
use m_rpc.Codec.{Config, Session, Event, delivered, failed, ErrorCode, Sent}

-- The characters of a C string: up to the first zero byte, which `strlen` looks for.
abbrev pub c_string : Bytes → Bytes
c_string [] = []
c_string (x ∷ xs) = let rest = c_string xs in if x == 0 then [] else x ∷ rest

-- mRpc::rpctag, "mRpc"
abbrev pub rpctag : Bytes
rpctag = 109 ∷ 82 ∷ 112 ∷ 99 ∷ 0 ∷ []

-- ProtobufCodecLite::ProtobufCodecLite
abbrev pub new_codec : ByteOrder → Bytes → Option (Bytes → ℕ → Bool) → Config
new_codec order tag_arg raw_cb = record { order = order; tag = c_string tag_arg; raw_cb = raw_cb }

-- ProtobufCodecLite::tag
abbrev pub tag : Config → Bytes
tag c = c.tag

-- RpcCodeDerived, as RpcChannel makes it: with the default callbacks
abbrev pub rpc_codec : ByteOrder → Config
rpc_codec order = new_codec order rpctag none

module _ (ev : EvBuffer) (z : Adler32) (p : MessageClass) where
  open ev use {Buf, get_length}
  open p use {Msg}

  -- The callbacks of a codec, on the state that they share.
  pub record Callbacks (S : Type 0) : Type 0 where
    pub message : Msg → S → Run S
    pub error : ErrorCode → S → Run S

  module _ {S : Type 0} (cb : Callbacks S) where
    -- ProtobufCodecLiteDerived::onRpcMessage: down_pointer_cast leaves the message as it is.
    abbrev pub on_rpc_message : Msg → S → Run S
    on_rpc_message m s = cb.message m s

    abbrev pub deliver_one : Event Msg → S → Run S
    deliver_one (delivered m) s = on_rpc_message m s
    deliver_one (failed e) s = cb.error e s

    -- The callbacks that a codec makes, in their order; the first that crashes is the last.
    pub deliver : List (Event Msg) → S → Run S
    deliver [] s = ok s
    deliver (e ∷ es) s = deliver_one e s >>= deliver es

    -- ProtobufCodecLiteDerived::onMessage: what is left of the input, and the state. The callbacks
    -- do not touch the input, so they are run after the rounds of the loop; one round more than
    -- there are bytes is enough.
    unfoldable pub on_message : Config → Buf → S → Run (Buf × S)
    on_message c input s = do
      session ←
          Codec.on_message ev z p c (suc (get_length input)) (record { input = input; events = [] })
      s' ← deliver session.events s
      ok (session.input, s')

  -- ProtobufCodecLiteDerived::send and fillEmptyBuffer
  unfoldable pub send : Config → Buf → Msg → Run (Sent ev z p)
  send c output m = Codec.send ev z p c output m

  pub fill_empty_buffer : Config → Buf → Msg → Run (Bool × Buf)
  fill_empty_buffer c buf m = Codec.fill_empty_buffer ev z p c buf m
