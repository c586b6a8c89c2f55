-- ===== src/RpcCodec/Link.antt =====
-- RpcChannel::onMessage of src/rpcChannel.cpp: a channel over the bytes of its connections.
use m_rpc.Prelude.{
  ℕ, suc, ◌^◌, ◌≤◌, ◌<◌, ◌≡◌, ◌==◌, ne→==_false, ◌≢◌, refl, ap, Bool, true, List, [], ◌∷◌, ◌++◌,
  map, concat, All, length, length-append, if◌then◌else◌, Run, ok, crash, ◌>>=◌, Returns-ok,
  bind_assoc, arith,
}
use m_rpc.Endian.{Bytes, ByteOrder}
use m_rpc.Platform.{EvBuffer, Adler32, MessageClass}
use m_rpc.Message.{RpcMessage}
use m_rpc.Codec.{Config, Session, Event, delivered, failed, ErrorCode, Sent, max_message_len}
use m_rpc.Codec
use m_rpc.Codec.Frame.{frame, frame_len, length-frame}
use m_rpc.Codec.Receive.{on_message-frames}
use m_rpc.Channel.{Ptr, ServiceClass, Channel, on_rpc_message}
use m_rpc.RpcCodec
use m_rpc.RpcCodec.{Callbacks, deliver, rpc_codec}

-- RpcMessage as a message class, with what the protobuf runtime makes of its fields.
pub record RpcProto : Type 1 where
  pub byte_size : RpcMessage → ℕ
  pub serialize : RpcMessage → Bytes
  pub parse_from : Bytes → Bool × RpcMessage
  pub IsProper : RpcMessage → Type 0
  pub length-serialize : (m : RpcMessage) → IsProper m → length (serialize m) ≡ byte_size m
  pub parse_from-serialize : (m : RpcMessage) → IsProper m → parse_from (serialize m) ≡ (true, m)

abbrev pub rpc_class : RpcProto → MessageClass
rpc_class p = record {
  Msg = RpcMessage;
  byte_size = p.byte_size;
  serialize = p.serialize;
  parse_from = p.parse_from;
  IsProper = p.IsProper;
  length-serialize = p.length-serialize;
  parse_from-serialize = p.parse_from-serialize;
}

module _ (ev : EvBuffer) (z : Adler32) (p : RpcProto) (sc : ServiceClass) (order : ByteOrder) where
  open ev use {Buf, contents}

  -- A channel, and the connections that the default error callback has closed and deleted.
  pub record Link : Type 0 where
    pub channel : Channel sc
    pub closed : List Ptr

  -- The callbacks that a channel gives its codec, for bytes of `conn`.
  pub callbacks : Ptr → Callbacks ev z (rpc_class p) Link
  callbacks conn = record {
    message = λ m l. on_rpc_message sc conn m l.channel >>= λ ch. ok (record l { channel = ch });
    error = λ e l. ok (record l { closed = l.closed ++ conn ∷ [] });
  }

  -- RpcChannel::onMessage; a connection that is NULL is only logged.
  pub on_message : Ptr → Buf → Link → Run (Buf × Link)
  unfolding callbacks
  on_message conn input l =
      if conn == 0
      then ok (input, l)
      else RpcCodec.on_message ev z (rpc_class p) (callbacks conn) (rpc_codec order) input l

  -- `onRpcMessage` for one message after the other.
  unfoldable pub take_all : Ptr → List RpcMessage → Channel sc → Run (Channel sc)
  take_all conn [] ch = ok ch
  take_all conn (m ∷ ms) ch = on_rpc_message sc conn m ch >>= take_all conn ms

  deliver-take_all :
      (conn : Ptr) (ms : List RpcMessage) (l : Link)
      → deliver ev z (rpc_class p) (callbacks conn) (map delivered ms) l
        ≡ (take_all conn ms l.channel >>= λ ch. ok (record l { channel = ch }))
  unfolding deliver take_all callbacks
  deliver-take_all conn [] l = refl
  deliver-take_all conn (m ∷ ms) l =
      go (on_rpc_message sc conn m l.channel)
        (λ ch. deliver-take_all conn ms (record l { channel = ch }))
    where
      go :
          (r : Run (Channel sc))
          → ((ch : Channel sc)
              → deliver ev z
                  (rpc_class p)
                  (callbacks conn)
                  (map delivered ms)
                  (record l { channel = ch })
                ≡ (take_all conn ms ch >>= λ ch'. ok (record l { channel = ch' })))
          → ((r >>= λ ch. ok (record l { channel = ch }))
              >>= deliver ev z (rpc_class p) (callbacks conn) (map delivered ms))
            ≡ ((r >>= take_all conn ms) >>= λ ch. ok (record l { channel = ch }))
      go (ok ch) ih = ih ch
      go crash ih = refl
      go Run.out_of_fuel ih = refl

  frames_long :
      (c : Config) (ms : List RpcMessage)
      → All (λ m. p.IsProper m × (frame_len (rpc_class p) c m ≤ max_message_len)) ms
      → length ms ≤ length (concat (map (frame z (rpc_class p) c) ms))
  frames_long c [] small = omega arith
  frames_long c (m ∷ ms) ((proper, bound), small) = omega (
    arith,
    frames_long c ms small,
    length-frame z (rpc_class p) c m proper,
    length-append (frame z (rpc_class p) c m) (concat (map (frame z (rpc_class p) c) ms)),
  )

  bind_swap :
      {B : Type 0} (r : Run (Channel sc)) (l : Link) (b : B)
      → ◌≡◌ {A = Run (B × Link)}
          ((r >>= λ ch. ok (record l { channel = ch })) >>= λ s. ok (b, s))
          (r >>= λ ch. ok (b, record l { channel = ch }))
  bind_swap r l b = bind_assoc r (λ ch. ok (record l { channel = ch })) (λ s. ok (b, s))

  -- Frames of at most 64 MiB of proper messages from a connection that is not NULL, one after the other, and at their
  -- end less than a header and the least message, below 4 GiB in all: what `onMessage` does to
  -- the channel is what `onRpcMessage` does for the messages in their order, no connection is
  -- closed, and the unfinished end is left. If one of the messages ends the process, so does the
  -- whole.
  pub on_message-take_all :
      (conn : Ptr) (ms : List RpcMessage) (rest : Bytes) (input : Buf) (l : Link)
      → conn ≢ 0
      → contents input ≡ concat (map (frame z (rpc_class p) (rpc_codec order)) ms) ++ rest
      → All (λ m. p.IsProper m × (frame_len (rpc_class p) (rpc_codec order) m ≤ max_message_len)) ms
      → length rest < 12
      → length (contents input) < 2 ^ 32
      → (left : Buf) × (contents left ≡ rest)
        × (on_message conn input l
            ≡ (take_all conn ms l.channel >>= λ ch. ok (left, record l { channel = ch })))
  unfolding on_message RpcCodec.on_message
  on_message-take_all conn ms rest input l ne e small short total =
      let c = rpc_codec order in
      let start : Session ev z (rpc_class p) = record { input = input; events = [] } in
      let frames = concat (map (frame z (rpc_class p) c) ms) in
      let bound : length ms < suc (ev.get_length input) = omega (
        arith,
        frames_long c ms small,
        ev.get_length_lem input,
        ap length e,
        length-append frames rest,
      ) in
      let (s, run, kept) =
        Returns-ok _ (Codec.on_message ev z (rpc_class p) c (suc (ev.get_length input)) start) (
          on_message-frames ev z (rpc_class p) c ms rest _ start refl e small short (omega arith)
            total bound) in
      (
        s.input,
        kept.0,
        rw (ne→==_false conn 0 ne, run, kept.1, deliver-take_all conn ms l)
            (bind_swap (take_all conn ms l.channel) l s.input),
      )
