-- ===== src/Codec.antt =====
-- src/codeClite.h and src/codeClite.cpp: frames of a size, a tag, a payload and a checksum.
-- An `int32_t` is its bit pattern, a number below 2 ^ 32; it is negative from 2 ^ 31 on.
pub mod Frame
pub mod Send
pub mod Body
pub mod Receive
pub mod Total
pub mod Guards
pub mod Text
pub mod Closing
mod Examples
use m_rpc.Prelude.{
  ℕ, zero, suc, ◌+◌, ◌-◌, ◌*◌, ◌%◌, ◌^◌, Bool, true, false, ◌&&◌, ◌||◌, not, Option, none, some,
  List, [], ◌∷◌, ◌++◌, foldl, length, take, drop, starts_with, ltb, leb, ◌==◌, if◌then◌else◌, Run,
  ok, crash, out_of_fuel, ◌>>=◌,
}
use m_rpc.Endian.{Bytes, ByteOrder, image, load, host_to_network32, network_to_host32}
use m_rpc.Platform.{EvBuffer, Adler32, MessageClass}

abbrev pub header_len : ℕ
header_len = 4

abbrev pub checksum_len : ℕ
checksum_len = 4

abbrev pub max_message_len : ℕ
max_message_len = 64 * 1024 * 1024

pub data ErrorCode : Type 0 where
  no_error invalid_length checksum_error invalid_name_len : ErrorCode
  unknown_message_type parse_error : ErrorCode

-- ProtobufCodecLite::asInt32
pub as_int32 : ByteOrder → Bytes → ℕ
as_int32 o buf = network_to_host32 o (load o buf)

-- What a codec is constructed with. `raw_cb` sees the input buffer's bytes and the length.
pub record Config : Type 0 where
  pub order : ByteOrder
  pub tag : Bytes
  pub raw_cb : Option (Bytes → ℕ → Bool)

-- minMessageLen
abbrev pub min_message_len : Config → ℕ
min_message_len c = (length c.tag + checksum_len) % 2 ^ 32

-- The calls of the message callback and of the error callback.
pub data Event (M : Type 0) : Type 0 where
  delivered : M → Event M
  failed : ErrorCode → Event M

-- The guard `len > maxMessageLen || (uint32_t)len < minMessageLen`; the first test is signed.
pub bad_length : Config → ℕ → Bool
bad_length c len = (ltb len (2 ^ 31) && ltb max_message_len len) || ltb len (min_message_len c)

-- An `int` given for a `size_t`.
abbrev pub size_of_int : ℕ → ℕ
size_of_int n = if ltb n (2 ^ 31) then n else n + (2 ^ 64 - 2 ^ 32)

-- ProtobufCodecLite::validateChecksum, on the `len` bytes of `buf`
pub validate_checksum : Adler32 → Config → Bytes → ℕ → Bool
validate_checksum z c buf len =
    z.update z.initial (take (len - checksum_len) buf) % 2 ^ 32
    == as_int32 c.order (take 4 (drop (len - checksum_len) buf))

module _ (ev : EvBuffer) where
  -- Conn::getReadBufferLen, an unsigned 32-bit number
  abbrev pub read_buffer_len : ev.Buf → ℕ
  read_buffer_len buf = ev.get_length buf % 2 ^ 32

  -- `rawCb && !rawCb(conn, len)`
  pub raw_consumes : Config → ev.Buf → ℕ → Bool
  raw_consumes c buf len = elim c.raw_cb [ none ↦ false | some f ↦ not (f (ev.contents buf) len) ]

-- ProtobufCodecLite::checksum
pub checksum : (ev : EvBuffer) → Adler32 → ev.Buf → ℕ → ℕ
checksum ev z buf len = foldl z.update z.initial (ev.peek buf len) % 2 ^ 32

module _ (ev : EvBuffer) (z : Adler32) (p : MessageClass) where
  open ev use {Buf, empty, add, prepend, reserve, commit, remove, drain, pullup, add_buffer}
  open p use {Msg, byte_size, serialize, parse_from}

  -- ProtobufCodecLite::serializeToBuffer: the bytes written, and the buffer. A payload of another
  -- size than `ByteSize` ends the process in ByteSizeConsistencyError, and with no space reserved
  -- the message is written through an extent that was never set.
  pub serialize_to_buffer : Msg → Buf → Run (ℕ × Buf)
  serialize_to_buffer m buf =
      let size = byte_size m % 2 ^ 32 in
      let (reserved, buf') = reserve buf ((size + checksum_len) % 2 ^ 32) in
      if not reserved
      then crash
      else if length (serialize m) == size
      then ok (length (serialize m), (commit buf' (serialize m)).1)
      else crash

  -- ProtobufCodecLite::fillEmptyBuffer: whether it returned 0, and the buffer.
  pub fill_empty_buffer : Config → Buf → Msg → Run (Bool × Buf)
  fill_empty_buffer c buf m =
      let (tagged, buf₁) = add buf c.tag in
      if not tagged then ok (false, buf₁) else do
        (size, buf₂) ← serialize_to_buffer m buf₁
        let check = checksum ev z buf₂ (size + length c.tag)
        let (checked, buf₃) = add buf₂ (image c.order 4 (host_to_network32 c.order check))
        let len = (length c.tag + size + checksum_len) % 2 ^ 32
        let (sized, buf₄) = prepend buf₃ (image c.order 4 (host_to_network32 c.order len))
        if not checked then ok (false, buf₃) else ok (sized, buf₄)

  -- What `send` did: its two tests, and the connection's output buffer.
  pub record Sent : Type 0 where
    pub filled : Bool
    pub queued : Bool
    pub output : Buf

  -- ProtobufCodecLite::send: each failure is logged, and the buffer is queued in any case.
  pub send : Config → Buf → Msg → Run Sent
  send c output m = do
    (filled, buf) ← fill_empty_buffer c empty m
    let r = add_buffer output buf
    ok (record { filled = filled; queued = r.0; output = r.1 })

  -- ProtobufCodecLite::parseFromBuffer
  abbrev pub parse_from_buffer : Bytes → Bool × Msg
  parse_from_buffer bytes = parse_from bytes

  -- The checks of ProtobufCodecLite::parse on the `len` bytes at `data`: the error code, and what
  -- was read of the message. The result of `parseFromBuffer` chooses between two equal codes.
  pub examine : Config → Bytes → ℕ → ErrorCode × Msg
  examine c bytes len =
      let data_len = len - checksum_len - length c.tag in
      let (parsed, m) = parse_from_buffer (take data_len (drop (length c.tag) bytes)) in
      (
        if validate_checksum z c bytes len
            then if starts_with bytes c.tag
              then if parsed then no_error else no_error
              else parse_error
            else unknown_message_type,
        m,
      )

  -- ProtobufCodecLite::parse, and the buffer after it. A NULL from `evbuffer_pullup` is read
  -- through, and so is memory before the data if the length is negative.
  pub parse : Config → Buf → ℕ → Run ((ErrorCode × Msg) × Buf)
  parse c buf len =
      let (pulled, buf') = pullup buf len in
      if leb (2 ^ 31) len
      then crash
      else elim pulled [ none ↦ crash | some bytes ↦ ok (examine c bytes len, buf') ]

  -- The connection's input buffer, and the callbacks made, the first one first.
  pub record Session : Type 0 where
    pub input : Buf
    pub events : List (Event Msg)

  -- What follows `parse` in the loop: `true` where the loop goes on.
  pub dispatch : ℕ → List (Event Msg) → (ErrorCode × Msg) × Buf → Run (Bool × Session)
  dispatch len events ((no_error, m), buf) =
      ok (true, record { input = drain buf (size_of_int len); events = events ++ delivered m ∷ [] })
  dispatch len events ((e, m), buf) =
      ok (false, record { input = buf; events = events ++ failed e ∷ [] })

  -- The branch of the loop for a frame that is there as a whole.
  pub take_frame : Config → List (Event Msg) → Buf → ℕ → Run (Bool × Session)
  take_frame c events buf len =
      if raw_consumes ev c buf len
      then ok (true, record { input = drain buf (size_of_int len); events = events })
      else parse c buf len >>= dispatch len events

  -- One test of the loop in ProtobufCodecLite::onMessage, and its body.
  pub round : Config → Session → Run (Bool × Session)
  round c s =
      let (header, buf) = remove s.input header_len in
      let len = as_int32 c.order header in
      if ltb (read_buffer_len ev s.input) ((min_message_len c + header_len) % 2 ^ 32)
      then ok (false, s)
      else if bad_length c len
      then ok (false, record { input = buf; events = s.events ++ failed invalid_length ∷ [] })
      else if leb len (read_buffer_len ev buf)
      then take_frame c s.events buf len
      else ok (false, record s { input = buf })

  -- ProtobufCodecLite::onMessage, with a bound on the rounds.
  pub on_message : Config → ℕ → Session → Run Session
  on_message c zero s = out_of_fuel
  on_message c (suc fuel) s =
      round c s >>= λ r. elim r.0 [ true ↦ on_message c fuel r.1 | false ↦ ok r.1 ]
