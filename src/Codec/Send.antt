-- ===== src/Codec/Send.antt =====
-- `fillEmptyBuffer` and `send` of src/codeClite.cpp write the frame of the message.
use m_rpc.Prelude.{
  ℕ, ◌+◌, ◌%◌, ◌^◌, ◌<◌, ◌≡◌, ap, ◌∙◌, true, [], ◌++◌, append_assoc, length, length-append, ==_refl,
  ok, Returns, Returns-bind, arith,
}
use m_rpc.Endian.{be_bytes, image, host_to_network32}
use m_rpc.Endian.Laws.{image-host_to_network}
use m_rpc.Platform.{EvBuffer, Adler32, MessageClass}
use m_rpc.Codec.{Config, checksum, serialize_to_buffer, fill_empty_buffer, send}
use m_rpc.Codec.Frame.{Reliable, checksum-contents, frame_check, body, frame, frame_len}
use native.Mathlib.Nat.{mod-eq_of_lt}

module _ (ev : EvBuffer) (z : Adler32) (p : MessageClass) (works : Reliable ev) where
  open ev use {Buf, contents, empty, add, prepend, reserve, commit, add_buffer}
  open p use {Msg, byte_size, serialize}

  -- The serialised message follows what the buffer held.
  serialize_to_buffer_lem :
      (m : Msg) (buf : Buf)
      → p.IsProper m
      → byte_size m < 2 ^ 32
      → (buf' : Buf) × (serialize_to_buffer ev z p m buf ≡ ok (byte_size m, buf'))
        × (contents buf' ≡ contents buf ++ serialize m)
  unfolding serialize_to_buffer
  serialize_to_buffer_lem m buf proper h =
      let space = (byte_size m % 2 ^ 32 + 4) % 2 ^ 32 in
      let kept : contents (reserve buf space).1 ≡ contents buf =
        ev.contents-reserve buf space (works.reserve_works buf space) in
      (
        (commit (reserve buf space).1 (serialize m)).1,
        rw (
          works.reserve_works buf space,
          p.length-serialize m proper,
          mod-eq_of_lt h,
          ==_refl (byte_size m),
        ),
        ev.contents-commit _ _ (works.commit_works _ _) ∙ ap (λ t. t ++ serialize m) kept,
      )

  -- An integer, converted and copied from memory into a buffer, is on the wire as `be_bytes`.
  wire-add :
      (c : Config) (buf : Buf) (n : ℕ)
      → contents (add buf (image c.order 4 (host_to_network32 c.order n))).1
        ≡ contents buf ++ be_bytes 4 n
  unfolding host_to_network32
  wire-add c buf n =
      ev.contents-add buf _ (works.add_works buf _)
      ∙ ap (λ t. contents buf ++ t) (image-host_to_network c.order 4 n)

  wire-prepend :
      (c : Config) (buf : Buf) (n : ℕ)
      → contents (prepend buf (image c.order 4 (host_to_network32 c.order n))).1
        ≡ be_bytes 4 n ++ contents buf
  unfolding host_to_network32
  wire-prepend c buf n =
      ev.contents-prepend buf _ (works.prepend_works buf _)
      ∙ ap (λ t. t ++ contents buf) (image-host_to_network c.order 4 n)

  -- The checksum and the size field round off a buffer that holds tag and payload.
  sealed :
      (c : Config) (m : Msg) (buf : Buf) (check len : ℕ)
      → contents buf ≡ c.tag ++ serialize m
      → check ≡ frame_check z p c m
      → len ≡ frame_len p c m
      → contents
          (prepend
            (add buf (image c.order 4 (host_to_network32 c.order check))).1
            (image c.order 4 (host_to_network32 c.order len))).1
        ≡ frame z p c m
  unfolding frame body
  sealed c m buf check len e hc hl =
      wire-prepend c _ len
      ∙ ap
          (λ k.
            be_bytes 4 k
            ++ contents (add buf (image c.order 4 (host_to_network32 c.order check))).1)
          hl
      ∙ ap (λ t. be_bytes 4 (frame_len p c m) ++ t)
          (wire-add c buf check
            ∙ ap (λ t. t ++ be_bytes 4 check) e
            ∙ append_assoc c.tag (serialize m) (be_bytes 4 check)
            ∙ ap (λ k. c.tag ++ (serialize m ++ be_bytes 4 k)) hc)

  -- Where no call of the buffer library fails, for a proper message whose size fits in 32 bits,
  -- `fillEmptyBuffer`
  -- returns 0 and leaves in an empty buffer the size, the tag, the payload and the checksum of
  -- tag and payload, numbers in network order.
  pub fill_empty_buffer-frame :
      (c : Config) (m : Msg) (buf : Buf)
      → contents buf ≡ []
      → p.IsProper m
      → frame_len p c m < 2 ^ 32
      → Returns
          (λ r. (r.0 ≡ true) × (contents r.1 ≡ frame z p c m))
          (fill_empty_buffer ev z p c buf m)
  unfolding fill_empty_buffer frame_check
  fill_empty_buffer-frame c m buf e proper h =
      let tagged : contents (add buf c.tag).1 ≡ c.tag =
        ev.contents-add buf c.tag (works.add_works buf c.tag) ∙ ap (λ t. t ++ c.tag) e in
      let (buf₂, run, written) = serialize_to_buffer_lem m (add buf c.tag).1 proper (omega arith) in
      let text : contents buf₂ ≡ c.tag ++ serialize m =
        written ∙ ap (λ t. t ++ serialize m) tagged in
      let size : byte_size m + length c.tag ≡ length (contents buf₂) =
        omega
          (arith, ap length text, length-append c.tag (serialize m), p.length-serialize m proper) in
      let check : checksum ev z buf₂ (byte_size m + length c.tag)
          ≡ z.update z.initial (c.tag ++ serialize m) =
        checksum-contents z ev buf₂ _ size ∙ ap (z.update z.initial) text in
      rw (works.add_works buf c.tag, run, works.add_works buf₂ _)
        (works.prepend_works _ _, sealed c m buf₂ _ _ text check (mod-eq_of_lt h))

  -- Where no call of the buffer library fails, the message is proper and the size fits in 32 bits,
  -- `send` appends exactly the frame to the connection's output.
  pub send-frame :
      (c : Config) (m : Msg) (output : Buf)
      → p.IsProper m
      → frame_len p c m < 2 ^ 32
      → Returns
          (λ s.
            (s.filled ≡ true)
            × (s.queued ≡ true)
            × (contents s.output ≡ contents output ++ frame z p c m))
          (send ev z p c output m)
  unfolding send
  send-frame c m output proper h =
      Returns-bind _ _ (fill_empty_buffer ev z p c empty m) _
        (fill_empty_buffer-frame c m empty ev.contents-empty proper h)
        (λ (filled, buf) (yes_filled, text). (
          yes_filled,
          works.add_buffer_works output buf,
          (ev.contents-add_buffer output buf (works.add_buffer_works output buf)).0
              ∙ ap (λ t. contents output ++ t) text,
        ))
