-- ===== src/Codec/Body.antt =====
-- `parse` of src/codeClite.cpp on the body of a frame that the sending half writes.
use m_rpc.Prelude.{
  ℕ, ◌-◌, ◌^◌, ◌<◌, ◌≡◌, refl, sym, ap, ◌∙◌, true, some, [], ◌++◌, append-nil, append_assoc, length,
  take, drop, length-append, take-append, drop-append, starts_with, starts_with-append, ==_refl,
  lt→leb_false, ok, arith,
}
use m_rpc.Endian.{Bytes, be_bytes}
use m_rpc.Endian.Laws.{length-be_bytes, network_to_host32-load}
use m_rpc.Platform.{EvBuffer, Adler32, MessageClass}
use m_rpc.Codec.{examine, Config, no_error, as_int32, validate_checksum, parse}
use m_rpc.Codec.Frame.{frame_check, body, frame_len, length-body}
use native.Mathlib.Nat.{mod-eq_of_lt}

pub as_int32-be_bytes : (c : Config) (n : ℕ) → n < 2 ^ 32 → as_int32 c.order (be_bytes 4 n) ≡ n
unfolding as_int32
as_int32-be_bytes c n h = network_to_host32-load c.order n h

module _ (ev : EvBuffer) (z : Adler32) (p : MessageClass) (c : Config) where
  open ev use {Buf, contents, remove, drain, pullup}
  open p use {Msg, serialize, parse_from}

  frame_check-lt : (m : Msg) → frame_check z p c m < 2 ^ 32
  unfolding frame_check
  frame_check-lt m = z.update-lt _

  -- The bytes in front of a frame's checksum, and the checksum.
  text-body :
      (m : Msg) → p.IsProper m → take (frame_len p c m - 4) (body z p c m) ≡ c.tag ++ serialize m
  unfolding body
  text-body m proper =
      rw (sym (append_assoc c.tag (serialize m) (be_bytes 4 (frame_check z p c m)))) (
        take-append _ (c.tag ++ serialize m) _
          (omega (arith, length-append c.tag (serialize m), p.length-serialize m proper)))

  check-body :
      (m : Msg)
      → p.IsProper m
      → take 4 (drop (frame_len p c m - 4) (body z p c m)) ≡ be_bytes 4 (frame_check z p c m)
  unfolding body
  check-body m proper =
      rw
        (
          sym (append_assoc c.tag (serialize m) (be_bytes 4 (frame_check z p c m))),
          drop-append (frame_len p c m - 4) (c.tag ++ serialize m)
              (be_bytes 4 (frame_check z p c m))
              (omega (arith, length-append c.tag (serialize m), p.length-serialize m proper)),
          sym (append-nil (be_bytes 4 (frame_check z p c m))),
        )
        (take-append 4 (be_bytes 4 (frame_check z p c m)) []
            (length-be_bytes 4 (frame_check z p c m))
          ∙ sym (append-nil _))

  payload-body :
      (m : Msg)
      → p.IsProper m
      → take (frame_len p c m - 4 - length c.tag) (drop (length c.tag) (body z p c m)) ≡ serialize m
  unfolding body
  payload-body m proper =
      rw (drop-append (length c.tag) c.tag (serialize m ++ be_bytes 4 (frame_check z p c m)) refl)
        (take-append _ (serialize m) _ (omega (arith, p.length-serialize m proper)))

  -- The checksum of a frame that was written passes.
  pub validate_checksum-body :
      (m : Msg) → p.IsProper m → validate_checksum z c (body z p c m) (frame_len p c m) ≡ true
  unfolding validate_checksum
  validate_checksum-body m proper =
      rw
        (
          text-body m proper,
          check-body m proper,
          as_int32-be_bytes c _ (frame_check-lt m),
          mod-eq_of_lt (z.update-lt (c.tag ++ serialize m)),
        )
        (unfold frame_check in ==_refl (z.update z.initial (c.tag ++ serialize m)))

  starts_with-body : (m : Msg) → starts_with (body z p c m) c.tag ≡ true
  unfolding body
  starts_with-body m = starts_with-append c.tag _

  pub parse-body :
      (m : Msg) (rest : Bytes) (buf : Buf)
      → p.IsProper m
      → contents buf ≡ body z p c m ++ rest
      → frame_len p c m < 2 ^ 31
      → parse ev z p c buf (frame_len p c m) ≡ ok ((no_error, m), (pullup buf (frame_len p c m)).1)
  unfolding parse examine
  parse-body m rest buf proper e h =
      let front : take (frame_len p c m) (contents buf) ≡ body z p c m =
        ap (take (frame_len p c m)) e
        ∙ take-append _ (body z p c m) rest (length-body z p c m proper) in
      let pulled : (pullup buf (frame_len p c m)).0 ≡ some (body z p c m) =
        ev.pullup_bytes buf (frame_len p c m) (
          omega (arith, ap length e, length-append (body z p c m) rest, length-body z p c m proper))
        ∙ ap some front in
      rw (
        pulled,
        lt→leb_false (2 ^ 31) (frame_len p c m) h,
        validate_checksum-body m proper,
        starts_with-body m,
        payload-body m proper,
        p.parse_from-serialize m proper,
      )
