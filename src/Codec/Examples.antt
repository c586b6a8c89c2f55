-- ===== src/Codec/Examples.antt =====
-- Runs of the codec and its theorems on a little-endian host, with the tag of src/rpcCode.cpp.
use m_rpc.Prelude.{
  ℕ, ◌-◌, ◌^◌, ◌≡◌, refl, true, none, [], ◌∷◌, ◌++◌, drop, starts_with, Returns, arith,
}
use m_rpc.Endian.{
  Bytes, little, be_bytes, host_to_network32, network_to_host32, host_to_network64,
  network_to_host64, host_to_network16, network_to_host16,
}
use m_rpc.Endian.Laws.{network_to_host-inverse}
use m_rpc.Platform.Concrete.{list_buffer, sum_bytes, sum_checksum, raw_message}
use m_rpc.Codec.{Config, Session, delivered, on_message, round, validate_checksum, send}
use m_rpc.Codec.Frame.{Reliable, frame, body, frame_check}
use m_rpc.Codec.Send.{send-frame}
use m_rpc.Codec.Receive.{on_message-frames}
use m_rpc.Codec.Total.{on_message_total, Extends}
use m_rpc.Codec.Guards.{on_message-negative_length, on_message-part, Verdict, round-Verdict}

abbrev config : Config
config = record { order = little; tag = 109 ∷ 82 ∷ 112 ∷ 99 ∷ []; raw_cb = none }

abbrev session : Bytes → Session list_buffer sum_checksum raw_message
session input = record { input = input; events = [] }

list_works : Reliable list_buffer
list_works = record {
  add_works = λ b xs. refl;
  prepend_works = λ b xs. refl;
  reserve_works = λ b n. refl;
  commit_works = λ b xs. refl;
  add_buffer_works = λ d s. refl;
}

network_to_host-inverse_example :
    (network_to_host64 little (host_to_network64 little 5) ≡ 5)
    × (network_to_host32 little (host_to_network32 little 6) ≡ 6)
    × (network_to_host16 little (host_to_network16 little 7) ≡ 7)
network_to_host-inverse_example =
    network_to_host-inverse little 5 6 7 (omega arith) (omega arith) (omega arith)

abbrev framed : Bytes → Bytes
framed = frame sum_checksum raw_message config

send-frame_example :
    Returns
      (λ s. (s.filled ≡ true) × (s.queued ≡ true) × (s.output ≡ 1 ∷ framed (7 ∷ 8 ∷ [])))
      (send list_buffer sum_checksum raw_message config (1 ∷ []) (7 ∷ 8 ∷ []))
send-frame_example =
    send-frame list_buffer sum_checksum raw_message list_works config (7 ∷ 8 ∷ []) (1 ∷ []) tt
      (omega arith)

-- The bytes of a frame: 10, the tag, 7 and 8, and the checksum.
framed_bytes :
    framed (7 ∷ 8 ∷ []) ≡ 0 ∷ 0 ∷ 0 ∷ 10 ∷ 109 ∷ 82 ∷ 112 ∷ 99 ∷ 7 ∷ 8 ∷ 0 ∷ 0 ∷ 1 ∷ 162 ∷ []
unfolding frame body frame_check sum_bytes be_bytes
framed_bytes = refl

on_message-frames_example :
    Returns
      (λ s'. (s'.input ≡ 5 ∷ []) × (s'.events ≡ delivered (7 ∷ 8 ∷ []) ∷ delivered (9 ∷ []) ∷ []))
      (on_message list_buffer sum_checksum raw_message config 3
        (session ((framed (7 ∷ 8 ∷ []) ++ framed (9 ∷ []) ++ []) ++ 5 ∷ [])))
unfolding frame body frame_check sum_bytes be_bytes
on_message-frames_example =
    on_message-frames list_buffer sum_checksum raw_message config ((7 ∷ 8 ∷ []) ∷ (9 ∷ []) ∷ [])
      (5 ∷ []) 3 (session ((framed (7 ∷ 8 ∷ []) ++ framed (9 ∷ []) ++ []) ++ 5 ∷ [])) refl refl
      (omega arith) (omega arith) (omega arith) (omega arith) (omega arith)

on_message_total_example :
    Returns
      (λ s'. ((cut : ℕ) × (s'.input ≡ drop cut (1 ∷ 2 ∷ 3 ∷ []))) × Extends [] s'.events)
      (on_message list_buffer sum_checksum raw_message config 4 (session (1 ∷ 2 ∷ 3 ∷ [])))
on_message_total_example =
    on_message_total list_buffer sum_checksum raw_message config 4 (session (1 ∷ 2 ∷ 3 ∷ []))
      (omega arith) (omega arith) (omega arith)

abbrev eight : Bytes
eight = 1 ∷ 2 ∷ 3 ∷ 4 ∷ 5 ∷ 6 ∷ 7 ∷ 8 ∷ []

on_message-negative_length_example :
    Returns
      (λ s'. (s'.input ≡ eight) × (s'.events ≡ []))
      (on_message list_buffer sum_checksum raw_message config 5
        (session (be_bytes 4 (2 ^ 32 - 1) ++ eight)))
on_message-negative_length_example =
    on_message-negative_length list_buffer sum_checksum raw_message config (2 ^ 32 - 1) eight 4
      (session (be_bytes 4 (2 ^ 32 - 1) ++ eight)) refl (omega arith) (omega arith) (omega arith)
      (omega arith)

on_message-part_example :
    Returns
      (λ s'. (s'.input ≡ eight) × (s'.events ≡ []))
      (on_message list_buffer sum_checksum raw_message config 5 (session (be_bytes 4 100 ++ eight)))
on_message-part_example =
    on_message-part list_buffer sum_checksum raw_message config 100 eight 4
      (session (be_bytes 4 100 ++ eight)) refl (omega arith) (omega arith) (omega arith)

round-Verdict_example :
    Returns
      (Verdict list_buffer sum_checksum raw_message config
        (validate_checksum sum_checksum config eight 8)
        (starts_with eight config.tag)
        8
        eight
        [])
      (round list_buffer sum_checksum raw_message config (session (be_bytes 4 8 ++ eight)))
round-Verdict_example =
    round-Verdict list_buffer sum_checksum raw_message config 8 eight
      (session (be_bytes 4 8 ++ eight)) refl refl (omega arith) (omega arith) (omega arith)
      (omega arith)
