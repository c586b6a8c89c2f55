-- ===== src/Message/Examples.antt =====
-- Messages serialised, and a string field used.
use m_rpc.Message.Strings.{
  Op, sets, releases, touches, allocates, clears, shared, view, apply_all, meaning_all, added_all,
  gone_all, owned, apply_all-balance,
}
use m_rpc.Message.Wire.{serialize_with_cached_sizes}
use m_rpc.Prelude.{List, some, ◌+◌, Bool, ok, ◌≡◌, refl, [], ◌∷◌}
use m_rpc.Message.{RpcMessage, new_message, set_id, set_service, set_type, MessageType}
use m_rpc.Message.Plain.{plain, plain_reader, delimited, varint, le}
use m_rpc.Message.Plain.Shorter.{plain-Advances}
use m_rpc.Message.Parse.{merge_partial_from_coded_stream}
use m_rpc.Message.Termination.{merge_partial_from_coded_stream-Answers}

abbrev first : RpcMessage
first = set_service (1 ∷ []) (set_id 5 new_message)

serialize_test :
    serialize_with_cached_sizes plain first []
    ≡ 17 ∷ 5 ∷ 0 ∷ 0 ∷ 0 ∷ 0 ∷ 0 ∷ 0 ∷ 0 ∷ 26 ∷ 1 ∷ 1 ∷ []
unfolding serialize_with_cached_sizes delimited varint le
serialize_test = refl

abbrev uses : List Op
uses = sets (1 ∷ []) ∷ releases ∷ touches ∷ allocates (some (7 ∷ [])) ∷ clears ∷ []

apply_all-balance_example :
    (view (apply_all uses shared) ≡ meaning_all uses (view shared))
    × (added_all uses shared + 0 ≡ gone_all uses shared + owned (apply_all uses shared).cell)
apply_all-balance_example = apply_all-balance uses shared

abbrev earlier : RpcMessage
earlier = set_type MessageType.request (set_id 4 new_message)

-- A field number that no field has, then a string that is cut off.
merge_partial_from_coded_stream-Answers_example :
    (answer : Bool × RpcMessage) × (merge_partial_from_coded_stream plain_reader earlier
        (66 ∷ 1 ∷ 7 ∷ 26 ∷ 9 ∷ 1 ∷ [])
      ≡ ok answer)
merge_partial_from_coded_stream-Answers_example =
    merge_partial_from_coded_stream-Answers plain_reader plain-Advances earlier
      (66 ∷ 1 ∷ 7 ∷ 26 ∷ 9 ∷ 1 ∷ [])
