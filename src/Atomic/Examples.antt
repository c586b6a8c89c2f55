-- ===== src/Atomic/Examples.antt =====
-- Calls near the end of an int32_t's range, and some in its middle.
use m_rpc.Prelude.{◌+◌, ◌-◌, ◌^◌, ◌≡◌, ◌<◌, refl, List, [], ◌∷◌, All, ok, crash, Returns, arith}
use m_rpc.Atomic.{int32, limit, increment_and_get, add_and_get, decrement_and_get, get_and_add, get}
use m_rpc.Atomic.History.{
  Call, reads, counts, history, following, count_calls, Distinct, history_lem,
}

abbrev calls : List Call
calls = counts ∷ reads ∷ counts ∷ counts ∷ []

history_test : history int32 calls 7 ≡ ok (8 ∷ 9 ∷ 10 ∷ [], 10)
unfolding history increment_and_get add_and_get get_and_add get
history_test = refl

overflow_test : history int32 calls (2 ^ 31 - 3) ≡ crash
unfolding history increment_and_get add_and_get get_and_add get
overflow_test = refl

decrement_test : decrement_and_get int32 0 ≡ ok (2 ^ 32 - 1, 2 ^ 32 - 1)
unfolding decrement_and_get add_and_get get_and_add
decrement_test = refl

few : 7 + count_calls calls < limit int32
unfolding count_calls
few = omega arith

history_lem_example :
    Returns
      (λ (ids, last).
        (last ≡ 7 + count_calls calls)
        × (ids ≡ following 7 (count_calls calls))
        × Distinct ids
        × All (λ y. y < limit int32) ids)
      (history int32 calls 7)
history_lem_example = history_lem int32 calls 7 few
