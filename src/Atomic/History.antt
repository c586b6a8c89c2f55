-- ===== src/Atomic/History.antt =====
-- Methods of one integer of include/atomic.h, called by any threads: a history is the calls in the
-- order of their atomic steps.
use m_rpc.Prelude.{
  ℕ, zero, suc, ◌+◌, ◌%◌, ◌^◌, ◌≤◌, ◌<◌, ◌≡◌, ◌≢◌, ap, refl, false, List, [], ◌∷◌, All, Run, ok,
  ◌>>=◌, Returns, arith,
}
use m_rpc.Atomic.{
  Width, int32, int64, limit, overflows, get, get_and_add, add_and_get, increment_and_get,
}

-- A call that reads or counts.
pub data Call : Type 0 where
  reads : Call
  counts : Call

-- The identifiers that the calls of `incrementAndGet` return, in the order of their steps, and the
-- integer at the end.
unfoldable pub history : Width → List Call → ℕ → Run (List ℕ × ℕ)
history w [] v = ok ([], v)
history w (reads ∷ cs) v = history w cs (get v).1
history w (counts ∷ cs) v = do
  (id, next) ← increment_and_get w v
  (ids, last) ← history w cs next
  ok (id ∷ ids, last)

unfoldable pub count_calls : List Call → ℕ
count_calls [] = 0
count_calls (reads ∷ cs) = count_calls cs
count_calls (counts ∷ cs) = suc (count_calls cs)

-- The numbers from `v + 1` to `v + n`.
pub following : ℕ → ℕ → List ℕ
following v zero = []
following v (suc n) = suc v ∷ following (suc v) n

abbrev pub Distinct : List ℕ → Type 0
Distinct [] = Unit {0}
Distinct (x ∷ xs) = All (λ y. y ≢ x) xs × Distinct xs

following-ne : (x v n : ℕ) → x ≤ v → All (λ y. y ≢ x) (following v n)
unfolding following
following-ne x v zero h = tt
following-ne x v (suc n) h = (λ e. omega arith, following-ne x (suc v) n (omega arith))

following-Distinct : (v n : ℕ) → Distinct (following v n)
unfolding following
following-Distinct v zero = tt
following-Distinct v (suc n) =
    (following-ne (suc v) (suc v) n (omega arith), following-Distinct (suc v) n)

following-below : (v n b : ℕ) → v + n < b → All (λ y. y < b) (following v n)
unfolding following
following-below v zero b h = tt
following-below v (suc n) b h = (omega arith, following-below (suc v) n b (omega arith))

get_value : (v : ℕ) → (get v).1 ≡ v
unfolding get
get_value v = ground arith

increment_small : (w : Width) (v : ℕ) → v + 1 < limit w → increment_and_get w v ≡ ok (suc v, suc v)
unfolding increment_and_get add_and_get get_and_add
increment_small int32 v h =
    let fits : overflows int32 v 1 ≡ false = ground arith in
    let same : (v + 1) % 2 ^ 32 ≡ suc v = omega arith in rw (fits, same) refl
increment_small int64 v h =
    let fits : overflows int64 v 1 ≡ false = ground arith in
    let same : (v + 1) % 2 ^ 64 ≡ suc v = omega arith in rw (fits, same) refl

history-following :
    (w : Width) (cs : List Call) (v : ℕ)
    → v + count_calls cs < limit w
    → history w cs v ≡ ok (following v (count_calls cs), v + count_calls cs)
unfolding history count_calls following
history-following w [] v h = let same : v ≡ v + 0 = omega arith in ap (λ n. ok ([], n)) same
history-following w (reads ∷ cs) v h = rw (get_value v) (history-following w cs v h)
history-following w (counts ∷ cs) v h =
    let same : suc v + count_calls cs ≡ v + suc (count_calls cs) = omega arith in
    rw (increment_small w v (omega arith), history-following w cs (suc v) (omega arith), same) refl

-- Whatever the order of the steps of the threads that read the integer and call `incrementAndGet`,
-- while the integer and the number of calls stay together below 2 ^ 31 (2 ^ 63 at the wide type):
-- no addition overflows, no increment is lost, and the calls return, in the order of their steps,
-- the numbers that follow the first value, so that no two of them return the same number and each
-- is in the range of the type.
pub history_lem :
    (w : Width) (cs : List Call) (v : ℕ)
    → v + count_calls cs < limit w
    → Returns
        (λ (ids, last).
          (last ≡ v + count_calls cs)
          × (ids ≡ following v (count_calls cs))
          × Distinct ids
          × All (λ y. y < limit w) ids)
        (history w cs v)
history_lem w cs v h = rw (history-following w cs v h) (
  refl,
  refl,
  following-Distinct v (count_calls cs),
  following-below v (count_calls cs) (limit w) h,
)
