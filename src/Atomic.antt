-- ===== src/Atomic.antt =====
-- include/atomic.h: `AtomicIntegerT`. A value is a bit pattern. Each method makes one atomic step,
-- a `__sync` builtin of the compiler; what it adds to the result afterwards is its own copy.
pub mod History
mod Examples
use m_rpc.Prelude.{
  ℕ, ◌+◌, ◌-◌, ◌%◌, ◌^◌, ◌≡◌, Bool, true, false, not, ◌&&◌, ◌||◌, List, [], ◌∷◌, ltb, ◌==◌,
  if◌then◌else◌, Run, ok, crash, ◌>>=◌,
}

-- The types that AtomicInt32 and AtomicInt64 are made at.
pub data Width : Type 0 where
  int32 int64 : Width

abbrev pub modulus : Width → ℕ
modulus int32 = 2 ^ 32
modulus int64 = 2 ^ 64

-- One more than the largest value.
abbrev pub limit : Width → ℕ
limit int32 = 2 ^ 31
limit int64 = 2 ^ 63

-- A method's result, and `value_` after it.
abbrev pub Step : Type 0
Step = ℕ → ℕ × ℕ

-- The builtins of the compiler, each one atomic step on `value_`.
abbrev pub sync_val_compare_and_swap : ℕ → ℕ → Step
sync_val_compare_and_swap old new v = (v, if v == old then new else v)

abbrev pub sync_fetch_and_add : Width → ℕ → Step
sync_fetch_and_add w x v = (v, (v + x) % modulus w)

abbrev pub sync_lock_test_and_set : ℕ → Step
sync_lock_test_and_set x v = (v, x)

-- AtomicIntegerT::AtomicIntegerT
abbrev pub initial : ℕ
initial = 0

unfoldable pub get : Step
get v = sync_val_compare_and_swap 0 0 v

pub get_and_add : Width → ℕ → Step
get_and_add w x v = sync_fetch_and_add w x v

-- Whether the sum of two signed integers, given as bit patterns, is out of the type's range.
abbrev pub overflows : Width → ℕ → ℕ → Bool
overflows w a b =
    (ltb a (limit w) && (ltb b (limit w) && not (ltb (a + b) (limit w))))
    || (not (ltb a (limit w)) && (not (ltb b (limit w)) && ltb (a + b) (modulus w + limit w)))

-- `getAndAdd(x) + x`: the second sum is the language's, which is undefined past the range.
pub add_and_get : Width → ℕ → ℕ → Run (ℕ × ℕ)
unfolding get_and_add
add_and_get w x v =
    let (old, new) = get_and_add w x v in
    if overflows w old x then crash else ok ((old + x) % modulus w, new)

pub increment_and_get : Width → ℕ → Run (ℕ × ℕ)
increment_and_get w v = add_and_get w 1 v

-- `addAndGet(-1)`
pub decrement_and_get : Width → ℕ → Run (ℕ × ℕ)
decrement_and_get w v = add_and_get w (modulus w - 1) v

-- The methods with no result.
pub add : Width → ℕ → ℕ → ℕ
unfolding get_and_add
add w x v = (get_and_add w x v).1

pub increment : Width → ℕ → Run ℕ
increment w v = do (result, new) ← increment_and_get w v; ok new

pub decrement : Width → ℕ → Run ℕ
decrement w v = do (result, new) ← decrement_and_get w v; ok new

pub get_and_set : ℕ → Step
get_and_set x v = sync_lock_test_and_set x v
