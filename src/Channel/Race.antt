-- ===== src/Channel/Race.antt =====
-- `++_id` in RpcChannel::CallMethod, made by threads with no lock: a load and a store of the `int`.
use m_rpc.Prelude.{ℕ, ◌+◌, ◌%◌, ◌^◌, ◌≡◌, ◌==◌, refl, if◌then◌else◌}

-- Where a thread stands in `++_id`; `counted` has the identifier that it goes on with.
pub data Pc : Type 0 where
  idle : Pc
  loaded : ℕ → Pc
  counted : ℕ → Pc

pub record Threads : Type 0 where
  pub last_id : ℕ
  pub pc : ℕ → Pc

abbrev pub update : (ℕ → Pc) → ℕ → Pc → ℕ → Pc
update f i p j = if i == j then p else f j

-- One access of thread `i`.
pub data Step (s : Threads) : Threads → Type 0 where
  load : (i : ℕ) → s.pc i ≡ idle → Step s (record s { pc = update s.pc i (loaded s.last_id) })
  store :
      (i old : ℕ)
      → s.pc i ≡ loaded old
      → Step s (record {
        last_id = (old + 1) % 2 ^ 32;
        pc = update s.pc i (counted ((old + 1) % 2 ^ 32));
      })

pub data Reach (s : Threads) : Threads → Type 0 where
  here : Reach s s
  next : {t u : Threads} → Reach s t → Step t u → Reach s u

abbrev pub start : ℕ → Threads
start n = record { last_id = n; pc = λ _. idle }

-- From every value of `_id`, two threads can end with the same identifier, and one of the two
-- increments is lost.
pub same_id :
    (n : ℕ)
    → (s : Threads) × Reach (start n) s
      × (s.pc 0 ≡ counted ((n + 1) % 2 ^ 32))
      × (s.pc 1 ≡ counted ((n + 1) % 2 ^ 32))
      × (s.last_id ≡ (n + 1) % 2 ^ 32)
same_id n = (
  _,
  next (next (next (next here (load 0 refl)) (load 1 refl)) (store 0 n refl)) (store 1 n refl),
  refl,
  refl,
  refl,
)
