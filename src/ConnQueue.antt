-- ===== src/ConnQueue.antt =====
-- src/tcpServer.h: the connections of a thread, in a doubly linked list between two sentinels.
-- Objects stand at addresses; 0 is NULL, and `new` is given the address that it returns.
pub mod Memory
pub mod Fields
pub mod Linked
pub mod Insert
pub mod Delete
pub mod Lifetime
pub mod Examples
use m_rpc.Prelude.{
  ℕ, zero, suc, ◌+◌, ◌-◌, ◌%◌, ◌^◌, ◌≡◌, Option, none, some, List, [], ◌∷◌, ◌++◌, length, Bool,
  false, ◌||◌, ◌==◌, if◌then◌else◌, Run, ok, crash, out_of_fuel,
}

abbrev pub Ptr : Type 0
Ptr = ℕ

abbrev pub null : Ptr
null = 0

pub record Conn : Type 0 where
  pub fd : ℕ
  pub thread : Ptr
  pub bev : Ptr
  pub read_buf : Ptr
  pub write_buf : Ptr
  pub pre : Ptr
  pub next : Ptr

-- Conn::Conn
abbrev pub new_conn : ℕ → Conn
new_conn fd = record {
  fd = fd;
  thread = null;
  bev = null;
  read_buf = null;
  write_buf = null;
  pre = null;
  next = null;
}

abbrev pub Heap : Type 0
Heap = Ptr → Option Conn

unfoldable pub write : Heap → Ptr → Option Conn → Heap
write h p c a = if a == p then c else h a

-- A command crashes when it follows NULL or a pointer to an object that was deleted.
abbrev pub Cmd : Type 0 → Type 0
Cmd A = Heap → Run (A × Heap)

abbrev pub pure : {A : Type 0} → A → Cmd A
pure a h = ok (a, h)

abbrev pub and_then : {A B : Type 0} → Run (A × Heap) → (A → Cmd B) → Run (B × Heap)
and_then (ok (a, h)) k = k a h
and_then crash k = crash
and_then out_of_fuel k = out_of_fuel

infixl 5 ◌>>=◌ ◌>>◌
abbrev pub ◌>>=◌ : {A B : Type 0} → Cmd A → (A → Cmd B) → Cmd B
m >>= k = λ h. and_then (m h) k

abbrev pub ◌>>◌ : {A B : Type 0} → Cmd A → Cmd B → Cmd B
m >> n = m >>= λ _. n

unfoldable pub load : Ptr → Cmd Conn
load p h = if p == null then crash else elim (h p) [ none ↦ crash | some c ↦ ok (c, h) ]

abbrev pub store : Ptr → Option Conn → Cmd (Unit {0})
store p c h = ok (tt, write h p c)

unfoldable pub set_pre : Ptr → Ptr → Cmd (Unit {0})
set_pre p q = do c ← load p; store p (some (record c { pre = q }))

unfoldable pub set_next : Ptr → Ptr → Cmd (Unit {0})
set_next p q = do c ← load p; store p (some (record c { next = q }))

unfoldable pub delete : Ptr → Cmd (Unit {0})
delete p = load p >> store p none

-- `total` is an unsigned long.
pub record ConnQueue : Type 0 where
  pub total : ℕ
  pub head : Ptr
  pub tail : Ptr

-- ConnQueue::ConnQueue, with the two sentinels at `h` and `t`
unfoldable pub construct : Ptr → Ptr → Cmd ConnQueue
construct h t = do
  store h (some (new_conn 0))
  store t (some (new_conn 0))
  set_next t null
  set_pre h null
  set_next h t
  set_pre t h
  pure (record { total = 0; head = h; tail = t })

-- ConnQueue::getCount
abbrev pub get_count : ConnQueue → ℕ
get_count q = q.total

-- ConnQueue::insertConn; `c` is what `new Conn(fd)` returns
unfoldable pub insert_conn : Ptr → ℕ → Ptr → ConnQueue → Cmd (Ptr × ConnQueue)
insert_conn c fd t q = do
  store c (some (record (new_conn fd) { thread = t }))
  first ← load q.head
  let next = first.next
  set_pre c q.head
  again ← load q.head
  set_next c again.next
  set_next q.head c
  set_pre next c
  pure (c, record q { total = (q.total + 1) % 2 ^ 64 })

-- ConnQueue::deleteConn
unfoldable pub delete_conn : Ptr → ConnQueue → Cmd ConnQueue
delete_conn conn q = do
  c ← load conn
  set_next c.pre c.next
  c' ← load conn
  set_pre c'.next c'.pre
  delete conn
  pure (record q { total = (q.total + 2 ^ 64 - 1) % 2 ^ 64 })

-- ConnQueue::~ConnQueue, with a bound on the rounds
unfoldable pub destroy_loop : ℕ → Ptr → Cmd (Unit {0})
destroy_loop zero cur = λ _. out_of_fuel
destroy_loop (suc fuel) cur =
    if cur == null then pure tt else do c ← load cur; delete cur; destroy_loop fuel c.next

-- The list that a queue stands for is read off its `next` pointers and back off its `pre` ones.
abbrev pub next_of : Heap → Ptr → Option Ptr
next_of h p = elim (h p) [ none ↦ none | some c ↦ some c.next ]

abbrev pub pre_of : Heap → Ptr → Option Ptr
pre_of h p = elim (h p) [ none ↦ none | some c ↦ some c.pre ]

abbrev pub Linked : Heap → List Ptr → Type 0
Linked h [] = Unit {0}
Linked h (a ∷ []) = Unit {0}
Linked h (a ∷ b ∷ r) = (next_of h a ≡ some b) × (pre_of h b ≡ some a) × Linked h (b ∷ r)

abbrev pub has : Ptr → List Ptr → Bool
has q [] = false
has q (p ∷ ps) = (q == p) || has q ps

abbrev pub Distinct : List Ptr → Type 0
Distinct [] = Unit {0}
Distinct (p ∷ ps) = (has p ps ≡ false) × Distinct ps

-- The sentinels and the connections in between, no two at one address and none at NULL.
abbrev pub nodes : ConnQueue → List Ptr → List Ptr
nodes q xs = q.head ∷ (xs ++ q.tail ∷ [])

pub record IsQueue (h : Heap) (q : ConnQueue) (xs : List Ptr) : Type 0 where
  pub linked : Linked h (nodes q xs)
  pub distinct : Distinct (nodes q xs)
  pub not_null : has null (nodes q xs) ≡ false
  pub counted : q.total ≡ length xs % 2 ^ 64
  pub front_end : pre_of h q.head ≡ some null
  pub back_end : next_of h q.tail ≡ some null
