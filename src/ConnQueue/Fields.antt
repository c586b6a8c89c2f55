-- ===== src/ConnQueue/Fields.antt =====
-- The descriptor of a connection under the operations of ConnQueue in src/tcpServer.h.
use m_rpc.Prelude.{
  ◌≡◌, ◌≢◌, refl, sym, ap, ◌∙◌, Option, none, some, ne→==_false, Bool, true, false, Bool-cases,
  ◌==◌, ==_iff, inl, inr, Run, ok, crash, out_of_fuel,
}
use m_rpc.Prelude.{ℕ, ◌+◌, ◌-◌, ◌%◌, ◌^◌, if◌then◌else◌}
use m_rpc.ConnQueue.{
  Ptr, null, Conn, Heap, write, Cmd, pure, and_then, ◌>>=◌, load, store, set_pre, set_next, delete,
  ConnQueue, insert_conn, delete_conn,
}

-- The descriptor of the object at an address.
abbrev pub fd_of : Heap → Ptr → Option ℕ
fd_of h p = elim (h p) [ none ↦ none | some c ↦ some c.fd ]

-- A command that leaves the descriptor of the object at `p` as it is, whenever it returns.
abbrev pub Keeps : {A : Type 0} → Ptr → Cmd A → Type 0
Keeps {A} p m = (h g : Heap) (a : A) → m h ≡ ok (a, g) → fd_of g p ≡ fd_of h p

abbrev Keeping : {A : Type 0} → Ptr → Heap → Run (A × Heap) → Type 0
Keeping {A} p h r = (g : Heap) (a : A) → r ≡ ok (a, g) → fd_of g p ≡ fd_of h p

ok_heap :
    {A : Type 0} (a b : A) (h g : Heap) → ◌≡◌ {A = Run (A × Heap)} (ok (a, h)) (ok (b, g)) → h ≡ g
ok_heap a b h g e = cc

crash_ne : {A : Type 0} (a : A) → crash ≡ ok a → ⊥
crash_ne a e = cc

out_ne : {A : Type 0} (a : A) → out_of_fuel ≡ ok a → ⊥
out_ne a e = cc

Keeping-and_then :
    {A B : Type 0} (p : Ptr) (h : Heap) (r : Run (A × Heap)) (k : A → Cmd B)
    → Keeping p h r
    → ((a : A) → Keeps p (k a))
    → Keeping p h (and_then r k)
Keeping-and_then p h (ok (a, h')) k first later g b e = later a h' g b e ∙ first h' a refl
Keeping-and_then p h crash k first later g b e = absurd (crash_ne (b, g) e)
Keeping-and_then p h out_of_fuel k first later g b e = absurd (out_ne (b, g) e)

Keeps-bind :
    {A B : Type 0} (p : Ptr) (m : Cmd A) (k : A → Cmd B)
    → Keeps p m
    → ((a : A) → Keeps p (k a))
    → Keeps p (m >>= k)
Keeps-bind p m k first later h g b e = Keeping-and_then p h (m h) k (first h) later g b e

Keeps-pure : {A : Type 0} (p : Ptr) (a : A) → Keeps p (pure a)
Keeps-pure p a h g b e = ap (λ t. fd_of t p) (sym (ok_heap a b h g e))

-- What a read that returns has read; it leaves the heap as it is.
load-reads : (q : Ptr) (h g : Heap) (c : Conn) → load q h ≡ ok (c, g) → (h ≡ g) × (h q ≡ some c)
unfolding load
load-reads q h g c = go (q == null) (h q)
  where
    first : (n : Conn) → ◌≡◌ {A = Run (Conn × Heap)} (ok (n, h)) (ok (c, g)) → n ≡ c
    first n e = cc

    go :
        (b : Bool) (o : Option Conn)
        → ◌≡◌ {A = Run (Conn × Heap)}
            (if b then crash else elim o [ none ↦ crash | some n ↦ ok (n, h) ])
            (ok (c, g))
        → (h ≡ g) × (o ≡ some c)
    go true o e = absurd (crash_ne (c, g) e)
    go false none e = absurd (crash_ne (c, g) e)
    go false (some n) e = (ok_heap n c h g e, ap some (first n e))

Keeps-load : (p q : Ptr) → Keeps p (load q)
Keeps-load p q h g c e = ap (λ t. fd_of t p) (sym (load-reads q h g c e).0)

-- A field of the object at an address.
abbrev field : (Conn → ℕ) → Heap → Ptr → Option ℕ
field f h p = elim (h p) [ none ↦ none | some c ↦ some (f c) ]

pub field-write :
    (f : Conn → ℕ) (h : Heap) (q p : Ptr) (n m : Conn)
    → h q ≡ some n
    → f m ≡ f n
    → field f (write h q (some m)) p ≡ field f h p
unfolding write
field-write f h q p n m there same = elim (Bool-cases (p == q)) [
  | inl e ↦
      let read : field f h q ≡ some (f n) = rw (there, field) refl in
      rw (e, field) (ap some same ∙ sym read ∙ ap (field f h) (sym ((==_iff p q).0 e)))
  | inr ne ↦ rw (ne, field) refl
]

-- An update of an object that leaves its descriptor.
Keeps-update :
    (p q : Ptr) (f : Conn → Conn)
    → ((n : Conn) → (f n).fd ≡ n.fd)
    → Keeps p (load q >>= λ n. store q (some (f n)))
Keeps-update p q f same h g u = go (load q h) (load-reads q h)
  where
    go :
        (r : Run (Conn × Heap))
        → ((k : Heap) (c : Conn) → r ≡ ok (c, k) → (h ≡ k) × (h q ≡ some c))
        → and_then r (λ n. store q (some (f n))) ≡ ok (u, g)
        → fd_of g p ≡ fd_of h p
    go (ok (n, k)) read e =
        let (unchanged, there) = read k n refl in
        ap (λ t. fd_of t p) (sym (ok_heap tt u (write k q (some (f n))) g e))
        ∙ field-write (λ c. c.fd) k q p n (f n) (rw (sym unchanged) there) (same n)
        ∙ ap (λ t. fd_of t p) (sym unchanged)
    go crash read e = absurd (crash_ne (u, g) e)
    go out_of_fuel read e = absurd (out_ne (u, g) e)

Keeps-set_pre : (p q r : Ptr) → Keeps p (set_pre q r)
unfolding set_pre
Keeps-set_pre p q r = Keeps-update p q (λ n. record n { pre = r }) (λ n. refl)

Keeps-set_next : (p q r : Ptr) → Keeps p (set_next q r)
unfolding set_next
Keeps-set_next p q r = Keeps-update p q (λ n. record n { next = r }) (λ n. refl)

Keeps-store : (p q : Ptr) (c : Option Conn) → p ≢ q → Keeps p (store q c)
unfolding write
Keeps-store p q c ne h g u e =
    ap (λ t. fd_of t p) (sym (ok_heap tt u (write h q c) g e)) ∙ rw (ne→==_false p q ne, fd_of) refl

Keeps-delete : (p q : Ptr) → p ≢ q → Keeps p (delete q)
unfolding delete
Keeps-delete p q ne = Keeps-bind p _ _ (Keeps-load p q) λ c. Keeps-store p q none ne

-- insertConn changes no descriptor but that of the new connection.
pub Keeps-insert_conn :
    (p c : Ptr) (fd : ℕ) (t : Ptr) (q : ConnQueue) → p ≢ c → Keeps p (insert_conn c fd t q)
unfolding insert_conn
Keeps-insert_conn p c fd t q ne = Keeps-bind p _ _ (Keeps-store p c _ ne) λ _.
    Keeps-bind p _ _ (Keeps-load p q.head) λ first. Keeps-bind p _ _ (Keeps-set_pre p c q.head) λ _.
      Keeps-bind p _ _ (Keeps-load p q.head) λ again.
        Keeps-bind p _ _ (Keeps-set_next p c again.next) λ _.
          Keeps-bind p _ _ (Keeps-set_next p q.head c) λ _.
            Keeps-bind p _ _ (Keeps-set_pre p first.next c)
              λ _. Keeps-pure p (c, record q { total = (q.total + 1) % 2 ^ 64 })

-- deleteConn changes no descriptor of another connection.
pub Keeps-delete_conn : (p c : Ptr) (q : ConnQueue) → p ≢ c → Keeps p (delete_conn c q)
unfolding delete_conn
Keeps-delete_conn p c q ne = Keeps-bind p _ _ (Keeps-load p c) λ n.
    Keeps-bind p _ _ (Keeps-set_next p n.pre n.next) λ _. Keeps-bind p _ _ (Keeps-load p c) λ n'.
      Keeps-bind p _ _ (Keeps-set_pre p n'.next n'.pre) λ _.
        Keeps-bind p _ _ (Keeps-delete p c ne)
          λ _. Keeps-pure p (record q { total = (q.total + 2 ^ 64 - 1) % 2 ^ 64 })
