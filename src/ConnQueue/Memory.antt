-- ===== src/ConnQueue/Memory.antt =====
-- Reads and writes of objects that are there.
use m_rpc.Prelude.{◌≡◌, ◌≢◌, Option, some, none, ==_refl, ne→==_false, ok, arith}
use m_rpc.ConnQueue.{Ptr, null, Conn, Heap, write, load, set_pre, set_next, delete, next_of, pre_of}

module _ (h : Heap) where
  pub write_self : (p : Ptr) (c : Option Conn) → write h p c p ≡ c
  unfolding write
  write_self p c = rw (==_refl p)

  pub write_ne : (p a : Ptr) (c : Option Conn) → a ≢ p → write h p c a ≡ h a
  unfolding write
  write_ne p a c ne = rw (ne→==_false a p ne)

  module _ (p : Ptr) {n : Conn} (ne : p ≢ null) (there : h p ≡ some n) where
    pub load-ok : load p h ≡ ok (n, h)
    unfolding load
    load-ok = rw (ne→==_false p null ne, there)

    pub set_pre-ok : (q : Ptr) → set_pre p q h ≡ ok (tt, write h p (some (record n { pre = q })))
    unfolding set_pre
    set_pre-ok q = rw load-ok

    pub set_next-ok : (q : Ptr) → set_next p q h ≡ ok (tt, write h p (some (record n { next = q })))
    unfolding set_next
    set_next-ok q = rw load-ok

    pub delete-ok : delete p h ≡ ok (tt, write h p none)
    unfolding delete
    delete-ok = rw load-ok

  pub next_of-node :
      (p : Ptr) {b : Ptr} → next_of h p ≡ some b → (n : Conn) × (h p ≡ some n) × (n.next ≡ b)
  next_of-node p e = ground arith

  pub pre_of-node :
      (p : Ptr) {b : Ptr} → pre_of h p ≡ some b → (n : Conn) × (h p ≡ some n) × (n.pre ≡ b)
  pre_of-node p e = ground arith
