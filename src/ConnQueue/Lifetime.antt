-- ===== src/ConnQueue/Lifetime.antt =====
-- A queue from its constructor to its destructor in src/tcpServer.h, and a connection outside it.
use m_rpc.Prelude.{
  ℕ, zero, suc, ◌+◌, ◌<◌, ◌≡◌, ◌≢◌, inl, inr, refl, sym, ap, ◌∙◌, none, some, List, [], ◌∷◌, ◌++◌,
  length, length-append, false, ◌==◌, Bool-cases, if◌then◌else◌, crash, Returns, Returns-mono,
  ne→==_false, arith,
}
use m_rpc.ConnQueue.{
  Ptr, null, Conn, new_conn, Heap, write, load, set_next, ConnQueue, construct, delete_conn,
  destroy_loop, next_of, Linked, has, Distinct, nodes, IsQueue,
}
use m_rpc.ConnQueue.Memory.{
  write_self, write_ne, load-ok, delete-ok, next_of-node, set_next-ok, set_pre-ok,
}
use m_rpc.ConnQueue.Linked.{last, Linked-frame, but_last-mem, last-mem}

-- `deleteConn` of a connection whose links are NULL follows NULL.
pub delete_conn-unlinked :
    (h : Heap) (q : ConnQueue) (c : Ptr) {n : Conn}
    → h c ≡ some n
    → n.pre ≡ null
    → delete_conn c q h ≡ crash
unfolding delete_conn set_next load
delete_conn-unlinked h q c {n} e pre = elim (Bool-cases (c == null)) [
  | inl z ↦ rw z
  | inr nz ↦ rw (nz, e, pre)
]

-- The constructor, at two unused addresses, makes the empty queue.
pub construct-nil :
    (h : Heap) (a b : Ptr)
    → a ≢ null
    → b ≢ null
    → a ≢ b
    → Returns (λ (q, g). IsQueue g q [] × ((p : Ptr) → p ≢ a → p ≢ b → g p ≡ h p)) (construct a b h)
unfolding construct
construct-nil h a b a≢ b≢ ne =
    let ne' : b ≢ a = λ e. ne (sym e) in
    let h₁ : Heap = write h a (some (new_conn 0)) in
    let h₂ : Heap = write h₁ b (some (new_conn 0)) in
    let h₃ : Heap = write h₂ b (some (new_conn 0)) in
    let h₄ : Heap = write h₃ a (some (new_conn 0)) in
    let h₅ : Heap = write h₄ a (some (record (new_conn 0) { next = b })) in
    let a₃ : h₃ a ≡ some (new_conn 0) =
      write_ne h₂ b a _ ne ∙ write_ne h₁ b a _ ne ∙ write_self h a _ in
    let b₅ : h₅ b ≡ some (new_conn 0) =
      write_ne h₄ a b _ ne' ∙ write_ne h₃ a b _ ne' ∙ write_self h₂ b _ in
    rw
      (
        set_next-ok h₂ b b≢ (write_self h₁ b _) null,
        set_pre-ok h₃ a a≢ a₃ null,
        set_next-ok h₄ a a≢ (write_self h₃ a _) b,
        set_pre-ok h₅ b b≢ b₅ a,
      )
      (
        record {
          linked = unfold write in ground arith;
          distinct = ground arith;
          not_null = ground arith;
          counted = refl;
          front_end = unfold write in ground arith;
          back_end = unfold write in ground arith;
        },
        λ p pa pb. unfold write in ground arith,
      )

-- The rest of a list, after its first node was freed.
module _ (h g : Heap) (a b : Ptr) (r : List Ptr) (out : has a (b ∷ r) ≡ false)
    (at : (p : Ptr) → g p ≡ (if p == a then none else h p)) where
  Linked-rest : Linked h (b ∷ r) → Linked g (b ∷ r)
  Linked-rest =
      Linked-frame h g (b ∷ r) (λ p i. ground (arith, at p, but_last-mem p (b ∷ r)))
        (λ p i. ground (arith, at p))

  next_of-last : next_of h (last b r) ≡ some null → next_of g (last b r) ≡ some null
  next_of-last e = ground (arith, at (last b r), last-mem b r)

freed_at : (h : Heap) (a p : Ptr) → write h a none p ≡ (if p == a then none else h p)
unfolding write
freed_at h a p = refl

destroy_loop-frees :
    (fuel : ℕ) (h : Heap) (a : Ptr) (r : List Ptr)
    → Linked h (a ∷ r)
    → Distinct (a ∷ r)
    → has null (a ∷ r) ≡ false
    → next_of h (last a r) ≡ some null
    → length r + 1 < fuel
    → Returns
        (λ (_, g). (p : Ptr) → g p ≡ (if has p (a ∷ r) then none else h p))
        (destroy_loop fuel a h)
unfolding destroy_loop
destroy_loop-frees zero h a r k d nn end m = absurd (omega arith)
destroy_loop-frees (suc zero) h a r k d nn end m = absurd (omega arith)
destroy_loop-frees (suc (suc fuel)) h a [] k d nn end m =
    let (n, e, next) = next_of-node h a end in
    rw
      (
        ne→==_false a null (λ z. ground arith),
        load-ok h a (λ z. ground arith) e,
        delete-ok h a (λ z. ground arith) e,
        next,
      )
      (λ p. unfold write in ground arith)
destroy_loop-frees (suc (suc fuel)) h a (b ∷ r) (nb, pb, k) (out, d) nn end m =
    let (n, e, next) = next_of-node h a nb in
    let end' : next_of (write h a none) (last b r) ≡ some null =
      next_of-last h (write h a none) a b r out (freed_at h a) end in
    rw
      (
        ne→==_false a null (λ z. ground arith),
        load-ok h a (λ z. ground arith) e,
        delete-ok h a (λ z. ground arith) e,
        next,
      )
      (Returns-mono _ _ (destroy_loop (suc fuel) b (write h a none))
        (destroy_loop-frees (suc fuel) (write h a none) b r
          (Linked-rest h (write h a none) a b r out (freed_at h a) k) d (ground arith) end'
          (omega arith))
        (λ (u, g) at p. ground (arith, at p, freed_at h a p)))

last-snoc : (a t : Ptr) (xs : List Ptr) → last a (xs ++ t ∷ []) ≡ t
last-snoc a t [] = refl
last-snoc a t (x ∷ xs) = last-snoc x t xs

-- The destructor's loop over a queue ends within one round more than there are nodes. It frees both
-- sentinels and every connection, each once, and touches no other object.
pub destroy_loop-nodes :
    (h : Heap) (q : ConnQueue) (xs : List Ptr) (fuel : ℕ)
    → IsQueue h q xs
    → length xs + 2 < fuel
    → Returns
        (λ (_, g). (p : Ptr) → g p ≡ (if has p (nodes q xs) then none else h p))
        (destroy_loop fuel q.head h)
destroy_loop-nodes h q xs fuel is m =
    destroy_loop-frees fuel h q.head (xs ++ q.tail ∷ []) is.linked is.distinct is.not_null
      (ap (next_of h) (last-snoc q.head q.tail xs) ∙ is.back_end)
      (omega (arith, length-append xs (q.tail ∷ [])))
