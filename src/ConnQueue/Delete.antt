-- ===== src/ConnQueue/Delete.antt =====
-- ConnQueue::deleteConn of src/tcpServer.h.
use m_rpc.Prelude.{
  ◌+◌, ◌-◌, ◌%◌, ◌^◌, ◌≡◌, ◌≢◌, refl, sym, ap, ◌∙◌, none, some, List, [], ◌∷◌, ◌++◌, append_assoc,
  length-append, true, false, ◌||◌, ◌==◌, if◌then◌else◌, ok, Returns, arith,
}
use m_rpc.ConnQueue.{
  Ptr, null, Conn, Heap, write, ConnQueue, delete_conn, next_of, pre_of, Linked, has, Distinct,
  nodes, IsQueue,
}
use m_rpc.ConnQueue.Memory.{
  write_ne, load-ok, set_pre-ok, set_next-ok, delete-ok, next_of-node, pre_of-node,
}
use m_rpc.ConnQueue.Linked.{
  last, Linked-frame, Linked-split, Linked-join, has-append, apart, Distinct-append,
  Distinct-without, last-mem, but_last-mem, last-ne,
}

-- The heap in which `p` and `b` are neighbours and `c` is gone.
abbrev after_delete : Heap → (p c b : Ptr) → (np nb : Conn) → Heap
after_delete h p c b np nb a =
    if a == c
    then none
    else if a == b
    then some (record nb { pre = p })
    else if a == p
    then some (record np { next = b })
    else h a

module _ (h : Heap) (q : ConnQueue) (p c b : Ptr) (np nc nb : Conn) where
  delete_conn_run :
      h p ≡ some np
      → h c ≡ some nc
      → h b ≡ some nb
      → nc.pre ≡ p
      → nc.next ≡ b
      → p ≢ null
      → c ≢ null
      → b ≢ null
      → p ≢ c
      → b ≢ c
      → p ≢ b
      → (g : Heap) × (delete_conn c q h
          ≡ ok (record q { total = (q.total + 2 ^ 64 - 1) % 2 ^ 64 }, g))
        × ((a : Ptr) → g a ≡ after_delete h p c b np nb a)
  unfolding delete_conn
  delete_conn_run ep ec eb pre next p≢ c≢ b≢ pc bc pb =
      let h₁ : Heap = write h nc.pre (some (record np { next = nc.next })) in
      let h₂ : Heap = write h₁ nc.next (some (record nb { pre = nc.pre })) in
      let c₁ : h₁ c ≡ some nc = write_ne h nc.pre c _ (λ e. pc (sym pre ∙ sym e)) ∙ ec in
      let b₁ : h₁ nc.next ≡ some nb =
        write_ne h nc.pre nc.next _ (λ e. pb (sym pre ∙ sym e ∙ next)) ∙ ap h next ∙ eb in
      let c₂ : h₂ c ≡ some nc = write_ne h₁ nc.next c _ (λ e. bc (sym next ∙ sym e)) ∙ c₁ in
      (
        write h₂ c none,
        rw (
          load-ok h c c≢ ec,
          set_next-ok h nc.pre (λ e. p≢ (sym pre ∙ e)) (ap h pre ∙ ep) nc.next,
          load-ok h₁ c c≢ c₁,
          set_pre-ok h₁ nc.next (λ e. b≢ (sym next ∙ e)) b₁ nc.pre,
          delete-ok h₂ c c≢ c₂,
        ),
        λ a. unfold write in ground arith,
      )

-- What the removal of `c` has done to the heap.
pub record Deleted (h g : Heap) (q : ConnQueue) (c : Ptr) (l : List Ptr) : Type 0 where
  pub linked : Linked g (q.head ∷ l)
  pub front_end : pre_of g q.head ≡ some null
  pub back_end : next_of g q.tail ≡ some null
  pub freed : g c ≡ none
  pub elsewhere : (p : Ptr) → has p (q.head ∷ l) ≡ false → p ≢ c → g p ≡ h p

-- The links in such a heap, from those before.
module _ (h g : Heap) (q : ConnQueue) (xs : List Ptr) (c b : Ptr) (back : List Ptr) (np nb : Conn)
    (ep : h (last q.head xs) ≡ some np) (eb : h b ≡ some nb)
    (d : Distinct (q.head ∷ (xs ++ c ∷ b ∷ back)))
    (at : (a : Ptr) → g a ≡ after_delete h (last q.head xs) c b np nb a) where
  behind : (a : Ptr) → has a (q.head ∷ xs) ≡ true → has a (c ∷ b ∷ back) ≡ false
  behind a = apart (q.head ∷ xs) (c ∷ b ∷ back) a d

  parts : Distinct (q.head ∷ xs) × Distinct (c ∷ b ∷ back)
  parts = Distinct-append (q.head ∷ xs) (c ∷ b ∷ back) d

  front-Linked : Linked h (q.head ∷ xs) → Linked g (q.head ∷ xs)
  front-Linked =
      Linked-frame h g (q.head ∷ xs)
        (λ a i.
          ground
            (arith, at a, last-ne q.head xs a parts.0 i, behind a (but_last-mem a (q.head ∷ xs) i)))
        (λ a i. ground (arith, at a, behind a))

  back-Linked : Linked h (b ∷ back) → Linked g (b ∷ back)
  back-Linked =
      Linked-frame h g (b ∷ back)
        (λ a i. ground (
          arith,
          at a,
          parts,
          but_last-mem a (b ∷ back),
          behind (last q.head xs) (last-mem q.head xs),
        ))
        (λ a i. ground (arith, at a, parts, behind (last q.head xs) (last-mem q.head xs)))

  all-Linked : Linked h (q.head ∷ xs) → Linked h (b ∷ back) → Linked g (q.head ∷ (xs ++ b ∷ back))
  all-Linked front rest =
      let out = behind (last q.head xs) (last-mem q.head xs) in
      Linked-join g q.head xs b back (front-Linked front) (ground (arith, at (last q.head xs), out))
        (ground (arith, at b, parts)) (back-Linked rest)

  delete_conn-elsewhere : (a : Ptr) → has a (q.head ∷ (xs ++ b ∷ back)) ≡ false → a ≢ c → g a ≡ h a
  delete_conn-elsewhere a out ne =
      ground (arith, at a, has-append a (q.head ∷ xs) (b ∷ back), last-mem q.head xs)

delete_conn-Deleted :
    (h : Heap) (q : ConnQueue) (xs : List Ptr) (c b : Ptr) (back : List Ptr)
    → Linked h (q.head ∷ (xs ++ c ∷ b ∷ back))
    → Distinct (q.head ∷ (xs ++ c ∷ b ∷ back))
    → has null (q.head ∷ (xs ++ c ∷ b ∷ back)) ≡ false
    → pre_of h q.head ≡ some null
    → next_of h q.tail ≡ some null
    → has q.tail (b ∷ back) ≡ true
    → (g : Heap) × (delete_conn c q h
        ≡ ok (record q { total = (q.total + 2 ^ 64 - 1) % 2 ^ 64 }, g))
      × Deleted h g q c (xs ++ b ∷ back)
delete_conn-Deleted h q xs c b back k d nn front_end back_end at_tail =
    let (front, pn, cp, (cn, bp, rest)) = Linked-split h q.head xs c (b ∷ back) k in
    let (np, ep, _) = next_of-node h (last q.head xs) pn in
    let (nc, ec, pre) = pre_of-node h c cp in
    let (nb, eb, _) = pre_of-node h b bp in
    let next : nc.next ≡ b = ground arith in
    let (da, db) = Distinct-append (q.head ∷ xs) (c ∷ b ∷ back) d in
    let p_out : has (last q.head xs) (c ∷ b ∷ back) ≡ false =
      apart (q.head ∷ xs) (c ∷ b ∷ back) _ d (last-mem q.head xs) in
    let nulls : (has null (q.head ∷ xs) || has null (c ∷ b ∷ back)) ≡ false =
      sym (has-append null (q.head ∷ xs) (c ∷ b ∷ back)) ∙ nn in
    let (g, run, at) =
      delete_conn_run h q (last q.head xs) c b np nc nb ep ec eb pre next
        (λ e. ground (arith, last-mem q.head xs)) (λ e. ground arith) (λ e. ground arith)
        (λ e. ground arith) (λ e. ground arith) (λ e. ground arith) in
    (
      g,
      run,
      record {
        linked = all-Linked h g q xs c b back np nb ep eb d at front rest;
        front_end = ground (arith, at q.head, apart (q.head ∷ xs) (c ∷ b ∷ back) q.head d);
        back_end = ground (arith, at q.tail, apart (q.head ∷ xs) (c ∷ b ∷ back) q.tail d);
        freed = ground (arith, at c);
        elsewhere = delete_conn-elsewhere h g q xs c b back np nb ep eb d at;
      },
    )

-- The queue without `c`, once the removal is described.
shorter :
    (h g : Heap) (q : ConnQueue) (xs : List Ptr) (c : Ptr) (ys l : List Ptr)
    → l ≡ ys ++ q.tail ∷ []
    → IsQueue h q (xs ++ c ∷ ys)
    → Deleted h g q c (xs ++ l)
    → (IsQueue g (record q { total = (q.total + 2 ^ 64 - 1) % 2 ^ 64 }) (xs ++ ys)
        × (g c ≡ none)
        × ((p : Ptr) → has p (nodes q (xs ++ ys)) ≡ false → p ≢ c → g p ≡ h p))
shorter h g q xs c ys l e is del =
    let old : (xs ++ c ∷ ys) ++ q.tail ∷ [] ≡ xs ++ c ∷ l =
      append_assoc xs (c ∷ ys) (q.tail ∷ []) ∙ ap (λ t. xs ++ c ∷ t) (sym e) in
    let new : xs ++ l ≡ (xs ++ ys) ++ q.tail ∷ [] =
      ap (λ t. xs ++ t) e ∙ sym (append_assoc xs ys (q.tail ∷ [])) in
    let dist : Distinct (q.head ∷ (xs ++ c ∷ l)) = rw old at is.distinct in
    let nn : has null (q.head ∷ (xs ++ c ∷ l)) ≡ false = rw old at is.not_null in
    (
      record {
        linked = rw new at del.linked;
        distinct = rw new at (Distinct-without (q.head ∷ xs) c l dist);
        not_null = rw new at (
            without_null (has-append null (q.head ∷ xs) (c ∷ l)) (has-append null (q.head ∷ xs) l)
              nn);
        counted = omega (arith, is.counted, length-append xs (c ∷ ys), length-append xs ys);
        front_end = del.front_end;
        back_end = del.back_end;
      },
      del.freed,
      λ p o ne. del.elsewhere p (rw (sym new) at o) ne,
    )
  where
    without_null :
        has null (q.head ∷ (xs ++ c ∷ l)) ≡ (has null (q.head ∷ xs) || has null (c ∷ l))
        → has null (q.head ∷ (xs ++ l)) ≡ (has null (q.head ∷ xs) || has null l)
        → has null (q.head ∷ (xs ++ c ∷ l)) ≡ false
        → has null (q.head ∷ (xs ++ l)) ≡ false
    without_null e₁ e₂ o = ground arith

-- `deleteConn` of any connection of a queue: it is unlinked and freed, the rest stay in their order,
-- correctly linked in both directions and counted, and no object outside the queue has changed.
pub delete_conn-append :
    (h : Heap) (q : ConnQueue) (xs : List Ptr) (c : Ptr) (ys : List Ptr)
    → IsQueue h q (xs ++ c ∷ ys)
    → Returns
        (λ (q', g).
          IsQueue g q' (xs ++ ys)
          × (g c ≡ none)
          × ((p : Ptr) → has p (nodes q' (xs ++ ys)) ≡ false → p ≢ c → g p ≡ h p))
        (delete_conn c q h)
delete_conn-append h q xs c [] is =
    let old = append_assoc xs (c ∷ []) (q.tail ∷ []) in
    let (g, run, del) =
      delete_conn-Deleted h q xs c q.tail [] (rw old at is.linked) (rw old at is.distinct)
        (rw old at is.not_null) is.front_end is.back_end (ground arith) in
    rw run (shorter h g q xs c [] (q.tail ∷ []) refl is del)
delete_conn-append h q xs c (y ∷ ys) is =
    let old = append_assoc xs (c ∷ y ∷ ys) (q.tail ∷ []) in
    let (g, run, del) =
      delete_conn-Deleted h q xs c y (ys ++ q.tail ∷ []) (rw old at is.linked)
        (rw old at is.distinct) (rw old at is.not_null) is.front_end is.back_end
        (tail_mem (y ∷ ys)) in
    rw run (shorter h g q xs c (y ∷ ys) (y ∷ (ys ++ q.tail ∷ [])) refl is del)
  where
    tail_mem : (l : List Ptr) → has q.tail (l ++ q.tail ∷ []) ≡ true
    tail_mem [] = ground arith
    tail_mem (x ∷ l) = ground (arith, tail_mem l)
