-- ===== src/ConnQueue/Insert.antt =====
-- ConnQueue::insertConn of src/tcpServer.h.
use m_rpc.Prelude.{
  ℕ, ◌+◌, ◌%◌, ◌^◌, ◌≡◌, ◌≢◌, refl, sym, ap, ◌∙◌, none, some, List, [], ◌∷◌, ◌++◌, true, false,
  ◌==◌, if◌then◌else◌, ok, Returns, arith,
}
use m_rpc.ConnQueue.{
  Ptr, null, Conn, new_conn, Heap, write, ConnQueue, insert_conn, next_of, pre_of, Linked, has,
  Distinct, nodes, IsQueue,
}
use m_rpc.ConnQueue.Memory.{
  write_self, write_ne, load-ok, set_pre-ok, set_next-ok, next_of-node, pre_of-node,
}
use m_rpc.ConnQueue.Linked.{Linked-frame, but_last-mem, fresh-not_mem}

-- The node of a new connection between `a` and `b`.
abbrev pub inserted : ℕ → Ptr → Ptr → Ptr → Conn
inserted fd t a b = record (new_conn fd) { thread = t; pre = a; next = b }

module _ (h : Heap) (q : ConnQueue) (c : Ptr) (fd : ℕ) (t : Ptr) (b : Ptr) (n₀ n₁ : Conn) where
  abbrev pub after_insert : Heap
  after_insert p =
      if p == b
      then some (record n₁ { pre = c })
      else if p == q.head
      then some (record n₀ { next = c })
      else if p == c
      then some (inserted fd t q.head b)
      else h p

  insert_conn_run :
      h q.head ≡ some n₀
      → n₀.next ≡ b
      → h b ≡ some n₁
      → h c ≡ none
      → c ≢ null
      → q.head ≢ null
      → b ≢ null
      → q.head ≢ b
      → (g : Heap) × (insert_conn c fd t q h
          ≡ ok ((c, record q { total = (q.total + 1) % 2 ^ 64 }), g))
        × ((p : Ptr) → g p ≡ after_insert p)
  unfolding insert_conn
  insert_conn_run e₀ en e₁ fresh c≢ head≢ b≢ ne =
      let c≢head : q.head ≢ c = λ e. cc in
      let c≢b : b ≢ c = λ e. cc in
      let h₁ : Heap = write h c (some (record (new_conn fd) { thread = t })) in
      let h₂ : Heap = write h₁ c (some (record (new_conn fd) { thread = t; pre = q.head })) in
      let h₃ : Heap = write h₂ c (some (inserted fd t q.head n₀.next)) in
      let h₄ : Heap = write h₃ q.head (some (record n₀ { next = c })) in
      let head₁ : h₁ q.head ≡ some n₀ = write_ne h c q.head _ c≢head ∙ e₀ in
      let head₂ : h₂ q.head ≡ some n₀ = write_ne h₁ c q.head _ c≢head ∙ head₁ in
      let head₃ : h₃ q.head ≡ some n₀ = write_ne h₂ c q.head _ c≢head ∙ head₂ in
      let b₄ : h₄ n₀.next ≡ some n₁ =
        write_ne h₃ q.head n₀.next _ (λ e. ne (sym e ∙ en))
        ∙ write_ne h₂ c n₀.next _ (λ e. c≢b (sym en ∙ e))
        ∙ write_ne h₁ c n₀.next _ (λ e. c≢b (sym en ∙ e))
        ∙ write_ne h c n₀.next _ (λ e. c≢b (sym en ∙ e))
        ∙ ap h en
        ∙ e₁ in
      (
        write h₄ n₀.next (some (record n₁ { pre = c })),
        rw (
          load-ok h₁ q.head head≢ head₁,
          set_pre-ok h₁ c c≢ (write_self h c _) q.head,
          load-ok h₂ q.head head≢ head₂,
          set_next-ok h₂ c c≢ (write_self h₁ c _) n₀.next,
          set_next-ok h₃ q.head head≢ head₃ c,
          set_pre-ok h₄ n₀.next (rw en b≢) b₄ c,
        ),
        λ p. unfold write in ground arith,
      )

  -- The links after the insertion, from those before it.
  insert_conn-Linked :
      (g : Heap) (back : List Ptr)
      → ((p : Ptr) → g p ≡ after_insert p)
      → h b ≡ some n₁
      → h c ≡ none
      → Linked h (q.head ∷ b ∷ back)
      → Distinct (q.head ∷ b ∷ back)
      → Linked g (q.head ∷ c ∷ b ∷ back)
  insert_conn-Linked g back at e₁ free k d =
      let out : has c (q.head ∷ b ∷ back) ≡ false = fresh-not_mem h c q.head b back free k in
      let rest : Linked g (b ∷ back) =
        Linked-frame h g (b ∷ back) (λ p i. ground (arith, at p, but_last-mem p (b ∷ back)))
          (λ p i. ground (arith, at p)) k.2 in
      (
        ground (arith, at q.head),
        ground (arith, at c),
        (ground (arith, at c), ground (arith, at b), rest),
      )

-- What the insertion of `c` behind the head has done to the heap.
pub record Inserted (h g : Heap) (q : ConnQueue) (c : Ptr) (fd : ℕ) (t : Ptr) (l : List Ptr)
    : Type 0 where
  pub linked : Linked g (q.head ∷ c ∷ l)
  pub distinct : Distinct (q.head ∷ c ∷ l)
  pub not_null : has null (q.head ∷ c ∷ l) ≡ false
  pub front_end : pre_of g q.head ≡ some null
  pub back_end : next_of g q.tail ≡ some null
  pub node : (n : Conn) × (g c ≡ some n) × (n.fd ≡ fd) × (n.thread ≡ t)
  pub elsewhere : (p : Ptr) → has p (q.head ∷ c ∷ l) ≡ false → g p ≡ h p

insert_conn-Inserted :
    (h : Heap) (q : ConnQueue) (c : Ptr) (fd : ℕ) (t b : Ptr) (back : List Ptr)
    → h c ≡ none
    → c ≢ null
    → Linked h (q.head ∷ b ∷ back)
    → Distinct (q.head ∷ b ∷ back)
    → has null (q.head ∷ b ∷ back) ≡ false
    → pre_of h q.head ≡ some null
    → next_of h q.tail ≡ some null
    → has q.tail (b ∷ back) ≡ true
    → (g : Heap) × (insert_conn c fd t q h
        ≡ ok ((c, record q { total = (q.total + 1) % 2 ^ 64 }), g))
      × Inserted h g q c fd t (b ∷ back)
insert_conn-Inserted h q c fd t b back free c≢ k d nn front_end back_end at_tail =
    let (n₀, e₀, en) = next_of-node h q.head k.0 in
    let (n₁, e₁, ep) = pre_of-node h b k.1 in
    let out : has c (q.head ∷ b ∷ back) ≡ false = fresh-not_mem h c q.head b back free k in
    let (g, run, at) =
      insert_conn_run h q c fd t b n₀ n₁ e₀ en e₁ free c≢ (λ e. ground arith) (λ e. ground arith)
        (λ e. ground arith) in
    (
      g,
      run,
      record {
        linked = insert_conn-Linked h q c fd t b n₀ n₁ g back at e₁ free k d;
        distinct = ground arith;
        not_null = ground arith;
        front_end = ground (arith, at q.head);
        back_end = ground (arith, at q.tail);
        node = (inserted fd t q.head b, ground (arith, at c), refl, refl);
        elsewhere = λ p o. ground (arith, at p);
      },
    )

last-mem_nodes : (xs : List Ptr) (t : Ptr) → has t (xs ++ t ∷ []) ≡ true
last-mem_nodes [] t = ground arith
last-mem_nodes (x ∷ xs) t = ground (arith, last-mem_nodes xs t)

-- `insertConn` on a queue that holds the connections `xs`, with an unused address from `new`:
-- it returns that address, the queue then holds `c` before `xs`, correctly linked in both
-- directions and counted, `c` has the descriptor and the thread, and no other object than these
-- nodes has changed.
pub insert_conn-cons :
    (h : Heap) (q : ConnQueue) (xs : List Ptr) (c : Ptr) (fd : ℕ) (t : Ptr)
    → IsQueue h q xs
    → h c ≡ none
    → c ≢ null
    → Returns
        (λ ((r, q'), g).
          (r ≡ c)
          × IsQueue g q' (c ∷ xs)
          × ((n : Conn) × (g c ≡ some n) × (n.fd ≡ fd) × (n.thread ≡ t))
          × ((p : Ptr) → has p (nodes q' (c ∷ xs)) ≡ false → g p ≡ h p))
        (insert_conn c fd t q h)
insert_conn-cons h q [] c fd t is free c≢ =
    let (g, run, i) =
      insert_conn-Inserted h q c fd t q.tail [] free c≢ is.linked is.distinct is.not_null
        is.front_end is.back_end (last-mem_nodes [] q.tail) in
    rw run (
      refl,
      record {
        linked = i.linked;
        distinct = i.distinct;
        not_null = i.not_null;
        counted = omega (arith, is.counted);
        front_end = i.front_end;
        back_end = i.back_end;
      },
      i.node,
      i.elsewhere,
    )
insert_conn-cons h q (x ∷ xs) c fd t is free c≢ =
    let (g, run, i) =
      insert_conn-Inserted h q c fd t x (xs ++ q.tail ∷ []) free c≢ is.linked is.distinct
        is.not_null is.front_end is.back_end (last-mem_nodes (x ∷ xs) q.tail) in
    rw run (
      refl,
      record {
        linked = i.linked;
        distinct = i.distinct;
        not_null = i.not_null;
        counted = omega (arith, is.counted);
        front_end = i.front_end;
        back_end = i.back_end;
      },
      i.node,
      i.elsewhere,
    )
