-- ===== src/Server/Choice.antt =====
-- The thread that `acceptCb` of src/tcpServer.cpp hands a new connection to.
use m_rpc.Prelude.{
  ℕ, zero, suc, ◌+◌, ◌≤◌, ◌<◌, ◌≡◌, ◌⊎◌, inl, inr, refl, sym, ap, ◌∙◌, List, [], ◌∷◌, ◌++◌, length,
  ltb, ltb_false→le, ltb→lt, le→ltb_false, append-nil, append_assoc, length-append, if◌then◌else◌,
  Bool-cases, arith,
}
use m_rpc.Server.{get_or, choose_loop, choose}

get_or-append : (xs ys : List ℕ) → (n : ℕ) → get_or (xs ++ n ∷ ys) (length xs) ≡ n
get_or-append [] ys n = refl
get_or-append (x ∷ xs) ys n = get_or-append xs ys n

-- `r` is the first index below `k` of a least count there.
pub record IsFirstLeast (counts : List ℕ) (k r : ℕ) : Type 0 where
  pub inside : r < k
  pub least : (j : ℕ) → j < k → get_or counts r ≤ get_or counts j
  pub first : (j : ℕ) → j < r → get_or counts r < get_or counts j

module _ (counts : List ℕ) where
  -- One round keeps the invariant of the loop.
  next-IsFirstLeast :
      (k r n : ℕ)
      → get_or counts k ≡ n
      → IsFirstLeast counts k r
      → IsFirstLeast counts (k + 1) (if ltb n (get_or counts r) then k else r)
  next-IsFirstLeast k r n e inv = elim (Bool-cases (ltb n (get_or counts r))) [
    | inl less ↦
        let lt : n < get_or counts r = ltb→lt n (get_or counts r) less in
        rw less (record {
          inside = omega arith;
          least = λ j h. at_most j lt h (j_cases j k h);
          first = λ j h. omega (arith, inv.least j h);
        })
    | inr more ↦
        let le : get_or counts r ≤ n = ltb_false→le n (get_or counts r) more in
        rw more (record {
          inside = omega (arith, inv.inside);
          least = λ j h. keeps j le (j_cases j k h);
          first = inv.first;
        })
  ]
    where
      j_cases : (j k : ℕ) → j < k + 1 → (j < k) ⊎ (j ≡ k)
      j_cases j k h = omega arith

      at_most :
          (j : ℕ)
          → n < get_or counts r
          → j < k + 1
          → (j < k) ⊎ (j ≡ k)
          → get_or counts k ≤ get_or counts j
      at_most j lt h (inl less) = omega (arith, inv.least j less)
      at_most j lt h (inr same) = rw same (omega arith)

      keeps : (j : ℕ) → get_or counts r ≤ n → (j < k) ⊎ (j ≡ k) → get_or counts r ≤ get_or counts j
      keeps j le (inl less) = inv.least j less
      keeps j le (inr same) = rw same (omega arith)

  choose_loop-IsFirstLeast :
      (front rest : List ℕ) (r : ℕ)
      → counts ≡ front ++ rest
      → IsFirstLeast counts (length front) r
      → IsFirstLeast counts (length counts) (choose_loop counts r (length front) rest)
  unfolding choose_loop
  choose_loop-IsFirstLeast front [] r e inv = rw (ap length e ∙ ap length (append-nil front)) inv
  choose_loop-IsFirstLeast front (n ∷ rest) r e inv =
      let here : get_or counts (length front) ≡ n =
        ap (λ l. get_or l (length front)) e ∙ get_or-append front rest n in
      let more : length (front ++ n ∷ []) ≡ length front + 1 = length-append front (n ∷ []) in
      rw more at (
        choose_loop-IsFirstLeast (front ++ n ∷ []) rest
          (if ltb n (get_or counts r) then length front else r)
          (e ∙ sym (append_assoc front (n ∷ []) rest))
          (rw more (next-IsFirstLeast (length front) r n here inv)))

-- With one thread or more, `acceptCb` picks the first of the threads that have the fewest
-- connections.
pub choose-IsFirstLeast :
    (n : ℕ) (rest : List ℕ) → IsFirstLeast (n ∷ rest) (length (n ∷ rest)) (choose (n ∷ rest))
unfolding choose choose_loop
choose-IsFirstLeast n rest = rw (le→ltb_false n n (omega arith)) (
    choose_loop-IsFirstLeast (n ∷ rest) (n ∷ []) rest 0 refl
      (record { inside = omega arith; least = λ j h. only j h; first = λ j h. omega arith }))
  where
    only : (j : ℕ) → j < 1 → get_or (n ∷ rest) 0 ≤ get_or (n ∷ rest) j
    only zero h = omega arith
    only (suc j) h = absurd (omega arith)
