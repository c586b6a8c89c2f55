-- ===== src/ConnQueue/Linked.antt =====
-- Doubly linked lists of addresses: framing, taking apart and joining.
use m_rpc.Prelude.{◌≡◌, ◌≢◌, refl, ◌∙◌, none, some, List, [], ◌∷◌, ◌++◌, true, false, ◌||◌, arith}
use m_rpc.ConnQueue.{Ptr, Heap, next_of, pre_of, Linked, has, Distinct}

abbrev pub but_last : List Ptr → List Ptr
but_last [] = []
but_last (a ∷ []) = []
but_last (a ∷ b ∷ r) = a ∷ but_last (b ∷ r)

abbrev pub tail : List Ptr → List Ptr
tail [] = []
tail (a ∷ r) = r

abbrev pub last : Ptr → List Ptr → Ptr
last a [] = a
last a (b ∷ r) = last b r

-- Only the `next` of all but the last and the `pre` of all but the first count.
pub Linked-frame :
    (h g : Heap) (l : List Ptr)
    → ((q : Ptr) → has q (but_last l) ≡ true → next_of g q ≡ next_of h q)
    → ((q : Ptr) → has q (tail l) ≡ true → pre_of g q ≡ pre_of h q)
    → Linked h l
    → Linked g l
Linked-frame h g [] nexts pres k = tt
Linked-frame h g (a ∷ []) nexts pres k = tt
Linked-frame h g (a ∷ b ∷ r) nexts pres (n, p, k) = (
  nexts a (ground arith) ∙ n,
  pres b (ground arith) ∙ p,
  Linked-frame h g (b ∷ r) (λ q i. nexts q (ground arith)) (λ q i. pres q (ground arith)) k,
)

pub Linked-split :
    (h : Heap) (a : Ptr) (xs : List Ptr) (c : Ptr) (ys : List Ptr)
    → Linked h (a ∷ (xs ++ c ∷ ys))
    → Linked h (a ∷ xs)
      × (next_of h (last a xs) ≡ some c)
      × (pre_of h c ≡ some (last a xs))
      × Linked h (c ∷ ys)
Linked-split h a [] c ys (n, p, k) = (tt, n, p, k)
Linked-split h a (b ∷ xs) c ys (n, p, k) =
    let (front, n', p', back) = Linked-split h b xs c ys k in ((n, p, front), n', p', back)

pub Linked-join :
    (h : Heap) (a : Ptr) (xs : List Ptr) (c : Ptr) (ys : List Ptr)
    → Linked h (a ∷ xs)
    → next_of h (last a xs) ≡ some c
    → pre_of h c ≡ some (last a xs)
    → Linked h (c ∷ ys)
    → Linked h (a ∷ (xs ++ c ∷ ys))
Linked-join h a [] c ys front n p back = (n, p, back)
Linked-join h a (b ∷ xs) c ys (n', p', front) n p back =
    (n', p', Linked-join h b xs c ys front n p back)

pub has-append : (q : Ptr) (xs ys : List Ptr) → has q (xs ++ ys) ≡ (has q xs || has q ys)
has-append q [] ys = refl
has-append q (x ∷ xs) ys = ground (arith, has-append q xs ys)

-- No address is in both parts of a list without repetition.
pub apart : (xs ys : List Ptr) (q : Ptr) → Distinct (xs ++ ys) → has q xs ≡ true → has q ys ≡ false
apart [] ys q d i = cc
apart (x ∷ xs) ys q (out, d) i = ground (arith, has-append x xs ys, apart xs ys q d)

pub Distinct-append : (xs ys : List Ptr) → Distinct (xs ++ ys) → Distinct xs × Distinct ys
Distinct-append [] ys d = (tt, d)
Distinct-append (x ∷ xs) ys (out, d) =
    let (dx, dy) = Distinct-append xs ys d in ((ground (arith, has-append x xs ys), dx), dy)

pub Distinct-without :
    (xs : List Ptr) (c : Ptr) (ys : List Ptr) → Distinct (xs ++ c ∷ ys) → Distinct (xs ++ ys)
Distinct-without [] c ys (out, d) = d
Distinct-without (x ∷ xs) c ys (out, d) =
    (ground (arith, has-append x xs (c ∷ ys), has-append x xs ys), Distinct-without xs c ys d)

pub last-mem : (a : Ptr) (xs : List Ptr) → has (last a xs) (a ∷ xs) ≡ true
last-mem a [] = ground arith
last-mem a (b ∷ xs) = ground (arith, last-mem b xs)

pub but_last-mem : (q : Ptr) (l : List Ptr) → has q (but_last l) ≡ true → has q l ≡ true
but_last-mem q [] i = i
but_last-mem q (a ∷ []) i = cc
but_last-mem q (a ∷ b ∷ r) i = ground (arith, but_last-mem q (b ∷ r))

-- The last address stands nowhere before.
pub last-ne :
    (a : Ptr) (xs : List Ptr) (q : Ptr)
    → Distinct (a ∷ xs)
    → has q (but_last (a ∷ xs)) ≡ true
    → q ≢ last a xs
last-ne a [] q d i e = cc
last-ne a (b ∷ xs) q (out, d) i e = ground (arith, last-ne b xs q d, last-mem b xs)

-- A free address is not in a list of two nodes or more.
pub fresh-not_mem :
    (h : Heap) (q a b : Ptr) (r : List Ptr)
    → h q ≡ none
    → Linked h (a ∷ b ∷ r)
    → has q (a ∷ b ∷ r) ≡ false
fresh-not_mem h q a b [] free (n, p, k) = ground arith
fresh-not_mem h q a b (d ∷ r) free (n, p, k) = ground (arith, fresh-not_mem h q b d r free k)
