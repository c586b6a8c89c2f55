-- ===== src/Server/Counting.antt =====
-- How often a number stands in a list: the accounts of descriptors and event bases of a server.
use m_rpc.Prelude.{ℕ, ◌+◌, ◌≡◌, refl, true, List, [], ◌∷◌, ◌++◌, length, ◌==◌, if◌then◌else◌, arith}
use m_rpc.Server.{remove_one, mem}

unfoldable pub count : ℕ → List ℕ → ℕ
count v [] = 0
count v (x ∷ xs) = (if v == x then 1 else 0) + count v xs

pub count-append : (v : ℕ) (xs ys : List ℕ) → count v (xs ++ ys) ≡ count v xs + count v ys
unfolding count
count-append v [] ys = omega arith
count-append v (x ∷ xs) ys = omega (arith, count-append v xs ys)

pub count-remove_one :
    (v k : ℕ) (xs : List ℕ)
    → mem k xs ≡ true
    → count v (remove_one k xs) + (if v == k then 1 else 0) ≡ count v xs
unfolding count remove_one mem
count-remove_one v k [] h = cc
count-remove_one v k (x ∷ xs) h = ground (arith, count-remove_one v k xs)

pub count_cons : (v x : ℕ) (xs : List ℕ) → count v (x ∷ xs) ≡ (if v == x then 1 else 0) + count v xs
unfolding count
count_cons v x xs = refl

pub length-remove_one :
    (k : ℕ) (xs : List ℕ) → mem k xs ≡ true → length (remove_one k xs) + 1 ≡ length xs
unfolding mem remove_one
length-remove_one k [] h = cc
length-remove_one k (x ∷ xs) h = ground (arith, length-remove_one k xs)
