-- ===== src/Channel/Unique.antt =====
-- The outstanding calls of src/rpcChannel.cpp: one to an identifier, and their response objects.
use m_rpc.Prelude.{
  ℕ, ◌+◌, ◌≡◌, inl, inr, refl, sym, ap, Bool-cases, Option, none, some, List, [], ◌∷◌, ◌==◌, ==_iff,
  if◌then◌else◌, arith,
}
use m_rpc.Channel.{Ptr, OutstandingCall, find, erase}

-- How often an object is the response of an outstanding call.
unfoldable pub waits : Ptr → List (ℕ × OutstandingCall) → ℕ
waits v [] = 0
waits v ((id, out) ∷ m) = (if v == out.response then 1 else 0) + waits v m

-- Every key once.
abbrev pub IsUnique : List (ℕ × OutstandingCall) → Type 0
IsUnique [] = Unit {0}
IsUnique ((id, out) ∷ m) = (find id m ≡ none) × IsUnique m

pub erase-none : (k : ℕ) (m : List (ℕ × OutstandingCall)) → find k m ≡ none → erase k m ≡ m
unfolding find erase
erase-none k [] h = refl
erase-none k ((j, out) ∷ m) h = elim (Bool-cases (k == j)) [
  | inl e ↦ absurd (taken (rw e at h))
  | inr e ↦ rw e (ap (λ r. (j, out) ∷ r) (erase-none k m (rw e at h)))
]
  where
    taken : ◌≡◌ {A = Option OutstandingCall} (some out) none → ⊥
    taken k = cc

some_eq : (a b : OutstandingCall) → ◌≡◌ {A = Option OutstandingCall} (some a) (some b) → a ≡ b
some_eq a b h = cc

pub find-erase-none :
    (j k : ℕ) (m : List (ℕ × OutstandingCall)) → find j m ≡ none → find j (erase k m) ≡ none
unfolding find erase
find-erase-none j k [] h = refl
find-erase-none j k ((i, out) ∷ m) h = ground (arith, find-erase-none j k m)

pub erase-IsUnique : (k : ℕ) (m : List (ℕ × OutstandingCall)) → IsUnique m → IsUnique (erase k m)
unfolding erase
erase-IsUnique k [] u = tt
erase-IsUnique k ((j, out) ∷ m) (new, u) = elim (Bool-cases (k == j)) [
  | inl e ↦ rw e (erase-IsUnique k m u)
  | inr e ↦ rw e (find-erase-none j k m new, erase-IsUnique k m u)
]

-- Erasing the call of an identifier takes its response out once.
pub waits-erase :
    (v k : ℕ) (out : OutstandingCall) (m : List (ℕ × OutstandingCall))
    → IsUnique m
    → find k m ≡ some out
    → waits v (erase k m) + (if v == out.response then 1 else 0) ≡ waits v m
unfolding waits erase find
waits-erase v k out [] u h = cc
waits-erase v k out ((j, o) ∷ m) (new, u) h = elim (Bool-cases (k == j)) [
  | inl e ↦
      let same : o ≡ out = some_eq o out (rw e at h) in
      let gone : erase k m ≡ m = erase-none k m (rw ((==_iff k j).0 e) new) in
      rw (e, gone, sym same) (omega arith)
  | inr e ↦ rw e (omega (arith, waits-erase v k out m u (rw e at h)))
]
