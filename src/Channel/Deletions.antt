-- ===== src/Channel/Deletions.antt =====
-- The objects that a channel of src/rpcChannel.cpp deletes.
use m_rpc.Prelude.{
  ℕ, ◌+◌, ◌≡◌, ◌≢◌, inl, inr, refl, ◌∙◌, Bool, true, false, Bool-cases, List, [], ◌∷◌, ◌++◌, ◌==◌,
  ==_iff, ne→==_false, if◌then◌else◌, arith,
}
use m_rpc.Endian.{Bytes}
use m_rpc.Channel.{
  Ptr, ServiceClass, OutstandingCall, Effect, parsed, ran, deleted, closed, called, delete_all,
}
use m_rpc.Channel.Unique.{waits}

module _ (sc : ServiceClass) where
  -- How often an object was deleted.
  unfoldable pub deletions : Ptr → List (Effect sc) → ℕ
  deletions v [] = 0
  deletions v (deleted p ∷ es) = (if v == p then 1 else 0) + deletions v es
  deletions v (parsed p b ∷ es) = deletions v es
  deletions v (ran p ∷ es) = deletions v es
  deletions v (closed p ∷ es) = deletions v es
  deletions v (called s f r i ∷ es) = deletions v es

  pub deletions-append :
      (v : ℕ) (xs ys : List (Effect sc)) → deletions v (xs ++ ys) ≡ deletions v xs + deletions v ys
  unfolding deletions
  deletions-append v [] ys = omega arith
  deletions-append v (deleted p ∷ es) ys = omega (arith, deletions-append v es ys)
  deletions-append v (parsed p b ∷ es) ys = deletions-append v es ys
  deletions-append v (ran p ∷ es) ys = deletions-append v es ys
  deletions-append v (closed p ∷ es) ys = deletions-append v es ys
  deletions-append v (called s f r i ∷ es) ys = deletions-append v es ys

  pub deletions-delete_all :
      (v : ℕ) (m : List (ℕ × OutstandingCall)) → v ≢ 0 → deletions v (delete_all sc m) ≡ waits v m
  unfolding deletions delete_all waits
  deletions-delete_all v [] ne = refl
  deletions-delete_all v ((id, out) ∷ m) ne = elim (Bool-cases (out.response == 0)) [
    | inl e ↦
        let missing : (v == out.response) ≡ false =
          ne→==_false v out.response (λ h. ne (h ∙ (==_iff out.response 0).0 e)) in
        rw (e, missing, closing v out.done m) (omega (arith, deletions-delete_all v m ne))
    | inr e ↦ rw (e, closing v out.done m, deletions-delete_all v m ne) refl
  ]
    where
      closing :
          (v d : ℕ) (m : List (ℕ × OutstandingCall))
          → deletions v ((if d == 0 then [] else closed d ∷ []) ++ delete_all sc m)
            ≡ deletions v (delete_all sc m)
      closing v d m = elim (Bool-cases (d == 0)) [ inl e ↦ rw e refl | inr e ↦ rw e refl ]

  pub deletions-finished :
      (v r : ℕ) (bytes : Bytes) (answered : Bool) (d : ℕ)
      → deletions v (
          (if answered then parsed r bytes ∷ [] else [])
          ++ ((if d == 0 then [] else ran d ∷ []) ++ deleted r ∷ []))
        ≡ (if v == r then 1 else 0)
  unfolding deletions
  deletions-finished v r bytes true d = elim (Bool-cases (d == 0)) [
    | inl e ↦ rw e (omega arith)
    | inr e ↦ rw e (omega arith)
  ]
  deletions-finished v r bytes false d = elim (Bool-cases (d == 0)) [
    | inl e ↦ rw e (omega arith)
    | inr e ↦ rw e (omega arith)
  ]
