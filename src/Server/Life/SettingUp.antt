-- ===== src/Server/Life/SettingUp.antt =====
-- What the constructor of a server of src/tcpServer.cpp makes for its threads.
use m_rpc.Prelude.{
  ℕ, ◌+◌, ◌≡◌, refl, ap, ◌∙◌, ◌⊎◌, inl, inr, List, [], ◌∷◌, length, ◌==◌, if◌then◌else◌, arith,
}
use m_rpc.Server.Counting.{count}
use m_rpc.Server.Life.{
  Ended, returned, threw, Resources, LibeventThread, SetupCalls, setup_thread, setup_all,
}

-- How many of the threads have this base.
unfoldable pub uses : ℕ → List LibeventThread → ℕ
uses b [] = 0
uses b (t ∷ ts) = (if b == t.base then 1 else 0) + uses b ts

-- What the set-up of some threads, in this order, adds.
pub record SetUp (ts : List LibeventThread) (before after : Resources) : Type 0 where
  pub bases : (b : ℕ) → count b after.bases ≡ uses b ts + count b before.bases
  pub pipes : length after.pipes ≡ length ts + length before.pipes
  pub listeners : after.listeners ≡ before.listeners

pub setup_thread-SetUp :
    (c : SetupCalls) (r r' : Resources) (t : LibeventThread)
    → setup_thread c r ≡ (returned t, r')
    → SetUp (t ∷ []) r r'
unfolding setup_thread uses count
setup_thread-SetUp c r r' t h = record {
  bases = λ b. ground arith;
  pipes = ground arith;
  listeners = ground arith;
}

pub Ended-cases : {A : Type 0} (e : Ended A) → (e ≡ threw) ⊎ ((a : A) × (e ≡ returned a))
Ended-cases threw = inl refl
Ended-cases (returned a) = inr (a, refl)

pub returned_ne : {A : Type 0} (a : A) → threw ≡ returned a → ⊥
returned_ne a h = cc

pub returned_eq : {A : Type 0} (a b : A) → returned a ≡ returned b → b ≡ a
returned_eq a b h = cc

pub setup_all-SetUp :
    (cs : List SetupCalls) (r : Resources) (ts : List LibeventThread)
    → (setup_all cs r).0 ≡ returned ts
    → SetUp ts r (setup_all cs r).1
unfolding setup_all uses
setup_all-SetUp [] r ts h =
    rw (returned_eq [] ts h)
      (record { bases = λ b. omega arith; pipes = omega arith; listeners = refl })
setup_all-SetUp (c ∷ cs) r ts h = elim (Ended-cases (setup_thread c r).0) [
  | inl thrown ↦ absurd (returned_ne ts (rw (thrown, setup_all) at h))
  | inr (t, made) ↦ elim (Ended-cases (setup_all cs (setup_thread c r).1).0) [
    | inl thrown ↦ absurd (returned_ne ts (rw (made, thrown, setup_all) at h))
    | inr (us, others) ↦
        let r' = (setup_thread c r).1 in
        let first = setup_thread-SetUp c r r' t (ap (λ o. (o, r')) made) in
        let later = setup_all-SetUp cs r' us others in
        rw (made, others, setup_all, returned_eq (t ∷ us) ts (rw (made, others, setup_all) at h))
          (record {
            bases = λ b. omega (arith, first.bases b, later.bases b);
            pipes = omega (arith, first.pipes, later.pipes);
            listeners = later.listeners ∙ first.listeners;
          })
  ]
]
