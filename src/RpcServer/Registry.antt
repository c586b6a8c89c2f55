-- ===== src/RpcServer/Registry.antt =====
-- The table of services that registerService of src/rpcServer.cpp fills.
use m_rpc.Prelude.{
  ℕ, ◌+◌, ◌≤◌, ◌≡◌, ◌≢◌, refl, sym, ap, ◌∙◌, inl, inr, Bool, true, false, Bool-cases, Option, none,
  some, List, [], ◌∷◌, ◌==◌, ==_refl, ==_iff, if◌then◌else◌, arith,
}
use m_rpc.Endian.{Bytes}
use m_rpc.Channel.{bytes_eq, find_service}
use m_rpc.Server.Life.{TcpServer}
use m_rpc.RpcServer.{RpcServer, new_rpc_server, erase_service, register_service}

bytes_eq_refl : (xs : Bytes) → bytes_eq xs xs ≡ true
unfolding bytes_eq
bytes_eq_refl [] = refl
bytes_eq_refl (x ∷ xs) = rw (==_refl x) (bytes_eq_refl xs)

bytes_eq→≡ : (xs ys : Bytes) → bytes_eq xs ys ≡ true → xs ≡ ys
unfolding bytes_eq
bytes_eq→≡ [] [] h = refl
bytes_eq→≡ [] (y ∷ ys) h = cc
bytes_eq→≡ (x ∷ xs) [] h = cc
bytes_eq→≡ (x ∷ xs) (y ∷ ys) h = elim (Bool-cases (x == y)) [
  | inl e ↦ rw ((==_iff x y).0 e) (ap (λ r. y ∷ r) (bytes_eq→≡ xs ys (rw e at h)))
  | inr e ↦ cc
]

ne→bytes_eq_false : (xs ys : Bytes) → xs ≢ ys → bytes_eq xs ys ≡ false
ne→bytes_eq_false xs ys ne = elim (Bool-cases (bytes_eq xs ys)) [
  | inl e ↦ absurd (ne (bytes_eq→≡ xs ys e))
  | inr e ↦ e
]

test_clash : ◌≡◌ {A = Bool} false true → ⊥
test_clash h = cc

bytes_eq_false→ne : (xs ys : Bytes) → bytes_eq xs ys ≡ false → xs ≢ ys
bytes_eq_false→ne xs ys other h =
    test_clash (sym other ∙ ap (bytes_eq xs) (sym h) ∙ bytes_eq_refl xs)

find_service-erase :
    (j k : Bytes) (m : List (Bytes × ℕ))
    → j ≢ k
    → find_service j (erase_service k m) ≡ find_service j m
unfolding find_service erase_service
find_service-erase j k [] ne = refl
find_service-erase j k ((i, v) ∷ m) ne = elim (Bool-cases (bytes_eq k i)) [
  | inl e ↦
      let away : bytes_eq j i ≡ false =
        ap (bytes_eq j) (sym (bytes_eq→≡ k i e)) ∙ ne→bytes_eq_false j k ne in
      rw (e, away) (find_service-erase j k m ne)
  | inr e ↦ rw (e, find_service-erase j k m ne) refl
]

-- How many entries of the table have the name.
pub entries : Bytes → List (Bytes × ℕ) → ℕ
entries k [] = 0
entries k ((j, v) ∷ m) = (if bytes_eq k j then 1 else 0) + entries k m

entries-erase_self : (k : Bytes) (m : List (Bytes × ℕ)) → entries k (erase_service k m) ≡ 0
unfolding entries erase_service
entries-erase_self k [] = refl
entries-erase_self k ((j, v) ∷ m) = elim (Bool-cases (bytes_eq k j)) [
  | inl e ↦ rw e (entries-erase_self k m)
  | inr e ↦ rw (e, e) (omega (arith, entries-erase_self k m))
]

entries-erase : (n k : Bytes) (m : List (Bytes × ℕ)) → entries n (erase_service k m) ≤ entries n m
unfolding entries erase_service
entries-erase n k [] = omega arith
entries-erase n k ((j, v) ∷ m) = elim (Bool-cases (bytes_eq k j)) [
  | inl e ↦ rw e (omega (arith, entries-erase n k m))
  | inr e ↦ rw e (omega (arith, entries-erase n k m))
]

-- Registrations one after the other: each a name with a service, or with NULL, which is 0.
unfoldable pub register_all : List (Bytes × ℕ) → RpcServer → RpcServer
register_all [] s = s
register_all ((name, service) ∷ rs) s = register_all rs (register_service name service s)

-- The last service that is not NULL among those registered under the name, and `found` without any.
unfoldable pub last_registered : Bytes → Option ℕ → List (Bytes × ℕ) → Option ℕ
last_registered k found [] = found
last_registered k found ((name, service) ∷ rs) =
    last_registered k
      (if service == 0 then found else if bytes_eq k name then some service else found) rs

find_service-register :
    (k name : Bytes) (service : ℕ) (s : RpcServer)
    → find_service k (register_service name service s).services ≡ (
        if service == 0
        then find_service k s.services
        else if bytes_eq k name
        then some service
        else find_service k s.services)
unfolding register_service find_service
find_service-register k name service s = elim (Bool-cases (service == 0)) [
  | inl e ↦ rw (e, register_service) refl
  | inr e ↦
      rw (e, register_service)
        (elim (Bool-cases (bytes_eq k name)) [
          | inl same ↦ rw same refl
          | inr other ↦
              rw other (find_service-erase k name s.services (bytes_eq_false→ne k name other))
        ])
]

register-entries :
    (k name : Bytes) (service : ℕ) (s : RpcServer)
    → entries k s.services ≤ 1
    → entries k (register_service name service s).services ≤ 1
unfolding register_service entries
register-entries k name service s h = elim (Bool-cases (service == 0)) [
  | inl e ↦ rw (e, register_service) h
  | inr e ↦
      rw (e, register_service)
        (elim (Bool-cases (bytes_eq k name)) [
          | inl same ↦
              rw (same, ← bytes_eq→≡ k name same) (omega (arith, entries-erase_self k s.services))
          | inr other ↦ rw other (omega (arith, h, entries-erase k name s.services))
        ])
]

register_all-find :
    (k : Bytes) (rs : List (Bytes × ℕ)) (s : RpcServer)
    → find_service k (register_all rs s).services ≡ last_registered k (find_service k s.services) rs
unfolding register_all last_registered
register_all-find k [] s = refl
register_all-find k ((name, service) ∷ rs) s =
    register_all-find k rs (register_service name service s)
    ∙ ap (λ o. last_registered k o rs) (find_service-register k name service s)

register_all-entries :
    (k : Bytes) (rs : List (Bytes × ℕ)) (s : RpcServer)
    → entries k s.services ≤ 1
    → entries k (register_all rs s).services ≤ 1
unfolding register_all
register_all-entries k [] s h = h
register_all-entries k ((name, service) ∷ rs) s h =
    register_all-entries k rs (register_service name service s)
      (register-entries k name service s h)

-- After any sequence of registrations on a new RpcServer, what is found under a name is the last
-- service other than NULL that was registered under it, and nothing if there was none; the table
-- has at most one entry to a name.
pub register_all_lem :
    (k : Bytes) (rs : List (Bytes × ℕ)) (server : TcpServer)
    → (find_service k (register_all rs (new_rpc_server server)).services
        ≡ last_registered k none rs)
      × (entries k (register_all rs (new_rpc_server server)).services ≤ 1)
unfolding new_rpc_server find_service entries
register_all_lem k rs server = (
  register_all-find k rs (new_rpc_server server),
  register_all-entries k rs (new_rpc_server server) (omega arith),
)
