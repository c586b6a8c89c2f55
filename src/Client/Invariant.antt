-- ===== src/Client/Invariant.antt =====
-- What stays true of a client of src/tcpClient.cpp, whatever happens to it.
use m_rpc.Prelude.{
  ◌≤◌, ◌<◌, ◌==◌, ==_iff, ℕ, ◌+◌, ◌≡◌, ◌⊎◌, refl, inl, inr, Bool, true, false, Bool-cases, Run, ok,
  crash, ◌>>=◌, arith, List, [], ◌∷◌, ◌++◌, length, All, if◌then◌else◌,
}
use m_rpc.Server.{mem, remove_one}
use m_rpc.Server.Counting.{length-remove_one}
use m_rpc.Client.{
  Buffer, no_buffer, input_of, output_of, CallbackKind, read, wrote, connected, event, User,
  UserCall, Client, Ended, new_client, user_call, call_user, with_buffers, freed, free_bev,
  is_connected, on_connected, on_failed, set_read_callback, set_write_callback,
  set_connection_callback, set_event_callback, buffer_read_cb, buffer_write_cb, buffer_event_cb,
  with_bev, start_run, loopexit, quit,
}
use m_rpc.Client.Steps.{
  Use, sets_read, sets_write, sets_connect, sets_event, starts, quits, Uses, none_more, more,
  UsesMethods, Step, uses, reads, writes, happens, Reach, here, next,
}

-- NULL twice, or the input and the output buffer of one bufferevent.
abbrev pub Paired : Buffer → Buffer → Type 0
Paired r w = ((r ≡ no_buffer) × (w ≡ no_buffer)) ⊎ ((k : ℕ) × (r ≡ input_of k) × (w ≡ output_of k))

-- A call of the user's callbacks for data and for a new connection was given the input and the
-- output buffer of the bufferevent whose event it was; a call for any other event, NULL twice or the
-- input and the output buffer of one bufferevent.
pub IsFitting : UserCall → Type 0
IsFitting k = Fits k.kind
  where
    Fits : CallbackKind → Type 0
    Fits read = (k.given_read_buf ≡ input_of k.of_bev) × (k.given_write_buf ≡ output_of k.of_bev)
    Fits wrote = (k.given_read_buf ≡ input_of k.of_bev) × (k.given_write_buf ≡ output_of k.of_bev)
    Fits connected =
        (k.given_read_buf ≡ input_of k.of_bev) × (k.given_write_buf ≡ output_of k.of_bev)
    Fits (event bits) = Paired k.given_read_buf k.given_write_buf

-- The numbers fall, from below the first one on.
abbrev pub Falling : ℕ → List ℕ → Type 0
Falling n [] = Unit {0}
Falling n (x ∷ xs) = (x < n) × Falling x xs

Falling-mono : (n k : ℕ) (xs : List ℕ) → n ≤ k → Falling n xs → Falling k xs
Falling-mono n k [] le f = tt
Falling-mono n k (x ∷ xs) le f = (omega (arith, f.0), f.1)

Falling-mem : (k : ℕ) (xs : List ℕ) (n : ℕ) → n ≤ k → Falling n xs → mem k xs ≡ false
unfolding mem
Falling-mem k [] n le f = refl
Falling-mem k (x ∷ xs) n le f =
    let below : x < k = omega (arith, f.0) in
    let rest = Falling-mem k xs x (omega (arith, below)) f.1 in ground (arith, below, rest)

Falling-remove_one : (k n : ℕ) (xs : List ℕ) → Falling n xs → Falling n (remove_one k xs)
unfolding remove_one
Falling-remove_one k n [] f = tt
Falling-remove_one k n (x ∷ xs) f = elim (Bool-cases (k == x)) [
  | inl e ↦ rw e (Falling-mono x n xs (omega (arith, f.0)) f.1)
  | inr e ↦ rw e (f.0, Falling-remove_one k x xs f.1)
]

-- A number that was removed is gone.
pub mem-remove_one : (k n : ℕ) (xs : List ℕ) → Falling n xs → mem k (remove_one k xs) ≡ false
unfolding mem remove_one
mem-remove_one k n [] f = refl
mem-remove_one k n (x ∷ xs) f = elim (Bool-cases (k == x)) [
  | inl e ↦
      let same : k ≡ x = (==_iff k x).0 e in rw e (Falling-mem k xs x (omega (arith, same)) f.1)
  | inr e ↦ rw (e, e) (mem-remove_one k x xs f.1)
]

-- Every bufferevent made was freed or is live, no two live ones are the same, the event base is
-- there, and the buffers are of one bufferevent.
pub record Sound (c : Client) : Type 0 where
  pub balanced : c.made ≡ c.released + length c.live
  pub falling : Falling (c.made + 1) c.live
  pub base_there : c.base ≡ true
  pub paired : Paired c.read_buf c.write_buf
  pub calls : All IsFitting c.callbacks

All-snoc :
    (k : UserCall) (ks : List UserCall)
    → All IsFitting ks
    → IsFitting k
    → All IsFitting (ks ++ k ∷ [])
All-snoc k [] h fit = (fit, tt)
All-snoc k (j ∷ ks) h fit = (h.0, All-snoc k ks h.1 fit)

pub ok_eq : {A : Type 0} (c d : A) → ◌≡◌ {A = Run A} (ok c) (ok d) → d ≡ c
ok_eq c d h = cc

pub no_crash : {A : Type 0} (d : A) → ◌≡◌ {A = Run A} crash (ok d) → ⊥
no_crash d h = cc

bind-ok :
    {A B : Type 0} (r : Run A) (f : A → Run B) (b : B)
    → (r >>= f) ≡ ok b
    → (a : A) × (r ≡ ok a) × (f a ≡ ok b)
bind-ok (ok a) f b h = (a, refl, h)
bind-ok crash f b h = absurd (no_crash b h)
bind-ok Run.out_of_fuel f b h = cc

-- Freeing that returns was given a live bufferevent.
pub free_bev-ok :
    (bev : ℕ) (c d : Client) → free_bev bev c ≡ ok d → (mem bev c.live ≡ true) × (d ≡ freed bev c)
unfolding free_bev
free_bev-ok bev c d h = elim (Bool-cases (mem bev c.live)) [
  | inl e ↦ (e, ok_eq (freed bev c) d (rw (e, free_bev) at h))
  | inr e ↦ absurd (no_crash d (rw (e, free_bev) at h))
]

free_bev-Sound : (bev : ℕ) (c d : Client) → free_bev bev c ≡ ok d → Sound c → Sound d
free_bev-Sound bev c d h s =
    let (there, same) = free_bev-ok bev c d h in
    rw same (record {
      balanced = omega (arith, s.balanced, length-remove_one bev c.live there);
      falling = Falling-remove_one bev (c.made + 1) c.live s.falling;
      base_there = s.base_there;
      paired = s.paired;
      calls = s.calls;
    })

with_bev-Sound : (c : Client) → Sound c → Sound (with_bev c)
with_bev-Sound c s = record {
  balanced = omega (arith, s.balanced);
  falling = (omega arith, s.falling);
  base_there = s.base_there;
  paired = s.paired;
  calls = s.calls;
}

pair_eq :
    (q : Ended) (e : Client) (r : Ended) (d : Client)
    → ◌≡◌ {A = Run (Ended × Client)} (ok (q, e)) (ok (r, d))
    → d ≡ e
pair_eq q e r d k = cc

start_run-Sound :
    (address made_it begun : Bool) (r : Ended) (c d : Client)
    → start_run address made_it begun c ≡ ok (r, d)
    → Sound c
    → Sound d
unfolding start_run
start_run-Sound true true true r c d h s = rw (pair_eq _ _ r d h) (with_bev-Sound c s)
start_run-Sound true true false r c d h s =
    let (e, freeing, same) = bind-ok (free_bev (c.made + 1) (with_bev c)) _ (r, d) h in
    free_bev-Sound (c.made + 1) (with_bev c) d (rw (pair_eq _ e r d same) freeing)
      (with_bev-Sound c s)
start_run-Sound true false begun r c d h s = rw (pair_eq _ _ r d h) (record {
  balanced = s.balanced;
  falling = s.falling;
  base_there = s.base_there;
  paired = s.paired;
  calls = s.calls;
})
start_run-Sound false made_it begun r c d h s = rw (pair_eq _ _ r d h) s

if_ok : (b : Bool) (c d : Client) → (if b then ok c else crash) ≡ ok d → d ≡ c
if_ok true c d h = ok_eq c d h
if_ok false c d h = absurd (no_crash d h)

loopexit-ok : (c d : Client) → loopexit c ≡ ok d → d ≡ c
unfolding loopexit
loopexit-ok c d h = if_ok c.base c d h

quit-Sound : (c d : Client) → quit c ≡ ok d → Sound c → Sound d
unfolding quit
quit-Sound c d h s =
    let (e, freeing, rest) = bind-ok (free_bev c.bev c) loopexit d h in
    rw (loopexit-ok e d rest) (free_bev-Sound c.bev c e freeing s)

-- A callback set does not touch the rest.
set-Sound :
    (c : Client) (r w n e : Bool)
    → Sound c
    → Sound (record c { has_read_cb = r; has_write_cb = w; has_connect_cb = n; has_event_cb = e })
set-Sound c r w n e s = record {
  balanced = s.balanced;
  falling = s.falling;
  base_there = s.base_there;
  paired = s.paired;
  calls = s.calls;
}

Use-Sound : {c d : Client} → Use c d → Sound c → Sound d
unfolding set_read_callback set_write_callback set_connection_callback set_event_callback
Use-Sound {c} sets_read s = set-Sound c true c.has_write_cb c.has_connect_cb c.has_event_cb s
Use-Sound {c} sets_write s = set-Sound c c.has_read_cb true c.has_connect_cb c.has_event_cb s
Use-Sound {c} sets_connect s = set-Sound c c.has_read_cb c.has_write_cb true c.has_event_cb s
Use-Sound {c} sets_event s = set-Sound c c.has_read_cb c.has_write_cb c.has_connect_cb true s
Use-Sound {c} {d} (starts address made_it begun r h) s =
    start_run-Sound address made_it begun r c d h s
Use-Sound {c} {d} (quits h) s = quit-Sound c d h s

Uses-Sound : {c d : Client} → Uses c d → Sound c → Sound d
Uses-Sound none_more s = s
Uses-Sound (more r u) s = Use-Sound u (Uses-Sound r s)

module _ (user : User) (methods : UsesMethods user) where
  call_user-Sound :
      (there : Bool) (k : CallbackKind) (bev : ℕ) (c d : Client)
      → IsFitting (user_call k bev c)
      → call_user user there k bev c ≡ ok d
      → Sound c
      → Sound d
  unfolding call_user
  call_user-Sound true k bev c d fit h s = Uses-Sound (methods _ _ d h) (record {
    balanced = s.balanced;
    falling = s.falling;
    base_there = s.base_there;
    paired = s.paired;
    calls = All-snoc _ c.callbacks s.calls fit;
  })
  call_user-Sound false k bev c d fit h s = rw (ok_eq c d h) s

  with_buffers-Sound :
      (bev fd : ℕ) (c : Client) → Sound c → Sound (with_buffers bev (record c { fd = fd }))
  with_buffers-Sound bev fd c s = record {
    balanced = s.balanced;
    falling = s.falling;
    base_there = s.base_there;
    paired = inr (bev, refl, refl);
    calls = s.calls;
  }

  on_failed-Sound :
      (bev bits : ℕ) (c d : Client) → on_failed user bev bits c ≡ ok d → Sound c → Sound d
  unfolding on_failed IsFitting
  on_failed-Sound bev bits c d h s =
      let (e, called, freeing) =
        bind-ok (call_user user c.has_event_cb (event bits) bev c) (free_bev bev) d h in
      free_bev-Sound bev e d freeing
        (call_user-Sound c.has_event_cb (event bits) bev c e s.paired called s)

  Step-Sound : {c d : Client} → Step user c d → Sound c → Sound d
  unfolding buffer_read_cb buffer_write_cb buffer_event_cb on_connected IsFitting
  Step-Sound (uses u) s = Use-Sound u s
  Step-Sound {c} {d} (reads bev live h) s =
      call_user-Sound c.has_read_cb read bev (with_buffers bev c) d (refl, refl) h
        (with_buffers-Sound bev c.fd c s)
  Step-Sound {c} {d} (writes bev live h) s =
      call_user-Sound c.has_write_cb wrote bev (with_buffers bev c) d (refl, refl) h
        (with_buffers-Sound bev c.fd c s)
  Step-Sound {c} {d} (happens bev e new_fd live h) s = elim (Bool-cases (is_connected e)) [
    | inl yes_connected ↦
        call_user-Sound c.has_connect_cb connected bev (with_buffers bev (record c { fd = new_fd }))
          d (refl, refl) (rw (yes_connected, buffer_event_cb) at h)
          (with_buffers-Sound bev new_fd c s)
    | inr not_connected ↦
        on_failed-Sound bev e.bits c d (rw (not_connected, buffer_event_cb) at h) s
  ]

  pub Reach-Sound : {c : Client} → Reach user new_client c → Sound c
  unfolding new_client
  Reach-Sound here = record {
    balanced = refl;
    base_there = refl;
    falling = tt;
    paired = inl (refl, refl);
    calls = tt;
  }
  Reach-Sound (next r step) = Step-Sound step (Reach-Sound r)
