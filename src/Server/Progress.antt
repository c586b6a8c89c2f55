-- ===== src/Server/Progress.antt =====
-- What becomes of the descriptors in the pipe of a thread whose loop runs: TcpServer::notifyHandler of
-- src/tcpServer.cpp, called again and again.
use m_rpc.Prelude.{
  ℕ, zero, suc, ◌≡◌, refl, ap, ◌∙◌, Bool, true, false, some, List, [], ◌∷◌, ◌++◌, get_elem?, ◌==◌,
  if◌then◌else◌, arith,
}
use m_rpc.Server.{Thread, Server, exit_code, modify, handle, notify_handler, mem}

-- The descriptors of a pipe, each with whether bufferevent_socket_new will succeed for it.
abbrev pub Pending : Type 0
Pending = List (ℕ × Bool)

abbrev pub piped : Pending → List ℕ
piped [] = []
piped ((fd, made) ∷ xs) = fd ∷ piped xs

-- The connections after these, the newest first.
unfoldable pub connections : Pending → List ℕ → List ℕ
connections [] conns = conns
connections ((fd, made) ∷ xs) conns = connections xs (if made then fd ∷ conns else conns)

-- One call of `notifyHandler` for each of them.
pub notify_all : ℕ → Pending → Server → Server
notify_all i [] s = s
notify_all i ((fd, made) ∷ xs) s = notify_all i xs (notify_handler i made s)

pub get_elem?-modify :
    (i : ℕ) (f : Thread → Thread) (ts : List Thread) (t : Thread)
    → get_elem? ts i ≡ some t
    → get_elem? (modify i f ts) i ≡ some (f t)
unfolding modify
get_elem?-modify i f [] t e = cc
get_elem?-modify zero f (u ∷ ts) t e = cc
get_elem?-modify (suc i) f (u ∷ ts) t e = get_elem?-modify i f ts t e

-- One call, for a thread whose loop runs and whose pipe is not empty.
pub notify_handler-handle :
    (i : ℕ) (made : Bool) (s : Server) (t : Thread) (fd : ℕ) (rest : List ℕ)
    → get_elem? s.threads i ≡ some t
    → t.running ≡ true
    → t.pipe ≡ fd ∷ rest
    → notify_handler i made s ≡ handle i made fd rest s
unfolding notify_handler
notify_handler-handle i made s t fd rest there runs full =
    rw (there, full, runs, notify_handler) refl

pub handled :
    (i : ℕ) (made : Bool) (s : Server) (t : Thread) (fd : ℕ) (rest : List ℕ)
    → get_elem? s.threads i ≡ some t
    → (fd == exit_code) ≡ false
    → get_elem? (handle i made fd rest s).threads i
      ≡ some (record t { pipe = rest; conns = if made then fd ∷ t.conns else t.conns })
unfolding handle
handled i true s t fd rest there ne =
    rw (ne, handle)
      (get_elem?-modify i (λ t. record t { pipe = rest; conns = fd ∷ t.conns }) s.threads t there)
handled i false s t fd rest there ne =
    rw (ne, handle) (get_elem?-modify i (λ t. record t { pipe = rest }) s.threads t there)

-- A thread whose loop runs and whose pipe begins with descriptors that are not EXIT_CODE: a call
-- for each takes them all, and leaves what stood behind them.
takes :
    (i : ℕ) (xs : Pending) (rest : List ℕ) (s : Server) (t : Thread)
    → get_elem? s.threads i ≡ some t
    → t.running ≡ true
    → mem exit_code (piped xs) ≡ false
    → t.pipe ≡ piped xs ++ rest
    → get_elem? (notify_all i xs s).threads i
      ≡ some (record t { pipe = rest; conns = connections xs t.conns })
unfolding notify_all connections mem
takes i [] rest s t there runs out full = there ∙ ap (λ p. some (record t { pipe = p })) full
takes i ((fd, made) ∷ xs) rest s t there runs out full =
    let s' = notify_handler i made s in
    let left = piped xs ++ rest in
    let t' : Thread = record t { pipe = left; conns = if made then fd ∷ t.conns else t.conns } in
    let ne : (fd == exit_code) ≡ false = ground arith in
    let step : get_elem? s'.threads i ≡ some t' =
      ap (λ u. get_elem? u.threads i) (notify_handler-handle i made s t fd left there runs full)
      ∙ handled i made s t fd left there ne in
    takes i xs rest s' t' step runs (ground arith) refl

-- A thread whose loop has ended takes nothing.
notify_handler-stopped :
    (i : ℕ) (made : Bool) (s : Server) (t : Thread)
    → get_elem? s.threads i ≡ some t
    → t.running ≡ false
    → notify_handler i made s ≡ s
unfolding notify_handler
notify_handler-stopped i made s t there ended = rw (there, notify_handler) (go t.pipe)
  where
    go :
        (p : List ℕ)
        → (elim p [ [] ↦ s | fd ∷ rest ↦ if t.running then handle i made fd rest s else s ]) ≡ s
    go [] = refl
    go (fd ∷ rest) = rw ended refl

notify_all-stopped :
    (i : ℕ) (xs : Pending) (s : Server) (t : Thread)
    → get_elem? s.threads i ≡ some t
    → t.running ≡ false
    → notify_all i xs s ≡ s
unfolding notify_all
notify_all-stopped i [] s t there ended = refl
notify_all-stopped i ((fd, made) ∷ xs) s t there ended =
    ap (notify_all i xs) (notify_handler-stopped i made s t there ended)
    ∙ notify_all-stopped i xs s t there ended

notify_all-append :
    (i : ℕ) (xs ys : Pending) (s : Server)
    → notify_all i (xs ++ ys) s ≡ notify_all i ys (notify_all i xs s)
unfolding notify_all
notify_all-append i [] ys s = refl
notify_all-append i ((fd, made) ∷ xs) ys s = notify_all-append i xs ys (notify_handler i made s)

-- The call that reads EXIT_CODE.
leaves :
    (i : ℕ) (made : Bool) (s : Server) (t : Thread) (rest : List ℕ)
    → get_elem? s.threads i ≡ some t
    → t.running ≡ true
    → t.pipe ≡ exit_code ∷ rest
    → get_elem? (notify_handler i made s).threads i
      ≡ some (record t { pipe = rest; running = false })
unfolding handle
leaves i made s t rest there runs full =
    ap (λ u. get_elem? u.threads i)
      (notify_handler-handle i made s t exit_code rest there runs full)
    ∙ get_elem?-modify i (λ t. record t { pipe = rest; running = false }) s.threads t there

-- A thread whose loop runs and whose pipe has these descriptors and then EXIT_CODE. After one call
-- of `notifyHandler` for each, one for EXIT_CODE and any number of further calls, every descriptor
-- before EXIT_CODE for which a bufferevent could be made is a connection, the newest first; the
-- loop has ended; and what was written behind EXIT_CODE is still in the pipe.
pub notify_all-exit :
    (i : ℕ) (xs more : Pending) (made : Bool) (rest : List ℕ) (s : Server) (t : Thread)
    → get_elem? s.threads i ≡ some t
    → t.running ≡ true
    → mem exit_code (piped xs) ≡ false
    → t.pipe ≡ piped xs ++ exit_code ∷ rest
    → get_elem? (notify_all i (xs ++ (exit_code, made) ∷ more) s).threads i
      ≡ some (record t { pipe = rest; conns = connections xs t.conns; running = false })
unfolding notify_all
notify_all-exit i xs more made rest s t there runs out full =
    let s₁ = notify_all i xs s in
    let t₁ : Thread = record t { pipe = exit_code ∷ rest; conns = connections xs t.conns } in
    let t₂ : Thread = record t₁ { pipe = rest; running = false } in
    let ended =
      leaves i made s₁ t₁ rest (takes i xs (exit_code ∷ rest) s t there runs out full) runs refl in
    ap (λ u. get_elem? u.threads i)
      (notify_all-append i xs ((exit_code, made) ∷ more) s
        ∙ notify_all-stopped i more (notify_handler i made s₁) t₂ ended refl)
    ∙ ended
