-- ===== src/Exec.antt =====
-- Coroutines of the engine that serve one request: they change the session that they hold by
-- reference, write to a peer, draw random bytes, and may throw. What was written before an
-- exception stays written, so the state comes back beside the error too.
pub mod Laws
use servd.Base.{ℕ, ◌+◌, ◌≡◌, ◌≤◌, ℤ, pos, pos_part, List, ◌++◌, length, Map}
use servd.Result.{Error, Result, ok, err}
use servd.Session.{Session}
use servd.Crypto.{Botan}
use servd.Context.{represented}
use servd.Context.Bag.{Locals}

-- A connected socket, or a UDP socket with an address.
pub data Peer : Type 0 where
  to_fd : ℕ → Peer
  to_addr : ℕ → ℕ → Peer

-- What the kernel took of one buffer.
pub record Write : Type 0 where
  pub peer : Peer
  pub accepted : List ℕ

-- The surroundings: Botan, the bytes of the k-th `Rng::gen`, and the completion of the k-th write
-- of a request, given the size of its buffer.
pub record Env : Type 0 where
  pub botan : Botan
  pub random : ℕ → ℕ → List ℕ
  pub send_result : ℕ → ℕ → ℤ

-- Every write is taken whole.
abbrev pub SendsAll : Env → Type 0
SendsAll env = (k n : ℕ) → env.send_result k n ≡ pos n

-- getrandom fills the whole buffer.
abbrev pub FillsRandom : Env → Type 0
FillsRandom env = (k n : ℕ) → length (env.random k n) ≡ n

-- A request: its session, the property bag of its context, the log of writes and the draws of
-- randomness; and what its server messages read, the session table and the session that the store
-- has for each id.
pub record Io : Type 0 where
  pub session : Session
  pub locals : Locals represented
  pub wrote : List Write
  pub draws : ℕ
  pub sessions : Map ℕ
  pub stored : ℕ → Session

abbrev pub Exec : Type 0 → Type 0
Exec A = Io → Result A × Io

abbrev pub pure : {A : Type 0} → A → Exec A
pure a io = (ok a, io)

abbrev pub lift : {A : Type 0} → Result A → Exec A
lift r io = (r, io)

abbrev pub continue : {A B : Type 0} → Result A → (A → Exec B) → Exec B
continue (ok a) f io = f a io
continue (err e) f io = (err e, io)

infixl 5 ◌>>=◌ ◌>>◌
abbrev pub ◌>>=◌ : {A B : Type 0} → Exec A → (A → Exec B) → Exec B
◌>>=◌ m f io = let (r, io') = m io in continue r f io'

abbrev pub ◌>>◌ : {A B : Type 0} → Exec A → Exec B → Exec B
m >> n = m >>= λ _. n

abbrev pub get_session : Exec Session
get_session io = (ok io.session, io)

abbrev pub put_session : Session → Exec (Unit {0})
put_session s io = (ok tt, record io { session = s })

abbrev pub get_locals : Exec (Locals represented)
get_locals io = (ok io.locals, io)

-- The number of the next draw of randomness.
abbrev pub draw : Exec ℕ
draw io = (ok io.draws, record io { draws = io.draws + 1 })
