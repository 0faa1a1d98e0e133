-- ===== src/Session.antt =====
-- include/servd/interfaces/Session.hpp, and the interface of include/servd/interfaces/ISessionStore.hpp.
pub mod InMemory
mod Tests
use servd.Base.{ℕ, Bool, true, false, ◌≡◌, ◌≢◌, List, [], replicate}

pub record Session : Type 0 where
  pub id : ℕ
  pub authenticated : Bool
  pub has_aes_key : Bool
  pub aes_key : List ℕ
  pub user_identifier : List ℕ

-- explicit Session(uint64_t id)
unfoldable pub make_session : ℕ → Session
make_session id = record {
  id = id;
  authenticated = false;
  has_aes_key = false;
  aes_key = replicate 32 0;
  user_identifier = [];
}

unfoldable pub set_authenticated : Session → Bool → List ℕ → Session
set_authenticated s state user = record s { authenticated = state; user_identifier = user }

unfoldable pub set_aes_key : Session → List ℕ → Session
set_aes_key s key = record s { aes_key = key; has_aes_key = true }

-- A session store, over its own state. `IsValid` is the invariant that the laws need.
pub record ISessionStore : Type 1 where
  pub State : Type 0
  pub IsValid : State → Type 0
  pub get_or_create : State → ℕ → Session × State
  pub save : State → Session → State
  pub get_or_create-IsValid : (s : State) (k : ℕ) → IsValid s → IsValid (get_or_create s k).1
  pub save-IsValid : (s : State) (x : Session) → IsValid s → IsValid (save s x)
  pub id-get_or_create : (s : State) (k : ℕ) → IsValid s → (get_or_create s k).0.id ≡ k
  pub get-save_self : (s : State) (x : Session) → (get_or_create (save s x) x.id).0 ≡ x
  pub get-save_ne :
      (s : State) (x : Session) (k : ℕ)
      → x.id ≢ k
      → (get_or_create (save s x) k).0 ≡ (get_or_create s k).0
  pub get-get :
      (s : State) (j k : ℕ) → (get_or_create (get_or_create s j).1 k).0 ≡ (get_or_create s k).0
