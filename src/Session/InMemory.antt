-- ===== src/Session/InMemory.antt =====
-- include/servd/store/InMemorySessionStore.hpp: the default session store.
use servd.Base.{
  ℕ, ◌≡◌, ◌≢◌, inl, inr, Option, none, some, [], arith, ◌==◌, if◌then◌else◌, Map, lookup, insert,
  lookup-insert, Option-cases, ==_refl,
}
use servd.Session.{Session, make_session, ISessionStore}

-- The two outcomes of `store_.find`.
found_or_new : Map Session → ℕ → Option Session → Session × Map Session
found_or_new store session_id none =
    let new_session = make_session session_id in (new_session, insert session_id new_session store)
found_or_new store session_id (some found) = (found, store)

unfoldable pub get_or_create : Map Session → ℕ → Session × Map Session
unfolding found_or_new
get_or_create store session_id = found_or_new store session_id (lookup session_id store)

unfoldable pub save : Map Session → Session → Map Session
save store session = insert session.id session store

-- Every session is stored under its own id.
pub record IsKeyed (store : Map Session) : Type 0 where
  pub at_id : (k : ℕ) (x : Session) → lookup k store ≡ some x → x.id ≡ k

pub IsKeyed-nil : IsKeyed []
unfolding lookup
IsKeyed-nil = record { at_id = λ k x h. cc }

-- What a client sees: a session for every id, fresh where none is stored.
abbrev pub view : Map Session → ℕ → Session
view store k = elim (lookup k store) [ none ↦ make_session k | some x ↦ x ]

insert-IsKeyed : (store : Map Session) (x : Session) → IsKeyed store → IsKeyed (insert x.id x store)
insert-IsKeyed store x v = record {
  at_id = λ k y h. ground (arith, lookup-insert k x.id x store, v.at_id k y);
}

pub get_or_create-view : (store : Map Session) (k : ℕ) → (get_or_create store k).0 ≡ view store k
unfolding get_or_create
get_or_create-view store k = ground arith

view-get_or_create :
    (store : Map Session) (j k : ℕ) → view (get_or_create store j).1 k ≡ view store k
unfolding get_or_create make_session
view-get_or_create store j k = elim (Option-cases (lookup j store)) [
  | inl e ↦ rw (e, get_or_create) (ground (arith, lookup-insert k j (make_session j) store))
  | inr (x, e) ↦ rw (e, get_or_create)
]

view-save :
    (store : Map Session) (x : Session) (k : ℕ)
    → view (save store x) k ≡ (if x.id == k then x else view store k)
unfolding save
view-save store x k = ground (arith, lookup-insert k x.id x store)

pub get_or_create-IsKeyed :
    (store : Map Session) (k : ℕ) → IsKeyed store → IsKeyed (get_or_create store k).1
unfolding get_or_create make_session
get_or_create-IsKeyed store k v = elim (Option-cases (lookup k store)) [
  | inl e ↦ rw (e, get_or_create) (insert-IsKeyed store (make_session k) v)
  | inr (x, e) ↦ rw (e, get_or_create) v
]

pub save-IsKeyed : (store : Map Session) (x : Session) → IsKeyed store → IsKeyed (save store x)
unfolding save
save-IsKeyed = insert-IsKeyed

pub id-get_or_create :
    (store : Map Session) (k : ℕ) → IsKeyed store → (get_or_create store k).0.id ≡ k
unfolding get_or_create make_session
id-get_or_create store k v = elim (Option-cases (lookup k store)) [
  | inl e ↦ rw (e, get_or_create)
  | inr (x, e) ↦ rw (e, get_or_create) (v.at_id k x e)
]

-- The in-memory store refines a total map from ids to sessions: reading an id returns its session
-- (a fresh one if none was saved) and changes no session, and saving replaces the session of its
-- own id only; in a store where every session lies under its id, both keep it so, and the session
-- that is read has the id that was asked for.
pub InMemory-refines :
    (store : Map Session)
    → IsKeyed store
    → ((k : ℕ)
        → ((get_or_create store k).0 ≡ view store k)
          × ((get_or_create store k).0.id ≡ k)
          × IsKeyed (get_or_create store k).1
          × ((j : ℕ) → view (get_or_create store k).1 j ≡ view store j))
      × ((x : Session)
          → IsKeyed (save store x)
            × ((j : ℕ) → view (save store x) j ≡ (if x.id == j then x else view store j)))
InMemory-refines store v = (
  λ k. (
    get_or_create-view store k,
    id-get_or_create store k v,
    get_or_create-IsKeyed store k v,
    view-get_or_create store k,
  ),
  λ x. (save-IsKeyed store x v, view-save store x),
)

pub get-save_self : (s : Map Session) (x : Session) → (get_or_create (save s x) x.id).0 ≡ x
get-save_self s x = rw (get_or_create-view, view-save s x x.id, ==_refl)

pub get-save_ne :
    (s : Map Session) (x : Session) (k : ℕ)
    → x.id ≢ k
    → (get_or_create (save s x) k).0 ≡ (get_or_create s k).0
get-save_ne s x k h =
    rw (get_or_create-view (save s x) k, get_or_create-view s k, view-save s x k) (ground arith)

pub get-get :
    (s : Map Session) (j k : ℕ) → (get_or_create (get_or_create s j).1 k).0 ≡ (get_or_create s k).0
get-get s j k =
    rw
      (get_or_create-view (get_or_create s j).1 k, get_or_create-view s k, view-get_or_create s j k)

abbrev pub in_memory : ISessionStore
in_memory = record {
  State = Map Session;
  IsValid = IsKeyed;
  get_or_create = get_or_create;
  save = save;
  get_or_create-IsValid = get_or_create-IsKeyed;
  save-IsValid = save-IsKeyed;
  id-get_or_create = id-get_or_create;
  get-save_self = get-save_self;
  get-save_ne = get-save_ne;
  get-get = get-get;
}
