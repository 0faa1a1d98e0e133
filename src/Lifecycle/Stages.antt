-- ===== src/Lifecycle/Stages.antt =====
-- Stages of Server::init (src/serveur/ServerLifecycle.cpp) by the sockets that they open and serve.
use servd.Base.{
  ℕ, ◌≡◌, refl, sym, ap, subst, ◌∙◌, ◌⊎◌, List, [], ◌∷◌, ◌++◌, append-nil, append_assoc, map, not,
  ◌||◌, ◌==◌, if◌then◌else◌,
}
use servd.Result.{Result, ok, err, socket_failed}
use servd.Lifecycle.{
  Address, tcp_address, udp_address, Loop, accept_loop, udp_loop, discovery_loop, timer_loop,
  session_bus_loop, system_bus_loop, ServerMembers, Setup, Stage, pure, continue, ◌>>=◌, ◌>>◌,
  start, for_each, unix_address_of,
}

-- The descriptor that a loop serves, if it serves one.
abbrev pub served : Loop → List ℕ
served (accept_loop fd mode) = fd ∷ []
served (udp_loop fd) = fd ∷ []
served (discovery_loop fd) = fd ∷ []
served (timer_loop interval) = []
served session_bus_loop = []
served system_bus_loop = []

abbrev pub all_served : List Loop → List ℕ
all_served [] = []
all_served (l ∷ ls) = served l ++ all_served ls

abbrev pub addresses : List (ℕ × Address) → List Address
addresses [] = []
addresses ((fd, addr) ∷ bs) = addr ∷ addresses bs

all_served-snoc :
    (ls : List Loop) (l : Loop) → all_served (ls ++ (l ∷ [])) ≡ all_served ls ++ served l
all_served-snoc [] l = append-nil (served l)
all_served-snoc (x ∷ xs) l = rw (all_served-snoc xs l, append_assoc)

pub addresses-snoc :
    (bs : List (ℕ × Address)) (fd : ℕ) (addr : Address)
    → addresses (bs ++ ((fd, addr) ∷ [])) ≡ addresses bs ++ (addr ∷ [])
addresses-snoc [] fd addr = refl
addresses-snoc ((k, a) ∷ bs) fd addr = ap (◌∷◌ a) (addresses-snoc bs fd addr)

-- Where a server is to listen for discovery.
abbrev pub discovery_addresses : ServerMembers → List Address
discovery_addresses m =
    if not m.discovery_enabled || (m.discovery_config.broadcast_port == 0)
    then []
    else udp_address m.discovery_config.broadcast_port ∷ []

-- Where a server is to listen, in the order of init.
abbrev pub configured : ServerMembers → List Address
configured m =
    map (λ x. tcp_address x.0) m.config.tcp_ports
    ++ (map (λ x. unix_address_of x.0) m.config.unix_paths
        ++ (map udp_address m.config.udp_ports ++ discovery_addresses m))

-- How a stage ends: with no address left and no descriptor that nobody serves, or with an
-- exception, and then at most the socket at which it was thrown is open and not served.
abbrev pub Ends : Result (Unit {0}) → List Address → List ℕ → Type 0
Ends (ok u) rest left = (rest ≡ []) × (left ≡ [])
Ends (err e) rest left = ((e ≡ socket_failed) × (left ≡ [])) ⊎ ((fd : ℕ) × (left ≡ fd ∷ []))

-- A stage that is to listen at `wanted`, begun with `before` bound, ended with `r` and `t`.
pub record Listens (wanted before : List Address) (r : Result (Unit {0})) (t : Setup) : Type 0 where
  pub now : List Address
  pub rest : List Address
  pub left : List ℕ
  pub in_order : wanted ≡ now ++ rest
  pub reached : addresses t.bound ≡ before ++ now
  pub kept : t.opened ≡ all_served t.loops ++ left
  pub ends : Ends r rest left

abbrev pub Serves : List Address → Stage (Unit {0}) → Type 0
Serves wanted m =
    (s : Setup) → s.opened ≡ all_served s.loops → Listens wanted (addresses s.bound) (m s).0 (m s).1

-- The same with a descriptor that is open and not served yet.
abbrev pub ServesLast : ℕ → List Address → Stage (Unit {0}) → Type 0
ServesLast fd wanted m =
    (s : Setup)
    → s.opened ≡ all_served s.loops ++ (fd ∷ [])
    → Listens wanted (addresses s.bound) (m s).0 (m s).1

nothing_Listens :
    (t : Setup) → t.opened ≡ all_served t.loops → Listens [] (addresses t.bound) (ok tt) t
nothing_Listens t h = record {
  now = [];
  rest = [];
  left = [];
  in_order = refl;
  reached = sym (append-nil (addresses t.bound));
  kept = h ∙ sym (append-nil (all_served t.loops));
  ends = (refl, refl);
}

-- What was bound first counts as well.
pub shift-Listens :
    {wanted mid before : List Address} {r : Result (Unit {0})} {t : Setup} (more : List Address)
    → mid ≡ before ++ more
    → Listens wanted mid r t
    → Listens (more ++ wanted) before r t
shift-Listens {wanted} {mid} {before} more e l = record {
  now = more ++ l.now;
  rest = l.rest;
  left = l.left;
  in_order = ap (λ xs. more ++ xs) l.in_order ∙ sym (append_assoc more l.now l.rest);
  reached = l.reached ∙ ap (λ xs. xs ++ l.now) e ∙ append_assoc before more l.now;
  kept = l.kept;
  ends = l.ends;
}

pub then-Listens :
    {first second before : List Address} (n : Stage (Unit {0})) (r : Result (Unit {0})) (t : Setup)
    → Serves second n
    → Listens first before r t
    → let (r', t') = continue r (λ u. n) t in Listens (first ++ second) before r' t'
then-Listens {first} {second} {before} n (ok u) t serves l =
    let whole : first ≡ l.now = l.in_order ∙ ap (λ xs. l.now ++ xs) l.ends.0 ∙ append-nil l.now in
    let clean =
      l.kept ∙ ap (λ xs. all_served t.loops ++ xs) l.ends.1 ∙ append-nil (all_served t.loops) in
    shift-Listens first (l.reached ∙ ap (λ xs. before ++ xs) (sym whole)) (serves t clean)
then-Listens {first} {second} n (err e) t serves l = record {
  now = l.now;
  rest = l.rest ++ second;
  left = l.left;
  in_order = ap (λ xs. xs ++ second) l.in_order ∙ append_assoc l.now l.rest second;
  reached = l.reached;
  kept = l.kept;
  ends = l.ends;
}

pub then-Serves :
    {first second : List Address} (m n : Stage (Unit {0}))
    → Serves first m
    → Serves second n
    → Serves (first ++ second) (m >> n)
then-Serves m n sm sn s h = then-Listens n (m s).0 (m s).1 sn (sm s h)

pub pure-Serves : Serves [] (pure tt)
pure-Serves s h = nothing_Listens s h

pub for_each-Serves :
    {A : Type 0} (f : A → Stage (Unit {0})) (where_at : A → Address)
    → ((x : A) → Serves (where_at x ∷ []) (f x))
    → (xs : List A) → Serves (map where_at xs) (for_each f xs)
unfolding for_each
for_each-Serves f where_at each [] = pure-Serves
for_each-Serves f where_at each (x ∷ xs) =
    then-Serves (f x) (for_each f xs) (each x) (for_each-Serves f where_at each xs)

pub for_each-Serves_none :
    {A : Type 0} (f : A → Stage (Unit {0}))
    → ((x : A) → Serves [] (f x))
    → (xs : List A) → Serves [] (for_each f xs)
unfolding for_each
for_each-Serves_none f each [] = pure-Serves
for_each-Serves_none f each (x ∷ xs) =
    then-Serves (f x) (for_each f xs) (each x) (for_each-Serves_none f each xs)

-- A loop without a descriptor.
pub start-Serves : (l : Loop) → served l ≡ [] → Serves [] (start l)
unfolding start
start-Serves l none s h =
    nothing_Listens (record s { loops = s.loops ++ (l ∷ []) })
      (h
        ∙ sym (
            all_served-snoc s.loops l
            ∙ ap (λ xs. all_served s.loops ++ xs) none
            ∙ append-nil (all_served s.loops)))

pub start-ServesLast : (l : Loop) (fd : ℕ) → served l ≡ fd ∷ [] → ServesLast fd [] (start l)
unfolding start
start-ServesLast l fd one s h =
    nothing_Listens (record s { loops = s.loops ++ (l ∷ []) })
      (h ∙ sym (all_served-snoc s.loops l ∙ ap (λ xs. all_served s.loops ++ xs) one))

-- A stage by its first step.
pub step-Listens :
    {A : Type 0} {wanted before : List Address} (m : Stage A) (f : A → Stage (Unit {0})) (s : Setup)
    (x : Result A × Setup)
    → m s ≡ x
    → Listens wanted before (continue x.0 f x.1).0 (continue x.0 f x.1).1
    → Listens wanted before ((m >>= f) s).0 ((m >>= f) s).1
step-Listens {A} {wanted} {before} m f s x e =
    subst
      (λ (y : Result A × Setup).
        Listens wanted before (continue y.0 f y.1).0 (continue y.0 f y.1).1)
      (sym e)
