-- ===== src/Lifecycle.antt =====
-- src/serveur/ServerLifecycle.cpp: Server::init, which opens the sockets and starts the loops. What
-- the kernel answers to a call is a parameter; the results of setsockopt and unlink are ignored.
mod Stages
pub mod Listeners
pub mod Calls
mod Tests
use servd.Base.{
  ℕ, suc, ◌*◌, ℤ, pos, negsuc, Bool, true, not, ◌||◌, Option, none, some, List, [], ◌∷◌, ◌++◌, take,
  ltb, ◌==◌, if◌then◌else◌,
}
use servd.Result.{Error, Result, ok, err, socket_failed, bind_failed, listen_failed}
use servd.Protocol.{ProtocolMode}
use servd.Config.{ServerConfig}
use servd.Discovery.{DiscoveryConfig}

pub data Address : Type 0 where
  tcp_address : ℕ → Address
  unix_address : List ℕ → Address
  udp_address : ℕ → Address

-- The result of the k-th call of `socket`, and those of `bind` and `listen` on a descriptor.
pub record Kernel : Type 0 where
  pub socket : ℕ → ℤ
  pub bind : ℕ → Address → ℤ
  pub listen : ℕ → ℤ

-- A coroutine that init starts: one for each socket, timer (with its interval in milliseconds) and
-- bus.
pub data Loop : Type 0 where
  accept_loop : ℕ → ProtocolMode → Loop
  udp_loop : ℕ → Loop
  discovery_loop : ℕ → Loop
  timer_loop : ℕ → Loop
  session_bus_loop : Loop
  system_bus_loop : Loop

-- A member that holds a shared object: none, the application's, or the default.
pub data Member : Type 0 where
  unset : Member
  given : Member
  default : Member

-- The members that init reads. `announce_seconds` is active_announce_if_idle, and a periodic task is
-- its interval.
pub record ServerMembers : Type 0 where
  pub config : ServerConfig
  pub periodic_tasks : List ℕ
  pub session_bus : Bool
  pub system_bus : Bool
  pub discovery_enabled : Bool
  pub discovery_config : DiscoveryConfig
  pub announce_seconds : ℕ

-- What init has done: `opened` holds the descriptors, none of which init ever closes.
pub record Setup : Type 0 where
  pub session_store : Member
  pub authenticator : Member
  pub running : Bool
  pub socket_calls : ℕ
  pub opened : List ℕ
  pub bound : List (ℕ × Address)
  pub unlinked : List (List ℕ)
  pub loops : List Loop
  pub discovery_fd : Option ℕ

-- A part of init, which may throw; what it did until then stays done.
abbrev pub Stage : Type 0 → Type 0
Stage A = Setup → Result A × Setup

abbrev pub pure : {A : Type 0} → A → Stage A
pure a s = (ok a, s)

abbrev pub continue : {A B : Type 0} → Result A → (A → Stage B) → Stage B
continue (ok a) f s = f a s
continue (err e) f s = (err e, s)

infixl 5 ◌>>=◌ ◌>>◌
abbrev pub ◌>>=◌ : {A B : Type 0} → Stage A → (A → Stage B) → Stage B
◌>>=◌ m f s = let (r, t) = m s in continue r f t

abbrev pub ◌>>◌ : {A B : Type 0} → Stage A → Stage B → Stage B
m >> n = m >>= λ _. n

unfoldable pub start : Loop → Stage (Unit {0})
start l s = (ok tt, record s { loops = s.loops ++ (l ∷ []) })

unfoldable pub for_each : {A : Type 0} → (A → Stage (Unit {0})) → List A → Stage (Unit {0})
for_each f [] = pure tt
for_each f (x ∷ xs) = do f x; for_each f xs

or_default : Member → Member
or_default unset = default
or_default given = given
or_default default = default

unfoldable pub init_defaults : Stage (Unit {0})
unfolding or_default
init_defaults s = (
  ok tt,
  record s {
    session_store = or_default s.session_store;
    authenticator = or_default s.authenticator;
  },
)

-- The bytes of a string up to its first zero.
unfoldable pub c_str : List ℕ → List ℕ
c_str [] = []
c_str (c ∷ cs) = let rest = c_str cs in if c == 0 then [] else c ∷ rest

-- strncpy into the 108 bytes of sun_path, the last of which stays zero.
unfoldable pub unix_address_of : List ℕ → Address
unix_address_of path = unix_address (take 107 (c_str path))

unfoldable pub unlink : List ℕ → Stage (Unit {0})
unlink path s = (ok tt, record s { unlinked = s.unlinked ++ (c_str path ∷ []) })

unfoldable pub set_discovery_fd : ℕ → Stage (Unit {0})
set_discovery_fd fd s = (ok tt, record s { discovery_fd = some fd })

unfoldable pub init_periodic_tasks : ServerMembers → Stage (Unit {0})
init_periodic_tasks m = for_each (λ interval. start (timer_loop interval)) m.periodic_tasks

unfoldable pub init_dbus : ServerMembers → Stage (Unit {0})
init_dbus m = do
  if m.session_bus then start session_bus_loop else pure tt
  if m.system_bus then start system_bus_loop else pure tt

-- The timer of the announcement.
unfoldable pub init_announcement : ServerMembers → Stage (Unit {0})
init_announcement m =
    if ltb 0 m.announce_seconds then start (timer_loop (m.announce_seconds * 1000)) else pure tt

module _ (kernel : Kernel) where
  unfoldable pub open_socket : Stage ℕ
  open_socket s = elim (kernel.socket s.socket_calls) [
    | negsuc n ↦ (err socket_failed, record s { socket_calls = suc s.socket_calls })
    | pos fd ↦
        (ok fd, record s { socket_calls = suc s.socket_calls; opened = s.opened ++ (fd ∷ []) })
  ]

  unfoldable pub bind_to : ℕ → Address → Stage (Unit {0})
  bind_to fd addr s = elim (kernel.bind fd addr) [
    | negsuc n ↦ (err bind_failed, s)
    | pos n ↦ (ok tt, record s { bound = s.bound ++ ((fd, addr) ∷ []) })
  ]

  unfoldable pub listen_on : ℕ → Stage (Unit {0})
  listen_on fd s = elim (kernel.listen fd) [
    | negsuc n ↦ (err listen_failed, s)
    | pos n ↦ (ok tt, s)
  ]

  unfoldable pub serve_tcp : ℕ × ProtocolMode → Stage (Unit {0})
  serve_tcp (port, mode) = do
    fd ← open_socket
    bind_to fd (tcp_address port)
    listen_on fd
    start (accept_loop fd mode)

  unfoldable pub init_tcp_sockets : ServerMembers → Stage (Unit {0})
  init_tcp_sockets m = for_each serve_tcp m.config.tcp_ports

  unfoldable pub serve_unix : List ℕ × ProtocolMode → Stage (Unit {0})
  serve_unix (path, mode) = do
    fd ← open_socket
    unlink path
    bind_to fd (unix_address_of path)
    listen_on fd
    start (accept_loop fd mode)

  unfoldable pub init_unix_sockets : ServerMembers → Stage (Unit {0})
  init_unix_sockets m = for_each serve_unix m.config.unix_paths

  unfoldable pub serve_udp : ℕ → Stage (Unit {0})
  serve_udp port = do fd ← open_socket; bind_to fd (udp_address port); start (udp_loop fd)

  unfoldable pub init_udp_sockets : ServerMembers → Stage (Unit {0})
  init_udp_sockets m = for_each serve_udp m.config.udp_ports

  unfoldable pub serve_discovery : ServerMembers → Stage (Unit {0})
  serve_discovery m = do
    fd ← open_socket
    bind_to fd (udp_address m.discovery_config.broadcast_port)
    set_discovery_fd fd
    start (discovery_loop fd)
    init_announcement m

  unfoldable pub init_discovery : ServerMembers → Stage (Unit {0})
  init_discovery m =
      if not m.discovery_enabled || (m.discovery_config.broadcast_port == 0)
      then pure tt
      else serve_discovery m

  unfoldable pub init_sockets : ServerMembers → Stage (Unit {0})
  init_sockets m = do
    init_tcp_sockets m
    init_unix_sockets m
    init_periodic_tasks m
    init_dbus m
    init_udp_sockets m
    init_discovery m

  -- Server::init
  unfoldable pub init : ServerMembers → Stage (Unit {0})
  init m = do init_defaults; set_running; init_sockets m
    where
      set_running : Stage (Unit {0})
      set_running s = (ok tt, record s { running = true })
