-- ===== src/Lifecycle/Calls.antt =====
-- The calls that set a server up before init: src/serveur/ServerConfiguration.cpp.
use servd.Base.{
  ℕ, ◌≡◌, refl, sym, ap, subst, ap₂, ◌∙◌, Bool, true, false, not, ◌||◌, List, [], ◌∷◌, ◌++◌,
  append-nil, map, ◌==◌, if◌then◌else◌,
}
use servd.Protocol.{ProtocolMode}
use servd.Config.{enable_tcp, enable_udp, enable_unix_socket, set_max_clients}
use servd.Discovery.{DiscoveryConfig}
use servd.Lifecycle.{
  Address, tcp_address, udp_address, unix_address_of, Member, ServerMembers, Setup, Kernel, init,
  init_defaults, given, unset, default,
}
use servd.Lifecycle.Stages.{discovery_addresses, configured, addresses, all_served, Listens}
use servd.Lifecycle.Listeners.{init-Listens}

-- `announce_seconds` is a field of the DiscoveryConfig of the source.
enable_discovery : DiscoveryConfig → ℕ → ServerMembers → ServerMembers
enable_discovery config seconds m = record m {
  discovery_config = config;
  discovery_enabled = true;
  announce_seconds = seconds;
}

disable_discovery : ServerMembers → ServerMembers
disable_discovery m = record m { discovery_enabled = false }

reenable_discovery : ServerMembers → ServerMembers
reenable_discovery m = record m { discovery_enabled = true }

-- `connected` says whether sd_bus_default_user, or sd_bus_default_system, gave a bus.
enable_session_bus : Bool → ServerMembers → ServerMembers
enable_session_bus connected m = record m { session_bus = connected || m.session_bus }

enable_system_bus : Bool → ServerMembers → ServerMembers
enable_system_bus connected m = record m { system_bus = connected || m.system_bus }

add_periodic_task : ℕ → ServerMembers → ServerMembers
add_periodic_task interval m = record m { periodic_tasks = m.periodic_tasks ++ (interval ∷ []) }

set_session_store : Member → Setup → Setup
set_session_store store s = record s { session_store = store }

set_authenticator : Member → Setup → Setup
set_authenticator authenticator s = record s { authenticator = authenticator }

-- A store that was set is kept by init; without one, init takes the default.
init_defaults-set_session_store :
    (s : Setup)
    → ((init_defaults (set_session_store given s)).1.session_store ≡ given)
      × ((init_defaults (set_session_store unset s)).1.session_store ≡ default)
unfolding init_defaults set_session_store
init_defaults-set_session_store s = (refl, refl)

-- An authenticator that was set is kept by init; without one, init takes the default.
init_defaults-set_authenticator :
    (s : Setup)
    → ((init_defaults (set_authenticator given s)).1.authenticator ≡ given)
      × ((init_defaults (set_authenticator unset s)).1.authenticator ≡ default)
unfolding init_defaults set_authenticator
init_defaults-set_authenticator s = (refl, refl)

-- A call of the program before init that says what init opens and serves. load_config is in Config;
-- the setters of the store and the authenticator, above, change neither.
pub data Call : Type 0 where
  calls_tcp : ℕ → ProtocolMode → Call
  calls_udp : ℕ → Call
  calls_unix : List ℕ → ProtocolMode → Call
  calls_discovery : DiscoveryConfig → ℕ → Call
  calls_no_discovery : Call
  calls_discovery_again : Call
  calls_session_bus : Bool → Call
  calls_system_bus : Bool → Call
  calls_max_clients : ℕ → Call
  calls_periodic_task : ℕ → Call

call : Call → ServerMembers → ServerMembers
unfolding enable_discovery disable_discovery reenable_discovery enable_session_bus enable_system_bus
    add_periodic_task
call (calls_tcp port mode) m = record m { config = enable_tcp m.config port mode }
call (calls_udp port) m = record m { config = enable_udp m.config port }
call (calls_unix path mode) m = record m { config = enable_unix_socket m.config path mode }
call (calls_discovery config seconds) m = enable_discovery config seconds m
call calls_no_discovery m = disable_discovery m
call calls_discovery_again m = reenable_discovery m
call (calls_session_bus connected) m = enable_session_bus connected m
call (calls_system_bus connected) m = enable_system_bus connected m
call (calls_max_clients max) m = record m { config = set_max_clients m.config max }
call (calls_periodic_task interval) m = add_periodic_task interval m

pub call_all : List Call → ServerMembers → ServerMembers
unfolding call
call_all [] m = m
call_all (c ∷ cs) m = call_all cs (call c m)

-- Where the calls ask the server to listen, kind by kind, in their order.
abbrev pub asked_tcp : List Call → List Address
asked_tcp [] = []
asked_tcp (calls_tcp port mode ∷ cs) = tcp_address port ∷ asked_tcp cs
asked_tcp (_ ∷ cs) = asked_tcp cs

abbrev pub asked_unix : List Call → List Address
asked_unix [] = []
asked_unix (calls_unix path mode ∷ cs) = unix_address_of path ∷ asked_unix cs
asked_unix (_ ∷ cs) = asked_unix cs

abbrev pub asked_udp : List Call → List Address
asked_udp [] = []
asked_udp (calls_udp port ∷ cs) = udp_address port ∷ asked_udp cs
asked_udp (_ ∷ cs) = asked_udp cs

-- The last call that turns discovery on or off decides whether there is an address, and the last
-- configuration which; `enabled` and `port` where there is none.
abbrev pub asked_discovery : Bool → ℕ → List Call → List Address
asked_discovery enabled port [] = if not enabled || (port == 0) then [] else udp_address port ∷ []
asked_discovery enabled port (calls_discovery config seconds ∷ cs) =
    asked_discovery true config.broadcast_port cs
asked_discovery enabled port (calls_no_discovery ∷ cs) = asked_discovery false port cs
asked_discovery enabled port (calls_discovery_again ∷ cs) = asked_discovery true port cs
asked_discovery enabled port (_ ∷ cs) = asked_discovery enabled port cs

abbrev pub tcp_addresses : ServerMembers → List Address
tcp_addresses m = map (λ x. tcp_address x.0) m.config.tcp_ports

abbrev pub unix_addresses : ServerMembers → List Address
unix_addresses m = map (λ x. unix_address_of x.0) m.config.unix_paths

abbrev pub udp_addresses : ServerMembers → List Address
udp_addresses m = map udp_address m.config.udp_ports

map-snoc :
    {A B : Type 0} (f : A → B) (xs : List A) (x : A) (ys : List B)
    → map f (xs ++ (x ∷ [])) ++ ys ≡ map f xs ++ (f x ∷ ys)
map-snoc f [] x ys = refl
map-snoc f (z ∷ xs) x ys = ap (◌∷◌ (f z)) (map-snoc f xs x ys)

call_all_tcp :
    (cs : List Call) (m : ServerMembers)
    → tcp_addresses (call_all cs m) ≡ tcp_addresses m ++ asked_tcp cs
unfolding call_all call enable_tcp enable_udp enable_unix_socket set_max_clients enable_discovery
    disable_discovery reenable_discovery enable_session_bus enable_system_bus add_periodic_task
call_all_tcp [] m = sym (append-nil _)
call_all_tcp (calls_tcp port mode ∷ cs) m =
    call_all_tcp cs (call (calls_tcp port mode) m)
    ∙ map-snoc (λ x. tcp_address x.0) m.config.tcp_ports (port, mode) (asked_tcp cs)
call_all_tcp (c ∷ cs) m = call_all_tcp cs (call c m)

call_all_unix :
    (cs : List Call) (m : ServerMembers)
    → unix_addresses (call_all cs m) ≡ unix_addresses m ++ asked_unix cs
unfolding call_all call enable_tcp enable_udp enable_unix_socket set_max_clients enable_discovery
    disable_discovery reenable_discovery enable_session_bus enable_system_bus add_periodic_task
call_all_unix [] m = sym (append-nil _)
call_all_unix (calls_unix path mode ∷ cs) m =
    call_all_unix cs (call (calls_unix path mode) m)
    ∙ map-snoc (λ x. unix_address_of x.0) m.config.unix_paths (path, mode) (asked_unix cs)
call_all_unix (c ∷ cs) m = call_all_unix cs (call c m)

call_all_udp :
    (cs : List Call) (m : ServerMembers)
    → udp_addresses (call_all cs m) ≡ udp_addresses m ++ asked_udp cs
unfolding call_all call enable_tcp enable_udp enable_unix_socket set_max_clients enable_discovery
    disable_discovery reenable_discovery enable_session_bus enable_system_bus add_periodic_task
call_all_udp [] m = sym (append-nil _)
call_all_udp (calls_udp port ∷ cs) m =
    call_all_udp cs (call (calls_udp port) m)
    ∙ map-snoc (udp_address) m.config.udp_ports port (asked_udp cs)
call_all_udp (c ∷ cs) m = call_all_udp cs (call c m)

call_all_discovery :
    (cs : List Call) (m : ServerMembers)
    → discovery_addresses (call_all cs m)
      ≡ asked_discovery m.discovery_enabled m.discovery_config.broadcast_port cs
unfolding call_all call enable_tcp enable_udp enable_unix_socket set_max_clients enable_discovery
    disable_discovery reenable_discovery enable_session_bus enable_system_bus add_periodic_task
call_all_discovery [] m = refl
call_all_discovery (calls_no_discovery ∷ cs) m = call_all_discovery cs (call calls_no_discovery m)
call_all_discovery (calls_discovery_again ∷ cs) m =
    call_all_discovery cs (call calls_discovery_again m)
call_all_discovery (calls_discovery config seconds ∷ cs) m =
    call_all_discovery cs (call (calls_discovery config seconds) m)
call_all_discovery (c ∷ cs) m = call_all_discovery cs (call c m)

-- The addresses that are configured behind some calls: TCP before Unix before UDP, those of one kind
-- in the order of the calls, behind what was configured before, and for discovery as the last calls
-- about it say.
abbrev pub asked : List Call → ServerMembers → List Address
asked cs m =
    (tcp_addresses m ++ asked_tcp cs)
    ++ ((unix_addresses m ++ asked_unix cs)
        ++ ((udp_addresses m ++ asked_udp cs)
            ++ asked_discovery m.discovery_enabled m.discovery_config.broadcast_port cs))

configured-call_all : (cs : List Call) (m : ServerMembers) → configured (call_all cs m) ≡ asked cs m
configured-call_all cs m =
    ap₂ (◌++◌) (call_all_tcp cs m)
      (ap₂ (◌++◌) (call_all_unix cs m) (ap₂ (◌++◌) (call_all_udp cs m) (call_all_discovery cs m)))

-- Whatever calls a program makes before init to listen, to turn discovery on, off or on again, to
-- connect a bus, to limit the clients or to add a task (load_config aside), in any order, and whatever
-- the kernel answers: init binds the addresses that the calls ask for, TCP, Unix, UDP and discovery,
-- those of one kind in the order of the calls, and for discovery as the last calls about it say; every descriptor that init opened is
-- served by one loop, in the order of opening. Where it returns, all of them are bound and served;
-- where it throws, those bound are a part at the front, and at most the last socket, at which a bind
-- or a listen failed, is left open and served by nobody.
pub init_calls-Listens :
    (kernel : Kernel) (cs : List Call) (m : ServerMembers) (s : Setup)
    → s.opened ≡ all_served s.loops
    → let (r, t) = init kernel (call_all cs m) s in Listens (asked cs m) (addresses s.bound) r t
init_calls-Listens kernel cs m s clean =
    subst
      (λ (wanted : List Address).
        Listens wanted (addresses s.bound) (init kernel (call_all cs m) s).0
          (init kernel (call_all cs m) s).1)
      (configured-call_all cs m) (init-Listens kernel (call_all cs m) s clean)
