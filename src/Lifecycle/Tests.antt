-- ===== src/Lifecycle/Tests.antt =====
-- Instances of the theorems about src/serveur/ServerLifecycle.cpp.
use servd.Base.{◌+◌, refl, pos, negsuc, true, false, none, List, [], ◌∷◌, ◌==◌, if◌then◌else◌}
use servd.Protocol.{binary, text}
use servd.Discovery.{DiscoveryConfig}
use servd.Config.{info, ServerConfig}
use servd.Lifecycle.{Kernel, unset, ServerMembers, Setup, init}
use servd.Lifecycle.Stages.{Listens}
use servd.Lifecycle.Calls.{
  Call, calls_udp, calls_no_discovery, calls_tcp, calls_unix, calls_discovery, calls_periodic_task,
  call_all, asked, init_calls-Listens,
}

abbrev config : ServerConfig
config = record {
  tcp_ports = [];
  udp_ports = [];
  unix_paths = [];
  max_clients = 0;
  log_level = info;
  log_file = [];
}

abbrev discovery : DiscoveryConfig
discovery = record {
  broadcast_port = 9999;
  magic_number = 1;
  respond_to_clients = true;
  advertised_tcp_port = 0;
  advertised_udp_port = 0;
  on_discovery_request = none;
}

abbrev members : ServerMembers
members = record {
  config = config;
  periodic_tasks = [];
  session_bus = false;
  system_bus = true;
  discovery_enabled = false;
  discovery_config = discovery;
  announce_seconds = 0;
}

abbrev fresh : Setup
fresh = record {
  session_store = unset;
  authenticator = unset;
  running = false;
  socket_calls = 0;
  opened = [];
  bound = [];
  unlinked = [];
  loops = [];
  discovery_fd = none;
}

-- Descriptors from 3 on; listening at the Unix socket fails.
abbrev kernel : Kernel
kernel = record {
  socket = λ k. pos (k + 3);
  bind = λ fd addr. pos 0;
  listen = λ fd. if fd == 4 then negsuc 97 else pos 0;
}

-- The calls of a program; discovery is turned off and on again.
abbrev calls : List Call
calls =
    calls_udp 8081
    ∷ calls_no_discovery
    ∷ calls_tcp 8080 binary
    ∷ calls_unix (b'/' ∷ b's' ∷ []) text
    ∷ calls_discovery discovery 5
    ∷ calls_periodic_task 10000
    ∷ []

init_calls-Listens_example :
    Listens
      (asked calls members)
      []
      (init kernel (call_all calls members) fresh).0
      (init kernel (call_all calls members) fresh).1
init_calls-Listens_example = init_calls-Listens kernel calls members fresh refl
