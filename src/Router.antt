-- ===== src/Router.antt =====
-- include/servd/router/Router.hpp and Endpoint.hpp: the table of 65536 endpoints.
pub mod Laws
mod Tests
use servd.Base.{ℕ, Bool, true, false, Option, none, some, ◌==◌, if◌then◌else◌}
use servd.Protocol.{TransportType, any, tcp, udp}
use servd.Context.{Handler}

-- A null `std::function` is `none`.
pub record Endpoint : Type 0 where
  pub handler : Option Handler
  pub requires_auth : Bool
  pub allowed_transport : TransportType

unfoldable pub require_auth : Endpoint → Endpoint
require_auth e = record e { requires_auth = true }

unfoldable pub tcp_only : Endpoint → Endpoint
tcp_only e = record e { allowed_transport = tcp }

unfoldable pub udp_only : Endpoint → Endpoint
udp_only e = record e { allowed_transport = udp }

unfoldable pub is_valid : Endpoint → Bool
is_valid e = elim e.handler [ none ↦ false | some h ↦ true ]

-- std::array<Endpoint, 65536>, indexed by a `uint16_t`.
pub record Router : Type 0 where
  pub routes : ℕ → Endpoint

unfoldable pub default_endpoint : Endpoint
default_endpoint = record { handler = none; requires_auth = false; allowed_transport = any }

unfoldable pub empty_router : Router
unfolding default_endpoint
empty_router = record { routes = λ _. default_endpoint }

-- The reference to the slot that `add` returns is what the restrictions below are applied to.
unfoldable pub modify : Router → ℕ → (Endpoint → Endpoint) → Router
modify r command_id f = record {
  routes = λ k. if command_id == k then f (r.routes k) else r.routes k;
}

unfoldable pub add : Router → ℕ → Option Handler → Router
unfolding modify
add r command_id handler =
    modify r command_id
      (λ e. record e { handler = handler; requires_auth = false; allowed_transport = any })

unfoldable pub get : Router → ℕ → Option Endpoint
unfolding is_valid
get r command_id =
    let endpoint = r.routes command_id in if is_valid endpoint then some endpoint else none
