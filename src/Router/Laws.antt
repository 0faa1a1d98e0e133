-- ===== src/Router/Laws.antt =====
-- Registration and lookup of endpoints: include/servd/router/Router.hpp.
use servd.Base.{
  ℕ, Bool, Option-cases, inl, inr, ap, sym, ◌∙◌, ◌≡◌, ◌≢◌, true, false, Option, none, some, arith,
  ◌==◌, if◌then◌else◌,
}
use servd.Protocol.{any, tcp, udp}
use servd.Context.{Handler}
use servd.Router.{Endpoint, require_auth, tcp_only, udp_only, is_valid, Router, modify, add, get}

-- Looking a command up after a registration: the registered command has the new handler with no
-- restriction, whatever the slot held before, and every other command is as it was.
pub get-add :
    (r : Router) (k j : ℕ) (h : Handler)
    → get (add r k (some h)) j ≡ (
        if k == j
        then some (record { handler = some h; requires_auth = false; allowed_transport = any })
        else get r j)
unfolding get add
get-add r k j h = ground arith

-- Registering a null handler makes the command unknown again, and changes no other command.
pub get-add_null :
    (r : Router) (k j : ℕ) → get (add r k none) j ≡ (if k == j then none else get r j)
unfolding get add
get-add_null r k j = ground arith

-- A restriction put on one command neither registers, removes nor changes any other.
get-modify_ne :
    (r : Router) (k j : ℕ) (f : Endpoint → Endpoint) → k ≢ j → get (modify r k f) j ≡ get r j
unfolding get modify
get-modify_ne r k j f h = ground arith

-- A command registered with `require_auth` and a transport restriction, in either order, is found
-- with both, on the restricted transport.
pub get-restricted :
    (r : Router) (k : ℕ) (h : Handler)
    → (get (modify (modify (add r k (some h)) k require_auth) k tcp_only) k
        ≡ some (record { handler = some h; requires_auth = true; allowed_transport = tcp }))
      × (get (modify (modify (add r k (some h)) k udp_only) k require_auth) k
          ≡ some (record { handler = some h; requires_auth = true; allowed_transport = udp }))
unfolding get modify add require_auth tcp_only udp_only
get-restricted r k h = (ground arith, ground arith)

of_guarded :
    (b : Bool) (x e : Endpoint)
    → ◌≡◌ {A = Option Endpoint} (if b then some x else none) (some e)
    → x ≡ e
of_guarded true x e h = cc
of_guarded false x e h = cc

-- An endpoint that is found has a handler.
pub handler-get :
    (r : Router) (k : ℕ) (e : Endpoint) → get r k ≡ some e → (h : Handler) × (e.handler ≡ some h)
unfolding get is_valid
handler-get r k e found = elim (Option-cases (r.routes k).handler) [
  | inl missing ↦ absurd (cc (rw missing at found))
  | inr (h, there) ↦ (
    h,
    ap (λ (x : Endpoint). x.handler) (sym (of_guarded (is_valid (r.routes k)) (r.routes k) e found))
        ∙ there,
  )
]
