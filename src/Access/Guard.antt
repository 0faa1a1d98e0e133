-- ===== src/Access/Guard.antt =====
-- The condition under which src/UringEngine/CommandRoute.cpp and EncryptedHandler.cpp run a handler.
use servd.Base.{
  ◌≡◌, refl, ◌⊎◌, inl, inr, ap, ◌∙◌, true, false, ◌&&◌, ◌||◌, Bool, Bool-cases, List, [], ◌∷◌,
  arith, if◌then◌else◌,
}
use servd.Result.{Result, ok, err}
use servd.Protocol.{TransportType, any, tcp, udp, unix}
use servd.Context.{
  Context, Action, authenticate_as, install_key, push_event, set_local, sends_to, broadcasts,
  broadcasts_if, IAuthenticator,
}
use servd.Router.{Endpoint}
use servd.Exec.{Env, SendsAll, Io, continue, lift, pure}
use servd.Connection.{Connection}
use servd.Connection.Wire.{send_frame_ok}
use servd.Access.{
  transport_eq, put_local, send_to, broadcast, broadcast_if, perform, perform_all,
  run_authenticator, authenticated, permitted,
}
use servd.Access.Messages.{send_to_session_ok, do_broadcast_ok, broadcast_stored_ok}

-- The endpoint wants no authentication or the authenticator confirms it, and the endpoint takes any
-- transport or the one of the request.
abbrev pub Allowed : IAuthenticator → Endpoint → Context → Type 0
Allowed authenticate ep ctx =
    ((ep.requires_auth ≡ false) ⊎ ((authenticate ctx).1 ≡ ok true))
    × ((ep.allowed_transport ≡ any) ⊎ (ep.allowed_transport ≡ ctx.transport))

-- `io` behind the check of the requirements: the authenticator has run, if the endpoint wants it.
abbrev pub checked : Env → Connection → IAuthenticator → Endpoint → Context → Io → Io
checked env c authenticate ep ctx io =
    if ep.requires_auth then (perform_all env c (authenticate ctx).0 io).1 else io

transport_eq_sound : (a b : TransportType) → transport_eq a b ≡ true → a ≡ b
unfolding transport_eq
transport_eq_sound any b h = ground arith
transport_eq_sound tcp b h = ground arith
transport_eq_sound udp b h = ground arith
transport_eq_sound unix b h = ground arith

transport_eq_refl : (a : TransportType) → transport_eq a a ≡ true
unfolding transport_eq
transport_eq_refl any = refl
transport_eq_refl tcp = refl
transport_eq_refl udp = refl
transport_eq_refl unix = refl

module _ (env : Env) (c : Connection) where
  perform_ok :
      (a : Action) (io : Io) → SendsAll env → perform env c a io ≡ (ok tt, (perform env c a io).1)
  unfolding perform put_local send_to broadcast broadcast_if
  perform_ok (authenticate_as state user) io whole = refl
  perform_ok (install_key key) io whole = refl
  perform_ok (push_event event payload) io whole = send_frame_ok env c _ payload io whole
  perform_ok (set_local key type value) io whole = refl
  perform_ok (sends_to sid event payload) io whole = λ i. (
    send_to_session_ok env event payload whole io.sessions sid io.wrote i,
    (perform env c (sends_to sid event payload) io).1,
  )
  perform_ok (broadcasts event payload) io whole = λ i. (
    do_broadcast_ok env event payload whole io.sessions io.wrote i,
    (perform env c (broadcasts event payload) io).1,
  )
  perform_ok (broadcasts_if event payload predicate) io whole = λ i. (
    broadcast_stored_ok env event payload whole predicate io.stored io.sessions io.wrote i,
    (perform env c (broadcasts_if event payload predicate) io).1,
  )

  pub perform_all_ok :
      (actions : List Action) (io : Io)
      → SendsAll env
      → perform_all env c actions io ≡ (ok tt, (perform_all env c actions io).1)
  unfolding perform_all
  perform_all_ok [] io whole = refl
  perform_all_ok (a ∷ as') io whole =
      rw (perform_ok a io whole) (perform_all_ok as' (perform env c a io).1 whole)

-- The two ways to go on behind a call that may throw.
state-lift :
    {A B : Type 0} (r : Result A) (x : Result B) (io : Io) → (continue r (λ a. lift x) io).1 ≡ io
state-lift (ok a) x io = refl
state-lift (err e) x io = refl

state-pure :
    {A B : Type 0} (r : Result A) (f : A → B) (io : Io) → (continue r (λ a. pure (f a)) io).1 ≡ io
state-pure (ok a) f io = refl
state-pure (err e) f io = refl

lift_returns :
    {A B : Type 0} (r : Result A) (x : Result B) (io : Io) (b : B)
    → (continue r (λ a. lift x) io).0 ≡ ok b
    → x ≡ ok b
lift_returns (ok a) x io b h = h
lift_returns (err e) x io b h = absurd (cc h)

pure_returns :
    {A B : Type 0} (r : Result A) (f : A → B) (io : Io) (b : B)
    → (continue r (λ a. pure (f a)) io).0 ≡ ok b
    → (a : A) × (r ≡ ok a) × (ok (f a) ≡ ok b)
pure_returns (ok a) f io b h = (a, refl, h)
pure_returns (err e) f io b h = absurd (cc h)

both :
    (x : Bool) (a b : TransportType)
    → ok (x && (transport_eq a any || transport_eq a b)) ≡ ok true
    → (x ≡ true) × ((a ≡ any) ⊎ (a ≡ b))
both x a b h = ground (arith, transport_eq_sound a any, transport_eq_sound a b)

accepts :
    (a b : TransportType) → (a ≡ any) ⊎ (a ≡ b) → (transport_eq a any || transport_eq a b) ≡ true
accepts a b h = ground (arith, transport_eq_refl any, transport_eq_refl b)

module _ (env : Env) (c : Connection) (authenticate : IAuthenticator) (ep : Endpoint)
    (ctx : Context) (io : Io) where
  authenticated_state :
      (authenticated env c authenticate ep ctx io).1 ≡ checked env c authenticate ep ctx io
  unfolding authenticated run_authenticator
  authenticated_state = elim (Bool-cases ep.requires_auth) [
    | inl wanted ↦ rw wanted (state-lift _ (authenticate ctx).1 _)
    | inr free ↦ rw free
  ]

  authenticated_sound :
      (authenticated env c authenticate ep ctx io).0 ≡ ok true
      → (ep.requires_auth ≡ false) ⊎ ((authenticate ctx).1 ≡ ok true)
  unfolding authenticated run_authenticator
  authenticated_sound h = elim (Bool-cases ep.requires_auth) [
    | inl wanted ↦ inr (lift_returns _ (authenticate ctx).1 _ true (rw wanted at h))
    | inr free ↦ inl free
  ]

  authenticated_complete :
      SendsAll env
      → (ep.requires_auth ≡ false) ⊎ ((authenticate ctx).1 ≡ ok true)
      → authenticated env c authenticate ep ctx io ≡ (ok true, checked env c authenticate ep ctx io)
  unfolding authenticated run_authenticator
  authenticated_complete whole (inl free) = rw free
  authenticated_complete whole (inr confirmed) = elim (Bool-cases ep.requires_auth) [
    | inl wanted ↦ rw (wanted, perform_all_ok env c (authenticate ctx).0 io whole, confirmed)
    | inr free ↦ rw free
  ]

  -- The check succeeds only where the requirements are met.
  pub permitted_sound :
      (permitted env c authenticate ep ctx io).0 ≡ ok true → Allowed authenticate ep ctx
  unfolding permitted
  permitted_sound h =
      let (x, returned, good) =
        pure_returns (authenticated env c authenticate ep ctx io).0 _ _ true h in
      let (confirmed, transport) = both x ep.allowed_transport ctx.transport good in
      (authenticated_sound (returned ∙ ap ok confirmed), transport)

  -- However the check ends, the authenticator's calls are all that it did.
  pub permitted_state :
      (permitted env c authenticate ep ctx io).1 ≡ checked env c authenticate ep ctx io
  unfolding permitted
  permitted_state =
      state-pure (authenticated env c authenticate ep ctx io).0 _ _ ∙ authenticated_state

  pub permitted_complete :
      SendsAll env
      → Allowed authenticate ep ctx
      → permitted env c authenticate ep ctx io ≡ (ok true, checked env c authenticate ep ctx io)
  unfolding permitted
  permitted_complete whole (confirmed, transport) =
      rw (
        authenticated_complete whole confirmed,
        accepts ep.allowed_transport ctx.transport transport,
      )
