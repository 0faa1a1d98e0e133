-- ===== src/Access/Keeping.antt =====
-- The handlers that src/UringEngine/CommandRoute.cpp and EncryptedHandler.cpp call: predicates over
-- the session, the writes and the draws of a request.
use servd.Base.{
  ℕ, ◌+◌, Bool, true, false, Option, none, some, List, [], ◌∷◌, ◌++◌, if◌then◌else◌, subst, sym,
  append-nil, append_assoc,
}
use servd.Result.{Result, err, bad_function_call}
use servd.Protocol.{FrameHeader}
use servd.Session.{set_authenticated, set_aes_key}
use servd.Context.{
  Context, Action, authenticate_as, install_key, push_event, set_local, sends_to, broadcasts,
  broadcasts_if, Handler, IAuthenticator, represented,
}
use servd.Context.Bag.{Locals}
use servd.Messaging.{send_to_session, do_broadcast}
use servd.Access.Messages.{
  Continues, send_to_session-Continues, do_broadcast-Continues, broadcast_stored-Continues,
}
use servd.Router.{Endpoint}
use servd.Exec.{Env, Io, Exec, Write, get_session, get_locals, draw}
use servd.Exec.Laws.{Keeps, Keeps-pure, Keeps-lift, Keeps-bind}
use servd.Connection.{Connection, peer_of, async_write, send_frame, frame_bytes}
use servd.Access.{
  perform, send_event, put_local, send_to, broadcast, broadcast_if, messaging, broadcast_stored,
  perform_all, invoke, call_handler, run_authenticator, authenticated, permitted, refreshed,
}

-- The five changes.
pub record IsClosed (P : Io → Type 0) : Type 0 where
  pub on_authenticate :
      (io : Io) (state : Bool) (user : List ℕ)
      → P io
      → P (record io { session = set_authenticated io.session state user })
  pub on_key :
      (io : Io) (key : List ℕ) → P io → P (record io { session = set_aes_key io.session key })
  pub on_write : (io : Io) (w : Write) → P io → P (record io { wrote = io.wrote ++ (w ∷ []) })
  pub on_local : (io : Io) (locals : Locals represented) → P io → P (record io { locals = locals })
  pub on_draw : (io : Io) → P io → P (record io { draws = io.draws + 1 })

pub Keeps-if :
    {A : Type 0} {P : Io → Type 0} (b : Bool) (m n : Exec A)
    → Keeps P m
    → Keeps P n
    → Keeps P (if b then m else n)
Keeps-if true m n km kn = km
Keeps-if false m n km kn = kn

pub Keeps-get_session : {P : Io → Type 0} → Keeps P get_session
Keeps-get_session = record { at = λ io h. h }

pub Keeps-get_locals : {P : Io → Type 0} → Keeps P get_locals
Keeps-get_locals = record { at = λ io h. h }

pub Keeps-refreshed : {P : Io → Type 0} (ctx : Context) → Keeps P (refreshed ctx)
unfolding refreshed
Keeps-refreshed ctx = record { at = λ io h. h }

module _ (env : Env) (c : Connection) {P : Io → Type 0} (closed : IsClosed P) where
  pub Keeps-draw : Keeps P draw
  Keeps-draw = record { at = closed.on_draw }

  pub Keeps-send_frame : (h : FrameHeader) (payload : List ℕ) → Keeps P (send_frame env c h payload)
  unfolding send_frame async_write
  Keeps-send_frame h payload =
      Keeps-bind (async_write env (peer_of c) (frame_bytes c h payload)) _
        (record { at = λ io p. closed.on_write io _ p }) (λ _. Keeps-pure tt)

  messaging-Keeps :
      (message : Io → List Write → Result (Unit {0}) × List Write)
      → ((io : Io) → Continues io.wrote (message io io.wrote).1)
      → Keeps P (λ io. messaging (message io) io)
  messaging-Keeps message continues = record {
    at = λ io h.
        let (more, e) = continues io in
        subst (λ (l : List Write). P (record io { wrote = l })) (sym e) (append-closed io more h);
  }
    where
      append-closed : (io : Io) (ws : List Write) → P io → P (record io { wrote = io.wrote ++ ws })
      append-closed io [] h =
          subst (λ (l : List Write). P (record io { wrote = l })) (sym (append-nil io.wrote)) h
      append-closed io (w ∷ ws) h =
          subst (λ (l : List Write). P (record io { wrote = l }))
            (append_assoc io.wrote (w ∷ []) ws)
            (append-closed (record io { wrote = io.wrote ++ (w ∷ []) }) ws (closed.on_write io w h))

  perform-Keeps : (a : Action) → Keeps P (perform env c a)
  unfolding perform send_event put_local send_to broadcast broadcast_if
  perform-Keeps (authenticate_as state user) = record {
    at = λ io h. closed.on_authenticate io state user h;
  }
  perform-Keeps (install_key key) = record { at = λ io h. closed.on_key io key h }
  perform-Keeps (set_local key type value) = record { at = λ io h. closed.on_local io _ h }
  perform-Keeps (sends_to sid event payload) =
      messaging-Keeps (λ io. send_to_session env event payload io.sessions sid)
        (λ io. send_to_session-Continues env event payload io.sessions sid io.wrote)
  perform-Keeps (broadcasts event payload) =
      messaging-Keeps (λ io. do_broadcast env event payload io.sessions)
        (λ io. do_broadcast-Continues env event payload io.sessions io.wrote)
  perform-Keeps (broadcasts_if event payload predicate) =
      messaging-Keeps (λ io. broadcast_stored env event payload predicate io.stored io.sessions)
        (λ io.
          broadcast_stored-Continues env event payload predicate io.stored io.sessions io.wrote)
  perform-Keeps (push_event event payload) =
      Keeps-bind get_session _ Keeps-get_session (λ s. Keeps-send_frame _ payload)

  pub perform_all-Keeps : (actions : List Action) → Keeps P (perform_all env c actions)
  unfolding perform_all
  perform_all-Keeps [] = Keeps-pure tt
  perform_all-Keeps (a ∷ as') =
      Keeps-bind (perform env c a) _ (perform-Keeps a) (λ _. perform_all-Keeps as')

  invoke-Keeps : (ctx : Context) (o : Option Handler) → Keeps P (invoke env c ctx o)
  unfolding invoke
  invoke-Keeps ctx none = Keeps-lift (err bad_function_call)
  invoke-Keeps ctx (some handler) =
      Keeps-bind (perform_all env c (handler ctx).0) _ (perform_all-Keeps (handler ctx).0)
        (λ _. Keeps-lift (handler ctx).1)

  run_authenticator-Keeps : (x : List Action × Result Bool) → Keeps P (run_authenticator env c x)
  unfolding run_authenticator
  run_authenticator-Keeps (actions, result) =
      Keeps-bind (perform_all env c actions) _ (perform_all-Keeps actions) (λ _. Keeps-lift result)

  pub permitted-Keeps :
      (authenticate : IAuthenticator) (ep : Endpoint) (ctx : Context)
      → Keeps P (permitted env c authenticate ep ctx)
  unfolding permitted authenticated
  permitted-Keeps authenticate ep ctx =
      Keeps-bind (authenticated env c authenticate ep ctx) _
        (Keeps-if ep.requires_auth _ _ (run_authenticator-Keeps (authenticate ctx))
          (Keeps-pure true))
        (λ b. Keeps-pure _)

  pub call_handler-Keeps : (ep : Endpoint) (ctx : Context) → Keeps P (call_handler env c ep ctx)
  unfolding call_handler
  call_handler-Keeps ep ctx = invoke-Keeps ctx ep.handler
