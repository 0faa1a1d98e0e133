-- ===== src/Access.antt =====
-- What CommandRoute.cpp and EncryptedHandler.cpp of src/UringEngine share: the test of an endpoint's
-- requirements, and the call of its handler with what it does through its context.
pub mod Guard
pub mod Keeping
pub mod Messages
use servd.Base.{
  ℕ, Bool, true, false, not, ◌&&◌, ◌||◌, Option, none, some, List, [], ◌∷◌, length, if◌then◌else◌,
  Map,
}
use servd.Result
use servd.Result.{Result, ok, err, bad_function_call}
use servd.Protocol.{TransportType, any, tcp, udp, unix, FrameHeader, ResponseFrame}
use servd.Session.{Session, set_authenticated, set_aes_key}
use servd.Context.{
  Context, Action, authenticate_as, install_key, push_event, set_local, sends_to, broadcasts,
  broadcasts_if, Handler, IAuthenticator, represented,
}
use servd.Context.Bag.{set}
use servd.Messaging.{and_then, write_event, send_to_session, do_broadcast}
use servd.Router.{Endpoint, Router}
use servd.Exec.{Env, Write, Exec, pure, lift, ◌>>=◌, ◌>>◌, get_session, put_session}
use servd.Connection.{Connection, send_frame, u32}

-- The server's members that a command reads.
pub record Dispatcher : Type 0 where
  pub router : Router
  pub authenticate : IAuthenticator

unfoldable pub transport_eq : TransportType → TransportType → Bool
transport_eq any any = true
transport_eq tcp tcp = true
transport_eq udp udp = true
transport_eq unix unix = true
transport_eq _ _ = false

-- Context::push_event
unfoldable pub send_event : Env → Connection → ℕ → List ℕ → Exec (Unit {0})
send_event env connection event_command_id payload = do
  session ← get_session
  send_frame env connection
      (record {
        command_id = event_command_id;
        flags = 0;
        payload_length = u32 (length payload);
        session_id = session.id;
      })
      payload

-- Context::set
put_local : List ℕ → List ℕ → List ℕ → Exec (Unit {0})
put_local key type value io =
    (ok tt, record io { locals = set represented type key value io.locals })

-- A server message, which only appends to the log of writes.
abbrev pub messaging : (List Write → Result (Unit {0}) × List Write) → Exec (Unit {0})
messaging message io = let (r, wrote) = message io.wrote in (r, record io { wrote = wrote })

-- Server::send_to
send_to : Env → ℕ → ℕ → List ℕ → Exec (Unit {0})
send_to env sid event payload io = messaging (send_to_session env event payload io.sessions sid) io

-- Server::broadcast
broadcast : Env → ℕ → List ℕ → Exec (Unit {0})
broadcast env event payload io = messaging (do_broadcast env event payload io.sessions) io

-- The loop of do_broadcast_if, on what the store has: reading it changes none of its sessions.
unfoldable pub broadcast_stored :
    Env
    → ℕ
    → List ℕ
    → (Session → Bool)
    → (ℕ → Session)
    → Map ℕ
    → List Write
    → Result (Unit {0}) × List Write
broadcast_stored env event payload predicate stored [] wrote = (ok tt, wrote)
broadcast_stored env event payload predicate stored ((sid, fd) ∷ rest) wrote =
    let sent : Result (Unit {0}) × List Write =
      and_then (write_event env event payload sid fd wrote)
        (λ w. broadcast_stored env event payload predicate stored rest w) (λ e w. (err e, w)) in
    let skipped = broadcast_stored env event payload predicate stored rest wrote in
    if predicate (stored sid) then sent else skipped

-- Server::broadcast_if
broadcast_if : Env → ℕ → List ℕ → (Session → Bool) → Exec (Unit {0})
broadcast_if env event payload predicate io =
    messaging (broadcast_stored env event payload predicate io.stored io.sessions) io

unfoldable pub perform : Env → Connection → Action → Exec (Unit {0})
unfolding send_event put_local send_to broadcast broadcast_if
perform env connection (authenticate_as state user) = do
  session ← get_session
  put_session (set_authenticated session state user)
perform env connection (install_key key) = do
  session ← get_session
  put_session (set_aes_key session key)
perform env connection (push_event event payload) = send_event env connection event payload
perform env connection (set_local key type value) = put_local key type value
perform env connection (sends_to sid event payload) = send_to env sid event payload
perform env connection (broadcasts event payload) = broadcast env event payload
perform env connection (broadcasts_if event payload predicate) =
    broadcast_if env event payload predicate

unfoldable pub perform_all : Env → Connection → List Action → Exec (Unit {0})
unfolding perform
perform_all env connection [] = pure tt
perform_all env connection (a ∷ as') = do perform env connection a; perform_all env connection as'

-- A null handler throws std::bad_function_call.
invoke : Env → Connection → Context → Option Handler → Exec ResponseFrame
unfolding perform_all
invoke env connection ctx none = lift (err bad_function_call)
invoke env connection ctx (some handler) =
    let (actions, result) = handler ctx in do perform_all env connection actions; lift result

-- endpoint->handler(ctx)
unfoldable pub call_handler : Env → Connection → Endpoint → Context → Exec ResponseFrame
unfolding invoke
call_handler env connection endpoint ctx = invoke env connection ctx endpoint.handler

module _ (env : Env) (connection : Connection) where
  -- authenticator_->authenticate(ctx), which may change the session and the bag before it answers.
  run_authenticator : List Action × Result Bool → Exec Bool
  unfolding perform_all
  run_authenticator (actions, result) = do perform_all env connection actions; lift result

  unfoldable pub authenticated : IAuthenticator → Endpoint → Context → Exec Bool
  unfolding run_authenticator
  authenticated authenticate endpoint ctx =
      if endpoint.requires_auth then run_authenticator (authenticate ctx) else pure true

  -- The condition `ok`: the transport is tested behind the authenticator, which may throw.
  unfoldable pub permitted : IAuthenticator → Endpoint → Context → Exec Bool
  unfolding authenticated transport_eq
  permitted authenticate endpoint ctx = do
    confirmed ← authenticated authenticate endpoint ctx
    pure (
        confirmed
        && (transport_eq endpoint.allowed_transport any
            || transport_eq endpoint.allowed_transport ctx.transport))

-- The context behind the authenticator: it refers to the session, and the bag is its own.
unfoldable pub refreshed : Context → Exec Context
refreshed ctx io = (ok (record ctx { session = io.session; locals = io.locals }), io)
