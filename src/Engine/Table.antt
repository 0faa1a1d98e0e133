-- ===== src/Engine/Table.antt =====
-- The session table of src/UringEngine/ClientHandlers.cpp and EngineCore.cpp.
use servd.Base.{
  ℕ, ◌≡◌, refl, not, ◌&&◌, none, some, arith, ◌==◌, if◌then◌else◌, Map, lookup, erase,
  lookup-insert, lookup-erase, Option-cases, inl, inr,
}
use servd.Result.{Result, ok, err}
use servd.Protocol.{ClientFrame}
use servd.Session.{ISessionStore}
use servd.Exec.{Env, Io}
use servd.Access.{Dispatcher}
use servd.Command.{process_command}
use servd.Engine.{
  begun, Engine, Client, connection_of, switch_session, register_session, unregister_session, saved,
  serve_frame,
}

-- The session table after a frame: a frame on the client's current session changes nothing; any
-- other is entered under the client's descriptor, the session that the client left is removed
-- unless it is session 0, and every other entry is as it was.
pub lookup-switch_session :
    (j current sid fd : ℕ) (sessions : Map ℕ)
    → lookup j (switch_session current sid fd sessions) ≡ (
        if sid == current
        then lookup j sessions
        else if sid == j
        then some fd
        else if not (current == 0) && (current == j)
        then none
        else lookup j sessions)
unfolding switch_session register_session unregister_session
lookup-switch_session j current sid fd sessions = ground (
  arith,
  lookup-insert j sid fd (erase current sessions),
  lookup-insert j sid fd sessions,
  lookup-erase j current sessions,
)

-- The fields that saving a session leaves alone.
pub record Steady {State : Type 0} (e e' : Engine State) : Type 0 where
  pub sessions : e'.sessions ≡ e.sessions
  pub active_connections : e'.active_connections ≡ e.active_connections
  pub max_clients : e'.max_clients ≡ e.max_clients
  pub respond_to_clients : e'.respond_to_clients ≡ e.respond_to_clients

abbrev pub registered_engine :
    (stores : ISessionStore) → Engine stores.State → Client → ClientFrame → Engine stores.State
registered_engine stores e c frame = record e {
  sessions = switch_session c.current_sid frame.header.session_id c.fd e.sessions;
}

pub saved_keeps :
    (stores : ISessionStore) (env : Env) (d : Dispatcher) (e : Engine stores.State)
    (store : stores.State) (outcome : Result (Unit {0}) × Io)
    → Steady e (saved stores env d e store outcome)
unfolding saved
saved_keeps stores env d e store (ok u, io) = record {
  sessions = refl;
  active_connections = refl;
  max_clients = refl;
  respond_to_clients = refl;
}
saved_keeps stores env d e store (err x, io) = record {
  sessions = refl;
  active_connections = refl;
  max_clients = refl;
  respond_to_clients = refl;
}

-- Serving a frame, with or without a store, leaves the connection count and the limits alone.
pub serve_frame_limits :
    (stores : ISessionStore) (env : Env) (d : Dispatcher) (e : Engine stores.State) (c : Client)
    (frame : ClientFrame)
    → let e' = (serve_frame stores env d e c frame).1 in
      (e'.active_connections ≡ e.active_connections)
      × (e'.max_clients ≡ e.max_clients)
      × (e'.respond_to_clients ≡ e.respond_to_clients)
unfolding serve_frame
serve_frame_limits stores env d e c frame = elim (Option-cases e.store) [
  | inl missing ↦ rw missing (refl, refl, refl)
  | inr (store, there) ↦
      let (session, store') = stores.get_or_create store frame.header.session_id in
      let kept = saved_keeps stores env d (registered_engine stores e c frame) store' (
        process_command env d frame (connection_of c)
          (begun stores (registered_engine stores e c frame) store' session)) in
      rw there (kept.active_connections, kept.max_clients, kept.respond_to_clients)
]

-- Serving a frame changes the session table as `switch_session` says and leaves the connection
-- count alone, whether the command throws or not, and then the client is on the frame's session.
pub serve_frame_table :
    (stores : ISessionStore) (env : Env) (d : Dispatcher) (e : Engine stores.State) (c : Client)
    (frame : ClientFrame) (store : stores.State)
    → e.store ≡ some store
    → let after = serve_frame stores env d e c frame in
      (after.1.sessions ≡ switch_session c.current_sid frame.header.session_id c.fd e.sessions)
      × (after.1.active_connections ≡ e.active_connections)
      × (after.2.current_sid ≡ frame.header.session_id)
      × (after.2.fd ≡ c.fd)
unfolding serve_frame
serve_frame_table stores env d e c frame store there =
    let (session, store') = stores.get_or_create store frame.header.session_id in
    let registered = registered_engine stores e c frame in
    let kept = saved_keeps stores env d registered store' (
      process_command env d frame (connection_of c)
        (begun stores (registered_engine stores e c frame) store' session)) in
    rw there (kept.sessions, kept.active_connections, refl, refl)
