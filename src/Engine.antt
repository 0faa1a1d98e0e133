-- ===== src/Engine.antt =====
-- src/UringEngine/ClientHandlers.cpp and EngineCore.cpp: connections from accept to close, over the
-- engine's session table and connection count and the server's limits.
-- One step serves one frame to its end; between steps the clients' steps interleave in any order.
pub mod Table
pub mod Count
pub mod Accounting
pub mod Faults
pub mod Loop
pub mod Requests
pub mod Secure
mod Tests
use servd.Base.{
  ℕ, suc, ◌+◌, ◌-◌, ◌^◌, Bool, true, false, not, ◌&&◌, Option, none, some, List, [], ◌∷◌, ◌++◌, ltb,
  leb, ◌==◌, if◌then◌else◌, Map, insert, erase,
}
use servd.Result.{Error, Result, ok, err, store_missing, no_thread_pool}
use servd.Protocol.{ProtocolMode, binary, text, ClientFrame}
use servd.Session.{Session, ISessionStore}
use servd.Exec.{Env, Write, Io}
use servd.Connection.{Connection, tcp_connection, text_connection}
use servd.Access.{Dispatcher}
use servd.Command.{process_command}

-- static_cast<uint64_t>(-1)
abbrev pub no_session : ℕ
no_session = 2 ^ 64 - 1

-- The members of the engine and of the server that a connection touches, with the descriptors that
-- were closed and the bytes that were written. `State` is the session store's.
pub record Engine (State : Type 0) : Type 0 where
  pub sessions : Map ℕ
  pub active_connections : ℕ
  pub max_clients : ℕ
  pub respond_to_clients : Bool
  pub discovery_enabled : Bool
  pub store : Option State
  pub closed : List ℕ
  pub wrote : List Write
  pub draws : ℕ

-- The locals of a client's coroutine.
pub record Client : Type 0 where
  pub fd : ℕ
  pub mode : ProtocolMode
  pub current_sid : ℕ

unfoldable pub connection_of : Client → Connection
connection_of c = elim c.mode [ binary ↦ tcp_connection c.fd | text ↦ text_connection c.fd ]

unfoldable pub register_session : ℕ → ℕ → Map ℕ → Map ℕ
register_session session_id fd sessions = insert session_id fd sessions

unfoldable pub unregister_session : ℕ → Map ℕ → Map ℕ
unregister_session session_id sessions = erase session_id sessions

-- The table after a frame on `sid`, for a client that was on `current`.
unfoldable pub switch_session : ℕ → ℕ → ℕ → Map ℕ → Map ℕ
unfolding register_session unregister_session
switch_session current sid fd sessions =
    if sid == current
    then sessions
    else register_session sid fd
        (if not (current == 0) then unregister_session current sessions else sessions)

-- The call of the disconnect handler on the thread pool; both may throw.
unfoldable pub notify : Option (ℕ → Result (Unit {0})) → Bool → ℕ → Result (Unit {0})
notify none pool sid = ok tt
notify (some handler) pool sid =
    if sid == no_session then ok tt else if pool then handler sid else err no_thread_pool

module _ {State : Type 0} where
  unfoldable pub disable_discovery : Engine State → Engine State
  disable_discovery e = record e { discovery_enabled = false }

  unfoldable pub reenable_discovery : Engine State → Engine State
  reenable_discovery e = record e { discovery_enabled = true }

  -- One round of start_accept_loop on an accepted descriptor; a client that is taken starts at
  -- once.
  unfoldable pub accept_client : Engine State → ℕ → ProtocolMode → Engine State × Option Client
  unfolding disable_discovery
  accept_client e client_fd mode =
      if ltb 0 e.max_clients && leb e.max_clients e.active_connections
      then (
        disable_discovery (record e { respond_to_clients = false; closed = client_fd ∷ e.closed }),
        none,
      )
      else (
        record e { active_connections = e.active_connections + 1 },
        some (record { fd = client_fd; mode = mode; current_sid = no_session }),
      )

  -- The end of handle_client and text_handle_client.
  unfoldable pub release_client : Engine State → ℕ → Engine State
  unfolding reenable_discovery
  release_client e client_fd =
      let left = record e {
        closed = client_fd ∷ e.closed;
        active_connections = e.active_connections - 1;
      } in
      if ltb 0 left.max_clients
        && ltb left.active_connections left.max_clients
        && not left.respond_to_clients
      then reenable_discovery (record left { respond_to_clients = true })
      else left

  unfoldable pub leave_session : Engine State → ℕ → Engine State
  unfolding unregister_session
  leave_session e current_sid =
      if current_sid == no_session
      then e
      else record e { sessions = unregister_session current_sid e.sessions }

  closing : Engine State → ℕ → Result (Unit {0}) → Engine State
  unfolding release_client
  closing e client_fd (ok u) = release_client e client_fd
  closing e client_fd (err x) = e

  -- What handle_client does behind its loop. An exception of the notification ends the coroutine
  -- there: `DetachedTask` drops it.
  unfoldable pub finish_client :
      Option (ℕ → Result (Unit {0})) → Bool → Engine State → Client → Engine State
  unfolding closing leave_session notify
  finish_client handler pool e c =
      closing (leave_session e c.current_sid) c.fd (notify handler pool c.current_sid)

  -- What text_handle_client does behind its loop: it notifies nobody.
  unfoldable pub finish_text_client : Engine State → Client → Engine State
  unfolding leave_session release_client
  finish_text_client e c = release_client (leave_session e c.current_sid) c.fd

-- What a request on a session starts from.
abbrev pub begun : (stores : ISessionStore) → Engine stores.State → stores.State → Session → Io
begun stores e store session = record {
  session = session;
  locals = [];
  wrote = e.wrote;
  draws = e.draws;
  sessions = e.sessions;
  stored = λ k. (stores.get_or_create store k).0;
}

module _ (stores : ISessionStore) (env : Env) (d : Dispatcher) where
  -- The session is saved unless the command threw.
  unfoldable pub saved :
      Engine stores.State → stores.State → Result (Unit {0}) × Io → Engine stores.State
  saved e store (ok u, io) = record e {
    store = some (stores.save store io.session);
    wrote = io.wrote;
    draws = io.draws;
  }
  saved e store (err x, io) = record e { store = some store; wrote = io.wrote; draws = io.draws }

  served :
      Engine stores.State
      → Client
      → ClientFrame
      → Option stores.State
      → Result (Unit {0}) × Engine stores.State × Client
  unfolding saved switch_session
  served e c frame none = (err store_missing, e, c)
  served e c frame (some store) =
      let sid = frame.header.session_id in
      let (session, store') = stores.get_or_create store sid in
      let registered = record e { sessions = switch_session c.current_sid sid c.fd e.sessions } in
      let outcome =
        process_command env d frame (connection_of c) (begun stores registered store' session) in
      (outcome.0, saved registered store' outcome, record c { current_sid = sid })

  -- One round of the loop of handle_client and text_handle_client, on the frame that was read. An
  -- error ends the loop.
  unfoldable pub serve_frame :
      Engine stores.State → Client → ClientFrame → Result (Unit {0}) × Engine stores.State × Client
  unfolding served
  serve_frame e c frame = served e c frame e.store
