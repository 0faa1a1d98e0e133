-- ===== src/Engine/Faults.antt =====
-- The ends of connections in src/UringEngine/ClientHandlers.cpp: what they leave behind.
use servd.Base.{
  ℕ, ◌≤◌, ◌<◌, ◌≡◌, ◌≢◌, refl, true, false, not, ◌&&◌, none, some, ◌∷◌, arith, ◌==◌, if◌then◌else◌,
  Map, lookup, lookup-erase,
}
use servd.Result.{Result}
use servd.Engine.{
  Engine, Client, no_session, switch_session, unregister_session, finish_client, finish_text_client,
  leave_session, release_client,
}
use servd.Engine.Table.{lookup-switch_session}

sessions-release_client :
    {State : Type 0} (e : Engine State) (fd : ℕ) → (release_client e fd).sessions ≡ e.sessions
unfolding release_client
sessions-release_client e fd = ground arith

closed-finish_text_client :
    {State : Type 0} (e : Engine State) (c : Client)
    → (finish_text_client e c).closed ≡ c.fd ∷ e.closed
unfolding finish_text_client leave_session release_client
closed-finish_text_client e c = ground arith

-- The table after a text client has left: only its current session is gone.
pub lookup-finish_text_client :
    {State : Type 0} (e : Engine State) (c : Client) (j : ℕ)
    → lookup j (finish_text_client e c).sessions ≡ (
        if not (c.current_sid == no_session) && (c.current_sid == j)
        then none
        else lookup j e.sessions)
unfolding finish_text_client leave_session unregister_session
lookup-finish_text_client e c j =
    rw (sessions-release_client (leave_session e c.current_sid) c.fd)
      (ground (arith, lookup-erase j c.current_sid e.sessions))

-- A client that moves from session 0 to another and then leaves is still entered under session 0,
-- with a descriptor that is closed.
stale_session_zero :
    {State : Type 0} (e : Engine State) (c : Client) (sid : ℕ) (sessions : Map ℕ)
    → e.sessions ≡ switch_session 0 sid c.fd sessions
    → c.current_sid ≡ sid
    → sid ≢ 0
    → lookup 0 sessions ≡ some c.fd
    → (lookup 0 (finish_text_client e c).sessions ≡ some c.fd)
      × ((finish_text_client e c).closed ≡ c.fd ∷ e.closed)
stale_session_zero e c sid sessions table current moved zero = (
  rw (lookup-finish_text_client e c 0, table, lookup-switch_session 0 0 sid c.fd sessions, current)
      (ground arith),
  closed-finish_text_client e c,
)

-- Of two clients on one session, the table entry of the one that stays is removed when the other
-- leaves, whatever its descriptor.
pub shared_session_lost :
    {State : Type 0} (e : Engine State) (leaving staying : Client)
    → leaving.current_sid ≡ staying.current_sid
    → leaving.current_sid ≢ no_session
    → lookup staying.current_sid e.sessions ≡ some staying.fd
    → lookup staying.current_sid (finish_text_client e leaving).sessions ≡ none
shared_session_lost e leaving staying same real entered =
    rw (lookup-finish_text_client e leaving staying.current_sid) (ground arith)

-- With a disconnect handler and no thread pool, a client that was on a session leaves without its
-- descriptor being closed and without being taken off the connection count.
unnotified_leak :
    {State : Type 0} (handler : ℕ → Result (Unit {0})) (e : Engine State) (c : Client)
    → c.current_sid ≢ no_session
    → ((finish_client (some handler) false e c).active_connections ≡ e.active_connections)
      × ((finish_client (some handler) false e c).closed ≡ e.closed)
      × (lookup c.current_sid (finish_client (some handler) false e c).sessions ≡ none)
unfolding finish_client
unnotified_leak handler e c real =
    let off : (c.current_sid == no_session) ≡ false = ground arith in
    rw off (refl, refl, rw (lookup-erase c.current_sid c.current_sid e.sessions) (ground arith))

-- A server with a client limit that was told not to answer discovery starts to answer, and has
-- discovery enabled, as soon as a client leaves.
pub discovery_forced_on :
    {State : Type 0} (e : Engine State) (fd : ℕ)
    → e.respond_to_clients ≡ false
    → 0 < e.active_connections
    → 0 < e.max_clients
    → e.active_connections ≤ e.max_clients
    → ((release_client e fd).respond_to_clients ≡ true)
      × ((release_client e fd).discovery_enabled ≡ true)
unfolding release_client
discovery_forced_on e fd off some_client limited capped = ground arith
