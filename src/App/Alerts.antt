-- ===== src/App/Alerts.antt =====
-- Who gets the alert of src/app/main.cpp.
use mathlib.Core.List.{map-append}
use servd.Base.{
  ℕ, ◌≡◌, ◌≢◌, refl, sym, ap, ◌∙◌, true, false, inl, inr, some, List, [], ◌∷◌, ◌++◌, map, arith,
  Bool, Bool-cases, ◌==◌, Map, lookup,
}
use servd.Result.{ok}
use servd.Protocol.{tcp, ClientFrame}
use servd.Session.{Session, set_authenticated, ISessionStore}
use servd.Context.{authenticate_as}
use servd.Router.{Endpoint, get, is_valid, tcp_only, default_endpoint, empty_router}
use servd.Exec.{Env, SendsAll, Write, Io}
use servd.Connection.{Connection, transport_type, udp_connection}
use servd.Access.{perform, perform_all, permitted, authenticated, refreshed}
use servd.Command.{handle_normal_command, process_command}
use servd.Command.Reply.{handle_normal_command_replies}
use servd.Messaging.Delivery.{delivery, chosen, do_broadcast_if_delivers}
use servd.Engine.{begun, Engine, Client, connection_of, switch_session, serve_frame}
use servd.Engine.Table.{registered_engine, lookup-switch_session}
use servd.Engine.Requests.{serve_frame_returns, session_saved}
use servd.App.{
  cmd_login, cmd_sys_alert, login, commands, app, codes, alert, is_authenticated, sys_alert,
}

abbrev pub login_frame : ℕ → ℕ → ℕ → List ℕ → ClientFrame
login_frame sid flags size payload = record {
  header = record {
    command_id = cmd_login;
    flags = flags;
    payload_length = size;
    session_id = sid;
  };
  payload = payload;
}

abbrev login_endpoint : Endpoint
login_endpoint = record { handler = some login; requires_auth = false; allowed_transport = tcp }

login_route : get app.router cmd_login ≡ some login_endpoint
unfolding get app commands is_valid tcp_only empty_router default_endpoint
login_route = refl

transport_type-connection_of : (c : Client) → transport_type (connection_of c) ≡ tcp
unfolding transport_type connection_of
transport_type-connection_of c = ground arith

-- An entry of the table whose session satisfies the predicate is among those that are chosen.
chosen_entry :
    (env : Env) (stores : ISessionStore) (predicate : Session → Bool) (store : stores.State)
    (sessions : Map ℕ) (sid fd : ℕ)
    → lookup sid sessions ≡ some fd
    → predicate (stores.get_or_create store sid).0 ≡ true
    → (before : Map ℕ) × (after : Map ℕ) × (chosen env cmd_sys_alert alert stores predicate store
          sessions
        ≡ before ++ ((sid, fd) ∷ after))
unfolding lookup
chosen_entry env stores predicate store [] sid fd h good = absurd (cc h)
chosen_entry env stores predicate store ((j, k) ∷ rest) sid fd h good =
    elim (Bool-cases (j == sid)) [
      | inl here ↦
          let same : j ≡ sid = ground arith in
          let to : k ≡ fd = ground arith in
          let first : predicate (stores.get_or_create store j).0 ≡ true = rw same good in
          (
            [],
            chosen env cmd_sys_alert alert stores predicate store rest,
            rw first (
                ap (λ (x : ℕ × ℕ). x ∷ chosen env cmd_sys_alert alert stores predicate store rest)
                  (λ i. (same i, to i))),
          )
      | inr further ↦
          let below : lookup sid rest ≡ some fd = rw further at h in
          let (before, after, e) = chosen_entry env stores predicate store rest sid fd below good in
          elim (Bool-cases (predicate (stores.get_or_create store j).0)) [
            | inl taken ↦ ((j, k) ∷ before, after, rw taken (ap (λ (m : Map ℕ). (j, k) ∷ m) e))
            | inr passed ↦ (before, after, rw passed e)
          ]
    ]

-- A login on a session, and the alert that follows it: the login returns, the session is
-- authenticated, and the alert is written to the client's descriptor, under its session.
abbrev pub LoggedIn :
    (env : Env) (stores : ISessionStore)
    → Engine stores.State
    → Client
    → ℕ
    → ℕ
    → ℕ
    → List ℕ
    → Type 0
LoggedIn env stores e c sid flags size payload =
    let first = serve_frame stores env app e c (login_frame sid flags size payload) in
    (first.0 ≡ ok tt)
    × (store' : stores.State) × (first.1.store ≡ some store')
    × ((stores.get_or_create store' sid).0.authenticated ≡ true)
    × (before : List Write) × (after : List Write) × ((sys_alert env stores first.1.sessions
          first.1.store first.1.wrote).0
        ≡ ok tt)
    × ((sys_alert env stores first.1.sessions first.1.store first.1.wrote).2
        ≡ first.1.wrote ++ (before ++ (delivery cmd_sys_alert alert (sid, c.fd) ∷ after)))

-- The login of a client over TCP, in either protocol.
module _ (env : Env) (whole : SendsAll env) where
  -- What the handler did to the session.
  abbrev logged_in : Session → Session
  logged_in session = set_authenticated session true (codes "SuperAdmin")

  process_command-login_frame :
      (c : Connection) (io : Io) (sid flags size : ℕ) (payload : List ℕ)
      → transport_type c ≡ tcp
      → (w : Write) × (process_command env app (login_frame sid flags size payload) c io
          ≡ (ok tt, record io { session = logged_in io.session; wrote = io.wrote ++ (w ∷ []) }))
  unfolding process_command login perform_all perform
  process_command-login_frame c io sid flags size payload over_tcp = (
    _,
    handle_normal_command_replies env app (login_frame sid flags size payload) c io login_endpoint
        login (authenticate_as true (codes "SuperAdmin") ∷ []) (record { flags = 0; payload = [] })
        whole login_route (inl refl, inr (sym over_tcp)) refl refl,
  )

  -- Where writes are taken whole: a client that logs in, on a session that it was not on, has its
  -- session authenticated, and the alert that follows is written to its descriptor, under its
  -- session.
  pub login_then_alert :
      (stores : ISessionStore) (e : Engine stores.State) (c : Client) (store : stores.State)
      (sid flags size : ℕ) (payload : List ℕ)
      → e.store ≡ some store
      → stores.IsValid store
      → sid ≢ c.current_sid
      → LoggedIn env stores e c sid flags size payload
  unfolding sys_alert is_authenticated set_authenticated
  login_then_alert stores e c store sid flags size payload there valid fresh =
      let (session, store') = stores.get_or_create store sid in
      let named = stores.id-get_or_create store sid valid in
      let io =
        begun stores (registered_engine stores e c (login_frame sid flags size payload)) store'
          session in
      let (w, runs) =
        process_command-login_frame (connection_of c) io sid flags size payload
          (transport_type-connection_of c) in
      let saved = logged_in session in
      let store'' = stores.save store' saved in
      let wrote = e.wrote ++ (w ∷ []) in
      let sessions = switch_session c.current_sid sid c.fd e.sessions in
      let back = session_saved stores env app store' saved sid named in
      let table : lookup sid sessions ≡ some c.fd =
        ground (arith, lookup-switch_session sid c.current_sid sid c.fd e.sessions) in
      let (before, after, entry) =
        chosen_entry env stores is_authenticated store'' sessions sid c.fd table
          (ap (λ (x : Session). x.authenticated) back) in
      let (good, written) =
        do_broadcast_if_delivers env cmd_sys_alert alert stores is_authenticated sessions store''
          wrote whole in
      rw
        (serve_frame_returns stores env app e c (login_frame sid flags size payload) store
          (record io { session = saved; wrote = wrote }) there runs)
        (
          refl,
          store'',
          refl,
          ap (λ (x : Session). x.authenticated) back,
          map (delivery cmd_sys_alert alert) before,
          map (delivery cmd_sys_alert alert) after,
          good,
          written
              ∙ ap (λ (m : Map ℕ). wrote ++ map (delivery cmd_sys_alert alert) m) entry
              ∙ ap (λ l. wrote ++ l)
                  (map-append (delivery cmd_sys_alert alert) before ((sid, c.fd) ∷ after)),
        )

-- Over UDP a login changes nothing: no session is authenticated, and nothing is sent.
login_refused_on_udp :
    (env : Env) (io : Io) (fd addr sid flags size : ℕ) (payload : List ℕ)
    → process_command env app (login_frame sid flags size payload) (udp_connection fd addr) io
      ≡ (ok tt, io)
unfolding process_command handle_normal_command permitted authenticated refreshed transport_type get
    app commands is_valid tcp_only empty_router default_endpoint
login_refused_on_udp env io fd addr sid flags size payload = refl
