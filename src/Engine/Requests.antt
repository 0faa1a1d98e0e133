-- ===== src/Engine/Requests.antt =====
-- One request on a session of the store: src/UringEngine/ClientHandlers.cpp.
use servd.Base.{ℕ, ◌≡◌, refl, subst, some}
use servd.Result.{ok}
use servd.Protocol.{ClientFrame}
use servd.Session.{Session, ISessionStore}
use servd.Exec.{Env, Io}
use servd.Access.{Dispatcher}
use servd.Command.{process_command}
use servd.Engine.{Engine, Client, begun, connection_of, switch_session, serve_frame}
use servd.Engine.Table.{registered_engine}

pub connection_moved :
    (c : Client) (sid : ℕ) → connection_of (record c { current_sid = sid }) ≡ connection_of c
unfolding connection_of
connection_moved c sid = refl

module _ (stores : ISessionStore) (env : Env) (d : Dispatcher) where
  -- The engine after a command that returned with `io`.
  abbrev pub after_command :
      Engine stores.State → Client → ℕ → stores.State → Io → Engine stores.State
  after_command e c sid store io = record e {
    sessions = switch_session c.current_sid sid c.fd e.sessions;
    store = some (stores.save store io.session);
    wrote = io.wrote;
    draws = io.draws;
  }

  pub serve_frame_returns :
      (e : Engine stores.State) (c : Client) (frame : ClientFrame) (store : stores.State) (io : Io)
      → e.store ≡ some store
      → let sid = frame.header.session_id in
        let (session, store') = stores.get_or_create store sid in
        process_command env d frame
            (connection_of c)
            (begun stores (registered_engine stores e c frame) store' session)
          ≡ (ok tt, io)
        → serve_frame stores env d e c frame
          ≡ (ok tt, after_command e c sid store' io, record c { current_sid = sid })
  unfolding serve_frame
  serve_frame_returns e c frame store io there runs = rw (there, runs)

  -- A saved session comes back.
  pub session_saved :
      (store : stores.State) (x : Session) (sid : ℕ)
      → x.id ≡ sid
      → (stores.get_or_create (stores.save store x) sid).0 ≡ x
  session_saved store x sid same =
      subst (λ k. (stores.get_or_create (stores.save store x) k).0 ≡ x) same
        (stores.get-save_self store x)
