-- ===== src/Messaging/Addressed.antt =====
-- Server messages to one session, after its client has entered the session table:
-- src/UringEngine/SessionBroadcast.cpp and ClientHandlers.cpp.
use servd.Base.{ℕ, ◌≡◌, ◌≢◌, some, none, List, [], ◌∷◌, ◌++◌, length, arith, Map, lookup}
use servd.Result.{ok}
use servd.Exec.{Env, SendsAll, Write}
use servd.Engine.{switch_session}
use servd.Engine.Table.{lookup-switch_session}
use servd.Messaging.{send_found, send_to_session}
use servd.Messaging.Delivery.{delivery, write_event_whole}

module _ (env : Env) (command_id : ℕ) (payload : List ℕ) where
  send_found_whole :
      (sid fd : ℕ) (wrote : List Write)
      → SendsAll env
      → send_found env command_id payload sid (some fd) wrote
        ≡ (ok tt, wrote ++ (delivery command_id payload (sid, fd) ∷ []))
  unfolding send_found
  send_found_whole sid fd wrote whole =
      write_event_whole env command_id payload sid fd wrote (λ n. whole (length wrote) n)

  -- Where every write is taken whole, and a client has moved from one session, which is not 0, to
  -- another: a message to the new session is one frame to that client's descriptor, and a message
  -- to the old session is written nowhere and no error.
  pub send_to_session-switch_session :
      (current sid fd : ℕ) (sessions : Map ℕ) (wrote : List Write)
      → SendsAll env
      → sid ≢ current
      → current ≢ 0
      → let moved = switch_session current sid fd sessions in
        (send_to_session env command_id payload moved sid wrote
          ≡ (ok tt, wrote ++ (delivery command_id payload (sid, fd) ∷ [])))
        × (send_to_session env command_id payload moved current wrote ≡ (ok tt, wrote))
  unfolding send_to_session send_found
  send_to_session-switch_session current sid fd sessions wrote whole other named =
      let moved = switch_session current sid fd sessions in
      let new : lookup sid moved ≡ some fd =
        rw (lookup-switch_session sid current sid fd sessions) (ground arith) in
      let old : lookup current moved ≡ none =
        rw (lookup-switch_session current current sid fd sessions) (ground arith) in
      (rw new (send_found_whole sid fd wrote whole), rw old)
