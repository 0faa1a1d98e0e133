-- ===== src/Messaging.antt =====
-- src/UringEngine/SessionBroadcast.cpp behind src/serveur/ServerMessaging.cpp: frames that the
-- server sends on its own account. The iteration order of the session table is that of the list.
pub mod Delivery
pub mod Addressed
mod Tests
use servd.Base.{
  ℕ, Bool, true, false, Option, none, some, List, [], ◌∷◌, ◌++◌, length, if◌then◌else◌, Map, lookup,
}
use servd.Result.{Error, Result, ok, err}
use servd.Protocol.{FrameHeader}
use servd.Session.{Session, ISessionStore}
use servd.Exec.{Env, Write, to_fd}
use servd.Connection.{kernel_send, binary_frame, u32}

-- The header of a server message.
unfoldable pub event_header : ℕ → ℕ → List ℕ → FrameHeader
event_header command_id sid payload = record {
  command_id = command_id;
  flags = 0;
  payload_length = u32 (length payload);
  session_id = sid;
}

unfoldable pub discard : {A B : Type 0} → Result A → B → Result (Unit {0}) × B
discard (ok a) b = (ok tt, b)
discard (err e) b = (err e, b)

-- What follows a write: the rest of the loop, unless the write threw.
unfoldable pub and_then :
    {B : Type 0} → Result (Unit {0}) × List Write → (List Write → B) → (Error → List Write → B) → B
and_then (ok u, wrote) go stop = go wrote
and_then (err e, wrote) go stop = stop e wrote

module _ (env : Env) (command_id : ℕ) (payload : List ℕ) where
  -- One frame to a descriptor, in binary whatever protocol the client speaks.
  unfoldable pub write_event : ℕ → ℕ → List Write → Result (Unit {0}) × List Write
  unfolding event_header discard
  write_event sid fd wrote =
      let (result, wrote') =
        kernel_send env (to_fd fd) (binary_frame (event_header command_id sid payload) payload)
          wrote in
      discard result wrote'

  unfoldable pub send_found : ℕ → Option ℕ → List Write → Result (Unit {0}) × List Write
  unfolding write_event
  send_found session_id none wrote = (ok tt, wrote)
  send_found session_id (some fd) wrote = write_event session_id fd wrote

  unfoldable pub send_to_session : Map ℕ → ℕ → List Write → Result (Unit {0}) × List Write
  unfolding send_found
  send_to_session sessions session_id wrote =
      send_found session_id (lookup session_id sessions) wrote

  -- The loop over the snapshot; an exception leaves it.
  unfoldable pub do_broadcast : Map ℕ → List Write → Result (Unit {0}) × List Write
  unfolding and_then
  do_broadcast [] wrote = (ok tt, wrote)
  do_broadcast ((sid, fd) ∷ rest) wrote =
      and_then (write_event sid fd wrote) (λ w. do_broadcast rest w) (λ e w. (err e, w))

  module _ (stores : ISessionStore) (predicate : Session → Bool) where
    -- The store is read for every session, also for those that the predicate refuses.
    unfoldable pub broadcast_if_loop :
        Map ℕ → stores.State → List Write → Result (Unit {0}) × stores.State × List Write
    unfolding and_then
    broadcast_if_loop [] store wrote = (ok tt, store, wrote)
    broadcast_if_loop ((sid, fd) ∷ rest) store wrote =
        let (session, store') = stores.get_or_create store sid in
        let sent : Result (Unit {0}) × stores.State × List Write =
          and_then (write_event sid fd wrote) (λ w. broadcast_if_loop rest store' w)
            (λ e w. (err e, store', w)) in
        let skipped = broadcast_if_loop rest store' wrote in
        if predicate session then sent else skipped

    -- Without a store every session is passed over.
    unfoldable pub do_broadcast_if :
        Map ℕ
        → Option stores.State
        → List Write
        → Result (Unit {0}) × Option stores.State × List Write
    unfolding broadcast_if_loop
    do_broadcast_if sessions none wrote = (ok tt, none, wrote)
    do_broadcast_if sessions (some store) wrote =
        let (result, store', wrote') = broadcast_if_loop sessions store wrote in
        (result, some store', wrote')
