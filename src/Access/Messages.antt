-- ===== src/Access/Messages.antt =====
-- Server messages that a handler sends (src/UringEngine/SessionBroadcast.cpp): they only append to
-- the log of writes, and return where writes are taken whole.
use servd.Base.{
  ℕ, ◌≡◌, refl, sym, ap, ◌∙◌, Bool, Bool-cases, inl, inr, Option, none, some, List, [], ◌∷◌, ◌++◌,
  append-nil, append_assoc, Map, lookup,
}
use servd.Result.{Result, ok, err}
use servd.Session.{Session, ISessionStore}
use servd.Exec.{Env, SendsAll, Write}
use servd.Connection.{kernel_send}
use servd.Messaging.{
  and_then, discard, write_event, send_found, send_to_session, do_broadcast, broadcast_if_loop,
}
use servd.Messaging.Delivery.{write_event_whole, do_broadcast_delivers}
use servd.Access.{broadcast_stored}

-- `after` is a log that continues `before`.
abbrev pub Continues : List Write → List Write → Type 0
Continues before after = (more : List Write) × (after ≡ before ++ more)

Continues-refl : (ws : List Write) → Continues ws ws
Continues-refl ws = ([], sym (append-nil ws))

Continues-trans : (us vs ws : List Write) → Continues us vs → Continues vs ws → Continues us ws
Continues-trans us vs ws (a, ea) (b, eb) = (a ++ b, eb ∙ ap (λ l. l ++ b) ea ∙ append_assoc us a b)

log-discard : {A B : Type 0} (r : Result A) (b : B) → (discard r b).1 ≡ b
unfolding discard
log-discard (ok a) b = refl
log-discard (err e) b = refl

module _ (env : Env) (event : ℕ) (payload : List ℕ) where
  write_event-Continues :
      (sid fd : ℕ) (wrote : List Write)
      → Continues wrote (write_event env event payload sid fd wrote).1
  unfolding write_event kernel_send
  write_event-Continues sid fd wrote = (_, log-discard _ _)

  and_then-Continues :
      (r : Result (Unit {0}) × List Write) (go : List Write → Result (Unit {0}) × List Write)
      (wrote : List Write)
      → Continues wrote r.1
      → ((w : List Write) → Continues w (go w).1)
      → Continues wrote (and_then r go (λ e w. (err e, w))).1
  unfolding and_then
  and_then-Continues (ok u, w) go wrote h hg = Continues-trans wrote w (go w).1 h (hg w)
  and_then-Continues (err e, w) go wrote h hg = h

  send_found-Continues :
      (sid : ℕ) (o : Option ℕ) (wrote : List Write)
      → Continues wrote (send_found env event payload sid o wrote).1
  unfolding send_found
  send_found-Continues sid none wrote = Continues-refl wrote
  send_found-Continues sid (some fd) wrote = write_event-Continues sid fd wrote

  pub send_to_session-Continues :
      (sessions : Map ℕ) (sid : ℕ) (wrote : List Write)
      → Continues wrote (send_to_session env event payload sessions sid wrote).1
  unfolding send_to_session
  send_to_session-Continues sessions sid wrote =
      send_found-Continues sid (lookup sid sessions) wrote

  pub do_broadcast-Continues :
      (sessions : Map ℕ) (wrote : List Write)
      → Continues wrote (do_broadcast env event payload sessions wrote).1
  unfolding do_broadcast
  do_broadcast-Continues [] wrote = Continues-refl wrote
  do_broadcast-Continues ((sid, fd) ∷ rest) wrote =
      and_then-Continues (write_event env event payload sid fd wrote) _ wrote
        (write_event-Continues sid fd wrote) (do_broadcast-Continues rest)

  module _ (predicate : Session → Bool) (stored : ℕ → Session) where
    pub broadcast_stored-Continues :
        (sessions : Map ℕ) (wrote : List Write)
        → Continues wrote (broadcast_stored env event payload predicate stored sessions wrote).1
    unfolding broadcast_stored
    broadcast_stored-Continues [] wrote = Continues-refl wrote
    broadcast_stored-Continues ((sid, fd) ∷ rest) wrote =
        elim (Bool-cases (predicate (stored sid))) [
          | inl taken ↦ rw taken (
              and_then-Continues (write_event env event payload sid fd wrote) _ wrote
                (write_event-Continues sid fd wrote) (broadcast_stored-Continues rest))
          | inr passed ↦ rw passed (broadcast_stored-Continues rest wrote)
        ]

  module _ (whole : SendsAll env) where
    send_found_ok :
        (sid : ℕ) (o : Option ℕ) (wrote : List Write)
        → (send_found env event payload sid o wrote).0 ≡ ok tt
    unfolding send_found
    send_found_ok sid none wrote = refl
    send_found_ok sid (some fd) wrote =
        rw (write_event_whole env event payload sid fd wrote (λ n. whole _ n))

    pub send_to_session_ok :
        (sessions : Map ℕ) (sid : ℕ) (wrote : List Write)
        → (send_to_session env event payload sessions sid wrote).0 ≡ ok tt
    unfolding send_to_session
    send_to_session_ok sessions sid wrote = send_found_ok sid (lookup sid sessions) wrote

    pub do_broadcast_ok :
        (sessions : Map ℕ) (wrote : List Write)
        → (do_broadcast env event payload sessions wrote).0 ≡ ok tt
    do_broadcast_ok sessions wrote =
        rw (do_broadcast_delivers env event payload sessions wrote whole)

    pub broadcast_stored_ok :
        (predicate : Session → Bool) (stored : ℕ → Session) (sessions : Map ℕ) (wrote : List Write)
        → (broadcast_stored env event payload predicate stored sessions wrote).0 ≡ ok tt
    unfolding broadcast_stored and_then
    broadcast_stored_ok predicate stored [] wrote = refl
    broadcast_stored_ok predicate stored ((sid, fd) ∷ rest) wrote =
        elim (Bool-cases (predicate (stored sid))) [
          | inl taken ↦
              rw (taken, write_event_whole env event payload sid fd wrote (λ n. whole _ n))
                (broadcast_stored_ok predicate stored rest _)
          | inr passed ↦ rw passed (broadcast_stored_ok predicate stored rest wrote)
        ]

sent_stored :
    {S : Type 0} (r : Result (Unit {0}) × List Write) (store : S)
    (go : List Write → Result (Unit {0}) × S × List Write)
    (go' : List Write → Result (Unit {0}) × List Write)
    → ((w : List Write) → ((go w).0, (go w).2) ≡ go' w)
    → let x = and_then r go (λ e w. (err e, store, w)) in
      (x.0, x.2) ≡ and_then r go' (λ e w. (err e, w))
unfolding and_then
sent_stored (ok u, w) store go go' h = h w
sent_stored (err e, w) store go go' h = refl

-- The loop of a handler's broadcast is that of do_broadcast_if, on any store.
broadcast_if_loop_stored :
    (env : Env) (event : ℕ) (payload : List ℕ) (stores : ISessionStore) (predicate : Session → Bool)
    (stored : ℕ → Session) (sessions : Map ℕ) (store : stores.State) (wrote : List Write)
    → ((k : ℕ) → (stores.get_or_create store k).0 ≡ stored k)
    → let r = broadcast_if_loop env event payload stores predicate sessions store wrote in
      (r.0, r.2) ≡ broadcast_stored env event payload predicate stored sessions wrote
unfolding broadcast_if_loop broadcast_stored and_then
broadcast_if_loop_stored env event payload stores predicate stored [] store wrote same = refl
broadcast_if_loop_stored env event payload stores predicate stored ((sid, fd) ∷ rest) store wrote
      same =
    let later = λ (w : List Write).
      broadcast_if_loop_stored env event payload stores predicate stored rest
        (stores.get_or_create store sid).1 w (λ k. stores.get-get store sid k ∙ same k) in
    elim (Bool-cases (predicate (stored sid))) [
      | inl taken ↦
          rw (same sid, taken)
            (sent_stored (write_event env event payload sid fd wrote)
              (stores.get_or_create store sid).1 _ _ later)
      | inr passed ↦ rw (same sid, passed) (later wrote)
    ]
