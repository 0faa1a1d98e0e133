-- ===== src/Messaging/Delivery.antt =====
-- Who receives what from src/UringEngine/SessionBroadcast.cpp.
use native.Mathlib.Nat.{le_refl}
use servd.Base.{
  ℕ, suc, ◌+◌, ◌<◌, ◌≡◌, refl, sym, ap, ◌∙◌, ℤ, pos, negsuc, pos_part, Bool, some, List, [], ◌∷◌,
  ◌++◌, map, arith, length, length-map, take-all, length-append, append-nil, append_assoc,
  if◌then◌else◌, Map, Bool-cases, inl, inr,
}
use servd.Result.{Error, ok, err}
use servd.Session.{Session, ISessionStore}
use servd.Exec.{Env, SendsAll, Write, to_fd}
use servd.Connection.{kernel_send, await_resume, binary_frame}
use servd.Messaging.{
  event_header, discard, write_event, do_broadcast, broadcast_if_loop, do_broadcast_if,
}

-- The frame of one session, delivered whole.
abbrev pub delivery : ℕ → List ℕ → ℕ × ℕ → Write
delivery command_id payload entry = record {
  peer = to_fd entry.1;
  accepted = binary_frame (event_header command_id entry.0 payload) payload;
}

-- A result that throws means that no byte was taken.
nothing_taken : (r : ℤ) (e : Error) → await_resume r ≡ err e → pos_part r ≡ 0
unfolding await_resume
nothing_taken (pos n) e h = absurd (cc h)
nothing_taken (negsuc n) e h = refl

module _ (env : Env) (command_id : ℕ) (payload : List ℕ) where
  pub write_event_whole :
      (sid fd : ℕ) (wrote : List Write)
      → ((n : ℕ) → env.send_result (length wrote) n ≡ pos n)
      → write_event env command_id payload sid fd wrote
        ≡ (ok tt, wrote ++ (delivery command_id payload (sid, fd) ∷ []))
  unfolding write_event kernel_send discard await_resume
  write_event_whole sid fd wrote whole =
      let frame = binary_frame (event_header command_id sid payload) payload in
      rw (whole (length frame), take-all (length frame) frame (le_refl (length frame)))

  -- The writes up to the size of a log are taken whole.
  abbrev WholeUpTo : ℕ → Type 0
  WholeUpTo bound = (k n : ℕ) → k < bound → env.send_result k n ≡ pos n

  length-snoc : (wrote : List Write) (w : Write) → length (wrote ++ (w ∷ [])) ≡ suc (length wrote)
  length-snoc wrote w = omega (arith, length-append wrote (w ∷ []))

  -- The sessions before one whose write fails.
  broadcast_before :
      (before rest : Map ℕ) (wrote : List Write)
      → WholeUpTo (length wrote + length before)
      → do_broadcast env command_id payload (before ++ rest) wrote
        ≡ do_broadcast env command_id payload rest
            (wrote ++ map (delivery command_id payload) before)
  unfolding do_broadcast
  broadcast_before [] rest wrote whole = rw (append-nil wrote)
  broadcast_before ((sid, fd) ∷ before) rest wrote whole =
      let w = delivery command_id payload (sid, fd) in
      rw (
        write_event_whole sid fd wrote (λ n. whole (length wrote) n (omega arith)),
        broadcast_before before rest (wrote ++ (w ∷ []))
            (λ k n h. whole k n (omega (arith, length-snoc wrote w))),
        append_assoc wrote (w ∷ []) (map (delivery command_id payload) before),
      )

  -- Where every write is taken whole, a broadcast writes one frame to each entry of the session
  -- table, in the table's order, under that entry's session id, and nothing else.
  pub do_broadcast_delivers :
      (sessions : Map ℕ) (wrote : List Write)
      → SendsAll env
      → do_broadcast env command_id payload sessions wrote
        ≡ (ok tt, wrote ++ map (delivery command_id payload) sessions)
  unfolding do_broadcast
  do_broadcast_delivers sessions wrote whole =
      ap (λ (m : Map ℕ). do_broadcast env command_id payload m wrote) (sym (append-nil sessions))
      ∙ broadcast_before sessions [] wrote (λ k n h. whole k n)

  write_event_fails :
      (sid fd : ℕ) (wrote : List Write) (e : Error)
      → ((n : ℕ) → await_resume (env.send_result (length wrote) n) ≡ err e)
      → write_event env command_id payload sid fd wrote
        ≡ (err e, wrote ++ (record { peer = to_fd fd; accepted = [] } ∷ []))
  unfolding write_event kernel_send discard
  write_event_fails sid fd wrote e fails =
      let n = length (binary_frame (event_header command_id sid payload) payload) in
      rw (fails n, nothing_taken (env.send_result (length wrote) n) e (fails n))

  -- A write that throws ends a broadcast: the entries before it have their frames, and it and the
  -- entries behind it get nothing.
  pub do_broadcast_stops :
      (before after : Map ℕ) (sid fd : ℕ) (wrote : List Write) (e : Error)
      → ((k n : ℕ) → k < length wrote + length before → env.send_result k n ≡ pos n)
      → ((n : ℕ) → await_resume (env.send_result (length wrote + length before) n) ≡ err e)
      → do_broadcast env command_id payload (before ++ ((sid, fd) ∷ after)) wrote ≡ (
        err e,
        (wrote ++ map (delivery command_id payload) before)
            ++ (record { peer = to_fd fd; accepted = [] } ∷ []),
      )
  unfolding do_broadcast
  do_broadcast_stops before after sid fd wrote e whole fails =
      let size : length (wrote ++ map (delivery command_id payload) before)
          ≡ length wrote + length before =
        length-append wrote (map (delivery command_id payload) before)
        ∙ ap (λ (k : ℕ). length wrote + k) (length-map before (delivery command_id payload)) in
      broadcast_before before ((sid, fd) ∷ after) wrote whole
      ∙ rw (
          write_event_fails sid fd (wrote ++ map (delivery command_id payload) before) e
            (rw size fails))

  module _ (stores : ISessionStore) (predicate : Session → Bool) where
    -- The entries whose sessions satisfy the predicate.
    abbrev pub chosen : stores.State → Map ℕ → Map ℕ
    chosen store [] = []
    chosen store ((sid, fd) ∷ rest) =
        if predicate (stores.get_or_create store sid).0
        then (sid, fd) ∷ chosen store rest
        else chosen store rest

    chosen-get_or_create :
        (store : stores.State) (k : ℕ) (sessions : Map ℕ)
        → chosen (stores.get_or_create store k).1 sessions ≡ chosen store sessions
    chosen-get_or_create store k [] = refl
    chosen-get_or_create store k ((sid, fd) ∷ rest) =
        rw (stores.get-get store k sid, chosen-get_or_create store k rest)

    broadcast_if_chosen :
        (sessions : Map ℕ) (store : stores.State) (wrote : List Write)
        → SendsAll env
        → let (result, store', wrote') =
            broadcast_if_loop env command_id payload stores predicate sessions store wrote in
          (result ≡ ok tt)
          × (wrote' ≡ wrote ++ map (delivery command_id payload) (chosen store sessions))
    unfolding broadcast_if_loop
    broadcast_if_chosen [] store wrote whole = (refl, sym (append-nil wrote))
    broadcast_if_chosen ((sid, fd) ∷ rest) store wrote whole =
        let (session, store') = stores.get_or_create store sid in
        let w = delivery command_id payload (sid, fd) in
        elim (Bool-cases (predicate session)) [
          | inl taken ↦
              let ih = broadcast_if_chosen rest store' (wrote ++ (w ∷ [])) whole in
              rw (taken, write_event_whole sid fd wrote (λ n. whole (length wrote) n))
                (
                  ih.0,
                  ih.1
                      ∙ append_assoc wrote (w ∷ [])
                          (map (delivery command_id payload) (chosen store' rest))
                      ∙ ap (λ (m : Map ℕ). wrote ++ (w ∷ map (delivery command_id payload) m))
                          (chosen-get_or_create store sid rest),
                )
          | inr passed ↦
              let ih = broadcast_if_chosen rest store' wrote whole in
              rw passed (
                ih.0,
                ih.1
                    ∙ ap (λ (m : Map ℕ). wrote ++ map (delivery command_id payload) m)
                        (chosen-get_or_create store sid rest),
              )
        ]

    -- Where every write is taken whole, a conditional broadcast writes one frame to each entry of
    -- the session table whose session, as the store had it when the broadcast began, satisfies the
    -- predicate, in the table's order, and nothing else.
    pub do_broadcast_if_delivers :
        (sessions : Map ℕ) (store : stores.State) (wrote : List Write)
        → SendsAll env
        → let (result, store', wrote') =
            do_broadcast_if env command_id payload stores predicate sessions (some store) wrote in
          (result ≡ ok tt)
          × (wrote' ≡ wrote ++ map (delivery command_id payload) (chosen store sessions))
    unfolding do_broadcast_if
    do_broadcast_if_delivers sessions store wrote whole =
        broadcast_if_chosen sessions store wrote whole
