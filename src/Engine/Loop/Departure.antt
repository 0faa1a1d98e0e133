-- ===== src/Engine/Loop/Departure.antt =====
-- What a client leaves behind, whatever it sends: src/UringEngine/ClientHandlers.cpp.
use servd.Base.{
  ℕ, ◌-◌, ◌≡◌, refl, sym, ap, ◌∙◌, subst, ◌⊎◌, inl, inr, Bool, not, ◌&&◌, Bool-cases, Option,
  Option-cases, none, List, ◌∷◌, arith, ltb, ◌==◌, lookup, lookup-erase,
}
use servd.Result.{Result, ok, err}
use servd.Protocol.{ProtocolMode, binary, text, ClientFrame}
use servd.Session.{ISessionStore}
use servd.Exec.{Env, Io}
use servd.Access.{Dispatcher}
use servd.Command.{process_command}
use servd.Stream.{Completion}
use servd.Text.{CommandNames}
use servd.Engine.{
  Engine, Client, begun, no_session, unregister_session, saved, serve_frame, notify, leave_session,
  release_client, closing, connection_of, finish_client, finish_text_client,
}
use servd.Engine.Table.{registered_engine}
use servd.Engine.Loop.{
  Fate, reading, ended, out_of_fuel, client_loop, close_client, finished, handle_client,
}
use servd.Engine.Loop.Fuel.{Holds, client_loop-Holds}

-- What a frame leaves alone.
record Connected {State : Type 0} (e : Engine State) (c : Client) (e' : Engine State) (c' : Client)
    : Type 0 where
  pub counted : e'.active_connections ≡ e.active_connections
  pub same_closed : e'.closed ≡ e.closed
  pub same_fd : c'.fd ≡ c.fd

-- A client that is still connected, or one that has left: its descriptor is closed, once, it is off
-- the connection count, and its last session is out of the table.
abbrev pub Departs : {State : Type 0} → Engine State → Client → Fate State → Type 0
Departs e c (reading e' c') =
    (e'.active_connections ≡ e.active_connections) × (e'.closed ≡ e.closed)
Departs e c (ended e' c') =
    (e'.active_connections ≡ e.active_connections - 1)
    × (e'.closed ≡ c.fd ∷ e.closed)
    × ((c'.current_sid ≡ no_session) ⊎ (lookup c'.current_sid e'.sessions ≡ none))
Departs e c out_of_fuel = ⊥

module _ {State : Type 0} where
  -- The end of a connection on the session that it was on.
  release_client_lem :
      (e : Engine State) (fd : ℕ)
      → let e' = release_client e fd in
        (e'.active_connections ≡ e.active_connections - 1)
        × (e'.closed ≡ fd ∷ e.closed)
        × (e'.sessions ≡ e.sessions)
  unfolding release_client
  release_client_lem e fd =
      elim (Bool-cases (
        ltb 0 e.max_clients
        && ltb (e.active_connections - 1) e.max_clients
        && not e.respond_to_clients)) [
          | inl on ↦ rw on (refl, refl, refl)
          | inr off ↦ rw off (refl, refl, refl)
        ]

  leave_session_lem :
      (e : Engine State) (sid : ℕ)
      → let e' = leave_session e sid in
        (e'.active_connections ≡ e.active_connections)
        × (e'.closed ≡ e.closed)
        × ((sid ≡ no_session) ⊎ (lookup sid e'.sessions ≡ none))
  unfolding leave_session unregister_session
  leave_session_lem e sid = elim (Bool-cases (sid == no_session)) [
    | inl outside ↦ rw outside (refl, refl, inl (ground arith))
    | inr inside ↦ rw inside (refl, refl, inr (ground (arith, lookup-erase sid sid e.sessions)))
  ]

  finish_text_client-Departs :
      (e : Engine State) (c : Client) → Departs e c (ended (finish_text_client e c) c)
  unfolding finish_text_client
  finish_text_client-Departs e c =
      let (left, open_still, out) = leave_session_lem e c.current_sid in
      let (gone, closed, table) = release_client_lem (leave_session e c.current_sid) c.fd in
      (gone ∙ ap (λ n. n - 1) left, closed ∙ ap (λ fds. c.fd ∷ fds) open_still, rw table out)

  finish_client_lem :
      (handler : Option (ℕ → Result (Unit {0}))) (pool : Bool) (e : Engine State) (c : Client)
      → notify handler pool c.current_sid ≡ ok tt
      → finish_client handler pool e c ≡ finish_text_client e c
  unfolding finish_client finish_text_client closing
  finish_client_lem handler pool e c returns = rw returns

module _ (stores : ISessionStore) (env : Env) (d : Dispatcher) where
  saved_open :
      (e : Engine stores.State) (store : stores.State) (outcome : Result (Unit {0}) × Io)
      → let e' = saved stores env d e store outcome in
        (e'.active_connections ≡ e.active_connections) × (e'.closed ≡ e.closed)
  unfolding saved
  saved_open e store (ok u, io) = (refl, refl)
  saved_open e store (err x, io) = (refl, refl)

  serve_frame-Connected :
      (e₀ : Engine stores.State) (c₀ : Client) (e : Engine stores.State) (c : Client)
      (frame : ClientFrame)
      → Connected e₀ c₀ e c
      → let after = serve_frame stores env d e c frame in Connected e₀ c₀ after.1 after.2
  unfolding serve_frame
  serve_frame-Connected e₀ c₀ e c frame v = elim (Option-cases e.store) [
    | inl missing ↦
        rw missing
          (record { counted = v.counted; same_closed = v.same_closed; same_fd = v.same_fd })
    | inr (store, there) ↦
        let (session, store') = stores.get_or_create store frame.header.session_id in
        let (count, open_still) = saved_open (registered_engine stores e c frame) store' (
          process_command env d frame (connection_of c)
            (begun stores (registered_engine stores e c frame) store' session)) in
        rw there (record {
          counted = count ∙ v.counted;
          same_closed = open_still ∙ v.same_closed;
          same_fd = v.same_fd;
        })
  ]

  module _ (names : CommandNames) (handler : Option (ℕ → Result (Unit {0}))) (pool : Bool)
      (returns : (sid : ℕ) → notify handler pool sid ≡ ok tt) where
    close_client-Departs :
        (e : Engine stores.State) (c : Client) (mode : ProtocolMode)
        → Departs e c (ended (close_client stores env d names handler pool e c mode) c)
    unfolding close_client
    close_client-Departs e c binary =
        subst (λ x. Departs e c (ended x c))
          (sym (finish_client_lem handler pool e c (returns c.current_sid)))
          (finish_text_client-Departs e c)
    close_client-Departs e c text = finish_text_client-Departs e c

    finished-Departs :
        (e : Engine stores.State) (c : Client) (fate : Fate stores.State)
        → Holds (Connected e c) fate
        → Departs e c (finished stores env d names handler pool fate)
    unfolding finished
    finished-Departs e c (reading e' c') h = (h.counted, h.same_closed)
    finished-Departs e c (ended e' c') h =
        let (gone, closed, table) = close_client-Departs e' c' c'.mode in
        (gone ∙ ap (λ n. n - 1) h.counted, closed ∙ (λ i. h.same_fd i ∷ h.same_closed i), table)
    finished-Departs e c out_of_fuel h = h

    -- Whatever a client sends, and whenever the engine stops, if the disconnect notification returns:
    -- its coroutine waits for the kernel, with its connection counted and its descriptor open, or has
    -- ended; then it has closed its descriptor, once, taken itself off the connection count, and the
    -- session that it was on is out of the table, unless its id is 2 ^ 64 - 1, which the code takes
    -- for no session.
    pub handle_client-Departs :
        (running : ℕ → Bool) (e : Engine stores.State) (c : Client) (cs : List Completion)
        → Departs e c (handle_client stores env d names handler pool running e c cs)
    unfolding handle_client
    handle_client-Departs running e c cs =
        finished-Departs e c (client_loop stores env d names running e c cs) (
          client_loop-Holds stores env d names running (Connected e c) (serve_frame-Connected e c) e
            c cs (record { counted = refl; same_closed = refl; same_fd = refl }))
