-- ===== src/Command/Guard.antt =====
-- Access control of plain commands: src/UringEngine/CommandRoute.cpp.
use servd.Base.{◌≡◌, ◌⊎◌, inl, inr, true, false, none, some, Option-cases}
use servd.Result.{ok, Result-cases}
use servd.Protocol.{ClientFrame}
use servd.Context.{Context}
use servd.Router.{Endpoint, get}
use servd.Exec.{Env, Io}
use servd.Connection.{Connection, transport_type}
use servd.Access.{Dispatcher, permitted, refreshed}
use servd.Access.Guard.{Allowed, checked, permitted_sound, permitted_state}
use servd.Command.{route, handle_normal_command}

-- The context in which a frame's handler and authenticator run.
abbrev pub context_of : ClientFrame → Connection → Io → Context
context_of frame c io = record {
  header = frame.header;
  payload = frame.payload;
  session = io.session;
  transport = transport_type c;
  locals = io.locals;
}

module _ (env : Env) (d : Dispatcher) (frame : ClientFrame) (c : Connection) (io : Io) where
  route_without_permission :
      (ep : Endpoint)
      → Allowed d.authenticate ep (context_of frame c io)
        ⊎ ((route env d frame c (some ep) io).1
            ≡ checked env c d.authenticate ep (context_of frame c io) io)
  unfolding route refreshed
  route_without_permission ep =
      let state = permitted_state env c d.authenticate ep (context_of frame c io) io in
      elim (Result-cases (permitted env c d.authenticate ep (context_of frame c io) io).0) [
        | inr (e, failed) ↦ inr (rw failed state)
        | inl (true, passed) ↦
            inl (permitted_sound env c d.authenticate ep (context_of frame c io) io passed)
        | inl (false, refused) ↦ inr (rw refused state)
      ]

  -- A plain command of an unknown id does nothing. One whose requirements the session or the
  -- transport does not meet leaves what the authenticator did, if its endpoint wants
  -- authentication, and nothing at all, if it does not: the handler has not run, and nothing was
  -- answered.
  pub handle_normal_command_guarded :
      ((ep : Endpoint) × (get d.router frame.header.command_id ≡ some ep)
        × Allowed d.authenticate ep (context_of frame c io))
      ⊎ (((get d.router frame.header.command_id ≡ none)
            × (handle_normal_command env d frame c io ≡ (ok tt, io)))
          ⊎ ((ep : Endpoint) × (get d.router frame.header.command_id ≡ some ep)
              × ((handle_normal_command env d frame c io).1
                  ≡ checked env c d.authenticate ep (context_of frame c io) io)))
  unfolding handle_normal_command route
  handle_normal_command_guarded = elim (Option-cases (get d.router frame.header.command_id)) [
    | inl unknown ↦ inr (inl (unknown, rw unknown))
    | inr (ep, found) ↦ elim (route_without_permission ep) [
      | inl allowed ↦ inl (ep, found, allowed)
      | inr left ↦ inr (inr (ep, found, rw found left))
    ]
  ]
