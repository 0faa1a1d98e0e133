-- ===== src/Engine/Loop.antt =====
-- handle_client and text_handle_client of src/UringEngine/ClientHandlers.cpp from the first read to
-- the close, on the completions of the client's receives.
pub mod Fuel
pub mod Frames
pub mod Whole
pub mod Departure
mod Tests
use servd.Base.{ℕ, zero, suc, Bool, Option, List, [], ◌∷◌, length, if◌then◌else◌}
use servd.Result.{Result, ok, err}
use servd.Protocol.{ProtocolMode, binary, text, ClientFrame}
use servd.Session.{ISessionStore}
use servd.Exec.{Env}
use servd.Access.{Dispatcher}
use servd.Stream.{Completion, done, threw, pending, Recv, read_frame}
use servd.Text.{CommandNames, read_text_frame}
use servd.Engine.{Engine, Client, serve_frame, finish_client, finish_text_client}

-- Where a client's coroutine stands: it waits for the kernel, or has left its loop.
pub data Fate (State : Type 0) : Type 0 where
  reading : Engine State → Client → Fate State
  ended : Engine State → Client → Fate State
  out_of_fuel : Fate State

unfoldable pub receive_frame : CommandNames → ProtocolMode → Recv ClientFrame
receive_frame names binary = read_frame
receive_frame names text = read_text_frame names

module _ (stores : ISessionStore) (env : Env) (d : Dispatcher) (names : CommandNames) where
  -- The loop, on fuel; `running k` is what the k-th test of `running` reads.
  unfoldable pub loop_from :
      (ℕ → Bool) → ℕ → ℕ → Engine stores.State → Client → List Completion → Fate stores.State
  loop_from running zero k e c cs = out_of_fuel
  loop_from running (suc fuel) k e c cs =
      let round : Fate stores.State = elim (receive_frame names c.mode cs) [
        | done frame rest ↦
            let after = serve_frame stores env d e c frame in
            elim after.0 [
              | ok u ↦ loop_from running fuel (suc k) after.1 after.2 rest
              | err x ↦ ended after.1 after.2
            ]
        | threw x rest ↦ ended e c
        | pending ↦ reading e c
      ] in
      if running k then round else ended e c

  -- Every round takes a completion.
  unfoldable pub client_loop :
      (ℕ → Bool) → Engine stores.State → Client → List Completion → Fate stores.State
  unfolding loop_from
  client_loop running e c cs = loop_from running (suc (length cs)) 0 e c cs

  -- What follows the loop, in handle_client and in text_handle_client.
  unfoldable pub close_client :
      Option (ℕ → Result (Unit {0}))
      → Bool
      → Engine stores.State
      → Client
      → ProtocolMode
      → Engine stores.State
  close_client handler pool e c binary = finish_client handler pool e c
  close_client handler pool e c text = finish_text_client e c

  unfoldable pub finished :
      Option (ℕ → Result (Unit {0})) → Bool → Fate stores.State → Fate stores.State
  unfolding close_client
  finished handler pool (reading e c) = reading e c
  finished handler pool (ended e c) = ended (close_client handler pool e c c.mode) c
  finished handler pool out_of_fuel = out_of_fuel

  -- handle_client for a binary client, text_handle_client for a text client.
  unfoldable pub handle_client :
      Option (ℕ → Result (Unit {0}))
      → Bool
      → (ℕ → Bool)
      → Engine stores.State
      → Client
      → List Completion
      → Fate stores.State
  unfolding client_loop finished
  handle_client handler pool running e c cs = finished handler pool (client_loop running e c cs)
