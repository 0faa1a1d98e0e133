-- ===== src/Engine/Loop/Fuel.antt =====
-- The loop of a client never runs out of fuel: src/UringEngine/ClientHandlers.cpp.
use servd.Base.{ℕ, zero, suc, ◌<◌, Bool, Bool-cases, inl, inr, List, length, arith}
use servd.Result.{Result, ok, err}
use servd.Protocol.{ProtocolMode, binary, text, ClientFrame}
use servd.Session.{ISessionStore}
use servd.Exec.{Env}
use servd.Access.{Dispatcher}
use servd.Stream.{Completion, Outcome, done, threw, pending}
use servd.Stream.Progress.{Fewer, read_frame-Fewer}
use servd.Text.{CommandNames}
use servd.Text.Progress.{read_text_frame-Fewer}
use servd.Engine.{Engine, Client, serve_frame}
use servd.Engine.Loop.{Fate, reading, ended, out_of_fuel, receive_frame, loop_from, client_loop}

pub receive_frame-Fewer :
    (names : CommandNames) (mode : ProtocolMode) (cs : List Completion)
    → Fewer (length cs) (receive_frame names mode cs)
unfolding receive_frame
receive_frame-Fewer names binary cs = read_frame-Fewer cs
receive_frame-Fewer names text cs = read_text_frame-Fewer names cs

-- A coroutine that waits or has ended, with `P` of its engine and its client.
abbrev pub Holds : {State : Type 0} → (Engine State → Client → Type 0) → Fate State → Type 0
Holds P (reading e c) = P e c
Holds P (ended e c) = P e c
Holds P out_of_fuel = ⊥

module _ (stores : ISessionStore) (env : Env) (d : Dispatcher) (names : CommandNames)
    (running : ℕ → Bool) (P : Engine stores.State → Client → Type 0)
    (keep : (e : Engine stores.State) (c : Client) (frame : ClientFrame)
      → P e c
      → let after = serve_frame stores env d e c frame in P after.1 after.2) where
  after_frame-Holds :
      (fuel k : ℕ) (after : Result (Unit {0}) × Engine stores.State × Client)
      (rest : List Completion)
      → P after.1 after.2
      → ((e : Engine stores.State) (c : Client)
          → P e c
          → Holds P (loop_from stores env d names running fuel k e c rest))
      → Holds P (elim after.0 as (λ r. Fate stores.State) [
        | ok u ↦ loop_from stores env d names running fuel k after.1 after.2 rest
        | err x ↦ ended after.1 after.2
      ])
  after_frame-Holds fuel k (ok u, e, c) rest h again = again e c h
  after_frame-Holds fuel k (err x, e, c) rest h again = h

  round-Holds :
      (fuel k n : ℕ) (e : Engine stores.State) (c : Client) (o : Outcome ClientFrame)
      → n < suc fuel
      → Fewer n o
      → P e c
      → ((e' : Engine stores.State) (c' : Client) (rest : List Completion)
          → length rest < fuel
          → P e' c'
          → Holds P (loop_from stores env d names running fuel (suc k) e' c' rest))
      → Holds P (elim o as (λ x. Fate stores.State) [
        | done frame rest ↦
            let after = serve_frame stores env d e c frame in
            elim after.0 [
              | ok u ↦ loop_from stores env d names running fuel (suc k) after.1 after.2 rest
              | err x ↦ ended after.1 after.2
            ]
        | threw x rest ↦ ended e c
        | pending ↦ reading e c
      ])
  round-Holds fuel k n e c (done frame rest) enough taken h again =
      after_frame-Holds fuel (suc k) (serve_frame stores env d e c frame) rest (keep e c frame h)
        (λ e' c'. again e' c' rest (omega arith))
  round-Holds fuel k n e c (threw x rest) enough taken h again = h
  round-Holds fuel k n e c pending enough taken h again = h

  loop_from-Holds :
      (fuel k : ℕ) (e : Engine stores.State) (c : Client) (cs : List Completion)
      → length cs < fuel
      → P e c
      → Holds P (loop_from stores env d names running fuel k e c cs)
  unfolding loop_from
  loop_from-Holds zero k e c cs enough h = absurd (omega arith)
  loop_from-Holds (suc fuel) k e c cs enough h = elim (Bool-cases (running k)) [
    | inr stopped ↦ rw stopped h
    | inl on ↦ rw on (
        round-Holds fuel k (length cs) e c (receive_frame names c.mode cs) enough
          (receive_frame-Fewer names c.mode cs) h
          (λ e' c' rest fits. loop_from-Holds fuel (suc k) e' c' rest fits))
  ]

  -- What every frame keeps holds when the loop of a client waits for the kernel or has ended; and it
  -- comes to one of these, within one round more than the completions of the client's receives.
  pub client_loop-Holds :
      (e : Engine stores.State) (c : Client) (cs : List Completion)
      → P e c
      → Holds P (client_loop stores env d names running e c cs)
  unfolding client_loop
  client_loop-Holds e c cs = loop_from-Holds (suc (length cs)) 0 e c cs (omega arith)
