-- ===== src/Engine/Loop/Frames.antt =====
-- A client's whole connection: src/UringEngine/ClientHandlers.cpp over IoUring.cpp and FrameIO.cpp.
use servd.Base.{
  ℕ, zero, suc, ◌<◌, ◌≤◌, ◌≡◌, refl, ◌∙◌, subst, true, Option-cases, inl, inr, List, [], ◌∷◌,
  length, map, All, arith,
}
use servd.Result.{ok, err, Error, Result-cases}
use servd.Protocol.{ProtocolMode, ClientFrame}
use servd.Session.{ISessionStore}
use servd.Exec.{Env}
use servd.Access.{Dispatcher}
use servd.Stream.{Completion, done, threw}
use servd.Stream.Progress.{Fewer}
use servd.Text.{CommandNames}
use servd.Engine.{Engine, Client, serve_frame}
use servd.Engine.Loop.{ended, receive_frame, loop_from, client_loop}
use servd.Engine.Loop.Fuel.{receive_frame-Fewer}

-- A frame, and how its completions stand in front of those that follow.
pub record Delivery : Type 0 where
  pub frame : ClientFrame
  pub arrive : List Completion → List Completion

abbrev pub Delivers : CommandNames → ProtocolMode → Delivery → Type 0
Delivers names mode x =
    (rest : List Completion) → receive_frame names mode (x.arrive rest) ≡ done x.frame rest

abbrev pub arrivals : List Delivery → List Completion → List Completion
arrivals [] rest = rest
arrivals (x ∷ xs) rest = x.arrive (arrivals xs rest)

abbrev pub frame_of : Delivery → ClientFrame
frame_of x = x.frame

module _ (stores : ISessionStore) (env : Env) (d : Dispatcher) where
  -- The frames served one after another, up to the first that throws.
  pub serve_frames : Engine stores.State → Client → List ClientFrame → Engine stores.State × Client
  serve_frames e c [] = (e, c)
  serve_frames e c (frame ∷ frames) =
      let after = serve_frame stores env d e c frame in
      elim after.0 [ ok u ↦ serve_frames after.1 after.2 frames | err x ↦ (after.1, after.2) ]

  mode-serve_frame :
      (e : Engine stores.State) (c : Client) (frame : ClientFrame)
      → (serve_frame stores env d e c frame).2.mode ≡ c.mode
  unfolding serve_frame
  mode-serve_frame e c frame = elim (Option-cases e.store) [
    | inl missing ↦ rw missing
    | inr (store, there) ↦ rw there
  ]

  serve_frames_ok :
      (e : Engine stores.State) (c : Client) (frame : ClientFrame) (frames : List ClientFrame)
      (u : Unit {0})
      → let after = serve_frame stores env d e c frame in
        after.0 ≡ ok u → serve_frames e c (frame ∷ frames) ≡ serve_frames after.1 after.2 frames
  unfolding serve_frames
  serve_frames_ok e c frame frames u good = rw (good, serve_frames)

  serve_frames_err :
      (e : Engine stores.State) (c : Client) (frame : ClientFrame) (frames : List ClientFrame)
      (x : Error)
      → let after = serve_frame stores env d e c frame in
        after.0 ≡ err x → serve_frames e c (frame ∷ frames) ≡ (after.1, after.2)
  unfolding serve_frames
  serve_frames_err e c frame frames x bad = rw (bad, serve_frames)

  pub mode-serve_frames :
      (e : Engine stores.State) (c : Client) (frames : List ClientFrame)
      → (serve_frames e c frames).1.mode ≡ c.mode
  mode-serve_frames e c [] = unfold serve_frames in refl
  mode-serve_frames e c (frame ∷ frames) =
      let after = serve_frame stores env d e c frame in
      elim (Result-cases after.0) [
        | inl (u, good) ↦
            rw (serve_frames_ok e c frame frames u good)
              (mode-serve_frames after.1 after.2 frames ∙ mode-serve_frame e c frame)
        | inr (x, bad) ↦ rw (serve_frames_err e c frame frames x bad) (mode-serve_frame e c frame)
      ]

  module _ (names : CommandNames) where
    loop_from-arrivals :
        (fuel k : ℕ) (xs : List Delivery) (e : Engine stores.State) (c : Client)
        (last : List Completion) (x : Error) (rest : List Completion)
        → length xs < fuel
        → All (Delivers names c.mode) xs
        → receive_frame names c.mode last ≡ threw x rest
        → let (e', c') = serve_frames e c (map frame_of xs) in
          loop_from stores env d names (λ k. true) fuel k e c (arrivals xs last) ≡ ended e' c'
    unfolding loop_from
    loop_from-arrivals zero k xs e c last x rest enough del cut = absurd (omega arith)
    loop_from-arrivals (suc fuel) k [] e c last x rest enough del cut =
        unfold serve_frames in rw cut
    loop_from-arrivals (suc fuel) k (y ∷ ys) e c last x rest enough (first, del) cut =
        let after = serve_frame stores env d e c y.frame in
        let same = mode-serve_frame e c y.frame in
        elim (Result-cases after.0) [
          | inr (z, bad) ↦
              rw (
                first (arrivals ys last),
                bad,
                serve_frames_err e c y.frame (map frame_of ys) z bad,
              )
          | inl (u, good) ↦
              rw
                (
                  first (arrivals ys last),
                  good,
                  serve_frames_ok e c y.frame (map frame_of ys) u good,
                )
                (loop_from-arrivals fuel (suc k) ys after.1 after.2 last x rest (omega arith)
                  (rw same del) (rw same cut))
        ]

    -- A delivery has a completion at least.
    length-arrivals :
        (mode : ProtocolMode) (xs : List Delivery) (last : List Completion)
        → All (Delivers names mode) xs
        → length xs ≤ length (arrivals xs last)
    length-arrivals mode [] last del = omega arith
    length-arrivals mode (x ∷ xs) last (first, del) =
        let taken : Fewer (length (x.arrive (arrivals xs last))) (done x.frame (arrivals xs last)) =
          subst (Fewer (length (x.arrive (arrivals xs last)))) (first (arrivals xs last))
            (receive_frame-Fewer names mode (x.arrive (arrivals xs last))) in
        omega (arith, taken, length-arrivals mode xs last del)

    pub client_loop-arrivals :
        (xs : List Delivery) (e : Engine stores.State) (c : Client) (last : List Completion)
        (x : Error) (rest : List Completion)
        → All (Delivers names c.mode) xs
        → receive_frame names c.mode last ≡ threw x rest
        → let (e', c') = serve_frames e c (map frame_of xs) in
          client_loop stores env d names (λ k. true) e c (arrivals xs last) ≡ ended e' c'
    unfolding client_loop
    client_loop-arrivals xs e c last x rest del cut =
        loop_from-arrivals (suc (length (arrivals xs last))) 0 xs e c last x rest
          (omega (arith, length-arrivals c.mode xs last del)) del cut
