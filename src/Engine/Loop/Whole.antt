-- ===== src/Engine/Loop/Whole.antt =====
-- Everything that a client sends, and its departure: src/UringEngine/ClientHandlers.cpp.
use servd.Base.{
  ℕ, ◌<◌, ◌^◌, ◌≡◌, ap, ◌∙◌, ◌++◌, suc, true, Bool, Option, List, [], ◌∷◌, length, map, All, arith,
  decimal,
}
use servd.Result.{Result, Error}
use servd.Protocol.{binary, text, IsFrameHeader, ClientFrame, encode_header}
use servd.Session.{ISessionStore}
use servd.Exec.{Env}
use servd.Access.{Dispatcher}
use servd.Stream.{Completion, threw, async_read_exact, read_frame}
use servd.Stream.Segments.{concat, Pieces, segments, Fails, async_read_exact_cut}
use servd.Stream.Frames.{read_frame-segments}
use servd.Text.{CommandNames, line_loop, read_text_line, read_text_frame}
use servd.Text.Lines.{OneLine, two_lines, text_result, read_text_frame_request}
use servd.Engine.{Engine, Client, finish_client, finish_text_client}
use servd.Engine.Loop.{ended, receive_frame, close_client, finished, handle_client}
use servd.Engine.Loop.Frames.{
  Delivery, Delivers, arrivals, frame_of, serve_frames, mode-serve_frames, client_loop-arrivals,
}

-- A binary frame, and the pieces in which the kernel delivers its header and its payload.
pub record Sent : Type 0 where
  pub sent : ClientFrame
  pub head : List (List ℕ)
  pub body : List (List ℕ)

pub record IsSent (x : Sent) : Type 0 where
  pub header : IsFrameHeader x.sent.header
  pub sized : x.sent.header.payload_length ≡ length x.sent.payload
  pub head_pieces : Pieces x.head
  pub body_pieces : Pieces x.body
  pub head_bytes : concat x.head ≡ encode_header x.sent.header
  pub body_bytes : concat x.body ≡ x.sent.payload

abbrev pub binary_delivery : Sent → Delivery
binary_delivery x = record {
  frame = x.sent;
  arrive = λ rest. segments x.head (segments x.body rest);
}

-- A line of a command and a session, and a payload line.
pub record Request : Type 0 where
  pub command : ℕ
  pub session : ℕ
  pub line : List ℕ

pub record IsRequest (x : Request) : Type 0 where
  pub command_fits : x.command < 2 ^ 16
  pub session_fits : x.session < 2 ^ 64
  pub one_line : OneLine x.line
  pub line_fits : length x.line < 2 ^ 32

abbrev pub text_delivery : Request → Delivery
text_delivery x = record {
  frame = text_result x.command x.session x.line;
  arrive = two_lines (decimal x.command ++ (32 ∷ decimal x.session)) x.line;
}

All-map {ℓ κ} :
    {A : Type 0} {B : Type ℓ} (P : A → Type κ) (Q : B → Type κ) (f : A → B) (xs : List A)
    → ((x : A) → P x → Q (f x))
    → All P xs
    → All Q (map f xs)
All-map P Q f [] k h = tt
All-map P Q f (x ∷ xs) k (p, ps) = (k x p, All-map P Q f xs k ps)

line_loop_cut :
    (fuel : ℕ) (last : Completion) (x : Error) (rest : List Completion)
    → Fails last x
    → line_loop (suc fuel) [] (last ∷ rest) ≡ threw x rest
unfolding line_loop
line_loop_cut fuel last x rest bad =
    let cut : async_read_exact 1 (last ∷ rest) ≡ threw x rest =
      async_read_exact_cut 1 [] last x rest tt (omega arith) (omega arith) bad in
    rw (cut, line_loop)

module _ (names : CommandNames) where
  Delivers-binary : (x : Sent) → IsSent x → Delivers names binary (binary_delivery x)
  unfolding receive_frame
  Delivers-binary x v rest =
      read_frame-segments x.sent x.head x.body rest v.header v.sized v.head_pieces v.body_pieces
        v.head_bytes v.body_bytes

  Delivers-text : (x : Request) → IsRequest x → Delivers names text (text_delivery x)
  unfolding receive_frame
  Delivers-text x v rest =
      read_text_frame_request names x.command x.session x.line rest v.command_fits v.session_fits
        v.one_line v.line_fits

  -- The end of the stream between two frames.
  cut-binary :
      (last : Completion) (x : Error) (rest : List Completion)
      → Fails last x
      → receive_frame names binary (last ∷ rest) ≡ threw x rest
  unfolding receive_frame read_frame
  cut-binary last x rest bad =
      rw (async_read_exact_cut 16 [] last x rest tt (omega arith) (omega arith) bad)

  cut-text :
      (last : Completion) (x : Error) (rest : List Completion)
      → Fails last x
      → receive_frame names text (last ∷ rest) ≡ threw x rest
  unfolding receive_frame read_text_frame read_text_line
  cut-text last x rest bad = rw (line_loop_cut (suc (length rest)) last x rest bad)

module _ (stores : ISessionStore) (env : Env) (d : Dispatcher) (names : CommandNames)
    (handler : Option (ℕ → Result (Unit {0}))) (pool : Bool) (e : Engine stores.State) (c : Client)
    (last : Completion) (x : Error) (rest : List Completion) (bad : Fails last x) where
  handle_client-arrivals :
      (xs : List Delivery)
      → All (Delivers names c.mode) xs
      → receive_frame names c.mode (last ∷ rest) ≡ threw x rest
      → let (e', c') = serve_frames stores env d e c (map frame_of xs) in
        handle_client stores env d names handler pool (λ k. true) e c (arrivals xs (last ∷ rest))
        ≡ finished stores env d names handler pool (ended e' c')
  unfolding handle_client
  handle_client-arrivals xs del cut =
      ap (finished stores env d names handler pool)
        (client_loop-arrivals stores env d names xs e c (last ∷ rest) x rest del cut)

  finished_binary :
      (e' : Engine stores.State) (c' : Client)
      → c'.mode ≡ binary
      → finished stores env d names handler pool (ended e' c')
        ≡ ended (finish_client handler pool e' c') c'
  unfolding finished
  finished_binary e' c' h =
      ap (λ m. ended (close_client stores env d names handler pool e' c' m) c') h

  finished_text :
      (e' : Engine stores.State) (c' : Client)
      → c'.mode ≡ text
      → finished stores env d names handler pool (ended e' c') ≡ ended (finish_text_client e' c') c'
  unfolding finished
  finished_text e' c' h =
      ap (λ m. ended (close_client stores env d names handler pool e' c' m) c') h

  -- While the engine runs, a binary client that sends frames, which the kernel cuts into pieces
  -- as it likes, and behind the last of them leaves or fails: the frames are served one after
  -- another, up to the first that throws, and then the client is finished, whatever else arrived.
  pub handle_client_serves :
      (xs : List Sent)
      → c.mode ≡ binary
      → All IsSent xs
      → let (e', c') = serve_frames stores env d e c (map frame_of (map binary_delivery xs)) in
        handle_client stores env d names handler pool
          (λ k. true)
          e
          c
          (arrivals (map binary_delivery xs) (last ∷ rest))
        ≡ ended (finish_client handler pool e' c') c'
  handle_client_serves xs mode v =
      let frames = map frame_of (map binary_delivery xs) in
      let kept = mode-serve_frames stores env d e c frames in
      handle_client-arrivals (map binary_delivery xs)
        (rw mode
          (All-map IsSent (Delivers names binary) binary_delivery xs (Delivers-binary names) v))
        (rw mode (cut-binary names last x rest bad))
      ∙ finished_binary _ _ (kept ∙ mode)

  -- While the engine runs, a text client that sends requests, and behind the last of them leaves
  -- or fails: the requests' frames are served one after another, up to the first that throws, and
  -- then the client is finished.
  pub text_handle_client_serves :
      (xs : List Request)
      → c.mode ≡ text
      → All IsRequest xs
      → let (e', c') = serve_frames stores env d e c (map frame_of (map text_delivery xs)) in
        handle_client stores env d names handler pool
          (λ k. true)
          e
          c
          (arrivals (map text_delivery xs) (last ∷ rest))
        ≡ ended (finish_text_client e' c') c'
  text_handle_client_serves xs mode v =
      let frames = map frame_of (map text_delivery xs) in
      let kept = mode-serve_frames stores env d e c frames in
      handle_client-arrivals (map text_delivery xs)
        (rw mode (All-map IsRequest (Delivers names text) text_delivery xs (Delivers-text names) v))
        (rw mode (cut-text names last x rest bad))
      ∙ finished_text _ _ (kept ∙ mode)
