-- ===== src/Engine/Loop/Tests.antt =====
-- Instances of the theorems about a client's whole connection.
use servd.Base.{◌≡◌, refl, inl, true, none, some, [], ◌∷◌, map, arith, Map, le_bytes}
use servd.Result.{connection_closed}
use servd.Protocol.{binary, text, encode_header}
use servd.Session.{Session}
use servd.Session.InMemory.{in_memory}
use servd.Stream.Segments.{received}
use servd.Engine.{Engine, Client, finish_client, finish_text_client, no_session, notify}
use servd.Engine.Loop.{ended, handle_client}
use servd.Engine.Loop.Departure.{Departs, handle_client-Departs}
use servd.Engine.Loop.Frames.{arrivals, frame_of, serve_frames}
use servd.Engine.Loop.Whole.{
  Sent, IsSent, Request, IsRequest, binary_delivery, text_delivery, handle_client_serves,
  text_handle_client_serves,
}
use servd.Fixtures.{env, dispatcher, ping}

abbrev engine : Engine (Map Session)
engine = record {
  sessions = [];
  active_connections = 1;
  max_clients = 2;
  respond_to_clients = true;
  discovery_enabled = true;
  store = some [];
  closed = [];
  wrote = [];
  draws = 0;
}

abbrev binary_client : Client
binary_client = record { fd = 4; mode = binary; current_sid = no_session }

abbrev text_client : Client
text_client = record { fd = 4; mode = text; current_sid = no_session }

-- The header in two pieces, and the payload byte by byte.
abbrev pinged : Sent
pinged = record {
  sent = ping;
  head = (1 ∷ 0 ∷ 0 ∷ []) ∷ (0 ∷ 2 ∷ 0 ∷ 0 ∷ 0 ∷ 5 ∷ 0 ∷ 0 ∷ 0 ∷ 0 ∷ 0 ∷ 0 ∷ 0 ∷ []) ∷ [];
  body = (8 ∷ []) ∷ (9 ∷ []) ∷ [];
}

abbrev asked : Request
asked = record { command = 7; session = 5; line = 104 ∷ 105 ∷ [] }

pinged-IsSent : IsSent pinged
unfolding encode_header le_bytes
pinged-IsSent = record {
  header = omega arith;
  sized = refl;
  head_pieces = omega arith;
  body_pieces = omega arith;
  head_bytes = refl;
  body_bytes = refl;
}

asked-IsRequest : IsRequest asked
asked-IsRequest = record {
  command_fits = omega arith;
  session_fits = omega arith;
  one_line = (refl, (refl, tt));
  line_fits = omega arith;
}

handle_client-Departs_example : Departs engine text_client (
    handle_client in_memory env dispatcher [] none true
      (λ k. true)
      engine
      text_client
      (received (1 ∷ []) ∷ received [] ∷ []))
unfolding notify
handle_client-Departs_example =
    handle_client-Departs in_memory env dispatcher [] none true (λ sid. refl) (λ k. true) engine
      text_client (received (1 ∷ []) ∷ received [] ∷ [])

handle_client_serves_example :
    let (e, c) =
      serve_frames in_memory env dispatcher engine binary_client
        (map frame_of (map binary_delivery (pinged ∷ pinged ∷ []))) in
    handle_client in_memory env dispatcher [] none true
      (λ k. true)
      engine
      binary_client
      (arrivals (map binary_delivery (pinged ∷ pinged ∷ [])) (received [] ∷ []))
    ≡ ended (finish_client none true e c) c
handle_client_serves_example =
    handle_client_serves in_memory env dispatcher [] none true engine binary_client (received [])
      connection_closed [] (inl (refl, refl)) (pinged ∷ pinged ∷ []) refl
      (pinged-IsSent, (pinged-IsSent, tt))

text_handle_client_serves_example :
    let (e, c) =
      serve_frames in_memory env dispatcher engine text_client
        (map frame_of (map text_delivery (asked ∷ []))) in
    handle_client in_memory env dispatcher [] none true
      (λ k. true)
      engine
      text_client
      (arrivals (map text_delivery (asked ∷ [])) (received [] ∷ []))
    ≡ ended (finish_text_client e c) c
text_handle_client_serves_example =
    text_handle_client_serves in_memory env dispatcher [] none true engine text_client (received [])
      connection_closed [] (inl (refl, refl)) (asked ∷ []) refl (asked-IsRequest, tt)
