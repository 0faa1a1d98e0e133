-- ===== src/Discovery/Answers.antt =====
-- Which discovery requests are answered, and with what: src/UringEngine/ClientHandlers.cpp.
use native.Mathlib.Nat.{le_refl}
use servd.Base.{
  ℕ, ◌^◌, ◌<◌, ◌≡◌, sym, ap, ◌∙◌, ◌&&◌, true, List, [], ◌∷◌, ◌++◌, arith, length, take-all, ◌==◌,
  if◌then◌else◌, append-nil,
}
use servd.Result.{Result, ok}
use servd.Exec.{Env, SendsAll, Write, to_addr}
use servd.Connection.{kernel_send, await_resume}
use servd.Messaging.{discard}
use servd.Protocol.{ProtocolMode, DiscoveryPacket, IsDiscoveryPacket, encode_packet, decode_packet}
use servd.Protocol.RoundTrip.{length-encode_packet, decode_packet-encode_packet}
use servd.Discovery.{
  DiscoveryConfig, first_tcp_port, first_udp_port, announcement, respond, send_response,
  answer_request, discovery_round,
}

decode_encoded : (p : DiscoveryPacket) → IsDiscoveryPacket p → decode_packet (encode_packet p) ≡ p
decode_encoded p v =
    ap decode_packet (sym (append-nil (encode_packet p))) ∙ decode_packet-encode_packet p [] v

module _ (config : DiscoveryConfig) (tcp_ports : List (ℕ × ProtocolMode)) (udp_ports : List ℕ) where
  module _ (env : Env) (fd addr : ℕ) where
    answer_request_packet :
        (p : DiscoveryPacket) (wrote : List Write)
        → IsDiscoveryPacket p
        → answer_request config tcp_ports udp_ports env fd addr (ok (encode_packet p)) wrote ≡ (
            if (p.magic_number == config.magic_number)
              && ((p.action == 1) && config.respond_to_clients)
            then send_response config tcp_ports udp_ports env fd addr
                (respond config.on_discovery_request addr (announcement config tcp_ports udp_ports))
                wrote
            else (ok tt, wrote))
    unfolding answer_request
    answer_request_packet p wrote v = rw (decode_encoded p v, length-encode_packet p) (ground arith)

    send_response_whole :
        (p : DiscoveryPacket) (wrote : List Write)
        → SendsAll env
        → send_response config tcp_ports udp_ports env fd addr (ok p) wrote
          ≡ (ok tt, wrote ++ (record { peer = to_addr fd addr; accepted = encode_packet p } ∷ []))
    unfolding send_response kernel_send discard await_resume
    send_response_whole p wrote whole =
        let bytes = encode_packet p in
        rw (
          whole (length wrote) (length bytes),
          take-all (length bytes) bytes (le_refl (length bytes)),
        )

  -- Every field of a server's own packet fits its width.
  abbrev pub Fits : Type 0
  Fits =
      (config.magic_number < 256 ^ 4)
      × (config.advertised_tcp_port < 2 ^ 16)
      × (config.advertised_udp_port < 2 ^ 16)
      × (first_tcp_port tcp_ports < 2 ^ 16)
      × (first_udp_port udp_ports < 2 ^ 16)

  announcement-IsDiscoveryPacket :
      Fits → IsDiscoveryPacket (announcement config tcp_ports udp_ports)
  unfolding announcement
  announcement-IsDiscoveryPacket (magic, tcp, udp, first_tcp, first_udp) = ground arith

  -- No server's announcement is answered, the own one included.
  discovery_round_ignores :
      (other : DiscoveryConfig) (tcp' : List (ℕ × ProtocolMode)) (udp' : List ℕ) (env : Env)
      (fd addr : ℕ) (wrote : List Write)
      → IsDiscoveryPacket (announcement other tcp' udp')
      → discovery_round config tcp_ports udp_ports env fd addr
          (ok (encode_packet (announcement other tcp' udp')))
          wrote
        ≡ wrote
  unfolding announcement discovery_round
  discovery_round_ignores other tcp' udp' env fd addr wrote v =
      let quiet : answer_request config tcp_ports udp_ports env fd addr
            (ok (encode_packet (announcement other tcp' udp'))) wrote
          ≡ (ok tt, wrote) =
        answer_request_packet env fd addr (announcement other tcp' udp') wrote v ∙ ground arith in
      ap (λ (r : Result (Unit {0}) × List Write). r.1) quiet

-- Where writes are taken whole, a server that responds, and whose ports fit 16 bits, answers a
-- client's request with its magic number by one packet to the client's address, if its responder
-- returns a packet that leaves the announcement as it is; the client reads the server's ports from
-- it; and no server, whatever its configuration, answers that packet in turn.
pub discovery_round_ends :
    (config : DiscoveryConfig) (tcp_ports : List (ℕ × ProtocolMode)) (udp_ports : List ℕ)
    (env : Env) (fd addr : ℕ) (p : DiscoveryPacket) (wrote : List Write)
    → SendsAll env
    → Fits config tcp_ports udp_ports
    → config.respond_to_clients ≡ true
    → IsDiscoveryPacket p
    → p.magic_number ≡ config.magic_number
    → p.action ≡ 1
    → let announced = announcement config tcp_ports udp_ports in
      respond config.on_discovery_request addr announced ≡ ok announced
      → (discovery_round config tcp_ports udp_ports env fd addr (ok (encode_packet p)) wrote
          ≡ wrote ++ (record { peer = to_addr fd addr; accepted = encode_packet announced } ∷ []))
        × (decode_packet (encode_packet announced) ≡ announced)
        × ((other : DiscoveryConfig) (tcp' : List (ℕ × ProtocolMode)) (udp' : List ℕ) (env' : Env)
              (fd' addr' : ℕ) (wrote' : List Write)
            → discovery_round other tcp' udp' env' fd' addr' (ok (encode_packet announced)) wrote'
              ≡ wrote')
unfolding discovery_round
discovery_round_ends config tcp_ports udp_ports env fd addr p wrote whole fits on v magic action
      same =
    let announced = announcement config tcp_ports udp_ports in
    let valid = announcement-IsDiscoveryPacket config tcp_ports udp_ports fits in
    let asked : ((p.magic_number == config.magic_number)
          && ((p.action == 1) && config.respond_to_clients))
        ≡ true =
      ground arith in
    let answered : answer_request config tcp_ports udp_ports env fd addr (ok (encode_packet p))
          wrote
        ≡ (
          ok tt,
          wrote ++ (record { peer = to_addr fd addr; accepted = encode_packet announced } ∷ []),
        ) =
      answer_request_packet config tcp_ports udp_ports env fd addr p wrote v
      ∙ rw (asked, same)
          (send_response_whole config tcp_ports udp_ports env fd addr announced wrote whole) in
    (
      ap (λ (r : Result (Unit {0}) × List Write). r.1) answered,
      decode_encoded announced valid,
      λ other tcp' udp' env' fd' addr' wrote'.
          discovery_round_ignores other tcp' udp' config tcp_ports udp_ports env' fd' addr' wrote'
            valid,
    )
