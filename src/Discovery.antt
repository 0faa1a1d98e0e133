-- ===== src/Discovery.antt =====
-- Server discovery: start_discovery_loop of src/UringEngine/ClientHandlers.cpp and the periodic
-- announcement of init_discovery in src/serveur/ServerLifecycle.cpp.
pub mod Answers
mod Tests
use servd.Base.{
  ℕ, Bool, not, ◌&&◌, ◌||◌, Option, none, some, List, [], ◌∷◌, length, ltb, ◌==◌, if◌then◌else◌,
}
use servd.Result.{Result, ok, err}
use servd.Exec.{Env, Write, to_addr}
use servd.Connection.{kernel_send}
use servd.Messaging.{discard}
use servd.Protocol.{
  ProtocolMode, DiscoveryPacket, packet_size, encode_packet, decode_packet,
  client_looking_for_server, server_announcing,
}

-- `on_discovery_request` gets the client's address, and may change the response or throw.
pub record DiscoveryConfig : Type 0 where
  pub broadcast_port : ℕ
  pub magic_number : ℕ
  pub respond_to_clients : Bool
  pub advertised_tcp_port : ℕ
  pub advertised_udp_port : ℕ
  pub on_discovery_request : Option (ℕ → DiscoveryPacket → Result DiscoveryPacket)

unfoldable pub first_tcp_port : List (ℕ × ProtocolMode) → ℕ
first_tcp_port [] = 0
first_tcp_port ((port, mode) ∷ ports) = port

unfoldable pub first_udp_port : List ℕ → ℕ
first_udp_port [] = 0
first_udp_port (port ∷ ports) = port

-- The response before the responder, which is also the announcement.
unfoldable pub announcement : DiscoveryConfig → List (ℕ × ProtocolMode) → List ℕ → DiscoveryPacket
unfolding first_tcp_port first_udp_port
announcement config tcp_ports udp_ports = record {
  magic_number = config.magic_number;
  action = server_announcing;
  tcp_port =
      if not (config.advertised_tcp_port == 0)
      then config.advertised_tcp_port
      else first_tcp_port tcp_ports;
  udp_port =
      if not (config.advertised_udp_port == 0)
      then config.advertised_udp_port
      else first_udp_port udp_ports;
}

unfoldable pub respond :
    Option (ℕ → DiscoveryPacket → Result DiscoveryPacket)
    → ℕ
    → DiscoveryPacket
    → Result DiscoveryPacket
respond none addr resp = ok resp
respond (some responder) addr resp = responder addr resp

module _ (config : DiscoveryConfig) (tcp_ports : List (ℕ × ProtocolMode)) (udp_ports : List ℕ) where
  module _ (env : Env) (udp_fd addr : ℕ) where
    -- The response is sent back, unless the responder threw.
    send_response : Result DiscoveryPacket → List Write → Result (Unit {0}) × List Write
    unfolding discard
    send_response (err e) wrote = (err e, wrote)
    send_response (ok resp) wrote =
        let (result, wrote') = kernel_send env (to_addr udp_fd addr) (encode_packet resp) wrote in
        discard result wrote'

    -- The try block, on what the receive stored in the 13-byte request.
    unfoldable pub answer_request : Result (List ℕ) → List Write → Result (Unit {0}) × List Write
    unfolding respond send_response
    answer_request (err e) wrote = (err e, wrote)
    answer_request (ok received) wrote =
        let req = decode_packet received in
        if ltb (length received) packet_size
        then (ok tt, wrote)
        else if not (req.magic_number == config.magic_number)
        then (ok tt, wrote)
        else if not (req.action == client_looking_for_server)
        then (ok tt, wrote)
        else if not config.respond_to_clients
        then (ok tt, wrote)
        else send_response
            (respond config.on_discovery_request addr (announcement config tcp_ports udp_ports))
            wrote

    -- One round of the loop: an exception is logged, and the loop goes on.
    unfoldable pub discovery_round : Result (List ℕ) → List Write → List Write
    unfolding answer_request
    discovery_round received wrote = (answer_request received wrote).1

  -- The periodic task: nothing while clients are connected or discovery is off.
  unfoldable pub announce_round : ℕ → Bool → Bool → Option (List ℕ)
  announce_round active_connections socket_open discovery_enabled =
      if ltb 0 active_connections || (not socket_open || not discovery_enabled)
      then none
      else some (encode_packet (announcement config tcp_ports udp_ports))
