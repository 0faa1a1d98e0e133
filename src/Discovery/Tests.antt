-- ===== src/Discovery/Tests.antt =====
-- Instances of the theorems about the discovery loop of src/UringEngine/ClientHandlers.cpp.
use servd.Base.{ℕ, ◌≡◌, refl, List, true, none, [], ◌∷◌, arith}
use servd.Protocol.{ProtocolMode, binary, DiscoveryPacket, encode_packet, decode_packet}
use servd.Discovery.{
  DiscoveryConfig, first_tcp_port, first_udp_port, announcement, respond, discovery_round,
}
use servd.Discovery.Answers.{discovery_round_ends}
use servd.Exec.{Env, Write, to_addr}
use servd.Result.{ok}
use servd.Fixtures.{env, env_sends}

abbrev config : DiscoveryConfig
config = record {
  broadcast_port = 9999;
  magic_number = 0x53525644;
  respond_to_clients = true;
  advertised_tcp_port = 0;
  advertised_udp_port = 0;
  on_discovery_request = none;
}

abbrev request : DiscoveryPacket
request = record { magic_number = 0x53525644; action = 1; tcp_port = 0; udp_port = 0 }

discovery_round_ends_example :
    let announced = announcement config ((8080, binary) ∷ []) [] in
    (discovery_round config ((8080, binary) ∷ []) [] env 3 1 (ok (encode_packet request)) []
      ≡ record { peer = to_addr 3 1; accepted = encode_packet announced } ∷ [])
    × (decode_packet (encode_packet announced) ≡ announced)
    × ((other : DiscoveryConfig) (tcp' : List (ℕ × ProtocolMode)) (udp' : List ℕ) (env' : Env)
          (fd' addr' : ℕ) (wrote' : List Write)
        → discovery_round other tcp' udp' env' fd' addr' (ok (encode_packet announced)) wrote'
          ≡ wrote')
unfolding respond first_tcp_port first_udp_port
discovery_round_ends_example =
    discovery_round_ends config ((8080, binary) ∷ []) [] env 3 1 request [] env_sends
      (omega arith, omega arith, omega arith, omega arith, omega arith) refl (omega arith) refl refl
      refl
