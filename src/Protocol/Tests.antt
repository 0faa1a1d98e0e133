-- ===== src/Protocol/Tests.antt =====
-- Runs of include/servd/Protocol.hpp's layouts, and instances of the theorems about them.
use servd.Base.{ℕ, ◌≡◌, refl, List, [], ◌∷◌, le_bytes}
use servd.Protocol.{FrameHeader, encode_header, DiscoveryPacket}

abbrev ping : FrameHeader
ping = record { command_id = 1; flags = 0; payload_length = 300; session_id = 513 }

abbrev ping_bytes : List ℕ
ping_bytes = 1 ∷ 0 ∷ 0 ∷ 0 ∷ 44 ∷ 1 ∷ 0 ∷ 0 ∷ 1 ∷ 2 ∷ 0 ∷ 0 ∷ 0 ∷ 0 ∷ 0 ∷ 0 ∷ []

encode_ping : encode_header ping ≡ ping_bytes
unfolding encode_header le_bytes
encode_ping = refl

abbrev request : DiscoveryPacket
request = record { magic_number = 0x53525644; action = 1; tcp_port = 0; udp_port = 0 }
