-- ===== src/Datagram/Tests.antt =====
-- Instances of the theorems about start_udp_loop of src/UringEngine/ClientHandlers.cpp.
use servd.Base.{refl, true, some, [], ◌∷◌, ◌++◌, arith, Map}
use servd.Protocol.{encode_header}
use servd.Session.{Session}
use servd.Engine.{Engine}
use servd.Datagram.Frames.{udp_frame_reads, udp_frame-Consistent, Consistent}
use servd.Fixtures.{ping, ping_header}

udp_frame-Consistent_example :
    Consistent (encode_header ping_header ++ ((8 ∷ 9 ∷ []) ++ (7 ∷ []))) ping
udp_frame-Consistent_example =
    udp_frame-Consistent (encode_header ping_header ++ ((8 ∷ 9 ∷ []) ++ (7 ∷ []))) ping
      (udp_frame_reads ping (7 ∷ []) (omega arith) refl (omega arith))

abbrev engine : Engine (Map Session)
engine = record {
  store = some [];
  sessions = (5, 4) ∷ [];
  active_connections = 1;
  max_clients = 0;
  respond_to_clients = true;
  discovery_enabled = true;
  closed = [];
  wrote = [];
  draws = 0;
}
