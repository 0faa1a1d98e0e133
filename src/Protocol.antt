-- ===== src/Protocol.antt =====
-- include/servd/Protocol.hpp: the frame header and the discovery packet, which the engine copies to
-- and from the wire as packed structs of a little-endian host. A field is a number; its width is
-- stated by `IsFrameHeader` and `IsDiscoveryPacket`.
pub mod RoundTrip
mod Tests
use servd.Base.{ℕ, ◌^◌, ◌<◌, List, ◌++◌, take, drop, le_bytes, of_le_bytes}

pub data TransportType : Type 0 where
  any tcp udp unix : TransportType

pub data ProtocolMode : Type 0 where
  binary text : ProtocolMode

pub record FrameHeader : Type 0 where
  pub command_id : ℕ
  pub flags : ℕ
  pub payload_length : ℕ
  pub session_id : ℕ

pub record IsFrameHeader (h : FrameHeader) : Type 0 where
  pub command_id_fits : h.command_id < 256 ^ 2
  pub flags_fits : h.flags < 256 ^ 2
  pub payload_length_fits : h.payload_length < 256 ^ 4
  pub session_id_fits : h.session_id < 256 ^ 8

-- A value-initialised header, `FrameHeader{}`.
abbrev pub zero_header : FrameHeader
zero_header = record { command_id = 0; flags = 0; payload_length = 0; session_id = 0 }

abbrev pub header_size : ℕ
header_size = 16

-- std::memcpy from a header, and into one.
unfoldable pub encode_header : FrameHeader → List ℕ
encode_header h =
    le_bytes 2 h.command_id
    ++ (le_bytes 2 h.flags ++ (le_bytes 4 h.payload_length ++ le_bytes 8 h.session_id))

unfoldable pub decode_header : List ℕ → FrameHeader
decode_header bs = record {
  command_id = of_le_bytes (take 2 bs);
  flags = of_le_bytes (take 2 (drop 2 bs));
  payload_length = of_le_bytes (take 4 (drop 4 bs));
  session_id = of_le_bytes (take 8 (drop 8 bs));
}

pub record ResponseFrame : Type 0 where
  pub flags : ℕ
  pub payload : List ℕ

-- A header with its payload, as the reading side assembles it (`ClientFrame` of detail/Engine.hpp).
pub record ClientFrame : Type 0 where
  pub header : FrameHeader
  pub payload : List ℕ

-- DiscoveryAction: any byte can arrive, so it is a number, and the two members are constants.
abbrev pub client_looking_for_server : ℕ
client_looking_for_server = 1

abbrev pub server_announcing : ℕ
server_announcing = 2

-- The ports are the bit patterns of `int32_t`.
pub record DiscoveryPacket : Type 0 where
  pub magic_number : ℕ
  pub action : ℕ
  pub tcp_port : ℕ
  pub udp_port : ℕ

pub record IsDiscoveryPacket (p : DiscoveryPacket) : Type 0 where
  pub magic_number_fits : p.magic_number < 256 ^ 4
  pub action_fits : p.action < 256 ^ 1
  pub tcp_port_fits : p.tcp_port < 256 ^ 4
  pub udp_port_fits : p.udp_port < 256 ^ 4

abbrev pub packet_size : ℕ
packet_size = 13

unfoldable pub encode_packet : DiscoveryPacket → List ℕ
encode_packet p =
    le_bytes 4 p.magic_number
    ++ (le_bytes 1 p.action ++ (le_bytes 4 p.tcp_port ++ le_bytes 4 p.udp_port))

unfoldable pub decode_packet : List ℕ → DiscoveryPacket
decode_packet bs = record {
  magic_number = of_le_bytes (take 4 bs);
  action = of_le_bytes (take 1 (drop 4 bs));
  tcp_port = of_le_bytes (take 4 (drop 5 bs));
  udp_port = of_le_bytes (take 4 (drop 9 bs));
}

-- Reserved commands of the security layer.
abbrev pub cmd_key_exchange : ℕ
cmd_key_exchange = 0x00f0

abbrev pub cmd_encrypted_message : ℕ
cmd_encrypted_message = 0x00f1
