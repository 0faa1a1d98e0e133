-- ===== src/Protocol/RoundTrip.antt =====
-- include/servd/Protocol.hpp: the packed structs on the wire.
use servd.Base.{
  ℕ, ◌+◌, ◌≡◌, refl, List, ◌++◌, arith, length, take, drop, length-take, length-drop,
  take-append-drop, take-all, drop-drop, All-take, All-drop, IsBytes, le_bytes, of_le_bytes,
  of_le_bytes-le_bytes, le_bytes-of_le_bytes_at,
}
use servd.Protocol.{
  FrameHeader, IsFrameHeader, encode_header, decode_header, DiscoveryPacket, IsDiscoveryPacket,
  encode_packet, decode_packet,
}

pub length-encode_header : (h : FrameHeader) → length (encode_header h) ≡ 16
unfolding encode_header le_bytes
length-encode_header h = refl

pub length-encode_packet : (p : DiscoveryPacket) → length (encode_packet p) ≡ 13
unfolding encode_packet le_bytes
length-encode_packet p = refl

-- Reading a header back from the front of a buffer gives the header that was written there,
-- whatever follows it, if every field fits its width.
pub decode_header-encode_header :
    (h : FrameHeader) (rest : List ℕ)
    → IsFrameHeader h
    → decode_header (encode_header h ++ rest) ≡ h
unfolding encode_header decode_header le_bytes
decode_header-encode_header h rest v = λ i. record {
  command_id = of_le_bytes-le_bytes 2 h.command_id v.command_id_fits i;
  flags = of_le_bytes-le_bytes 2 h.flags v.flags_fits i;
  payload_length = of_le_bytes-le_bytes 4 h.payload_length v.payload_length_fits i;
  session_id = of_le_bytes-le_bytes 8 h.session_id v.session_id_fits i;
}

-- A field of `w` bytes at offset `o` is written back as the bytes that stood there.
field_bytes :
    (w o : ℕ) (bs : List ℕ)
    → IsBytes bs
    → length (take w (drop o bs)) ≡ w
    → le_bytes w (of_le_bytes (take w (drop o bs))) ≡ take w (drop o bs)
field_bytes w o bs v h =
    le_bytes-of_le_bytes_at w (take w (drop o bs)) (All-take _ w (drop o bs) (All-drop _ o bs v)) h

-- Splitting a buffer at two consecutive offsets.
split_at : (w o : ℕ) (bs : List ℕ) → take w (drop o bs) ++ drop (o + w) bs ≡ drop o bs
split_at w o bs = rw (← drop-drop o w bs) (take-append-drop w (drop o bs))

-- Any 16 bytes are the encoding of the header that they are read as.
encode_header-decode_header :
    (bs : List ℕ) → IsBytes bs → length bs ≡ 16 → encode_header (decode_header bs) ≡ bs
unfolding encode_header decode_header
encode_header-decode_header bs v n =
    rw
      (
        field_bytes 2 0 bs v (omega (arith, length-take 2 bs)),
        field_bytes 2 2 bs v (omega (arith, length-take 2 (drop 2 bs), length-drop 2 bs)),
        field_bytes 4 4 bs v (omega (arith, length-take 4 (drop 4 bs), length-drop 4 bs)),
        field_bytes 8 8 bs v (omega (arith, length-take 8 (drop 8 bs), length-drop 8 bs)),
        take-all 8 (drop 8 bs) (omega (arith, length-drop 8 bs)),
        split_at 4 4 bs,
        split_at 2 2 bs,
      )
      (take-append-drop 2 bs)

-- Reading a discovery packet back from the front of a buffer gives the packet that was written
-- there, whatever follows it, if every field fits its width.
pub decode_packet-encode_packet :
    (p : DiscoveryPacket) (rest : List ℕ)
    → IsDiscoveryPacket p
    → decode_packet (encode_packet p ++ rest) ≡ p
unfolding encode_packet decode_packet le_bytes
decode_packet-encode_packet p rest v = λ i. record {
  magic_number = of_le_bytes-le_bytes 4 p.magic_number v.magic_number_fits i;
  action = of_le_bytes-le_bytes 1 p.action v.action_fits i;
  tcp_port = of_le_bytes-le_bytes 4 p.tcp_port v.tcp_port_fits i;
  udp_port = of_le_bytes-le_bytes 4 p.udp_port v.udp_port_fits i;
}
