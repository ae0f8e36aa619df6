-- ===== src/Packet/RoundTrip.antt =====
-- A packet on the wire: decoding what was encoded, and too short a datagram.
use mathlib.Core.List.{append_assoc}
use streamsync.Base.{ℕ, ◌+◌, ◌≡◌, arith, List, ◌++◌, length, length-append}
use streamsync.Proto.{encode_uint}
use streamsync.Proto.Codec.{decode-encode_uint, length-to_be_bytes}
use streamsync.Proto.Error.{ok}
use streamsync.Packet.{
  Header, Packet, encode_header, decode_header, encode_packet, decode_packet, packet_size,
}
use streamsync.Packet.HeaderFields.{IsHeader}

pub decode-encode_header :
    (h : Header) (rest : List ℕ)
    → IsHeader h
    → decode_header (encode_header h ++ rest) ≡ ok (h, rest)
unfolding decode_header encode_header
decode-encode_header h rest v =
    let w0 = encode_uint 4 h.seg0 in
    let w1 = encode_uint 4 h.seg1 in
    let w2 = encode_uint 4 h.timestamp in
    let w3 = encode_uint 4 h.destination_socket_id in
    rw (
      append_assoc w0 (w1 ++ (w2 ++ w3)) rest,
      append_assoc w1 (w2 ++ w3) rest,
      append_assoc w2 w3 rest,
      decode-encode_uint 4 h.seg0 (w1 ++ (w2 ++ (w3 ++ rest))) v.seg0,
      decode-encode_uint 4 h.seg1 (w2 ++ (w3 ++ rest)) v.seg1,
      decode-encode_uint 4 h.timestamp (w3 ++ rest) v.timestamp,
      decode-encode_uint 4 h.destination_socket_id rest v.destination,
    )

-- A packet whose header words fit 32 bits is decoded from its encoding as it was.
pub decode-encode_packet : (p : Packet) → IsHeader p.header → decode_packet (encode_packet p) ≡ ok p
unfolding decode_packet encode_packet
decode-encode_packet p v = rw (decode-encode_header p.header p.body v)

length-encode_header : (h : Header) → length (encode_header h) ≡ 16
unfolding encode_header
length-encode_header h = omega (
  arith,
  length-to_be_bytes 4 h.seg0,
  length-to_be_bytes 4 h.seg1,
  length-to_be_bytes 4 h.timestamp,
  length-to_be_bytes 4 h.destination_socket_id,
  length-append (encode_uint 4 h.seg0) (
      encode_uint 4 h.seg1 ++ (encode_uint 4 h.timestamp ++ encode_uint 4 h.destination_socket_id)),
  length-append (encode_uint 4 h.seg1)
      (encode_uint 4 h.timestamp ++ encode_uint 4 h.destination_socket_id),
  length-append (encode_uint 4 h.timestamp) (encode_uint 4 h.destination_socket_id),
)

-- `Packet::size` counts 112 bytes more than the packet takes on the wire: `Header::SIZE` is the
-- header's size in bits.
pub packet_size-encode : (p : Packet) → packet_size p ≡ length (encode_packet p) + 112
unfolding packet_size encode_packet
packet_size-encode p =
    omega (arith, length-append (encode_header p.header) p.body, length-encode_header p.header)
