-- ===== src/Packet/Tests.antt =====
-- The theorems on headers and packets at concrete packets.
use streamsync.Base.{ℕ, ◌+◌, length, ◌≡◌, refl, List, [], ◌∷◌, true, arith}
use streamsync.Proto.Error.{ok}
use streamsync.Types.ControlType.{data_packet}
use streamsync.Packet.{
  Header, Packet, solo, packet_type, packet_sequence_number, packet_position, is_ordered,
  is_retransmitted, message_number, encode_packet, decode_packet, packet_size, build_data,
}
use streamsync.Packet.HeaderFields.{IsHeader, build_data_lem}
use streamsync.Packet.RoundTrip.{decode-encode_packet, packet_size-encode}

abbrev payload : List ℕ
payload = 0x47 ∷ 0x40 ∷ 0x11 ∷ []

abbrev data_header : Header
data_header = record {
  seg0 = 2_147_483_647;
  seg1 = 0xE000_0009;
  timestamp = 1_000;
  destination_socket_id = 77;
}

abbrev data_header-IsHeader : IsHeader data_header
data_header-IsHeader = record {
  seg0 = omega arith;
  seg1 = omega arith;
  timestamp = omega arith;
  destination = omega arith;
}

abbrev three_bytes : Packet
three_bytes = record { header = data_header; body = payload }

decode-encode_packet_example : decode_packet (encode_packet three_bytes) ≡ ok three_bytes
decode-encode_packet_example = decode-encode_packet three_bytes data_header-IsHeader

packet_size_runs : packet_size three_bytes ≡ 131
unfolding packet_size
packet_size_runs = refl

packet_size-encode_example : packet_size three_bytes ≡ length (encode_packet three_bytes) + 112
packet_size-encode_example = packet_size-encode three_bytes

build_data_lem_example :
    let h = (build_data 2_147_483_647 9 true payload).header in
    (packet_type h ≡ data_packet)
    × (packet_sequence_number h ≡ 2_147_483_647)
    × (packet_position h ≡ solo)
    × (is_ordered h ≡ true)
    × (is_retransmitted h ≡ true)
    × (message_number h ≡ 9)
    × IsHeader h
build_data_lem_example = build_data_lem 2_147_483_647 9 true payload (omega arith) (omega arith)

-- A control header of the type 9.
abbrev strange : Header
strange = record { seg0 = 0x8009_0000; seg1 = 0; timestamp = 0; destination_socket_id = 0 }
