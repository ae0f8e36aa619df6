-- ===== src/Control/Casts.antt =====
-- The packet types, and their `upcast` and `downcast`.
pub mod RoundTrip
pub mod ShortAcks
use streamsync.Base.{ℕ, List, ◌++◌}
use streamsync.Proto.{encode_uint, decode_uint}
use streamsync.Proto.Error.{Result, ok, ◌>>=◌}
use streamsync.Types.ControlType.{keepalive, ack, nak, shutdown, ack_ack, drop_req}
use streamsync.Packet.{Header, Packet, try_from_header, default_header}
use streamsync.Control.Numbers.{SequenceNumbers, encode_numbers, decode_numbers}

-- `Keepalive`, `Shutdown` and `AckAck`: a header and an unused word.
pub record Plain : Type 0 where
  pub header : Header
  pub unused : ℕ

abbrev upcast_plain : Plain → Packet
upcast_plain p = record { header = p.header; body = encode_uint 4 p.unused }

pub decode_plain : Header → List ℕ → Result Plain
decode_plain header bytes = do
  (unused, _) ← decode_uint 4 bytes
  ok (record { header = header; unused = unused })

pub upcast_keepalive : Plain → Packet
upcast_keepalive p = upcast_plain p

pub downcast_keepalive : Packet → Result Plain
unfolding decode_plain
downcast_keepalive p = try_from_header keepalive p.header >>= λ h. decode_plain h p.body

pub upcast_shutdown : Plain → Packet
upcast_shutdown p = upcast_plain p

pub downcast_shutdown : Packet → Result Plain
unfolding decode_plain
downcast_shutdown p = try_from_header shutdown p.header >>= λ h. decode_plain h p.body

pub upcast_ack_ack : Plain → Packet
upcast_ack_ack p = upcast_plain p

pub downcast_ack_ack : Packet → Result Plain
unfolding decode_plain
downcast_ack_ack p = try_from_header ack_ack p.header >>= λ h. decode_plain h p.body

-- `Keepalive::builder().build()` and `Shutdown::builder().build()`.
abbrev pub build_keepalive : Plain
build_keepalive = record { header = default_header keepalive; unused = 0 }

abbrev pub build_shutdown : Plain
build_shutdown = record { header = default_header shutdown; unused = 0 }

-- The acknowledgement number is the whole of `seg1`.
unfoldable pub build_ack_ack : ℕ → Plain
build_ack_ack n = record { header = record (default_header ack_ack) { seg1 = n }; unused = 0 }

unfoldable pub acknowledgement_number : Plain → ℕ
acknowledgement_number p = p.header.seg1

pub record Ack : Type 0 where
  pub header : Header
  pub last_acknowledged_packet_sequence_number : ℕ
  pub rtt : ℕ
  pub rtt_variance : ℕ
  pub avaliable_buffer_size : ℕ
  pub packets_receiving_rate : ℕ
  pub estimated_link_capacity : ℕ
  pub receiving_rate : ℕ

unfoldable pub upcast_ack : Ack → Packet
upcast_ack p = record {
  header = p.header;
  body =
      encode_uint 4 p.last_acknowledged_packet_sequence_number
      ++ (encode_uint 4 p.rtt
          ++ (encode_uint 4 p.rtt_variance
              ++ (encode_uint 4 p.avaliable_buffer_size
                  ++ (encode_uint 4 p.packets_receiving_rate
                      ++ (encode_uint 4 p.estimated_link_capacity
                          ++ encode_uint 4 p.receiving_rate)))));
}

pub decode_ack : Header → List ℕ → Result Ack
decode_ack header bytes = do
  (last, r1) ← decode_uint 4 bytes
  (rtt, r2) ← decode_uint 4 r1
  (variance, r3) ← decode_uint 4 r2
  (available, r4) ← decode_uint 4 r3
  (packets_rate, r5) ← decode_uint 4 r4
  (capacity, r6) ← decode_uint 4 r5
  (rate, _) ← decode_uint 4 r6
  ok (record {
    header = header;
    last_acknowledged_packet_sequence_number = last;
    rtt = rtt;
    rtt_variance = variance;
    avaliable_buffer_size = available;
    packets_receiving_rate = packets_rate;
    estimated_link_capacity = capacity;
    receiving_rate = rate;
  })

pub downcast_ack : Packet → Result Ack
unfolding decode_ack
downcast_ack p = try_from_header ack p.header >>= λ h. decode_ack h p.body

-- The calls of the builder in `Connection::tick`.
unfoldable pub build_ack : ℕ → ℕ → ℕ → ℕ → ℕ → ℕ → ℕ → ℕ → Ack
build_ack number last rtt variance available packets_rate capacity rate = record {
  header = record (default_header ack) { seg1 = number };
  last_acknowledged_packet_sequence_number = last;
  rtt = rtt;
  rtt_variance = variance;
  avaliable_buffer_size = available;
  packets_receiving_rate = packets_rate;
  estimated_link_capacity = capacity;
  receiving_rate = rate;
}

-- `LightAck` and `SmallAck`, the ACKs with one and with four words.
pub record LightAck : Type 0 where
  pub header : Header
  pub last_acknowledged_packet_sequence_number : ℕ

pub upcast_light_ack : LightAck → Packet
upcast_light_ack p = record {
  header = p.header;
  body = encode_uint 4 p.last_acknowledged_packet_sequence_number;
}

pub downcast_light_ack : Packet → Result LightAck
downcast_light_ack p = do
  header ← try_from_header ack p.header
  (last, _) ← decode_uint 4 p.body
  ok (record { header = header; last_acknowledged_packet_sequence_number = last })

pub record SmallAck : Type 0 where
  pub header : Header
  pub last_acknowledged_packet_sequence_number : ℕ
  pub rtt : ℕ
  pub rtt_variance : ℕ
  pub avaliable_buffer_size : ℕ

pub upcast_small_ack : SmallAck → Packet
upcast_small_ack p = record {
  header = p.header;
  body =
      encode_uint 4 p.last_acknowledged_packet_sequence_number
      ++ (encode_uint 4 p.rtt
          ++ (encode_uint 4 p.rtt_variance ++ encode_uint 4 p.avaliable_buffer_size));
}

pub downcast_small_ack : Packet → Result SmallAck
downcast_small_ack p = do
  header ← try_from_header ack p.header
  (last, r1) ← decode_uint 4 p.body
  (rtt, r2) ← decode_uint 4 r1
  (variance, r3) ← decode_uint 4 r2
  (available, _) ← decode_uint 4 r3
  ok (record {
    header = header;
    last_acknowledged_packet_sequence_number = last;
    rtt = rtt;
    rtt_variance = variance;
    avaliable_buffer_size = available;
  })

-- `LightAckBuilder` and `SmallAckBuilder`; the latter does not set the buffer size.
pub build_light_ack : ℕ → LightAck
build_light_ack last = record {
  header = default_header ack;
  last_acknowledged_packet_sequence_number = last;
}

pub build_small_ack : ℕ → ℕ → ℕ → SmallAck
build_small_ack last rtt variance = record {
  header = default_header ack;
  last_acknowledged_packet_sequence_number = last;
  rtt = rtt;
  rtt_variance = variance;
  avaliable_buffer_size = 0;
}

pub record Nak : Type 0 where
  pub header : Header
  pub lost_packet_sequence_numbers : SequenceNumbers

pub upcast_nak : Nak → Packet
upcast_nak p = record { header = p.header; body = encode_numbers p.lost_packet_sequence_numbers }

pub downcast_nak : Packet → Result Nak
downcast_nak p = do
  header ← try_from_header nak p.header
  (numbers, _) ← decode_numbers p.body
  ok (record { header = header; lost_packet_sequence_numbers = numbers })

unfoldable pub build_nak : SequenceNumbers → Nak
build_nak seq = record { header = default_header nak; lost_packet_sequence_numbers = seq }

pub record DropRequest : Type 0 where
  pub header : Header
  pub first_packet_sequence_number : ℕ
  pub last_packet_sequence_number : ℕ

pub upcast_drop_request : DropRequest → Packet
upcast_drop_request p = record {
  header = p.header;
  body =
      encode_uint 4 p.first_packet_sequence_number ++ encode_uint 4 p.last_packet_sequence_number;
}

pub downcast_drop_request : Packet → Result DropRequest
downcast_drop_request p = do
  header ← try_from_header drop_req p.header
  (first, r1) ← decode_uint 4 p.body
  (last, _) ← decode_uint 4 r1
  ok (record {
    header = header;
    first_packet_sequence_number = first;
    last_packet_sequence_number = last;
  })

pub build_drop_request : ℕ → ℕ → ℕ → DropRequest
build_drop_request message first last = record {
  header = record (default_header drop_req) { seg1 = message };
  first_packet_sequence_number = first;
  last_packet_sequence_number = last;
}
