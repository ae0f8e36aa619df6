-- ===== src/Packet/HeaderFields.antt =====
-- Every field of a header reads back what was set, and setting it leaves the other fields alone.
use streamsync.Base.{ℕ, ◌+◌, ◌*◌, ◌^◌, ◌<◌, ◌≡◌, arith, Bool, true, List, if◌then◌else◌}
use streamsync.Proto.{bits, set_bits}
use streamsync.Proto.Error.{ok}
use streamsync.Proto.Fields.{
  bits_lem, set_type, set_control, set_number, set_position, set_order, set_retransmission,
  set_message,
}
use streamsync.Types.ControlType
use streamsync.Types.ControlType.{
  packet_type_code, PacketType, data_packet, control_packet, ControlPacketType, to_u16-lt,
  from_u32-to_u16,
}
use streamsync.Packet.{
  Header, build_data, solo, packet_type, set_packet_type, control_type, set_control_type,
  packet_sequence_number, set_packet_sequence_number, packet_position, is_ordered, is_retransmitted,
  message_number,
}

-- The four words of a header fit 32 bits.
pub record IsHeader (h : Header) : Type 0 where
  pub seg0 : h.seg0 < 2 ^ 32
  pub seg1 : h.seg1 < 2 ^ 32
  pub timestamp : h.timestamp < 2 ^ 32
  pub destination : h.destination_socket_id < 2 ^ 32

pub bits-lt : (x : ℕ) → bits x 0 1 < 2
bits-lt x = omega (arith, bits_lem x 0 1)

-- Setting the packet type sets it, and keeps the 31 bits below.
pub packet_type-set_packet_type :
    (t : PacketType) (h : Header)
    → IsHeader h
    → (packet_type (set_packet_type t h) ≡ t)
      × (packet_sequence_number (set_packet_type t h) ≡ packet_sequence_number h)
      × IsHeader (set_packet_type t h)
unfolding packet_type set_packet_type packet_sequence_number
packet_type-set_packet_type t h v =
    let small : packet_type_code t < 2 = ground arith in
    let sum = set_type h.seg0 (packet_type_code t) v.seg0 small in
    let x = set_bits h.seg0 0 1 (packet_type_code t) in
    ground (arith, sum, bits_lem x 0 1, bits_lem x 1 32, bits_lem h.seg0 1 32)

-- Setting the sequence number of a data packet to one of 31 bits sets it, and keeps the packet
-- type.
pub packet_sequence_number-set :
    (n : ℕ) (h : Header)
    → IsHeader h
    → n < 2 ^ 31
    → (packet_sequence_number (set_packet_sequence_number n h) ≡ n)
      × (packet_type (set_packet_sequence_number n h) ≡ packet_type h)
      × IsHeader (set_packet_sequence_number n h)
unfolding packet_type set_packet_sequence_number packet_sequence_number
packet_sequence_number-set n h v p =
    let x = set_bits h.seg0 1 32 n in
    ground
      (arith, set_number h.seg0 n v.seg0 p, bits_lem x 1 32, bits_lem x 0 1, bits_lem h.seg0 0 1)

-- The control type is read back as the one that was set; the packet type stays.
pub control_type-set_control_type :
    (t : ControlPacketType) (h : Header)
    → IsHeader h
    → (control_type (set_control_type t h) ≡ ok t)
      × (packet_type (set_control_type t h) ≡ packet_type h)
      × IsHeader (set_control_type t h)
unfolding packet_type set_control_type control_type
control_type-set_control_type t h v =
    let x = set_bits h.seg0 1 16 (ControlType.to_u16 t) in
    let sum = set_control h.seg0 (ControlType.to_u16 t) v.seg0 (to_u16-lt t) in
    let field : bits x 1 16 ≡ ControlType.to_u16 t =
      omega (arith, bits_lem x 1 16, sum, to_u16-lt t) in
    (
      rw (field, from_u32-to_u16 t),
      ground (arith, sum, to_u16-lt t, bits_lem x 0 1, bits_lem h.seg0 0 1),
      record {
        seg0 = omega (arith, sum, to_u16-lt t);
        seg1 = v.seg1;
        timestamp = v.timestamp;
        destination = v.destination;
      },
    )

-- The packet that the connection builds: `seg1` as the sum of its fields.
seg1-build_data :
    (sequence message : ℕ) (r : Bool) (body : List ℕ)
    → message < 2 ^ 26
    → (build_data sequence message r body).header.seg1
      ≡ 3 * 2 ^ 30 + 2 ^ 29 + (if r then 2 ^ 26 else 0) + message
unfolding build_data
seg1-build_data sequence message r body p =
    let solo = set_bits 0 0 2 3 in
    let numbered = set_bits solo 6 32 message in
    let ordered = set_bits numbered 2 3 1 in
    let e1 = set_position 0 3 (omega arith) (omega arith) in
    let e2 = set_message solo message (omega (arith, e1)) p in
    let e3 = set_order numbered 1 (omega (arith, e1, e2)) (omega arith) in
    let e4 = set_retransmission ordered 1 (omega (arith, e1, e2, e3)) (omega arith) in
    ground (arith, e1, e2, e3, e4)

seg0-build_data :
    (sequence message : ℕ) (r : Bool) (body : List ℕ)
    → sequence < 2 ^ 31
    → (build_data sequence message r body).header.seg0 ≡ sequence
unfolding build_data
seg0-build_data sequence message r body p = ground (arith, set_number 0 sequence (omega arith) p)

IsHeader-build_data :
    (sequence message : ℕ) (r : Bool) (body : List ℕ)
    → sequence < 2 ^ 31
    → message < 2 ^ 26
    → IsHeader (build_data sequence message r body).header
IsHeader-build_data sequence message r body p q = record {
  seg0 = omega (arith, seg0-build_data sequence message r body p);
  seg1 = ground (arith, seg1-build_data sequence message r body q);
  timestamp = unfold build_data in ground arith;
  destination = unfold build_data in ground arith;
}

-- A data packet built by the connection, with a sequence number of 31 bits and a message number of
-- 26, reads back as it was built in every field: an ordered, solo data packet with these numbers
-- and this retransmission flag, whose words fit 32 bits.
pub build_data_lem :
    (sequence message : ℕ) (r : Bool) (body : List ℕ)
    → sequence < 2 ^ 31
    → message < 2 ^ 26
    → let h = (build_data sequence message r body).header in
      (packet_type h ≡ data_packet)
      × (packet_sequence_number h ≡ sequence)
      × (packet_position h ≡ solo)
      × (is_ordered h ≡ true)
      × (is_retransmitted h ≡ r)
      × (message_number h ≡ message)
      × IsHeader h
unfolding packet_type packet_sequence_number packet_position is_ordered is_retransmitted
    message_number
build_data_lem sequence message r body p q =
    let h = (build_data sequence message r body).header in
    let low : h.seg0 ≡ sequence = seg0-build_data sequence message r body p in
    let high = seg1-build_data sequence message r body q in
    (
      ground (arith, low, bits_lem h.seg0 0 1),
      omega (arith, low, bits_lem h.seg0 1 32),
      ground (arith, high, bits_lem h.seg1 0 2),
      ground (arith, high, bits_lem h.seg1 2 3),
      ground (arith, high, bits_lem h.seg1 5 6),
      ground (arith, high, bits_lem h.seg1 6 32),
      IsHeader-build_data sequence message r body p q,
    )

-- The sequence number of a packet has 31 bits.
pub packet_sequence_number-lt : (h : Header) → packet_sequence_number h < 2 ^ 31
unfolding packet_sequence_number
packet_sequence_number-lt h = omega (arith, bits_lem h.seg0 1 32)
