-- ===== src/Packet.antt =====
-- `Header`, `ControlHeader`, `DataHeader`, `Packet` and `DataPacket` of
-- stsync-proxy/src/srt/mod.rs, and the header newtypes of stsync-proxy/src/srt/proto/header.rs.
pub mod HeaderFields
pub mod ControlHeader
pub mod RoundTrip
mod Tests
use streamsync.Base.{
  ℕ, ◌+◌, ◌^◌, ◌<◌, Bool, true, false, not, List, [], ◌∷◌, ◌++◌, Option, none, some, length, ◌==◌,
  if◌then◌else◌,
}
use streamsync.Proto.{encode_uint, decode_uint, decode_bytes, bits, set_bits}
use streamsync.Proto.Error.{
  Result, ok, err, panicked, invalid_packet_type, invalid_control_type, ◌>>=◌,
}
use streamsync.Types.ControlType
use streamsync.Types.ControlType.{
  PacketType, data_packet, control_packet, packet_type_code, ControlPacketType,
}

-- `seg0` and `seg1` are the numbers inside `Bits<U32>`, and the timestamp is that of `Timestamp`.
pub record Header : Type 0 where
  pub seg0 : ℕ
  pub seg1 : ℕ
  pub timestamp : ℕ
  pub destination_socket_id : ℕ

-- `Header::default()`.
abbrev pub zero_header : Header
zero_header = record { seg0 = 0; seg1 = 0; timestamp = 0; destination_socket_id = 0 }

-- `Header::SIZE`.
abbrev pub header_size : ℕ
header_size = 128

-- One bit is 0 or 1 (`HeaderFields.bits-lt`), so the third arm of the source is not reached.
unfoldable pub packet_type : Header → PacketType
packet_type h = if bits h.seg0 0 1 == 0 then data_packet else control_packet

pub set_packet_type : PacketType → Header → Header
set_packet_type t h = record h { seg0 = set_bits h.seg0 0 1 (packet_type_code t) }

pub encode_header : Header → List ℕ
encode_header h =
    encode_uint 4 h.seg0
    ++ (encode_uint 4 h.seg1
        ++ (encode_uint 4 h.timestamp ++ encode_uint 4 h.destination_socket_id))

pub decode_header : List ℕ → Result (Header × List ℕ)
decode_header bytes = do
  (seg0, r1) ← decode_uint 4 bytes
  (seg1, r2) ← decode_uint 4 r1
  (timestamp, r3) ← decode_uint 4 r2
  (destination, r4) ← decode_uint 4 r3
  ok (
    record { seg0 = seg0; seg1 = seg1; timestamp = timestamp; destination_socket_id = destination },
    r4,
  )

-- `unwrap` on the result of `from_u32`.
abbrev unwrap : Option ControlPacketType → Result ControlPacketType
unwrap none = panicked
unwrap (some t) = ok t

-- `ControlHeader`.
unfoldable pub control_type : Header → Result ControlPacketType
control_type h = unwrap (ControlType.from_u32 (bits h.seg0 1 16))

pub set_control_type : ControlPacketType → Header → Header
set_control_type t h = record h { seg0 = set_bits h.seg0 1 16 (ControlType.to_u16 t) }

-- `header_impl!` at the type `t`: `TryFrom<Header>` and `Default`.
abbrev same_type : ControlPacketType → ControlPacketType → Bool
same_type s t = ControlType.to_u16 s == ControlType.to_u16 t

unfoldable pub try_from_header : ControlPacketType → Header → Result Header
try_from_header t h = elim (packet_type h) [
  | data_packet ↦ err (invalid_packet_type 0)
  | control_packet ↦ control_type h >>= λ s.
      if same_type s t then ok h else err (invalid_control_type (ControlType.to_u16 t))
]

unfoldable pub default_header : ControlPacketType → Header
unfolding set_packet_type set_control_type
default_header t = set_control_type t (set_packet_type control_packet zero_header)

pub data PacketPosition : Type 0 where
  first middle last solo : PacketPosition

-- `DataHeader`.
unfoldable pub packet_sequence_number : Header → ℕ
packet_sequence_number h = bits h.seg0 1 32

pub set_packet_sequence_number : ℕ → Header → Header
set_packet_sequence_number n h = record h { seg0 = set_bits h.seg0 1 32 n }

-- Two bits: the arm `_` of the source is not reached.
pub packet_position : Header → PacketPosition
packet_position h =
    let field = bits h.seg1 0 2 in
    if field == 2 then first else if field == 0 then middle else if field == 1 then last else solo

abbrev position_code : PacketPosition → ℕ
position_code first = 2
position_code middle = 0
position_code last = 1
position_code solo = 3

pub set_packet_position : PacketPosition → Header → Header
set_packet_position p h = record h { seg1 = set_bits h.seg1 0 2 (position_code p) }

abbrev flag_code : Bool → ℕ
flag_code true = 1
flag_code false = 0

pub is_ordered : Header → Bool
is_ordered h = not (bits h.seg1 2 3 == 0)

pub set_ordered : Bool → Header → Header
set_ordered n h = record h { seg1 = set_bits h.seg1 2 3 (flag_code n) }

pub is_retransmitted : Header → Bool
is_retransmitted h = not (bits h.seg1 5 6 == 0)

pub set_retransmitted : Bool → Header → Header
set_retransmitted n h = record h { seg1 = set_bits h.seg1 5 6 (flag_code n) }

unfoldable pub message_number : Header → ℕ
message_number h = bits h.seg1 6 32

pub set_message_number : ℕ → Header → Header
set_message_number n h = record h { seg1 = set_bits h.seg1 6 32 n }

pub record Packet : Type 0 where
  pub header : Header
  pub body : List ℕ

-- `Packet::size`.
pub packet_size : Packet → ℕ
packet_size p = header_size + length p.body

pub encode_packet : Packet → List ℕ
unfolding encode_header
encode_packet p = encode_header p.header ++ p.body

pub decode_packet : List ℕ → Result Packet
unfolding decode_header decode_bytes
decode_packet bytes = do
  (header, r1) ← decode_header bytes
  (body, _) ← decode_bytes r1
  ok (record { header = header; body = body })

-- `DataPacket` has the fields of `Packet`; `upcast` and `downcast` move them.
pub record DataPacket : Type 0 where
  pub header : Header
  pub payload : List ℕ

unfoldable pub upcast_data : DataPacket → Packet
upcast_data p = record { header = p.header; body = p.payload }

unfoldable pub downcast_data : Packet → Result DataPacket
downcast_data p = ok (record { header = p.header; payload = p.body })

-- `DataPacketBuilder`: `build` after the calls that the connection makes, in their order.
pub build_data : ℕ → ℕ → Bool → List ℕ → DataPacket
unfolding set_packet_position set_packet_sequence_number set_message_number set_ordered
    set_retransmitted
build_data sequence message retransmitted body =
    let start = set_packet_position solo zero_header in
    let ordered =
      set_ordered true (set_message_number message (set_packet_sequence_number sequence start)) in
    record {
      header = if retransmitted then set_retransmitted true ordered else ordered;
      payload = body;
    }
