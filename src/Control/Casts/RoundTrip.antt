-- ===== src/Control/Casts/RoundTrip.antt =====
-- What the peer reads of the control packets that the proxy builds.
use streamsync.Base.{◌^◌, ◌<◌, ◌≡◌, ◌++◌}
use streamsync.Proto.{encode_uint}
use streamsync.Proto.Codec.{decode-encode_uint, decode-encode_last}
use streamsync.Proto.Error.{ok}
use streamsync.Types.ControlType.{control_packet, ControlPacketType, ack, ack_ack, drop_req}
use streamsync.Packet.{Header, packet_type, control_type}
use streamsync.Packet.ControlHeader.{accepts}
use streamsync.Control.Casts.{
  Plain, upcast_ack_ack, downcast_ack_ack, Ack, upcast_ack, decode_ack, downcast_ack, DropRequest,
  upcast_drop_request, downcast_drop_request,
}

-- A header of the type `t`, as a typed packet holds it.
abbrev IsTyped : ControlPacketType → Header → Type 0
IsTyped t h = (packet_type h ≡ control_packet) × (control_type h ≡ ok t)

-- The seven words of an ACK fit 32 bits.
pub record IsAck (p : Ack) : Type 0 where
  pub typed : IsTyped ack p.header
  pub last : p.last_acknowledged_packet_sequence_number < 2 ^ 32
  pub rtt : p.rtt < 2 ^ 32
  pub variance : p.rtt_variance < 2 ^ 32
  pub available : p.avaliable_buffer_size < 2 ^ 32
  pub packets_rate : p.packets_receiving_rate < 2 ^ 32
  pub capacity : p.estimated_link_capacity < 2 ^ 32
  pub rate : p.receiving_rate < 2 ^ 32

-- An ACK with a header of its type and words of 32 bits is read back as it was sent.
pub downcast-upcast_ack : (p : Ack) → IsAck p → downcast_ack (upcast_ack p) ≡ ok p
unfolding downcast_ack upcast_ack decode_ack
downcast-upcast_ack p v =
    let w2 = encode_uint 4 p.rtt in
    let w3 = encode_uint 4 p.rtt_variance in
    let w4 = encode_uint 4 p.avaliable_buffer_size in
    let w5 = encode_uint 4 p.packets_receiving_rate in
    let w6 = encode_uint 4 p.estimated_link_capacity in
    let w7 = encode_uint 4 p.receiving_rate in
    rw (
      accepts ack p.header v.typed.0 v.typed.1,
      decode-encode_uint 4 p.last_acknowledged_packet_sequence_number
          (w2 ++ (w3 ++ (w4 ++ (w5 ++ (w6 ++ w7))))) v.last,
      decode-encode_uint 4 p.rtt (w3 ++ (w4 ++ (w5 ++ (w6 ++ w7)))) v.rtt,
      decode-encode_uint 4 p.rtt_variance (w4 ++ (w5 ++ (w6 ++ w7))) v.variance,
      decode-encode_uint 4 p.avaliable_buffer_size (w5 ++ (w6 ++ w7)) v.available,
      decode-encode_uint 4 p.packets_receiving_rate (w6 ++ w7) v.packets_rate,
      decode-encode_uint 4 p.estimated_link_capacity w7 v.capacity,
      decode-encode_last 4 p.receiving_rate v.rate,
    )

-- An ACKACK with a header of its type is read back as it was sent, its number included.
pub downcast-upcast_ack_ack :
    (p : Plain)
    → IsTyped ack_ack p.header
    → p.unused < 2 ^ 32
    → downcast_ack_ack (upcast_ack_ack p) ≡ ok p
unfolding downcast_ack_ack upcast_ack_ack
downcast-upcast_ack_ack p v h =
    rw (accepts ack_ack p.header v.0 v.1, decode-encode_last 4 p.unused h)

-- A drop request with a header of its type and two words of 32 bits is read back as it was sent.
pub downcast-upcast_drop_request :
    (p : DropRequest)
    → IsTyped drop_req p.header
    → p.first_packet_sequence_number < 2 ^ 32
    → p.last_packet_sequence_number < 2 ^ 32
    → downcast_drop_request (upcast_drop_request p) ≡ ok p
unfolding downcast_drop_request upcast_drop_request
downcast-upcast_drop_request p v h k = rw (
  accepts drop_req p.header v.0 v.1,
  decode-encode_uint 4 p.first_packet_sequence_number (encode_uint 4 p.last_packet_sequence_number)
      h,
  decode-encode_last 4 p.last_packet_sequence_number k,
)
