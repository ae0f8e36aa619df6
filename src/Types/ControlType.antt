-- ===== src/Types/ControlType.antt =====
-- `PacketType` and `ControlPacketType`.
use streamsync.Base.{ℕ, ◌^◌, ◌<◌, ◌≡◌, refl, Option, none, some, ◌==◌, if◌then◌else◌, arith}

pub data PacketType : Type 0 where
  data_packet control_packet : PacketType

abbrev pub packet_type_code : PacketType → ℕ
packet_type_code data_packet = 0x0
packet_type_code control_packet = 0x01

pub data ControlPacketType : Type 0 where
  handshake keepalive ack nak congestion_warning shutdown ack_ack drop_req : ControlPacketType
  peer_error user_defined : ControlPacketType

unfoldable pub to_u16 : ControlPacketType → ℕ
to_u16 handshake = 0x00
to_u16 keepalive = 0x01
to_u16 ack = 0x02
to_u16 nak = 0x03
to_u16 congestion_warning = 0x04
to_u16 shutdown = 0x05
to_u16 ack_ack = 0x06
to_u16 drop_req = 0x07
to_u16 peer_error = 0x08
to_u16 user_defined = 0x7FFF

-- `TryFrom<u16>` has the same table.
unfoldable pub from_u32 : ℕ → Option ControlPacketType
from_u32 value =
    if value == 0x0000
    then some handshake
    else if value == 0x0001
    then some keepalive
    else if value == 0x0002
    then some ack
    else if value == 0x0003
    then some nak
    else if value == 0x0004
    then some congestion_warning
    else if value == 0x0005
    then some shutdown
    else if value == 0x0006
    then some ack_ack
    else if value == 0x0007
    then some drop_req
    else if value == 0x0008
    then some peer_error
    else if value == 0x7FFF
    then some user_defined
    else none

pub from_u32-to_u16 : (t : ControlPacketType) → from_u32 (to_u16 t) ≡ some t
unfolding from_u32 to_u16
from_u32-to_u16 handshake = refl
from_u32-to_u16 _ = refl

pub to_u16-lt : (t : ControlPacketType) → to_u16 t < 2 ^ 15
unfolding to_u16
to_u16-lt handshake = omega arith
to_u16-lt _ = omega arith

-- A number is the code of a type exactly when it is read as that type.
pub from_u32_iff : (n : ℕ) (t : ControlPacketType) → from_u32 n ≡ some t → n ≡ to_u16 t
unfolding from_u32 to_u16
from_u32_iff n t h = ground arith

pub to_u16-injective : (s t : ControlPacketType) → to_u16 s ≡ to_u16 t → s ≡ t
to_u16-injective s t h = cc (from_u32-to_u16 s, from_u32-to_u16 t)
