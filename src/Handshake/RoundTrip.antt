-- ===== src/Handshake/RoundTrip.antt =====
-- A handshake is read back as it was sent.
use streamsync.Base.{ℕ, ◌<◌, ◌^◌, ◌≡◌, refl, ◌++◌, ap, Bool, true, List, some}
use streamsync.Extensions.{encode_extensions}
use streamsync.Extensions.RoundTrip.{AreSupported, decode-encode_extensions}
use streamsync.Extensions.StreamId.RoundTrip.{IsAscii}
use streamsync.Handshake.{
  Handshake, upcast_handshake, downcast_handshake, decode_handshake, decode_encryption_field,
  decode_handshake_type, known_tag,
}
use streamsync.Packet.{packet_type, control_type}
use streamsync.Packet.ControlHeader.{accepts}
use streamsync.Proto.{encode_uint}
use streamsync.Proto.Codec.{decode-encode_uint}
use streamsync.Proto.Error.{ok, invalid_encryption_field, invalid_handshake_type}
use streamsync.Types.ControlType
use streamsync.Types.ControlType.{control_packet}
use streamsync.Types.Encryption
use streamsync.Types.HandshakeType

-- A control header of the handshake's type, known tags, fields that fit their words, and extensions
-- that the decoder supports.
pub record IsHandshake (p : Handshake) : Type 0 where
  pub kind : packet_type p.header ≡ control_packet
  pub typed : control_type p.header ≡ ok ControlType.handshake
  pub version : p.version < 2 ^ 32
  pub encryption : Encryption.from_u16 p.encryption_field ≡ some p.encryption_field
  pub encryption_word : p.encryption_field < 2 ^ 16
  pub field : p.extension_field < 2 ^ 16
  pub initial : p.initial_packet_sequence_number < 2 ^ 32
  pub mtu : p.maximum_transmission_unit_size < 2 ^ 32
  pub window : p.maximum_flow_window_size < 2 ^ 32
  pub tag : HandshakeType.from_u32 p.handshake_type ≡ some p.handshake_type
  pub tag_word : p.handshake_type < 2 ^ 32
  pub socket : p.srt_socket_id < 2 ^ 32
  pub cookie : p.syn_cookie < 2 ^ 32
  pub address : p.peer_ip_address < 2 ^ 128
  pub supported : AreSupported p.extensions

decode_encryption :
    (n : ℕ) (rest : List ℕ)
    → Encryption.from_u16 n ≡ some n
    → n < 2 ^ 16
    → decode_encryption_field (encode_uint 2 n ++ rest) ≡ ok (n, rest)
unfolding decode_encryption_field
decode_encryption n rest known h =
    rw (decode-encode_uint 2 n rest h)
      (ap (λ o. known_tag o (invalid_encryption_field n) rest) known)

decode_type :
    (n : ℕ) (rest : List ℕ)
    → HandshakeType.from_u32 n ≡ some n
    → n < 2 ^ 32
    → decode_handshake_type (encode_uint 4 n ++ rest) ≡ ok (n, rest)
unfolding decode_handshake_type
decode_type n rest known h =
    rw (decode-encode_uint 4 n rest h) (ap (λ o. known_tag o (invalid_handshake_type n) rest) known)

-- A UTF-8 check that accepts ASCII: a handshake whose header is of its type, whose tags are known,
-- whose fields fit their words, and whose extensions are messages with at most a stream id after
-- them, of ASCII characters but NUL, is read back as it was sent, its extensions included.
pub downcast-upcast_handshake :
    (valid_utf8 : List ℕ → Bool) (p : Handshake)
    → ((s : List ℕ) → IsAscii s → valid_utf8 s ≡ true)
    → IsHandshake p
    → downcast_handshake valid_utf8 (upcast_handshake p) ≡ ok p
unfolding downcast_handshake upcast_handshake decode_handshake
downcast-upcast_handshake valid_utf8 p ascii v =
    let w11 = encode_extensions p.extensions in
    let w10 = encode_uint 16 p.peer_ip_address ++ w11 in
    let w9 = encode_uint 4 p.syn_cookie ++ w10 in
    let w8 = encode_uint 4 p.srt_socket_id ++ w9 in
    let w7 = encode_uint 4 p.handshake_type ++ w8 in
    let w6 = encode_uint 4 p.maximum_flow_window_size ++ w7 in
    let w5 = encode_uint 4 p.maximum_transmission_unit_size ++ w6 in
    let w4 = encode_uint 4 p.initial_packet_sequence_number ++ w5 in
    let w3 = encode_uint 2 p.extension_field ++ w4 in
    rw
      (
        accepts ControlType.handshake p.header v.kind v.typed,
        decode-encode_uint 4 p.version (encode_uint 2 p.encryption_field ++ w3) v.version,
        decode_encryption p.encryption_field w3 v.encryption v.encryption_word,
        decode-encode_uint 2 p.extension_field w4 v.field,
        decode-encode_uint 4 p.initial_packet_sequence_number w5 v.initial,
        decode-encode_uint 4 p.maximum_transmission_unit_size w6 v.mtu,
        decode-encode_uint 4 p.maximum_flow_window_size w7 v.window,
        decode_type p.handshake_type w8 v.tag v.tag_word,
        decode-encode_uint 4 p.srt_socket_id w9 v.socket,
        decode-encode_uint 4 p.syn_cookie w10 v.cookie,
        decode-encode_uint 16 p.peer_ip_address w11 v.address,
        decode-encode_extensions valid_utf8 ascii p.extensions v.supported,
      )
      refl
