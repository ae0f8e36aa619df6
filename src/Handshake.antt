-- ===== src/Handshake.antt =====
-- The handshake packet of stsync-proxy/src/srt/proto.rs, with what streamsync-macros/src/packet.rs
-- derives for it, and the codecs of its fields from srt/mod.rs.
pub mod Address
pub mod RoundTrip
mod Tests
use streamsync.Base.{ℕ, Bool, Option, none, some, List, [], ◌++◌}
use streamsync.Extensions.{HandshakeExtension, encode_extensions, decode_extensions}
use streamsync.Packet.{Header, Packet, try_from_header, default_header}
use streamsync.Proto.{encode_uint, decode_uint}
use streamsync.Proto.Error.{
  Result, ok, err, Error, invalid_handshake_type, invalid_encryption_field, ◌>>=◌,
}
use streamsync.Types.ControlType
use streamsync.Types.Encryption
use streamsync.Types.Encryption.{no_encryption}
use streamsync.Types.Flags.{none_field}
use streamsync.Types.HandshakeType
use streamsync.Types.HandshakeType.{wavehand}

-- The newtypes are the numbers inside; `peer_ip_address` has 128 bits.
pub record Handshake : Type 0 where
  pub header : Header
  pub version : ℕ
  pub encryption_field : ℕ
  pub extension_field : ℕ
  pub initial_packet_sequence_number : ℕ
  pub maximum_transmission_unit_size : ℕ
  pub maximum_flow_window_size : ℕ
  pub handshake_type : ℕ
  pub srt_socket_id : ℕ
  pub syn_cookie : ℕ
  pub peer_ip_address : ℕ
  pub extensions : List HandshakeExtension

-- `Handshake::default()`.
abbrev pub default_handshake : Handshake
default_handshake = record {
  header = default_header ControlType.handshake;
  version = 0;
  encryption_field = no_encryption;
  extension_field = none_field;
  initial_packet_sequence_number = 0;
  maximum_transmission_unit_size = 0;
  maximum_flow_window_size = 0;
  handshake_type = wavehand;
  srt_socket_id = 0;
  syn_cookie = 0;
  peer_ip_address = 0;
  extensions = [];
}

unfoldable pub upcast_handshake : Handshake → Packet
upcast_handshake p = record {
  header = p.header;
  body =
      encode_uint 4 p.version
      ++ (encode_uint 2 p.encryption_field
          ++ (encode_uint 2 p.extension_field
              ++ (encode_uint 4 p.initial_packet_sequence_number
                  ++ (encode_uint 4 p.maximum_transmission_unit_size
                      ++ (encode_uint 4 p.maximum_flow_window_size
                          ++ (encode_uint 4 p.handshake_type
                              ++ (encode_uint 4 p.srt_socket_id
                                  ++ (encode_uint 4 p.syn_cookie
                                      ++ (encode_uint 16 p.peer_ip_address
                                          ++ encode_extensions p.extensions)))))))));
}

-- A tag, when it is known.
abbrev pub known_tag : Option ℕ → Error → List ℕ → Result (ℕ × List ℕ)
known_tag (some t) fault rest = ok (t, rest)
known_tag none fault rest = err fault

-- `Decode for EncryptionField` and `Decode for HandshakeType`.
unfoldable pub decode_encryption_field : List ℕ → Result (ℕ × List ℕ)
decode_encryption_field bytes = do
  (n, rest) ← decode_uint 2 bytes
  known_tag (Encryption.from_u16 n) (invalid_encryption_field n) rest

unfoldable pub decode_handshake_type : List ℕ → Result (ℕ × List ℕ)
decode_handshake_type bytes = do
  (n, rest) ← decode_uint 4 bytes
  known_tag (HandshakeType.from_u32 n) (invalid_handshake_type n) rest

module _ (valid_utf8 : List ℕ → Bool) where
  unfoldable pub decode_handshake : Header → List ℕ → Result Handshake
  decode_handshake header bytes = do
    (version, r1) ← decode_uint 4 bytes
    (encryption, r2) ← decode_encryption_field r1
    (field, r3) ← decode_uint 2 r2
    (initial, r4) ← decode_uint 4 r3
    (mtu, r5) ← decode_uint 4 r4
    (window, r6) ← decode_uint 4 r5
    (kind, r7) ← decode_handshake_type r6
    (socket, r8) ← decode_uint 4 r7
    (cookie, r9) ← decode_uint 4 r8
    (peer, r10) ← decode_uint 16 r9
    extensions ← decode_extensions valid_utf8 r10
    ok (record {
      header = header;
      version = version;
      encryption_field = encryption;
      extension_field = field;
      initial_packet_sequence_number = initial;
      maximum_transmission_unit_size = mtu;
      maximum_flow_window_size = window;
      handshake_type = kind;
      srt_socket_id = socket;
      syn_cookie = cookie;
      peer_ip_address = peer;
      extensions = extensions;
    })

  unfoldable pub downcast_handshake : Packet → Result Handshake
  downcast_handshake p =
      try_from_header ControlType.handshake p.header >>= λ h. decode_handshake h p.body
