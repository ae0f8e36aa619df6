-- ===== src/Handshake/Tests.antt =====
-- The handshake packet and the addresses on concrete values.
use streamsync.Base.{◌≡◌, refl, inl, true, [], ◌∷◌, arith}
use streamsync.Extensions.{handshake}
use streamsync.Handshake.{Handshake, default_handshake, upcast_handshake, downcast_handshake}
use streamsync.Handshake.Address.{v4, v6, to_be, from_ip, to_ip}
use streamsync.Handshake.RoundTrip.{downcast-upcast_handshake}
use streamsync.Packet.ControlHeader.{default_header_lem}
use streamsync.Proto.{to_be_bytes, from_be_bytes}
use streamsync.Proto.Error.{ok}
use streamsync.Types.ControlType
use streamsync.Types.Encryption
use streamsync.Types.HandshakeType

abbrev sample : Handshake
sample = record default_handshake {
  version = 5;
  extension_field = 5;
  initial_packet_sequence_number = 1_000;
  handshake_type = HandshakeType.conclusion;
  srt_socket_id = 77;
  syn_cookie = 99;
  extensions =
      record {
        extension_type = 1;
        extension_length = 3;
        extension_content = handshake (record {
          srt_version = 66_561;
          srt_flags = 47;
          receiver_tsbpd_delay = 120;
          sender_tsbpd_delay = 120;
        });
      }
      ∷ [];
}

downcast-upcast_handshake_example :
    downcast_handshake (λ s. true) (upcast_handshake sample) ≡ ok sample
unfolding Encryption.from_u16 HandshakeType.from_u32
downcast-upcast_handshake_example =
    downcast-upcast_handshake (λ s. true) sample (λ s v. refl)
      (record {
        kind = (default_header_lem ControlType.handshake).0;
        typed = (default_header_lem ControlType.handshake).1;
        version = omega arith;
        encryption = refl;
        encryption_word = omega arith;
        field = omega arith;
        initial = omega arith;
        mtu = omega arith;
        window = omega arith;
        tag = refl;
        tag_word = omega arith;
        socket = omega arith;
        cookie = omega arith;
        address = omega arith;
        supported = inl (record {
          message = record {
            srt_version = 66_561;
            srt_flags = 47;
            receiver_tsbpd_delay = 120;
            sender_tsbpd_delay = 120;
          };
          content = refl;
          tag = inl refl;
          fits = omega arith;
          words = record {
            version = omega arith;
            flags = omega arith;
            receiver = omega arith;
            sender = omega arith;
          };
        });
      })

-- 127.0.0.1 there and back.
v4_run : to_ip (from_ip (v4 2_130_706_433)) ≡ v4 2_130_706_433
unfolding to_ip from_ip to_be to_be_bytes from_be_bytes
v4_run = refl

-- ::1 comes back as the IPv4 address 0.0.0.1.
v6_run : to_ip (from_ip (v6 1)) ≡ v4 1
unfolding to_ip from_ip to_be to_be_bytes from_be_bytes
v6_run = refl
