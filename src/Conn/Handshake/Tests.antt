-- ===== src/Conn/Handshake/Tests.antt =====
-- The handshake of a connection on concrete packets.
use streamsync.Base.{ap, ◌∙◌, ℕ, ◌≡◌, refl, inl, inr, true, List, [], ◌∷◌, arith}
use streamsync.Conn.Handshake.{parse_some, Peer, handle_handshake, request_name}
use streamsync.Conn.Handshake.Accepted.{
  AsksFor, answer, readdress, hsreq_extension, sid_extension, handle_handshake-accepted,
}
use streamsync.Conn.Handshake.Authorized.{handle_handshake-HoldsKey}
use streamsync.Conn.Handshake.Asked.{Passes, Carries, asked_resource, asked_session, Outcome}
use streamsync.Conn.Handshake.Guards.{handle_handshake-Outcome}
use streamsync.Conn.Modes.{handshaking, of_kind}
use streamsync.Conn.Shared.{Config, Shared, opened, to_request}
use streamsync.Conn.State.{request}
use streamsync.Extensions.{HandshakeExtensionMessage}
use streamsync.Extensions.RoundTrip.{IsMessage}
use streamsync.Extensions.StreamId.RoundTrip.{IsAscii}
use streamsync.Handshake.RoundTrip.{IsHandshake}
use streamsync.Extensions.StreamId
use streamsync.Extensions.StreamId.{StandardStreamId, parsed, parse_stream_id, insert_pairs}
use streamsync.Handshake.{Handshake, default_handshake, downcast_handshake}
use streamsync.Packet.{Packet}
use streamsync.Packet.ControlHeader.{default_header_lem}
use streamsync.Proto.Error.{ok}
use streamsync.Server.{fresh_connection}
use streamsync.Session.Manager.{attach, Inner, buffer_session_manager, HoldsKey}
use streamsync.Sink.Linear.{sorted_list, SortedList}
use streamsync.Stream.{new_stream}
use streamsync.Timestamp.{from_start}
use streamsync.Types.ControlType
use streamsync.Types.HandshakeType
use streamsync.Types.Encryption
use streamsync.Session.{SessionKey, authorize, remove, remove_key, check_key, is_expired}
use streamsync.Session.Id.{parse_id, from_digits}
use streamsync.Types.Flags.{has_hsreq, has_config, has_crypt, has_rexmitflg, has_stream}

abbrev config : Config
config = record { mtu = 1_500; flow_window = 8_192; buffer = 8_192; latency = 120 }

-- In induction, with the cookie 99.
abbrev waiting : Peer SortedList (List (List ℕ))
waiting =
    fresh_connection (record { addr = 1; server_socket_id = 77; client_socket_id = 77 }) 1_000 1_000
      99

abbrev message : HandshakeExtensionMessage
message = record {
  srt_version = 66_561;
  srt_flags = 47;
  receiver_tsbpd_delay = 0;
  sender_tsbpd_delay = 0;
}

-- `#!::m=request,r=5,s=33`.
abbrev text : List ℕ
text =
    35 ∷ 33 ∷ 58 ∷ 58 ∷ 109 ∷ 61 ∷ 114 ∷ 101 ∷ 113 ∷ 117 ∷ 101 ∷ 115 ∷ 116 ∷ 44 ∷ 114 ∷ 61 ∷ 53 ∷ 44
    ∷ 115 ∷ 61 ∷ 51 ∷ 51 ∷ []

abbrev stream_id : StandardStreamId
stream_id = (115 ∷ [], 51 ∷ 51 ∷ []) ∷ (114 ∷ [], 53 ∷ []) ∷ (109 ∷ [], request_name) ∷ []

abbrev conclusion : Handshake
conclusion = record default_handshake {
  version = 5;
  extension_field = 5;
  initial_packet_sequence_number = 1_000;
  handshake_type = HandshakeType.conclusion;
  srt_socket_id = 77;
  syn_cookie = 99;
  extensions = hsreq_extension 3 message ∷ sid_extension 6 text ∷ [];
}

abbrev key : SessionKey
key = record { resource_id = 5; session_id = 51; expires = 5_000 }

abbrev shared : Shared Inner
shared = record {
  session_manager = record { streams = []; registry = (5, key ∷ []) ∷ [] };
  metrics = record {
    connections_total = 1;
    connections_publish_current = 0;
    connections_request_current = 0;
    connections_handshake_current = 1;
  };
}

-- The session manager after it: the key is used up.
abbrev used : Inner
used = record { streams = 5 ∷ []; registry = (5, []) ∷ [] }

asks : AsksFor {H = SortedList} {K = List (List ℕ)} conclusion waiting stream_id
unfolding has_hsreq has_config has_crypt has_rexmitflg has_stream parse_stream_id insert_pairs
asks = record {
  cookie = 99;
  mode = refl;
  version = refl;
  encryption = refl;
  same = refl;
  field_hsreq = refl;
  field_config = refl;
  length_hsreq = 3;
  length_sid = 6;
  message = message;
  string = text;
  extensions = refl;
  crypt = refl;
  rexmitflg = refl;
  stream = refl;
  parses = refl;
  asks = refl;
}

handle_handshake-Outcome_example :
    Outcome sorted_list (buffer_session_manager 2_000) config 0 2_000 conclusion waiting shared (
      handle_handshake sorted_list
        (buffer_session_manager 2_000)
        config
        0
        2_000
        conclusion
        waiting
        shared)
handle_handshake-Outcome_example =
    handle_handshake-Outcome sorted_list (buffer_session_manager 2_000) config 0 2_000 conclusion
      waiting shared

message_fits : IsMessage message
message_fits = record {
  version = omega arith;
  flags = omega arith;
  receiver = omega arith;
  sender = omega arith;
}

text-IsAscii : IsAscii text
text-IsAscii = ground arith

conclusion_fits : IsHandshake conclusion
unfolding Encryption.from_u16 HandshakeType.from_u32
conclusion_fits = record {
  kind = (default_header_lem ControlType.handshake).0;
  typed = (default_header_lem ControlType.handshake).1;
  version = omega arith;
  encryption = refl;
  encryption_word = omega arith;
  field = omega arith;
  initial = omega arith;
  mtu = omega arith;
  window = omega arith;
  tag = refl;
  tag_word = omega arith;
  socket = omega arith;
  cookie = omega arith;
  address = omega arith;
  supported = (
    record {
      message = message;
      content = refl;
      tag = inl refl;
      fits = omega arith;
      words = message_fits;
    },
    inr (record {
      string = text;
      content = refl;
      tag = refl;
      fits = omega arith;
      ascii = text-IsAscii;
    }),
  );
}

opens :
    attach tt
      (authorize 2_000
        (parse_some (StreamId.resource stream_id))
        (parse_some (StreamId.session stream_id))
        shared.session_manager.registry)
      shared.session_manager
    ≡ (opened tt, used)
unfolding authorize remove remove_key check_key is_expired parse_id from_digits
opens = refl

handle_handshake-accepted_example :
    (c' : Peer SortedList (List (List ℕ))) × (q : Packet) × (handle_handshake sorted_list
        (buffer_session_manager 2_000)
        config
        0
        2_000
        conclusion
        waiting
        shared
      ≡ (c', record { session_manager = used; metrics = to_request shared.metrics }))
    × (c'.mode ≡ request (new_stream 8_192 1_000 1_000))
    × (c'.server_sequence_number ≡ 1_000)
    × (c'.queue.queue ≡ q ∷ [])
    × (downcast_handshake (λ s. true) q
        ≡ ok (
            readdress sorted_list
              (buffer_session_manager 2_000)
              config
              0
              2_000
              (from_start 1_000 2_000)
              77
              (answer sorted_list
                (buffer_session_manager 2_000)
                config
                0
                2_000
                conclusion
                waiting
                message)))
unfolding asks
handle_handshake-accepted_example =
    handle_handshake-accepted sorted_list (buffer_session_manager 2_000) config 0 2_000 (λ s. true)
      conclusion waiting shared stream_id used (λ s v. refl) conclusion_fits asks message_fits
      (omega arith) (omega arith) (omega arith) refl opens

-- The request mode that it enters is not the induction.
entered :
    of_kind handshaking
      (handle_handshake sorted_list
        (buffer_session_manager 2_000)
        config
        0
        2_000
        conclusion
        waiting
        shared).0.mode
    ≡ 0
unfolding asks
entered =
    let (c', q, e, mode, number, queue, reads) =
      handle_handshake-accepted sorted_list (buffer_session_manager 2_000) config 0 2_000
        (λ s. true) conclusion waiting shared stream_id used (λ s v. refl) conclusion_fits asks
        message_fits (omega arith) (omega arith) (omega arith) refl opens in
    ap (λ (r : Peer SortedList (List (List ℕ)) × Shared Inner). of_kind handshaking r.0.mode) e
    ∙ ap (of_kind handshaking) mode

handle_handshake-HoldsKey_example :
    Passes conclusion waiting
    × ((id : StandardStreamId) × Carries conclusion id
        × HoldsKey 2_000 (asked_resource id) (asked_session id) shared.session_manager.registry)
handle_handshake-HoldsKey_example =
    handle_handshake-HoldsKey sorted_list config 0 2_000 conclusion waiting shared 99 refl entered
