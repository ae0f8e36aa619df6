-- ===== src/Conn/Handshake/Accepted.antt =====
-- A CONCLUSION that asks for a stream: the mode that the connection enters, and the answer as the
-- peer reads it.
use streamsync.Base.{
  ℕ, ◌*◌, ◌<◌, ◌^◌, ◌≡◌, refl, ap, arith, inl, inr, Bool, true, false, ==-refl, some, List, [], ◌∷◌,
  ◌++◌,
}
use streamsync.Conn.Handshake.{Peer, handle_handshake, conclude, parse_some, request_name}
use streamsync.Conn.Output.{output_sink}
use streamsync.Conn.Queue
use streamsync.Conn.Shared.{Config, SessionManager, Shared, opened, to_request}
use streamsync.Conn.State.Sent.{send-Sent}
use streamsync.Conn.State.{induction, request, send, address}
use streamsync.Extensions.{HandshakeExtension, HandshakeExtensionMessage, handshake, stream_id}
use streamsync.Extensions.StreamId
use streamsync.Extensions.StreamId.{StandardStreamId, parsed, parse_stream_id}
use streamsync.Extensions.RoundTrip.{IsMessage}
use streamsync.Extensions.StreamId.RoundTrip.{IsAscii}
use streamsync.Handshake.{Handshake, upcast_handshake, downcast_handshake}
use streamsync.Handshake.RoundTrip.{IsHandshake, downcast-upcast_handshake}
use streamsync.Packet.{Packet, packet_type, control_type}
use streamsync.Proto.Error.{ok}
use streamsync.Sink.Heap.{BinaryHeap}
use streamsync.Sink.Queue.{Segment}
use streamsync.Stream.{new_stream}
use streamsync.Timestamp.{from_start}
use streamsync.Types.Encryption.{no_encryption}
use streamsync.Types.ExtensionType.{hsreq, hsrsp, sid}
use streamsync.Types.Flags.{
  hsreq_field, has_hsreq, has_config, has_crypt, has_rexmitflg, has_stream,
}

-- The extensions of a CONCLUSION: HSREQ, and the stream id.
abbrev pub hsreq_extension : ℕ → HandshakeExtensionMessage → HandshakeExtension
hsreq_extension len ext = record {
  extension_type = hsreq;
  extension_length = len;
  extension_content = handshake ext;
}

abbrev pub sid_extension : ℕ → List ℕ → HandshakeExtension
sid_extension len s = record {
  extension_type = sid;
  extension_length = len;
  extension_content = stream_id s;
}

abbrev pub hsrsp_extension : ℕ → HandshakeExtensionMessage → HandshakeExtension
hsrsp_extension latency ext = record {
  extension_type = hsrsp;
  extension_length = 3;
  extension_content =
      handshake (record ext { sender_tsbpd_delay = latency; receiver_tsbpd_delay = latency });
}

-- A handshake that asks for a stream as it must, on a connection in induction.
pub record AsksFor {H K : Type 0} (p : Handshake) (c : Peer H K) (id : StandardStreamId)
    : Type 0 where
  pub cookie : ℕ
  pub mode : c.mode ≡ induction cookie
  pub version : p.version ≡ 5
  pub encryption : p.encryption_field ≡ no_encryption
  pub same : p.syn_cookie ≡ cookie
  pub field_hsreq : has_hsreq p.extension_field ≡ true
  pub field_config : has_config p.extension_field ≡ true
  pub length_hsreq : ℕ
  pub length_sid : ℕ
  pub message : HandshakeExtensionMessage
  pub string : List ℕ
  pub extensions :
      p.extensions ≡ hsreq_extension length_hsreq message ∷ sid_extension length_sid string ∷ []
  pub crypt : has_crypt message.srt_flags ≡ true
  pub rexmitflg : has_rexmitflg message.srt_flags ≡ true
  pub stream : has_stream message.srt_flags ≡ false
  pub parses : parse_stream_id string ≡ parsed id
  pub asks : StreamId.mode id ≡ some request_name

module _ {H K M : Type 0} (b : BinaryHeap Segment H) (manager : SessionManager M K)
    (config : Config) (peer_address now : ℕ) where
  -- The fields of the header that `send` fills in.
  abbrev pub readdress : ℕ → ℕ → Handshake → Handshake
  readdress ts destination p = record p {
    header = record p.header { timestamp = ts; destination_socket_id = destination };
  }

  -- The answer to `p`.
  abbrev pub answer : (p : Handshake) (c : Peer H K) → HandshakeExtensionMessage → Handshake
  answer p c ext = record p {
    syn_cookie = 0;
    srt_socket_id = c.server_socket_id;
    initial_packet_sequence_number = c.server_sequence_number;
    extensions = hsrsp_extension config.latency ext ∷ [];
    extension_field = hsreq_field;
  }

  abbrev started : Peer H K → Peer H K
  started c = record c {
    latency = config.latency * 1_000;
    mode = request (new_stream config.buffer c.client_sequence_number c.start_time);
  }

  handle_handshake-request :
      (p : Handshake) (c : Peer H K) (w : Shared M) (id : StandardStreamId) (m : M)
      → (a : AsksFor p c id)
      → manager.request
          (parse_some (StreamId.resource id))
          (parse_some (StreamId.session id))
          w.session_manager
        ≡ (opened tt, m)
      → handle_handshake b manager config peer_address now p c w ≡ (
        send (output_sink b) now (upcast_handshake (answer p c a.message)) (started c),
        record w { session_manager = m; metrics = to_request w.metrics },
      )
  unfolding handle_handshake conclude
  handle_handshake-request p c w id m a open_stream =
      rw
        (
          a.mode,
          a.version,
          a.encryption,
          a.same,
          ==-refl a.cookie,
          a.field_hsreq,
          a.field_config,
          a.extensions,
          a.crypt,
          a.rexmitflg,
          a.stream,
          a.parses,
          a.asks,
          open_stream,
        )
        refl

  -- The answer fits its words, and is read back with the header that `send` gave it.
  answer-read :
      (valid_utf8 : List ℕ → Bool) (p : Handshake) (c : Peer H K) (ext : HandshakeExtensionMessage)
      (ts destination : ℕ)
      → ((s : List ℕ) → IsAscii s → valid_utf8 s ≡ true)
      → IsHandshake p
      → IsMessage ext
      → config.latency < 2 ^ 16
      → c.server_socket_id < 2 ^ 32
      → c.server_sequence_number < 2 ^ 32
      → downcast_handshake valid_utf8 (address ts destination (upcast_handshake (answer p c ext)))
        ≡ ok (readdress ts destination (answer p c ext))
  unfolding upcast_handshake packet_type control_type
  answer-read valid_utf8 p c ext ts destination ascii v fits latency socket number =
      downcast-upcast_handshake valid_utf8 (readdress ts destination (answer p c ext)) ascii
        (record {
          kind = v.kind;
          typed = v.typed;
          version = v.version;
          encryption = v.encryption;
          encryption_word = v.encryption_word;
          field = omega arith;
          initial = omega (arith, number);
          mtu = v.mtu;
          window = v.window;
          tag = v.tag;
          tag_word = v.tag_word;
          socket = socket;
          cookie = omega arith;
          address = v.address;
          supported = inl (record {
            message = record ext {
              sender_tsbpd_delay = config.latency;
              receiver_tsbpd_delay = config.latency;
            };
            content = refl;
            tag = inr refl;
            fits = omega arith;
            words = record {
              version = fits.version;
              flags = fits.flags;
              receiver = latency;
              sender = latency;
            };
          });
        })

  -- A connection in induction that is not in a wrapping period; a handshake with fields that fit
  -- their words, with the connection's version, encryption field and cookie, the HSREQ and CONFIG
  -- bits, an HSREQ extension with the flags that must be set and no STREAM flag, and a stream id that
  -- parses and asks for the mode `request`; a session manager that opens the stream of this id; and a
  -- UTF-8 check that accepts ASCII. Then the connection enters request mode with an empty stream of
  -- the configured buffer that starts at its sequence number, and the last packet of its queue, as
  -- the peer reads it, is the handshake with the connection's socket id and sequence number, no
  -- cookie, and an HSRSP extension with the configured latency alone. One connection moves from the
  -- gauge of handshakes to that of requests.
  pub handle_handshake-accepted :
      (valid_utf8 : List ℕ → Bool) (p : Handshake) (c : Peer H K) (w : Shared M)
      (id : StandardStreamId) (m : M)
      → ((s : List ℕ) → IsAscii s → valid_utf8 s ≡ true)
      → IsHandshake p
      → (a : AsksFor p c id) → IsMessage a.message
      → config.latency < 2 ^ 16
      → c.server_socket_id < 2 ^ 32
      → c.server_sequence_number < 2 ^ 32
      → c.timestamp_is_wrapping ≡ false
      → manager.request
          (parse_some (StreamId.resource id))
          (parse_some (StreamId.session id))
          w.session_manager
        ≡ (opened tt, m)
      → (c' : Peer H K) × (q : Packet) × (handle_handshake b manager config peer_address now p c w
          ≡ (c', record w { session_manager = m; metrics = to_request w.metrics }))
        × (c'.mode ≡ request (new_stream config.buffer c.client_sequence_number c.start_time))
        × (c'.server_sequence_number ≡ c.server_sequence_number)
        × (c'.queue.queue ≡ c.queue.queue ++ (q ∷ []))
        × (downcast_handshake valid_utf8 q
            ≡ ok
                (readdress (from_start c.start_time now) c.client_socket_id (answer p c a.message)))
  handle_handshake-accepted valid_utf8 p c w id m ascii v a fits latency socket number fresh e =
      let reply = upcast_handshake (answer p c a.message) in
      let c' = send (output_sink b) now reply (started c) in
      let s = send-Sent (output_sink b) now reply (started c) fresh in
      (
        c',
        address (from_start c.start_time now) c.client_socket_id reply,
        handle_handshake-request p c w id m a e,
        s.mode,
        s.number,
        ap (λ (q : Queue.TransmissionQueue). q.queue) s.queue,
        answer-read valid_utf8 p c a.message (from_start c.start_time now) c.client_socket_id ascii
            v fits latency socket number,
      )
