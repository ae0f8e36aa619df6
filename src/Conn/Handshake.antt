-- ===== src/Conn/Handshake.antt =====
-- `handle_handshake` and `reject` of stsync-proxy/src/srt/conn.rs: the CONCLUSION of a handshake on
-- a connection.
pub mod Asked
pub mod Guards
mod Tests
pub mod Kinds
pub mod Accepted
pub mod Authorized
use streamsync.Base.{
  ℕ, ◌*◌, Bool, true, false, not, ◌||◌, Option, none, some, List, [], ◌∷◌, ◌++◌, ◌==◌,
  if◌then◌else◌,
}
use streamsync.Conn.Output.{output_sink}
use streamsync.Conn.Shared.{
  Config, SessionManager, Shared, Opened, opened, invalid_resource_id, invalid_credentials,
  server_error, to_request, to_publish,
}
use streamsync.Conn.State.{Connection, induction, publish, request, send}
use streamsync.Extensions.{
  HandshakeExtension, HandshakeExtensionMessage, handshake, remove_hsreq, remove_stream_id,
}
use streamsync.Extensions.StreamId
use streamsync.Extensions.StreamId.{
  StandardStreamId, same_string, parse_stream_id, parsed, refused, mode, Parsed,
}
use streamsync.Handshake.{Handshake, default_handshake, upcast_handshake}
use streamsync.Packet.{set_packet_type}
use streamsync.Session.Id.{parse_id}
use streamsync.Sink
use streamsync.Sink.Heap.{BinaryHeap}
use streamsync.Sink.Queue.{Segment}
use streamsync.Stream.{new_stream}
use streamsync.Types.ControlType.{control_packet}
use streamsync.Types.Encryption.{no_encryption}
use streamsync.Types.ExtensionType.{hsrsp}
use streamsync.Types.Flags.{
  none_field, hsreq_field, has_hsreq, has_config, has_crypt, has_rexmitflg, has_stream,
}
use streamsync.Types.HandshakeType.{rej_rogue, rej_badsecret, rej_unknown}

-- A connection whose sink is the `OutputSink` of srt/sink.rs.
abbrev pub Peer : Type 0 → Type 0 → Type 0
Peer H K = Connection (Sink.OutputSink H K)

-- `"request"` and `"publish"`.
abbrev pub request_name : List ℕ
request_name = 114 ∷ 101 ∷ 113 ∷ 117 ∷ 101 ∷ 115 ∷ 116 ∷ []

abbrev pub publish_name : List ℕ
publish_name = 112 ∷ 117 ∷ 98 ∷ 108 ∷ 105 ∷ 115 ∷ 104 ∷ []

-- The code of a session's error.
abbrev pub refusal : {A : Type 0} → Opened A → ℕ
refusal invalid_resource_id = rej_badsecret
refusal invalid_credentials = rej_badsecret
refusal _ = rej_unknown

-- `id.parse().ok()` of an id that may be missing.
abbrev pub parse_some : Option (List ℕ) → Option ℕ
parse_some none = none
parse_some (some id) = parse_id id

module _ {H K M : Type 0} (b : BinaryHeap Segment H) (manager : SessionManager M K)
    (config : Config) (peer_address now : ℕ) where
  -- `reject`.
  unfoldable pub reject : ℕ → Peer H K → Peer H K
  reject reason c =
      let p = record default_handshake {
        header = set_packet_type control_packet default_handshake.header;
        version = 5;
        encryption_field = no_encryption;
        extension_field = none_field;
        initial_packet_sequence_number = c.server_sequence_number;
        maximum_transmission_unit_size = c.mtu;
        maximum_flow_window_size = 8_192;
        handshake_type = reason;
        srt_socket_id = c.server_socket_id;
        syn_cookie = 0;
        peer_ip_address = peer_address;
      } in
      send (output_sink b) now (upcast_handshake p) c

  -- The two modes, once the session manager has answered.
  abbrev pub start_request : Handshake → Peer H K → Shared M → Opened Unit × M → Peer H K × Shared M
  start_request p c w (opened stream, m) =
      let started = record c {
        mode = request (new_stream config.buffer c.client_sequence_number c.start_time);
      } in
      (
        send (output_sink b) now (upcast_handshake p) started,
        record w { session_manager = m; metrics = to_request w.metrics },
      )
  start_request p c w (refused_by, m) =
      (reject (refusal refused_by) c, record w { session_manager = m })

  abbrev pub start_publish : Handshake → Peer H K → Shared M → Opened K × M → Peer H K × Shared M
  start_publish p c w (opened sink, m) =
      let started = record c {
        mode = publish (Sink.new b sink c.start_time c.latency config.buffer);
      } in
      (
        send (output_sink b) now (upcast_handshake p) started,
        record w { session_manager = m; metrics = to_publish w.metrics },
      )
  start_publish p c w (refused_by, m) =
      (reject (refusal refused_by) c, record w { session_manager = m })

  -- The `match` on the mode of the stream id.
  abbrev pub start_mode :
      Option (List ℕ) → StandardStreamId → Handshake → Peer H K → Shared M → Peer H K × Shared M
  start_mode none sid p c w = (reject rej_rogue c, w)
  start_mode (some name) sid p c w =
      let resource_id = parse_some (StreamId.resource sid) in
      let session_id = parse_some (StreamId.session sid) in
      if same_string name request_name
      then start_request p c w (manager.request resource_id session_id w.session_manager)
      else if same_string name publish_name
      then start_publish p c w (manager.publish resource_id session_id w.session_manager)
      else (reject rej_rogue c, w)

  abbrev pub with_parsed : Parsed → Handshake → Peer H K → Shared M → Peer H K × Shared M
  with_parsed (refused fault) p c w = (c, w)
  with_parsed (parsed sid) p c w = start_mode (mode sid) sid p c w

  -- From `remove_stream_id` on.
  abbrev pub with_stream_id :
      Option (List ℕ) → Handshake → Peer H K → Shared M → Peer H K × Shared M
  with_stream_id none p c w = (reject rej_rogue c, w)
  with_stream_id (some s) p c w = with_parsed (parse_stream_id s) p c w

  -- The answer with the HSRSP extension, and the agreed latency.
  abbrev pub agree :
      HandshakeExtensionMessage
      → List HandshakeExtension
      → Handshake
      → Peer H K
      → Shared M
      → Peer H K × Shared M
  agree ext others p c w =
      let answer = record ext {
        sender_tsbpd_delay = config.latency;
        receiver_tsbpd_delay = config.latency;
      } in
      let pushed =
        others
        ++ (record {
          extension_type = hsrsp;
          extension_length = 3;
          extension_content = handshake answer;
        }
            ∷ []) in
      let (sid, left) = remove_stream_id pushed in
      with_stream_id sid (record p { extensions = left; extension_field = hsreq_field })
        (record c { latency = config.latency * 1_000 }) w

  -- From `remove_hsreq` on.
  abbrev pub with_hsreq :
      Option HandshakeExtensionMessage
      → List HandshakeExtension
      → Handshake
      → Peer H K
      → Shared M
      → Peer H K × Shared M
  with_hsreq none others p c w = (reject rej_rogue c, w)
  with_hsreq (some ext) others p c w =
      if not (has_crypt ext.srt_flags) || not (has_rexmitflg ext.srt_flags)
      then (reject rej_rogue c, w)
      else if has_stream ext.srt_flags
      then (reject rej_rogue c, w)
      else agree ext others p c w

  -- From the guards on the cookie on.
  unfoldable pub conclude : Handshake → Peer H K → Shared M → Peer H K × Shared M
  conclude p c w =
      let p' = record p {
        syn_cookie = 0;
        srt_socket_id = c.server_socket_id;
        initial_packet_sequence_number = c.server_sequence_number;
      } in
      if not (has_hsreq p.extension_field) || not (has_config p.extension_field)
      then (reject rej_rogue c, w)
      else let (ext, others) = remove_hsreq p.extensions in with_hsreq ext others p' c w

  unfoldable pub handle_handshake : Handshake → Peer H K → Shared M → Peer H K × Shared M
  handle_handshake p c w = elim c.mode [
    | publish _ ↦ (c, w)
    | request _ ↦ (c, w)
    | induction syn_cookie ↦
        if not (p.version == 5)
        then (c, w)
        else if not (p.encryption_field == no_encryption)
        then (c, w)
        else if not (p.syn_cookie == syn_cookie)
        then (c, w)
        else conclude p c w
  ]
