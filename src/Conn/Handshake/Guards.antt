-- ===== src/Conn/Handshake/Guards.antt =====
-- What a CONCLUSION can do to a connection.
use streamsync.Base.{
  ℕ, ◌*◌, ◌≡◌, inl, inr, refl, sym, true, not, Bool-cases, ==_iff, if_on, Option, none, some, List,
  [], ◌∷◌, ◌++◌, ◌==◌, if◌then◌else◌,
}
use streamsync.Conn.Handshake.{
  Peer, start_request, start_publish, start_mode, with_parsed, with_stream_id, agree, with_hsreq,
  conclude, handle_handshake, request_name, publish_name,
}
use streamsync.Conn.Handshake.Asked.{
  Passes, Agrees, Carries, Refuses, stream_id_text, asked_resource, asked_session, no_hsreq_field,
  no_config_field, no_hsreq, no_crypt, no_rexmitflg, stream_flag, no_stream_id, no_mode, other_mode,
  no_request, no_publish, remove_stream_id-pushed, Outcome, ignored, rejected, unparsed, requested,
  published,
}
use streamsync.Conn.Shared.{
  Config, SessionManager, Shared, Opened, opened, invalid_resource_id, invalid_credentials,
  server_error,
}
use streamsync.Conn.State.{ConnectionMode, induction, publish, request}
use streamsync.Extensions.{
  handshake, HandshakeExtension, HandshakeExtensionMessage, remove_hsreq, remove_stream_id,
}
use streamsync.Extensions.StreamId
use streamsync.Extensions.StreamId.{
  StandardStreamId, Parsed, StandardStreamIdError, parsed, refused, same_string, parse_stream_id,
}
use streamsync.Handshake.{Handshake}
use streamsync.Sink
use streamsync.Sink.Heap.{BinaryHeap}
use streamsync.Sink.Queue.{Segment}
use streamsync.Types.Encryption.{no_encryption}
use streamsync.Types.ExtensionType.{hsrsp}
use streamsync.Types.Flags.{
  hsreq_field, has_hsreq, has_config, has_crypt, has_rexmitflg, has_stream,
}
use streamsync.Types.HandshakeType.{rej_rogue}

module _ {H K M : Type 0} (b : BinaryHeap Segment H) (manager : SessionManager M K)
    (config : Config) (peer_address now : ℕ) where
  module _ (p : Handshake) (c : Peer H K) (w : Shared M) (g : Passes p c) where
    start_request-Outcome :
        (q : Handshake) (l : ℕ) (id : StandardStreamId) (name : List ℕ) (a : Opened Unit × M)
        → Carries p id
        → StreamId.mode id ≡ some name
        → same_string name request_name ≡ true
        → manager.request (asked_resource id) (asked_session id) w.session_manager ≡ a
        → Outcome b manager config peer_address now p c w
            (start_request b manager config peer_address now q (record c { latency = l }) w a)
    start_request-Outcome q l id name (opened tt, m) v f h e = requested q l id name m g v f h e
    start_request-Outcome q l id name (invalid_resource_id, m) v f h e =
        rejected _ l m g (no_request id name _ m v f h e tt)
    start_request-Outcome q l id name (invalid_credentials, m) v f h e =
        rejected _ l m g (no_request id name _ m v f h e tt)
    start_request-Outcome q l id name (server_error, m) v f h e =
        rejected _ l m g (no_request id name _ m v f h e tt)

    start_publish-Outcome :
        (q : Handshake) (l : ℕ) (id : StandardStreamId) (name : List ℕ) (a : Opened K × M)
        → Carries p id
        → StreamId.mode id ≡ some name
        → same_string name publish_name ≡ true
        → manager.publish (asked_resource id) (asked_session id) w.session_manager ≡ a
        → Outcome b manager config peer_address now p c w
            (start_publish b manager config peer_address now q (record c { latency = l }) w a)
    start_publish-Outcome q l id name (opened k, m) v f h e = published q l id name k m g v f h e
    start_publish-Outcome q l id name (invalid_resource_id, m) v f h e =
        rejected _ l m g (no_publish id name _ m v f h e tt)
    start_publish-Outcome q l id name (invalid_credentials, m) v f h e =
        rejected _ l m g (no_publish id name _ m v f h e tt)
    start_publish-Outcome q l id name (server_error, m) v f h e =
        rejected _ l m g (no_publish id name _ m v f h e tt)

    start_mode-Outcome :
        (name : Option (List ℕ)) (id : StandardStreamId) (q : Handshake) (l : ℕ)
        → Carries p id
        → StreamId.mode id ≡ name
        → Outcome b manager config peer_address now p c w
            (start_mode b manager config peer_address now name id q (record c { latency = l }) w)
    start_mode-Outcome none id q l v f = rejected _ l w.session_manager g (no_mode id v f)
    start_mode-Outcome (some name) id q l v f =
        if_on (Outcome b manager config peer_address now p c w) (same_string name request_name) _ _
          (λ h. start_request-Outcome q l id name _ v f h refl)
          (λ other.
            if_on (Outcome b manager config peer_address now p c w) (same_string name publish_name)
              _ _ (λ h. start_publish-Outcome q l id name _ v f h refl)
              (λ h. rejected _ l w.session_manager g (other_mode id name v f other h)))

    with_parsed-Outcome :
        (r : Parsed) (text : List ℕ) (q : Handshake) (l : ℕ)
        → Agrees p
        → stream_id_text p ≡ some text
        → parse_stream_id text ≡ r
        → Outcome b manager config peer_address now p c w
            (with_parsed b manager config peer_address now r q (record c { latency = l }) w)
    with_parsed-Outcome (refused fault) text q l v f e = unparsed l text fault g v f e
    with_parsed-Outcome (parsed id) text q l v f e =
        start_mode-Outcome (StreamId.mode id) id q l
          (record { agrees = v; text = text; found = f; parses = e }) refl

    with_stream_id-Outcome :
        (s : Option (List ℕ)) (q : Handshake) (l : ℕ)
        → Agrees p
        → stream_id_text p ≡ s
        → Outcome b manager config peer_address now p c w
            (with_stream_id b manager config peer_address now s q (record c { latency = l }) w)
    with_stream_id-Outcome none q l v f = rejected _ l w.session_manager g (no_stream_id v f)
    with_stream_id-Outcome (some s) q l v f = with_parsed-Outcome (parse_stream_id s) s q l v f refl

    agree-Outcome :
        (v : Agrees p) (q : Handshake)
        → Outcome b manager config peer_address now p c w
            (agree b manager config peer_address now v.message (remove_hsreq p.extensions).1 q c w)
    agree-Outcome v q =
        let others = (remove_hsreq p.extensions).1 in
        let answer = record v.message {
          sender_tsbpd_delay = config.latency;
          receiver_tsbpd_delay = config.latency;
        } in
        let pushed : List HandshakeExtension =
          others
          ++ (record {
            extension_type = hsrsp;
            extension_length = 3;
            extension_content = handshake answer;
          }
              ∷ []) in
        let (text, left) = remove_stream_id pushed in
        with_stream_id-Outcome text (record q { extensions = left; extension_field = hsreq_field })
          (config.latency * 1_000) v (sym (remove_stream_id-pushed 3 answer others))

    with_hsreq-Outcome :
        (ext : Option HandshakeExtensionMessage) (q : Handshake)
        → has_hsreq p.extension_field ≡ true
        → has_config p.extension_field ≡ true
        → (remove_hsreq p.extensions).0 ≡ ext
        → Outcome b manager config peer_address now p c w
            (with_hsreq b manager config peer_address now ext (remove_hsreq p.extensions).1 q c w)
    with_hsreq-Outcome none q h k e = rejected rej_rogue c.latency w.session_manager g (no_hsreq e)
    with_hsreq-Outcome (some ext) q h k e =
        let refuses : Refuses manager p w.session_manager rej_rogue w.session_manager
            → Outcome b manager config peer_address now p c w _ =
          rejected rej_rogue c.latency w.session_manager g in
        elim (Bool-cases (has_crypt ext.srt_flags)) [
          | inr bad ↦ rw bad (refuses (no_crypt ext e bad))
          | inl crypt ↦ elim (Bool-cases (has_rexmitflg ext.srt_flags)) [
            | inr bad ↦ rw (crypt, bad) (refuses (no_rexmitflg ext e bad))
            | inl rexmitflg ↦ elim (Bool-cases (has_stream ext.srt_flags)) [
              | inl bad ↦ rw (crypt, rexmitflg, bad) (refuses (stream_flag ext e bad))
              | inr stream ↦
                  rw (crypt, rexmitflg, stream)
                    (agree-Outcome
                      (record {
                        message = ext;
                        field_hsreq = h;
                        field_config = k;
                        found = e;
                        crypt = crypt;
                        rexmitflg = rexmitflg;
                        stream = stream;
                      })
                      q)
            ]
          ]
        ]

    conclude-Outcome :
        Outcome b manager config peer_address now p c w
          (conclude b manager config peer_address now p c w)
    unfolding conclude
    conclude-Outcome =
        let q = record p {
          syn_cookie = 0;
          srt_socket_id = c.server_socket_id;
          initial_packet_sequence_number = c.server_sequence_number;
        } in
        let refuses : Refuses manager p w.session_manager rej_rogue w.session_manager
            → Outcome b manager config peer_address now p c w _ =
          rejected rej_rogue c.latency w.session_manager g in
        elim (Bool-cases (has_hsreq p.extension_field)) [
          | inr bad ↦ rw (conclude, bad) (refuses (no_hsreq_field bad))
          | inl field ↦ elim (Bool-cases (has_config p.extension_field)) [
            | inr bad ↦ rw (conclude, field, bad) (refuses (no_config_field bad))
            | inl config_field ↦
                rw (conclude, field, config_field)
                  (with_hsreq-Outcome (remove_hsreq p.extensions).0 q field config_field refl)
          ]
        ]

  guards-Outcome :
      (p : Handshake) (c : Peer H K) (w : Shared M) (cookie : ℕ)
      → c.mode ≡ induction cookie
      → Outcome b manager config peer_address now p c w (
          if not (p.version == 5)
          then (c, w)
          else if not (p.encryption_field == no_encryption)
          then (c, w)
          else if not (p.syn_cookie == cookie)
          then (c, w)
          else conclude b manager config peer_address now p c w)
  guards-Outcome p c w cookie mode = elim (Bool-cases (p.version == 5)) [
    | inr other ↦ rw other ignored
    | inl version ↦ elim (Bool-cases (p.encryption_field == no_encryption)) [
      | inr other ↦ rw (version, other) ignored
      | inl encryption ↦ elim (Bool-cases (p.syn_cookie == cookie)) [
        | inr other ↦ rw (version, encryption, other) ignored
        | inl same ↦
            rw (version, encryption, same)
              (conclude-Outcome p c w (record {
                cookie = cookie;
                mode = mode;
                version = (==_iff _ _).0 version;
                encryption = (==_iff _ _).0 encryption;
                same = (==_iff _ _).0 same;
              }))
      ]
    ]
  ]

  -- A handshake on a connection has one of five outcomes. It is ignored: the connection and the
  -- state of the server stay as they are. Or the connection is in induction, and the version, the
  -- encryption field and the cookie of the handshake are as they must be. Then it is rejected for one
  -- of eleven reasons: a missing bit of the extension field, a missing HSREQ extension, one of its
  -- three flags, a missing stream id, a stream id with no mode or with another mode, or an error of
  -- the session manager for the ids that the stream id names, whose code the rejection has. Or its
  -- stream id does not parse, and no answer is sent. Or the session manager opens the stream that the
  -- parsed stream id asks for, by its mode, its resource and its session, and the connection enters
  -- this mode with an answer in the queue and the gauges of the two modes moved by one.
  pub handle_handshake-Outcome :
      (p : Handshake) (c : Peer H K) (w : Shared M)
      → Outcome b manager config peer_address now p c w
          (handle_handshake b manager config peer_address now p c w)
  unfolding handle_handshake
  handle_handshake-Outcome p c w = by_mode c.mode refl
    where
      by_mode :
          (mode : ConnectionMode (Sink.OutputSink H K))
          → c.mode ≡ mode
          → Outcome b manager config peer_address now p c w
              (elim mode as (λ _. Peer H K × Shared M) [
                | publish _ ↦ (c, w)
                | request _ ↦ (c, w)
                | induction syn_cookie ↦
                    if not (p.version == 5)
                    then (c, w)
                    else if not (p.encryption_field == no_encryption)
                    then (c, w)
                    else if not (p.syn_cookie == syn_cookie)
                    then (c, w)
                    else conclude b manager config peer_address now p c w
              ])
      by_mode (publish _) e = ignored
      by_mode (request _) e = ignored
      by_mode (induction cookie) e = guards-Outcome p c w cookie e
