-- ===== src/Conn/Handshake/Asked.antt =====
-- What a CONCLUSION asks for, the reasons to refuse it, and what can come of it.
use streamsync.Base.{
  ℕ, ◌≡◌, inl, inr, refl, true, false, Bool-cases, Option, none, some, List, [], ◌∷◌, ◌++◌, ◌==◌,
  Option-cases,
}
use streamsync.Conn.Handshake.{Peer, request_name, publish_name, parse_some, refusal, reject}
use streamsync.Conn.Shared.{
  Shared, SessionManager, Opened, invalid_resource_id, invalid_credentials, server_error, Config,
  opened, to_request, to_publish,
}
use streamsync.Conn.State.{induction, request, publish, send}
use streamsync.Conn.Output.{output_sink}
use streamsync.Extensions.{
  handshake, HandshakeExtension, HandshakeExtensionMessage, stream_id_of, remove_hsreq,
  remove_stream_id,
}
use streamsync.Extensions.StreamId
use streamsync.Extensions.StreamId.{
  StandardStreamId, parsed, same_string, parse_stream_id, StandardStreamIdError, refused,
}
use streamsync.Handshake.{Handshake, upcast_handshake}
use streamsync.Sink
use streamsync.Sink.Heap.{BinaryHeap}
use streamsync.Sink.Queue.{Segment}
use streamsync.Stream.{new_stream}
use streamsync.Types.Encryption.{no_encryption}
use streamsync.Types.ExtensionType.{hsrsp, sid}
use streamsync.Types.Flags.{has_hsreq, has_config, has_crypt, has_rexmitflg, has_stream}
use streamsync.Types.HandshakeType.{rej_rogue}

-- The guards that every change of the connection stands behind.
pub record Passes {H K : Type 0} (p : Handshake) (c : Peer H K) : Type 0 where
  pub cookie : ℕ
  pub mode : c.mode ≡ induction cookie
  pub version : p.version ≡ 5
  pub encryption : p.encryption_field ≡ no_encryption
  pub same : p.syn_cookie ≡ cookie

-- The HSREQ extension is there with the flags it must have.
pub record Agrees (p : Handshake) : Type 0 where
  pub message : HandshakeExtensionMessage
  pub field_hsreq : has_hsreq p.extension_field ≡ true
  pub field_config : has_config p.extension_field ≡ true
  pub found : (remove_hsreq p.extensions).0 ≡ some message
  pub crypt : has_crypt message.srt_flags ≡ true
  pub rexmitflg : has_rexmitflg message.srt_flags ≡ true
  pub stream : has_stream message.srt_flags ≡ false

-- The stream id among the extensions besides HSREQ.
abbrev pub stream_id_text : Handshake → Option (List ℕ)
stream_id_text p = (remove_stream_id (remove_hsreq p.extensions).1).0

-- It agrees, and the stream id says `id`.
pub record Carries (p : Handshake) (id : StandardStreamId) : Type 0 where
  pub agrees : Agrees p
  pub text : List ℕ
  pub found : stream_id_text p ≡ some text
  pub parses : parse_stream_id text ≡ parsed id

-- The ids of the resource and of the session that a stream id names.
abbrev pub asked_resource : StandardStreamId → Option ℕ
asked_resource id = parse_some (StreamId.resource id)

abbrev pub asked_session : StandardStreamId → Option ℕ
asked_session id = parse_some (StreamId.session id)

-- A session's error.
abbrev pub IsFault : {A : Type 0} → Opened A → Type 0
IsFault invalid_resource_id = Unit {0}
IsFault invalid_credentials = Unit {0}
IsFault server_error = Unit {0}
IsFault _ = ⊥

-- The reasons to refuse `p`, with the code of each and the session manager's state after it.
pub data Refuses {M K : Type 0} (manager : SessionManager M K) (p : Handshake) (m : M)
    : ℕ → M → Type 0 where
  no_hsreq_field : has_hsreq p.extension_field ≡ false → Refuses manager p m rej_rogue m
  no_config_field : has_config p.extension_field ≡ false → Refuses manager p m rej_rogue m
  no_hsreq : (remove_hsreq p.extensions).0 ≡ none → Refuses manager p m rej_rogue m
  no_crypt :
      (message : HandshakeExtensionMessage)
      → (remove_hsreq p.extensions).0 ≡ some message
      → has_crypt message.srt_flags ≡ false
      → Refuses manager p m rej_rogue m
  no_rexmitflg :
      (message : HandshakeExtensionMessage)
      → (remove_hsreq p.extensions).0 ≡ some message
      → has_rexmitflg message.srt_flags ≡ false
      → Refuses manager p m rej_rogue m
  stream_flag :
      (message : HandshakeExtensionMessage)
      → (remove_hsreq p.extensions).0 ≡ some message
      → has_stream message.srt_flags ≡ true
      → Refuses manager p m rej_rogue m
  no_stream_id : Agrees p → stream_id_text p ≡ none → Refuses manager p m rej_rogue m
  no_mode :
      (id : StandardStreamId)
      → Carries p id
      → StreamId.mode id ≡ none
      → Refuses manager p m rej_rogue m
  other_mode :
      (id : StandardStreamId) (name : List ℕ)
      → Carries p id
      → StreamId.mode id ≡ some name
      → same_string name request_name ≡ false
      → same_string name publish_name ≡ false
      → Refuses manager p m rej_rogue m
  no_request :
      (id : StandardStreamId) (name : List ℕ) (fault : Opened Unit) (m' : M)
      → Carries p id
      → StreamId.mode id ≡ some name
      → same_string name request_name ≡ true
      → manager.request (asked_resource id) (asked_session id) m ≡ (fault, m')
      → IsFault fault
      → Refuses manager p m (refusal fault) m'
  no_publish :
      (id : StandardStreamId) (name : List ℕ) (fault : Opened K) (m' : M)
      → Carries p id
      → StreamId.mode id ≡ some name
      → same_string name publish_name ≡ true
      → manager.publish (asked_resource id) (asked_session id) m ≡ (fault, m')
      → IsFault fault
      → Refuses manager p m (refusal fault) m'

-- The HSRSP that the answer pushes is not taken for the stream id.
pub remove_stream_id-pushed :
    (len : ℕ) (answer : HandshakeExtensionMessage) (es : List HandshakeExtension)
    → (remove_stream_id (
        es
        ++ (record {
          extension_type = hsrsp;
          extension_length = len;
          extension_content = handshake answer;
        }
            ∷ []))).0
      ≡ (remove_stream_id es).0
remove_stream_id-pushed len answer [] = refl
remove_stream_id-pushed len answer (e ∷ es) =
    let later = remove_stream_id-pushed len answer es in
    elim (Bool-cases (e.extension_type == sid)) [
      | inr other ↦ rw other later
      | inl same ↦ elim (Option-cases (stream_id_of e.extension_content)) [
        | inl missing ↦ rw (same, missing) later
        | inr (text, here) ↦ rw (same, here) refl
      ]
    ]

module _ {H K M : Type 0} (b : BinaryHeap Segment H) (manager : SessionManager M K)
    (config : Config) (peer_address now : ℕ) where
  -- The outcomes of a handshake `p` on the connection `c`: no change; a rejection, for a reason; a
  -- stream id that does not parse; the stream that the stream id asks the session manager for.
  pub data Outcome (p : Handshake) (c : Peer H K) (w : Shared M)
      : Peer H K × Shared M → Type 0 where
    ignored : Outcome p c w (c, w)
    rejected :
        (reason latency : ℕ) (m : M)
        → Passes p c
        → Refuses manager p w.session_manager reason m
        → Outcome p c w (
          reject b manager config peer_address now reason (record c { latency = latency }),
          record w { session_manager = m },
        )
    unparsed :
        (latency : ℕ) (text : List ℕ) (fault : StandardStreamIdError)
        → Passes p c
        → Agrees p
        → stream_id_text p ≡ some text
        → parse_stream_id text ≡ refused fault
        → Outcome p c w (record c { latency = latency }, w)
    requested :
        (answer : Handshake) (latency : ℕ) (id : StandardStreamId) (name : List ℕ) (m : M)
        → Passes p c
        → Carries p id
        → StreamId.mode id ≡ some name
        → same_string name request_name ≡ true
        → manager.request (asked_resource id) (asked_session id) w.session_manager ≡ (opened tt, m)
        → Outcome p c w (
          send (output_sink b) now (upcast_handshake answer) (record c {
            latency = latency;
            mode = request (new_stream config.buffer c.client_sequence_number c.start_time);
          }),
          record w { session_manager = m; metrics = to_request w.metrics },
        )
    published :
        (answer : Handshake) (latency : ℕ) (id : StandardStreamId) (name : List ℕ) (k : K) (m : M)
        → Passes p c
        → Carries p id
        → StreamId.mode id ≡ some name
        → same_string name publish_name ≡ true
        → manager.publish (asked_resource id) (asked_session id) w.session_manager ≡ (opened k, m)
        → Outcome p c w (
          send (output_sink b) now (upcast_handshake answer) (record c {
            latency = latency;
            mode = publish (Sink.new b k c.start_time latency config.buffer);
          }),
          record w { session_manager = m; metrics = to_publish w.metrics },
        )
