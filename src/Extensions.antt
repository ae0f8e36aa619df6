-- ===== src/Extensions.antt =====
-- The handshake's extensions, of stsync-proxy/src/srt/mod.rs: `Extensions`, `HandshakeExtension`,
-- `HandshakeExtensionMessage` and `ExtensionContent`. `valid_utf8` is `std::str::from_utf8(..).is_ok()`.
pub mod StreamId
pub mod RoundTrip
pub mod Loop
mod Tests
use streamsync.Base.{
  ℕ, zero, suc, ◌+◌, ◌%◌, Bool, Option, none, some, List, [], ◌∷◌, ◌++◌, length, u32, ◌==◌, ◌||◌,
  if◌then◌else◌,
}
use streamsync.Proto.{encode_uint, decode_uint}
use streamsync.Proto.Error.{
  Result, ok, err, panicked, io, unexpected_eof, other, invalid_extension_type,
  unsupported_extension, ◌>>=◌,
}
use streamsync.Extensions.StreamId.{encode_stream_id, decode_stream_id}
use streamsync.Types.ExtensionType
use streamsync.Types.ExtensionType.{hsreq, hsrsp, sid}

-- The flags are the number inside `HandshakeExtensionFlags`.
pub record HandshakeExtensionMessage : Type 0 where
  pub srt_version : ℕ
  pub srt_flags : ℕ
  pub receiver_tsbpd_delay : ℕ
  pub sender_tsbpd_delay : ℕ

unfoldable pub encode_message : HandshakeExtensionMessage → List ℕ
encode_message m =
    encode_uint 4 m.srt_version
    ++ (encode_uint 4 m.srt_flags
        ++ (encode_uint 2 m.receiver_tsbpd_delay ++ encode_uint 2 m.sender_tsbpd_delay))

unfoldable pub decode_message : List ℕ → Result (HandshakeExtensionMessage × List ℕ)
decode_message bytes = do
  (version, r1) ← decode_uint 4 bytes
  (flags, r2) ← decode_uint 4 r1
  (receiver, r3) ← decode_uint 2 r2
  (sender, r4) ← decode_uint 2 r3
  ok (
    record {
      srt_version = version;
      srt_flags = flags;
      receiver_tsbpd_delay = receiver;
      sender_tsbpd_delay = sender;
    },
    r4,
  )

-- A stream id is the bytes of its string.
pub data ExtensionContent : Type 0 where
  handshake : HandshakeExtensionMessage → ExtensionContent
  key_material : ExtensionContent
  stream_id : List ℕ → ExtensionContent
  group : ExtensionContent

abbrev rounded : ℕ → ℕ
rounded len = if len % 3 == 0 then len else if len % 3 == 1 then len + 2 else len + 1

-- `ExtensionContent::len`.
pub content_len : ExtensionContent → ℕ
content_len (handshake _) = 3
content_len key_material = 0
content_len (stream_id s) = rounded (u32 (length s))
content_len group = 0

-- `extension_type` is the number inside `ExtensionType`.
pub record HandshakeExtension : Type 0 where
  pub extension_type : ℕ
  pub extension_length : ℕ
  pub extension_content : ExtensionContent

unfoldable pub encode_content : ExtensionContent → List ℕ
encode_content (handshake m) = encode_message m
encode_content key_material = []
encode_content (stream_id s) = encode_stream_id s
encode_content group = []

unfoldable pub encode_extension : HandshakeExtension → List ℕ
encode_extension e =
    encode_uint 2 e.extension_type
    ++ (encode_uint 2 e.extension_length ++ encode_content e.extension_content)

-- `Decode for ExtensionType`.
unfoldable pub decode_extension_type : List ℕ → Result (ℕ × List ℕ)
decode_extension_type bytes = do
  (n, rest) ← decode_uint 2 bytes
  elim (ExtensionType.from_u16 n) [ some t ↦ ok (t, rest) | none ↦ err (invalid_extension_type n) ]

abbrev as_handshake : HandshakeExtensionMessage × List ℕ → Result (ExtensionContent × List ℕ)
as_handshake (m, rest) = ok (handshake m, rest)

abbrev as_stream_id : List ℕ × List ℕ → Result (ExtensionContent × List ℕ)
as_stream_id (s, rest) = ok (stream_id s, rest)

module _ (valid_utf8 : List ℕ → Bool) where
  unfoldable pub decode_content : ℕ → List ℕ → Result (ExtensionContent × List ℕ)
  decode_content t bytes =
      if t == hsreq || t == hsrsp
      then decode_message bytes >>= as_handshake
      else if t == sid
      then decode_stream_id valid_utf8 bytes >>= as_stream_id
      else err (unsupported_extension t)

  unfoldable pub decode_extension : List ℕ → Result (HandshakeExtension × List ℕ)
  decode_extension bytes = do
    (t, r1) ← decode_extension_type bytes
    (len, r2) ← decode_uint 2 r1
    (content, r3) ← decode_content t r2
    ok (record { extension_type = t; extension_length = len; extension_content = content }, r3)

  -- The `loop` of `Decode for Extensions`: an unexpected end, also within an extension, ends it. The
  -- fuel is a bound on its rounds; running out of it counts as a panic.
  unfoldable pub decode_loop : ℕ → List ℕ → Result (List HandshakeExtension)
  decode_loop zero bytes = panicked
  decode_loop (suc fuel) bytes = elim (decode_extension bytes) [
    | ok (e, rest) ↦ decode_loop fuel rest >>= λ es. ok (e ∷ es)
    | err (io unexpected_eof) ↦ ok []
    | err fault ↦ err fault
    | panicked ↦ panicked
  ]

  -- `Decode for Extensions`. Every extension takes four bytes at least.
  abbrev pub decode_extensions : List ℕ → Result (List HandshakeExtension)
  decode_extensions bytes = decode_loop (suc (length bytes)) bytes

-- `Encode for Extensions`.
unfoldable pub encode_extensions : List HandshakeExtension → List ℕ
encode_extensions [] = []
encode_extensions (e ∷ es) = encode_extension e ++ encode_extensions es

abbrev pub message_of : ExtensionContent → Option HandshakeExtensionMessage
message_of (handshake m) = some m
message_of _ = none

abbrev pub stream_id_of : ExtensionContent → Option (List ℕ)
stream_id_of (stream_id s) = some s
stream_id_of _ = none

-- `Extensions::hsreq`.
pub find_hsreq : List HandshakeExtension → Option HandshakeExtensionMessage
find_hsreq [] = none
find_hsreq (e ∷ es) = elim e.extension_content [ handshake m ↦ some m | _ ↦ find_hsreq es ]

-- The content of the first extension of type `t` whose content is an `A`, and the others.
abbrev pub remove_first :
    {A : Type 0}
    → ℕ
    → (ExtensionContent → Option A)
    → List HandshakeExtension
    → Option A × List HandshakeExtension
remove_first t content [] = (none, [])
remove_first t content (e ∷ es) =
    let (found, others) = remove_first t content es in
    if e.extension_type == t
    then (elim (content e.extension_content) [ some a ↦ (some a, es) | none ↦ (found, e ∷ others) ])
    else (found, e ∷ others)

abbrev pub remove_hsreq :
    List HandshakeExtension → Option HandshakeExtensionMessage × List HandshakeExtension
remove_hsreq es = remove_first hsreq message_of es

abbrev pub remove_stream_id : List HandshakeExtension → Option (List ℕ) × List HandshakeExtension
remove_stream_id es = remove_first sid stream_id_of es
