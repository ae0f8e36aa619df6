-- ===== src/Extensions/RoundTrip.antt =====
-- Extensions are read back as they were written.
use mathlib.Core.List.{append-nil, append_assoc}
use streamsync.Base.{
  ℕ, zero, suc, ◌≤◌, ◌<◌, ◌^◌, ◌≡◌, ◌⊎◌, inl, inr, refl, ap, arith, Bool, true, List, [], ◌∷◌, ◌++◌,
  length, length-append, ◌==◌, ◌||◌, Option, none, some,
}
use streamsync.Extensions.{
  HandshakeExtension, HandshakeExtensionMessage, handshake, stream_id, encode_message,
  decode_message, encode_content, decode_content, encode_extension, decode_extension,
  decode_extension_type, encode_extensions, decode_loop, decode_extensions,
}
use streamsync.Extensions.StreamId.{encode_stream_id}
use streamsync.Extensions.StreamId.RoundTrip.{IsAscii, decode-encode_stream_id}
use streamsync.Proto.{encode_uint, decode_uint}
use streamsync.Proto.Codec.{decode-encode_uint, length-to_be_bytes}
use streamsync.Proto.Error.{Result, ok, err, invalid_extension_type}
use streamsync.Types.ExtensionType.{hsreq, hsrsp, sid, from_u16}

-- The fields of a message fit their words.
pub record IsMessage (m : HandshakeExtensionMessage) : Type 0 where
  pub version : m.srt_version < 2 ^ 32
  pub flags : m.srt_flags < 2 ^ 32
  pub receiver : m.receiver_tsbpd_delay < 2 ^ 16
  pub sender : m.sender_tsbpd_delay < 2 ^ 16

decode-encode_message :
    (m : HandshakeExtensionMessage) (rest : List ℕ)
    → IsMessage m
    → decode_message (encode_message m ++ rest) ≡ ok (m, rest)
unfolding decode_message encode_message
decode-encode_message m rest v =
    let w4 = encode_uint 2 m.sender_tsbpd_delay in
    let w3 = encode_uint 2 m.receiver_tsbpd_delay in
    let w2 = encode_uint 4 m.srt_flags in
    let w1 = encode_uint 4 m.srt_version in
    rw
      (
        append_assoc w1 (w2 ++ (w3 ++ w4)) rest,
        append_assoc w2 (w3 ++ w4) rest,
        append_assoc w3 w4 rest,
        decode-encode_uint 4 m.srt_version (w2 ++ (w3 ++ (w4 ++ rest))) v.version,
        decode-encode_uint 4 m.srt_flags (w3 ++ (w4 ++ rest)) v.flags,
        decode-encode_uint 2 m.receiver_tsbpd_delay (w4 ++ rest) v.receiver,
        decode-encode_uint 2 m.sender_tsbpd_delay rest v.sender,
      )
      refl

-- An extension that answers HSREQ or HSRSP.
pub record CarriesMessage (e : HandshakeExtension) : Type 0 where
  pub message : HandshakeExtensionMessage
  pub content : e.extension_content ≡ handshake message
  pub tag : (e.extension_type ≡ hsreq) ⊎ (e.extension_type ≡ hsrsp)
  pub fits : e.extension_length < 2 ^ 16
  pub words : IsMessage message

-- An extension with a stream id.
pub record CarriesId (e : HandshakeExtension) : Type 0 where
  pub string : List ℕ
  pub content : e.extension_content ≡ stream_id string
  pub tag : e.extension_type ≡ sid
  pub fits : e.extension_length < 2 ^ 16
  pub ascii : IsAscii string

-- Messages, and at the end a message or a stream id: what the decoder supports, since a stream id
-- takes all that follows it.
abbrev pub AreSupported : List HandshakeExtension → Type 0
AreSupported [] = Unit {0}
AreSupported (e ∷ []) = CarriesMessage e ⊎ CarriesId e
AreSupported (e ∷ f ∷ es) = CarriesMessage e × AreSupported (f ∷ es)

decode_tag :
    (t : ℕ) (rest : List ℕ)
    → from_u16 t ≡ some t
    → t < 2 ^ 16
    → decode_extension_type (encode_uint 2 t ++ rest) ≡ ok (t, rest)
unfolding decode_extension_type
decode_tag t rest known h = rw (decode-encode_uint 2 t rest h) (
    ap
      (λ (o : Option ℕ). elim o as (λ _. Result (ℕ × List ℕ)) [
        | some t' ↦ ok (t', rest)
        | none ↦ err (invalid_extension_type t)
      ])
      known)

known_tag : (t : ℕ) → ((t ≡ hsreq) ⊎ (t ≡ hsrsp)) ⊎ (t ≡ sid) → (from_u16 t ≡ some t) × (t < 2 ^ 16)
unfolding from_u16
known_tag t h = (ground (arith, h), ground (arith, h))

module _ (valid_utf8 : List ℕ → Bool) (ascii : (s : List ℕ) → IsAscii s → valid_utf8 s ≡ true) where
  -- An extension is read back when its content is.
  decode-encode_extension :
      (e : HandshakeExtension) (rest left : List ℕ)
      → ((e.extension_type ≡ hsreq) ⊎ (e.extension_type ≡ hsrsp)) ⊎ (e.extension_type ≡ sid)
      → e.extension_length < 2 ^ 16
      → decode_content valid_utf8 e.extension_type (encode_content e.extension_content ++ rest)
        ≡ ok (e.extension_content, left)
      → decode_extension valid_utf8 (encode_extension e ++ rest) ≡ ok (e, left)
  unfolding decode_extension encode_extension
  decode-encode_extension e rest left tag fits content =
      let body = encode_content e.extension_content in
      let len = encode_uint 2 e.extension_length in
      let (known, small) = known_tag e.extension_type tag in
      rw
        (
          append_assoc (encode_uint 2 e.extension_type) (len ++ body) rest,
          append_assoc len body rest,
          decode_tag e.extension_type (len ++ (body ++ rest)) known small,
          decode-encode_uint 2 e.extension_length (body ++ rest) fits,
          content,
        )
        refl

  decode-encode_content_message :
      (e : HandshakeExtension) (rest : List ℕ)
      → (c : CarriesMessage e)
      → decode_content valid_utf8 e.extension_type (encode_content e.extension_content ++ rest)
        ≡ ok (e.extension_content, rest)
  unfolding decode_content encode_content
  decode-encode_content_message e rest c =
      let tagged : (e.extension_type == hsreq || e.extension_type == hsrsp) ≡ true =
        ground (arith, c.tag) in
      rw (c.content, tagged, decode-encode_message c.message rest c.words) refl

  decode-encode_content_id :
      (e : HandshakeExtension)
      → (c : CarriesId e)
      → decode_content valid_utf8 e.extension_type (encode_content e.extension_content ++ [])
        ≡ ok (e.extension_content, [])
  unfolding decode_content encode_content
  decode-encode_content_id e c =
      rw
        (
          c.content,
          c.tag,
          append-nil (encode_stream_id c.string),
          decode-encode_stream_id valid_utf8 ascii c.string c.ascii,
        )
        refl

  decode_loop-nil : (fuel : ℕ) → 0 < fuel → decode_loop valid_utf8 fuel [] ≡ ok []
  unfolding decode_loop decode_extension decode_extension_type decode_uint
  decode_loop-nil zero h = absurd (omega arith)
  decode_loop-nil (suc fuel) h = refl

  decode_round :
      (fuel : ℕ) (bytes rest : List ℕ) (e : HandshakeExtension) (es : List HandshakeExtension)
      → decode_extension valid_utf8 bytes ≡ ok (e, rest)
      → decode_loop valid_utf8 fuel rest ≡ ok es
      → decode_loop valid_utf8 (suc fuel) bytes ≡ ok (e ∷ es)
  unfolding decode_loop
  decode_round fuel bytes rest e es read later = rw (read, decode_loop) (rw later refl)

  decode_loop-encode_extensions :
      (fuel : ℕ) (es : List HandshakeExtension)
      → length es < fuel
      → AreSupported es
      → decode_loop valid_utf8 fuel (encode_extensions es) ≡ ok es
  unfolding encode_extensions
  decode_loop-encode_extensions zero es h v = absurd (omega arith)
  decode_loop-encode_extensions (suc fuel) [] h v = decode_loop-nil (suc fuel) (omega arith)
  decode_loop-encode_extensions (suc fuel) (e ∷ []) h (inl c) =
      let read =
        decode-encode_extension e [] [] (inl c.tag) c.fits (decode-encode_content_message e [] c) in
      decode_round fuel _ [] e [] read (decode_loop-nil fuel (omega arith))
  decode_loop-encode_extensions (suc fuel) (e ∷ []) h (inr c) =
      let read =
        decode-encode_extension e [] [] (inr c.tag) c.fits (decode-encode_content_id e c) in
      decode_round fuel _ [] e [] read (decode_loop-nil fuel (omega arith))
  decode_loop-encode_extensions (suc fuel) (e ∷ f ∷ es) h (c, v) =
      let rest = encode_extensions (f ∷ es) in
      let read =
        decode-encode_extension e rest rest (inl c.tag) c.fits
          (decode-encode_content_message e rest c) in
      decode_round fuel _ rest e (f ∷ es) read
        (decode_loop-encode_extensions fuel (f ∷ es) (omega arith) v)

length-encode_extensions :
    (es : List HandshakeExtension) → length es ≤ length (encode_extensions es)
unfolding encode_extensions encode_extension
length-encode_extensions [] = omega arith
length-encode_extensions (e ∷ es) = omega (
  arith,
  length-append (encode_extension e) (encode_extensions es),
  length-append (encode_uint 2 e.extension_type)
      (encode_uint 2 e.extension_length ++ encode_content e.extension_content),
  length-to_be_bytes 2 e.extension_type,
  length-encode_extensions es,
)

module _ (valid_utf8 : List ℕ → Bool) (ascii : (s : List ℕ) → IsAscii s → valid_utf8 s ≡ true) where
  -- A UTF-8 check that accepts ASCII: a list of HSREQ and HSRSP extensions, of which the last may be
  -- a stream id of ASCII characters but NUL instead, with fields that fit their words, is read back from its encoding.
  pub decode-encode_extensions :
      (es : List HandshakeExtension)
      → AreSupported es
      → decode_extensions valid_utf8 (encode_extensions es) ≡ ok es
  decode-encode_extensions es v =
      decode_loop-encode_extensions valid_utf8 ascii (suc (length (encode_extensions es))) es
        (omega (arith, length-encode_extensions es)) v
