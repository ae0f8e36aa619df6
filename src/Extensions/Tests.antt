-- ===== src/Extensions/Tests.antt =====
-- The stream id and the extensions on concrete bytes.
use streamsync.Base.{
  ℕ, ◌≡◌, refl, inl, inr, Bool, true, ◌&&◌, some, none, List, [], ◌∷◌, ltb, arith,
}
use streamsync.Extensions.{
  HandshakeExtension, HandshakeExtensionMessage, handshake, stream_id, encode_extensions,
  decode_extensions, decode_loop, decode_extension, decode_extension_type, decode_content,
  decode_message,
}
use streamsync.Extensions.Loop.{IsReturned, decode_loop-IsReturned}
use streamsync.Extensions.RoundTrip.{decode-encode_extensions}
use streamsync.Extensions.StreamId.{
  encode_stream_id, decode_stream_id, decode_words, parse_stream_id, insert_pairs, parsed, refused,
  invalid_prefix, invalid_key_value_format, resource, mode, Parsed,
}
use streamsync.Extensions.StreamId.RoundTrip.{IsAscii}
use streamsync.Proto.{decode_bytes, decode_uint, from_be_bytes}
use streamsync.Proto.Error.{ok, err, from_utf8_error}
use streamsync.Types.ExtensionType.{from_u16}

-- A UTF-8 check that knows ASCII only.
abbrev all_ascii : List ℕ → Bool
all_ascii [] = true
all_ascii (b ∷ s) = ltb b 128 && all_ascii s

ascii_valid : (s : List ℕ) → IsAscii s → all_ascii s ≡ true
ascii_valid [] v = refl
ascii_valid (b ∷ s) v = ground (arith, v.1, ascii_valid s v.2)

-- `#!::m=request,r=1235`, and its encoding in the test of the source.
abbrev text : List ℕ
text =
    35 ∷ 33 ∷ 58 ∷ 58 ∷ 109 ∷ 61 ∷ 114 ∷ 101 ∷ 113 ∷ 117 ∷ 101 ∷ 115 ∷ 116 ∷ 44 ∷ 114 ∷ 61 ∷ 49 ∷ 50
    ∷ 51 ∷ 53 ∷ []

encode_run :
    encode_stream_id text
    ≡ 0x3a ∷ 0x3a ∷ 0x21 ∷ 0x23 ∷ 0x65 ∷ 0x72 ∷ 0x3d ∷ 0x6d ∷ 0x73 ∷ 0x65 ∷ 0x75 ∷ 0x71 ∷ 0x3d
      ∷ 0x72 ∷ 0x2c ∷ 0x74 ∷ 0x35 ∷ 0x33 ∷ 0x32 ∷ 0x31 ∷ []
unfolding encode_stream_id
encode_run = refl

decode_run : decode_stream_id all_ascii (encode_stream_id text) ≡ ok (text, [])
unfolding encode_stream_id decode_stream_id decode_words decode_bytes
decode_run = refl

-- A character of two bytes across two words is refused.
decode_split_run :
    decode_stream_id all_ascii (encode_stream_id (97 ∷ 98 ∷ 99 ∷ 0xC3 ∷ 0xA9 ∷ []))
    ≡ err from_utf8_error
unfolding encode_stream_id decode_stream_id decode_words decode_bytes
decode_split_run = refl

abbrev fields : Parsed → List (List ℕ)
fields (refused _) = []
fields (parsed m) = elim (resource m) [
  | none ↦ []
  | some r ↦ elim (mode m) [ none ↦ r ∷ [] | some n ↦ r ∷ n ∷ [] ]
]

parse_run :
    fields (parse_stream_id text)
    ≡ (49 ∷ 50 ∷ 51 ∷ 53 ∷ []) ∷ (114 ∷ 101 ∷ 113 ∷ 117 ∷ 101 ∷ 115 ∷ 116 ∷ []) ∷ []
unfolding parse_stream_id insert_pairs
parse_run = refl

prefix_run : parse_stream_id (109 ∷ 61 ∷ 120 ∷ []) ≡ refused invalid_prefix
unfolding parse_stream_id
prefix_run = refl

pair_run : parse_stream_id (35 ∷ 33 ∷ 58 ∷ 58 ∷ 109 ∷ []) ≡ refused invalid_key_value_format
unfolding parse_stream_id insert_pairs
pair_run = refl

abbrev message : HandshakeExtensionMessage
message = record {
  srt_version = 66_561;
  srt_flags = 191;
  receiver_tsbpd_delay = 120;
  sender_tsbpd_delay = 0;
}

abbrev request_extensions : List HandshakeExtension
request_extensions =
    record { extension_type = 1; extension_length = 3; extension_content = handshake message }
    ∷ record {
      extension_type = 5;
      extension_length = 1;
      extension_content = stream_id (97 ∷ 98 ∷ []);
    }
    ∷ []

decode-encode_extensions_example :
    decode_extensions all_ascii (encode_extensions request_extensions) ≡ ok request_extensions
decode-encode_extensions_example =
    decode-encode_extensions all_ascii ascii_valid request_extensions (
      record {
        message = message;
        content = refl;
        tag = inl refl;
        fits = omega arith;
        words = record {
          version = omega arith;
          flags = omega arith;
          receiver = omega arith;
          sender = omega arith;
        };
      },
      inr (record {
        string = 97 ∷ 98 ∷ [];
        content = refl;
        tag = refl;
        fits = omega arith;
        ascii = (omega arith, omega arith, (omega arith, omega arith, tt));
      }),
    )

-- An HSREQ that is cut off: no extension, and no error.
decode_loop-IsReturned_example : IsReturned (decode_loop all_ascii 7 (0 ∷ 1 ∷ 0 ∷ 3 ∷ 0 ∷ 1 ∷ []))
decode_loop-IsReturned_example =
    decode_loop-IsReturned all_ascii 7 (0 ∷ 1 ∷ 0 ∷ 3 ∷ 0 ∷ 1 ∷ []) (omega arith)

cut_off_run : decode_extensions all_ascii (0 ∷ 1 ∷ 0 ∷ 3 ∷ 0 ∷ 1 ∷ []) ≡ ok []
unfolding decode_loop decode_extension decode_extension_type decode_content decode_message
    decode_uint from_be_bytes from_u16
cut_off_run = refl

-- A stream id takes the HSREQ after it.
swallowed_run :
    decode_extensions all_ascii (0 ∷ 5 ∷ 0 ∷ 1 ∷ 0 ∷ 0 ∷ 98 ∷ 97 ∷ 1 ∷ 1 ∷ 1 ∷ 1 ∷ [])
    ≡ ok (
        record {
          extension_type = 5;
          extension_length = 1;
          extension_content = stream_id (97 ∷ 98 ∷ 1 ∷ 1 ∷ 1 ∷ 1 ∷ []);
        }
        ∷ [])
unfolding decode_loop decode_extension decode_extension_type decode_content decode_stream_id
    decode_words decode_bytes decode_uint from_be_bytes from_u16
swallowed_run = refl
