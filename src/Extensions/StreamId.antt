-- ===== src/Extensions/StreamId.antt =====
-- `StreamIdExtension` and `StandardStreamId` of stsync-proxy/src/srt/mod.rs. A string is the list of
-- its bytes.
pub mod RoundTrip
use streamsync.Base.{
  ℕ, zero, suc, ◌+◌, Bool, true, false, ◌&&◌, Option, none, some, List, [], ◌∷◌, ◌++◌, ◌==◌,
  if◌then◌else◌,
}
use streamsync.Proto.{decode_bytes}
use streamsync.Proto.Error.{Result, ok, err, from_utf8_error, ◌>>=◌}

-- `Encode`: words of four bytes, each written in reverse; zeros fill the last.
unfoldable pub encode_stream_id : List ℕ → List ℕ
encode_stream_id [] = []
encode_stream_id (a ∷ []) = 0 ∷ 0 ∷ 0 ∷ a ∷ []
encode_stream_id (a ∷ b ∷ []) = 0 ∷ 0 ∷ b ∷ a ∷ []
encode_stream_id (a ∷ b ∷ c ∷ []) = 0 ∷ c ∷ b ∷ a ∷ []
encode_stream_id (a ∷ b ∷ c ∷ d ∷ rest) = d ∷ c ∷ b ∷ a ∷ encode_stream_id rest

-- `while bytes.starts_with(&[0])`.
abbrev pub strip_zeros : List ℕ → List ℕ
strip_zeros [] = []
strip_zeros (zero ∷ bytes) = strip_zeros bytes
strip_zeros (suc n ∷ bytes) = suc n ∷ bytes

abbrev pub reverse_onto : List ℕ → List ℕ → List ℕ
reverse_onto done [] = done
reverse_onto done (b ∷ bytes) = reverse_onto (b ∷ done) bytes

-- One word of the content.
abbrev pub decode_chunk : List ℕ → List ℕ
decode_chunk word = reverse_onto [] (strip_zeros word)

module _ (valid_utf8 : List ℕ → Bool) where
  -- The loop of `Decode` over the words; bytes after the last whole word are dropped.
  unfoldable pub decode_words : List ℕ → Result (List ℕ)
  decode_words (a ∷ b ∷ c ∷ d ∷ rest) =
      let chunk = decode_chunk (a ∷ b ∷ c ∷ d ∷ []) in
      let later = decode_words rest in
      if valid_utf8 chunk then (later >>= λ s. ok (chunk ++ s)) else err from_utf8_error
  decode_words _ = ok []

  -- `Decode`: all that is left of the buffer.
  unfoldable pub decode_stream_id : List ℕ → Result (List ℕ × List ℕ)
  decode_stream_id bytes = do (all, rest) ← decode_bytes bytes; s ← decode_words all; ok (s, rest)

-- `==` on strings.
abbrev pub same_string : List ℕ → List ℕ → Bool
same_string [] [] = true
same_string (a ∷ s) (b ∷ t) = (a == b) && same_string s t
same_string _ _ = false

-- `str::strip_prefix`.
abbrev pub strip_prefix : List ℕ → List ℕ → Option (List ℕ)
strip_prefix [] s = some s
strip_prefix (p ∷ prefix) [] = none
strip_prefix (p ∷ prefix) (a ∷ s) =
    let later = strip_prefix prefix s in if p == a then later else none

-- `str::split` at a byte: the first part, and the parts after it.
abbrev pub split : ℕ → List ℕ → List ℕ × List (List ℕ)
split sep [] = ([], [])
split sep (a ∷ s) =
    let (part, parts) = split sep s in if a == sep then ([], part ∷ parts) else (a ∷ part, parts)

-- `str::split_once` at a byte.
abbrev pub split_once : ℕ → List ℕ → Option (List ℕ × List ℕ)
split_once sep [] = none
split_once sep (a ∷ s) =
    let later = split_once sep s in
    if a == sep
    then some ([], s)
    else elim later [ none ↦ none | some (key, val) ↦ some (a ∷ key, val) ]

-- The hash map as the list of its insertions, the last first.
abbrev pub StandardStreamId : Type 0
StandardStreamId = List (List ℕ × List ℕ)

-- `HashMap::get`.
abbrev pub lookup : List ℕ → StandardStreamId → Option (List ℕ)
lookup key [] = none
lookup key ((k, val) ∷ m) =
    let later = lookup key m in if same_string k key then some val else later

-- `resource`, `session` and `mode`.
abbrev pub resource : StandardStreamId → Option (List ℕ)
resource m = lookup (114 ∷ []) m

abbrev pub session : StandardStreamId → Option (List ℕ)
session m = lookup (115 ∷ []) m

abbrev pub mode : StandardStreamId → Option (List ℕ)
mode m = lookup (109 ∷ []) m

pub data StandardStreamIdError : Type 0 where
  invalid_prefix invalid_key_value_format : StandardStreamIdError

pub data Parsed : Type 0 where
  parsed : StandardStreamId → Parsed
  refused : StandardStreamIdError → Parsed

-- The loop over the pairs.
unfoldable pub insert_pairs : List (List ℕ) → StandardStreamId → Parsed
insert_pairs [] m = parsed m
insert_pairs (pair ∷ pairs) m = elim (split_once 61 pair) [
  | none ↦ refused invalid_key_value_format
  | some (key, val) ↦ insert_pairs pairs ((key, val) ∷ m)
]

-- `#!::`.
abbrev pub standard_prefix : List ℕ
standard_prefix = 35 ∷ 33 ∷ 58 ∷ 58 ∷ []

-- `FromStr for StandardStreamId`.
unfoldable pub parse_stream_id : List ℕ → Parsed
parse_stream_id s = elim (strip_prefix standard_prefix s) [
  | none ↦ refused invalid_prefix
  | some rest ↦ let (part, parts) = split 44 rest in insert_pairs (part ∷ parts) []
]
