-- ===== src/Extensions/StreamId/RoundTrip.antt =====
-- A stream id in ASCII is read back as it was written.
use streamsync.Base.{
  ℕ, zero, suc, ◌<◌, ◌≡◌, refl, ap, arith, Bool, true, List, [], ◌∷◌, ◌++◌, if◌then◌else◌,
}
use streamsync.Extensions.StreamId.{
  encode_stream_id, decode_stream_id, decode_words, decode_chunk, strip_zeros, reverse_onto,
}
use streamsync.Proto.{decode_bytes}
use streamsync.Proto.Error.{Result, ok, err, from_utf8_error, ◌>>=◌}

-- The bytes of an ASCII string without NUL.
abbrev pub IsAscii : List ℕ → Type 0
IsAscii [] = Unit {0}
IsAscii (b ∷ s) = (0 < b) × (b < 128) × IsAscii s

strip_zeros_pos : (b : ℕ) (s : List ℕ) → 0 < b → strip_zeros (b ∷ s) ≡ b ∷ s
strip_zeros_pos zero s h = absurd (omega arith)
strip_zeros_pos (suc b) s h = refl

module _ (valid_utf8 : List ℕ → Bool) (ascii : (s : List ℕ) → IsAscii s → valid_utf8 s ≡ true) where
  -- A word is read as the part of the string that it holds.
  word :
      (w chunk rest : List ℕ) (later : Result (List ℕ))
      → decode_chunk w ≡ chunk
      → IsAscii chunk
      → later ≡ ok rest
      → ◌≡◌ {A = Result (List ℕ)}
          (if valid_utf8 (decode_chunk w)
            then (later >>= λ s. ok (decode_chunk w ++ s))
            else err from_utf8_error)
          (ok (chunk ++ rest))
  word w chunk rest later e a f = rw (e, ascii chunk a, f) refl

  decode_words-encode_stream_id :
      (s : List ℕ) → IsAscii s → decode_words valid_utf8 (encode_stream_id s) ≡ ok s
  unfolding decode_words encode_stream_id
  decode_words-encode_stream_id [] v = refl
  decode_words-encode_stream_id (a ∷ []) v =
      word (0 ∷ 0 ∷ 0 ∷ a ∷ []) (a ∷ []) [] _
        (ap (λ w. reverse_onto [] w) (strip_zeros_pos a [] v.0)) v refl
  decode_words-encode_stream_id (a ∷ b ∷ []) v =
      word (0 ∷ 0 ∷ b ∷ a ∷ []) (a ∷ b ∷ []) [] _
        (ap (λ w. reverse_onto [] w) (strip_zeros_pos b (a ∷ []) v.2.0)) v refl
  decode_words-encode_stream_id (a ∷ b ∷ c ∷ []) v =
      word (0 ∷ c ∷ b ∷ a ∷ []) (a ∷ b ∷ c ∷ []) [] _
        (ap (λ w. reverse_onto [] w) (strip_zeros_pos c (b ∷ a ∷ []) v.2.2.0)) v refl
  decode_words-encode_stream_id (a ∷ b ∷ c ∷ d ∷ rest) v =
      word (d ∷ c ∷ b ∷ a ∷ []) (a ∷ b ∷ c ∷ d ∷ []) rest _
        (ap (λ w. reverse_onto [] w) (strip_zeros_pos d (c ∷ b ∷ a ∷ []) v.2.2.2.0))
        (v.0, v.1, (v.2.0, v.2.1, (v.2.2.0, v.2.2.1, (v.2.2.2.0, v.2.2.2.1, tt))))
        (decode_words-encode_stream_id rest v.2.2.2.2)

  -- A UTF-8 check that accepts ASCII: an ASCII string without NUL is read back from its encoding as
  -- a stream id, of any length, and nothing is left of the buffer.
  pub decode-encode_stream_id :
      (s : List ℕ) → IsAscii s → decode_stream_id valid_utf8 (encode_stream_id s) ≡ ok (s, [])
  unfolding decode_stream_id decode_bytes
  decode-encode_stream_id s v = rw (decode_words-encode_stream_id s v) refl
