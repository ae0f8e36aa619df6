-- ===== src/Extensions/Loop.antt =====
-- The loop that decodes extensions ends, and what is short of one is no extension.
use streamsync.Base.{
  if_both, ℕ, zero, suc, ◌+◌, ◌≤◌, ◌<◌, ◌≡◌, arith, Bool, Bool-cases, inl, inr, List, [], ◌∷◌,
  length, drop, ltb, Option, none, some, ◌==◌, ◌||◌,
}
use streamsync.Extensions.{
  HandshakeExtension, HandshakeExtensionMessage, decode_extension, decode_loop, decode_message,
  decode_content, decode_extension_type, as_handshake, as_stream_id,
}
use streamsync.Extensions.StreamId.{decode_stream_id, decode_words, decode_chunk}
use streamsync.Proto.{decode_uint, decode_bytes}
use streamsync.Proto.Error.{
  Result, ok, err, panicked, io, ◌>>=◌, unexpected_eof, invalid_extension_type,
}
use streamsync.Types.ExtensionType
use streamsync.Types.ExtensionType.{hsreq, hsrsp, sid}

-- A decoder does not panic, and leaves `n` bytes less at least.
abbrev Consumes : {A : Type 0} → ℕ → List ℕ → Result (A × List ℕ) → Type 0
Consumes n bytes (ok (a, rest)) = length rest + n ≤ length bytes
Consumes n bytes (err e) = Unit {0}
Consumes n bytes panicked = ⊥

length-drop : (k : ℕ) (bytes : List ℕ) → k ≤ length bytes → length (drop k bytes) + k ≡ length bytes
length-drop zero bytes h = omega arith
length-drop (suc k) [] h = absurd (omega arith)
length-drop (suc k) (b ∷ bytes) h = omega (arith, length-drop k bytes (omega arith))

decode_uint-Consumes : (k : ℕ) (bytes : List ℕ) → Consumes k bytes (decode_uint k bytes)
unfolding decode_uint
decode_uint-Consumes k bytes = elim (Bool-cases (ltb (length bytes) k)) [
  | inl short ↦ rw (short, Consumes) tt
  | inr enough ↦ rw (enough, Consumes) (omega (arith, length-drop k bytes (ground arith)))
]

Consumes-bind :
    {A B : Type 0} (n m : ℕ) (bytes : List ℕ) (r : Result (A × List ℕ))
    (next : A × List ℕ → Result (B × List ℕ))
    → Consumes n bytes r
    → ((a : A) (rest : List ℕ) → Consumes m rest (next (a, rest)))
    → Consumes (n + m) bytes (r >>= next)
Consumes-bind n m bytes (err e) next c d = tt
Consumes-bind n m bytes panicked next c d = c
Consumes-bind {B = B} n m bytes (ok (a, rest)) next c d = more (next (a, rest)) (d a rest)
  where
    more : (q : Result (B × List ℕ)) → Consumes m rest q → Consumes (n + m) bytes q
    more (ok (b, left)) h = omega arith
    more (err e) h = tt
    more panicked h = h

decode_extension_type-Consumes : (bytes : List ℕ) → Consumes 2 bytes (decode_extension_type bytes)
unfolding decode_extension_type
decode_extension_type-Consumes bytes =
    Consumes-bind 2 0 bytes (decode_uint 2 bytes) _ (decode_uint-Consumes 2 bytes)
      (λ n rest. known n rest (ExtensionType.from_u16 n))
  where
    known :
        (n : ℕ) (rest : List ℕ) (t : Option ℕ)
        → Consumes 0 rest (elim t as (λ _. Result (ℕ × List ℕ)) [
          | some t ↦ ok (t, rest)
          | none ↦ err (invalid_extension_type n)
        ])
    known n rest none = tt
    known n rest (some t) = omega arith

decode_message-Consumes : (bytes : List ℕ) → Consumes 12 bytes (decode_message bytes)
unfolding decode_message
decode_message-Consumes bytes =
    Consumes-bind 4 8 bytes (decode_uint 4 bytes) _ (decode_uint-Consumes 4 bytes) λ v r1.
      Consumes-bind 4 4 r1 (decode_uint 4 r1) _ (decode_uint-Consumes 4 r1) λ f r2.
        Consumes-bind 2 2 r2 (decode_uint 2 r2) _ (decode_uint-Consumes 2 r2) λ a r3.
          Consumes-bind 2 0 r3 (decode_uint 2 r3) _ (decode_uint-Consumes 2 r3) λ b r4. omega arith

-- The outcome is a value or an error.
abbrev pub IsReturned : {A : Type 0} → Result A → Type 0
IsReturned (ok _) = Unit {0}
IsReturned (err _) = Unit {0}
IsReturned panicked = ⊥

IsReturned-bind :
    {A B : Type 0} (r : Result A) (next : A → Result B)
    → IsReturned r
    → ((a : A) → IsReturned (next a))
    → IsReturned (r >>= next)
IsReturned-bind (ok a) next h k = k a
IsReturned-bind (err e) next h k = tt
IsReturned-bind panicked next h k = h

module _ (valid_utf8 : List ℕ → Bool) where
  decode_words-IsReturned : (bytes : List ℕ) → IsReturned (decode_words valid_utf8 bytes)
  unfolding decode_words
  decode_words-IsReturned [] = tt
  decode_words-IsReturned (a ∷ []) = tt
  decode_words-IsReturned (a ∷ b ∷ []) = tt
  decode_words-IsReturned (a ∷ b ∷ c ∷ []) = tt
  decode_words-IsReturned (a ∷ b ∷ c ∷ d ∷ rest) =
      if_both IsReturned (valid_utf8 (decode_chunk (a ∷ b ∷ c ∷ d ∷ []))) _ _
        (IsReturned-bind (decode_words valid_utf8 rest) _ (decode_words-IsReturned rest) (λ s. tt))
        tt

  stream_id-Consumes :
      (bytes : List ℕ) (r : Result (List ℕ))
      → IsReturned r
      → Consumes 0 bytes ((r >>= λ s. ok (s, [])) >>= as_stream_id)
  stream_id-Consumes bytes (ok s) h = omega arith
  stream_id-Consumes bytes (err e) h = tt
  stream_id-Consumes bytes panicked h = h

  decode_content-Consumes :
      (t : ℕ) (bytes : List ℕ) → Consumes 0 bytes (decode_content valid_utf8 t bytes)
  unfolding decode_content decode_stream_id decode_bytes
  decode_content-Consumes t bytes =
      if_both (Consumes 0 bytes) (t == hsreq || t == hsrsp) _ _
        (looser (decode_message bytes) (decode_message-Consumes bytes))
        (if_both (Consumes 0 bytes) (t == sid) _ _
          (stream_id-Consumes bytes (decode_words valid_utf8 bytes) (decode_words-IsReturned bytes))
          tt)
    where
      looser :
          (r : Result (HandshakeExtensionMessage × List ℕ))
          → Consumes 12 bytes r
          → Consumes 0 bytes (r >>= as_handshake)
      looser (ok (m, rest)) h = omega arith
      looser (err e) h = tt
      looser panicked h = h

  pub decode_extension-Consumes :
      (bytes : List ℕ) → Consumes 4 bytes (decode_extension valid_utf8 bytes)
  unfolding decode_extension
  decode_extension-Consumes bytes =
      Consumes-bind 2 2 bytes (decode_extension_type bytes) _ (decode_extension_type-Consumes bytes)
        λ t r1. Consumes-bind 2 0 r1 (decode_uint 2 r1) _ (decode_uint-Consumes 2 r1) λ len r2.
          Consumes-bind 0 0 r2 (decode_content valid_utf8 t r2) _ (decode_content-Consumes t r2)
            λ content r3. omega arith

  -- With fuel for one round more than there are bytes, whatever they are, the loop ends: it gives
  -- extensions or an error and does not panic.
  pub decode_loop-IsReturned :
      (fuel : ℕ) (bytes : List ℕ)
      → length bytes < fuel
      → IsReturned (decode_loop valid_utf8 fuel bytes)
  unfolding decode_loop
  decode_loop-IsReturned zero bytes h = absurd (omega arith)
  decode_loop-IsReturned (suc fuel) bytes h =
      round (decode_extension valid_utf8 bytes) (decode_extension-Consumes bytes)
        (λ rest k. decode_loop-IsReturned fuel rest k)
    where
      round :
          (r : Result (HandshakeExtension × List ℕ))
          → Consumes 4 bytes r
          → ((rest : List ℕ) → length rest < fuel → IsReturned (decode_loop valid_utf8 fuel rest))
          → IsReturned (elim r as (λ _. Result (List HandshakeExtension)) [
            | ok (e, rest) ↦ decode_loop valid_utf8 fuel rest >>= λ es. ok (e ∷ es)
            | err (io unexpected_eof) ↦ ok []
            | err fault ↦ err fault
            | panicked ↦ panicked
          ])
      round (ok (e, rest)) c later = IsReturned-bind _ _ (later rest (omega arith)) (λ es. tt)
      round (err (io unexpected_eof)) c later = tt
      round (err _) c later = tt
      round panicked c later = c
