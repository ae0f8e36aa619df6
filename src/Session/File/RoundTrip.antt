-- ===== src/Session/File/RoundTrip.antt =====
-- What is written to a file, read back as a stream.

use mathlib.Core.List.{append_assoc, append-nil}
use streamsync.Base.{
  sym, ℕ, zero, suc, ◌+◌, ◌≤◌, ◌≡◌, refl, ◌∙◌, ap, arith, false, Option, none, some, List, [], ◌∷◌,
  ◌++◌, length, take, drop, length-append, take-append, drop-append, ltb,
}
use streamsync.Session.File.{FileStream, chunk, poll_next, file_sink}
use streamsync.Sink.{InnerSink, Done, done}

-- `start_send` of each payload.
pub send_payloads : {E : Type 0} → InnerSink (List ℕ) E → List (List ℕ) → List ℕ → List ℕ
send_payloads inner [] file = file
send_payloads inner (p ∷ ps) file = send_payloads inner ps (inner.start_send p file).1

-- The items of at most `n` polls of the stream.
abbrev next_items : Option (List ℕ) × FileStream → (FileStream → List (List ℕ)) → List (List ℕ)
next_items (none, s) later = []
next_items (some item, s) later = item ∷ later s

unfoldable pub items : (List ℕ → List ℕ) → ℕ → FileStream → List (List ℕ)
items unspecified zero s = []
items unspecified (suc n) s =
    let later = items unspecified n in next_items (poll_next unspecified s) later

-- Every payload fills a chunk.
abbrev pub AreChunks : List (List ℕ) → Type 0
AreChunks [] = Unit {0}
AreChunks (p ∷ ps) = (length p ≡ chunk) × AreChunks ps

abbrev pub flat : List (List ℕ) → List ℕ
flat [] = []
flat (p ∷ ps) = p ++ flat ps

-- `write_all` appends all that it is given, without an error.
abbrev pub Writes : {E : Type 0} → (List ℕ → List ℕ → Done E × List ℕ) → Type 0
Writes write_all = (p file : List ℕ) → write_all p file ≡ (done, file ++ p)

send_payloads-flat :
    {E : Type 0} (write_all : List ℕ → List ℕ → Done E × List ℕ) (ps : List (List ℕ))
    (file : List ℕ)
    → Writes write_all
    → send_payloads (file_sink write_all) ps file ≡ file ++ flat ps
unfolding send_payloads file_sink
send_payloads-flat write_all [] file h = sym (append-nil file)
send_payloads-flat write_all (p ∷ ps) file h =
    ap (λ r. send_payloads (file_sink write_all) ps r.1) (h p file)
    ∙ send_payloads-flat write_all ps (file ++ p) h
    ∙ append_assoc file p (flat ps)

module _ (unspecified : List ℕ → List ℕ) where
  poll_chunk :
      (p rest : List ℕ)
      → length p ≡ chunk
      → poll_next unspecified (record { unread = p ++ rest; is_done = false })
        ≡ (some p, record { unread = rest; is_done = false })
  unfolding poll_next
  poll_chunk p rest h =
      let enough : ltb (length (p ++ rest)) chunk ≡ false =
        ground (arith, length-append p rest, h) in
      let front : take chunk (p ++ rest) ≡ p =
        ap (λ (n : ℕ). take n (p ++ rest)) (sym h) ∙ take-append p rest in
      let back : drop chunk (p ++ rest) ≡ rest =
        ap (λ (n : ℕ). drop n (p ++ rest)) (sym h) ∙ drop-append p rest in
      rw (enough, front, back) refl

  items-flat :
      (ps : List (List ℕ)) (n : ℕ)
      → AreChunks ps
      → length ps + 2 ≤ n
      → items unspecified n (record { unread = flat ps; is_done = false })
        ≡ ps ++ (unspecified [] ∷ [])
  unfolding items poll_next
  items-flat [] zero full enough = absurd (omega arith)
  items-flat [] (suc zero) full enough = absurd (omega arith)
  items-flat [] (suc (suc n)) full enough = refl
  items-flat (p ∷ ps) zero full enough = absurd (omega arith)
  items-flat (p ∷ ps) (suc n) full enough =
      ap (λ r. next_items r (items unspecified n)) (poll_chunk p (flat ps) full.0)
      ∙ ap (λ ps'. p ∷ ps') (items-flat ps n full.1 (omega arith))

  -- Payloads of 1316 bytes are sent into a new file, each written whole. The stream of this file gives
  -- them back in their order, then one buffer more whose contents are not specified, and ends, within
  -- two polls more than there are payloads.
  pub items-send_payloads :
      {E : Type 0} (write_all : List ℕ → List ℕ → Done E × List ℕ) (ps : List (List ℕ)) (n : ℕ)
      → Writes write_all
      → AreChunks ps
      → length ps + 2 ≤ n
      → items unspecified n
          (record { unread = send_payloads (file_sink write_all) ps []; is_done = false })
        ≡ ps ++ (unspecified [] ∷ [])
  items-send_payloads write_all ps n writes full enough =
      ap (λ bytes. items unspecified n (record { unread = bytes; is_done = false }))
        (send_payloads-flat write_all ps [] writes)
      ∙ items-flat ps n full enough
