-- ===== src/Session/Tests.antt =====
-- The theorems on session keys at a concrete registry.
use streamsync.Session.File.{chunk, file_sink}
use streamsync.Session.File.RoundTrip.{items, send_payloads, items-send_payloads}
use streamsync.Sink.{Done, done}
use streamsync.Base.{
  false, ℕ, List, ◌++◌, replicate, length-replicate, ◌≡◌, refl, none, some, [], ◌∷◌, arith,
}
use streamsync.Session.{
  SessionKey, SessionRegistry, insert, get, granted, invalid_credentials, authorize, find_key,
}
use streamsync.Session.SingleUse.{authorize-insert}

abbrev other_key : SessionKey
other_key = record { resource_id = 5; session_id = 50; expires = 900 }

abbrev fresh_key : SessionKey
fresh_key = record { resource_id = 5; session_id = 51; expires = 1_000 }

abbrev registry : SessionRegistry
registry = (5, other_key ∷ []) ∷ []

fresh_key_missing : get 5 51 registry ≡ none
unfolding get find_key
fresh_key_missing = refl

authorize-insert_example :
    (r : SessionRegistry) × (authorize 1_000 (some 5) (some 51) (insert fresh_key registry)
      ≡ (granted 5, r))
    × (authorize 1_001 (some 5) (some 51) r ≡ (invalid_credentials, r))
authorize-insert_example =
    authorize-insert 1_000 1_001 fresh_key registry fresh_key_missing (omega arith)

-- `write_all` of a file that takes everything.
abbrev append_all : List ℕ → List ℕ → Done ⊥ × List ℕ
append_all p file = (done, file ++ p)

items-send_payloads_example :
    items
      (λ _. replicate chunk 0)
      4
      (record {
        unread =
            send_payloads (file_sink append_all) (replicate chunk 71 ∷ replicate chunk 72 ∷ []) [];
        is_done = false;
      })
    ≡ (replicate chunk 71 ∷ replicate chunk 72 ∷ []) ++ (replicate chunk 0 ∷ [])
items-send_payloads_example =
    items-send_payloads (λ _. replicate chunk 0) append_all
      (replicate chunk 71 ∷ replicate chunk 72 ∷ []) 4 (λ p file. refl)
      (length-replicate {A = ℕ} chunk 71, (length-replicate {A = ℕ} chunk 72, tt)) (omega arith)
