-- ===== src/Session/SingleUse.antt =====
-- A session key opens a stream once.
use streamsync.Base.{
  ℕ, ◌≤◌, ◌≡◌, refl, arith, none, some, List, [], ◌∷◌, ◌++◌, ◌==◌, ==-refl, Bool-cases, inl, inr,
  ltb, true, false, ◌<◌,
}
use streamsync.Session.{
  SessionKey, SessionRegistry, is_expired, insert, find_key, get, remove_key, remove, granted,
  invalid_credentials, check_key, authorize,
}

remove_key-append :
    (key : SessionKey) (keys : List SessionKey)
    → find_key key.session_id keys ≡ none
    → remove_key key.session_id (keys ++ (key ∷ [])) ≡ (some key, keys)
unfolding remove_key find_key
remove_key-append key [] h = rw (==-refl key.session_id)
remove_key-append key (k ∷ keys) h = elim (Bool-cases (k.session_id == key.session_id)) [
  | inl same ↦ absurd (let found : some k ≡ none = rw same at h in cc found)
  | inr other ↦
      let later : find_key key.session_id keys ≡ none = rw other at h in
      rw (other, remove_key-append key keys later)
]

remove_key_missing :
    (session : ℕ) (keys : List SessionKey)
    → find_key session keys ≡ none
    → remove_key session keys ≡ (none, keys)
unfolding remove_key find_key
remove_key_missing session [] h = refl
remove_key_missing session (k ∷ keys) h = elim (Bool-cases (k.session_id == session)) [
  | inl same ↦ absurd (let found : some k ≡ none = rw same at h in cc found)
  | inr other ↦
      let later : find_key session keys ≡ none = rw other at h in
      rw (other, remove_key_missing session keys later)
]

remove_missing :
    (resource session : ℕ) (r : SessionRegistry)
    → get resource session r ≡ none
    → remove resource session r ≡ (none, r)
unfolding remove get
remove_missing resource session [] h = refl
remove_missing resource session ((id, keys) ∷ rest) h = elim (Bool-cases (id == resource)) [
  | inl same ↦
      let gone : find_key session keys ≡ none = rw same at h in
      rw (same, remove_key_missing session keys gone)
  | inr other ↦
      let gone : get resource session rest ≡ none = rw other at h in
      rw (other, remove_missing resource session rest gone)
]

remove-insert :
    (key : SessionKey) (r : SessionRegistry)
    → get key.resource_id key.session_id r ≡ none
    → (r' : SessionRegistry) × (remove key.resource_id key.session_id (insert key r)
        ≡ (some key, r'))
      × (get key.resource_id key.session_id r' ≡ none)
unfolding remove insert get
remove-insert key [] h = (
  (key.resource_id, []) ∷ [],
  rw (==-refl key.resource_id, remove_key-append key [] refl),
  rw (==-refl key.resource_id),
)
remove-insert key ((id, keys) ∷ rest) h = elim (Bool-cases (id == key.resource_id)) [
  | inl same ↦
      let fresh : find_key key.session_id keys ≡ none = rw same at h in
      ((id, keys) ∷ rest, rw (same, remove, same, remove_key-append key keys fresh), rw same fresh)
  | inr other ↦
      let fresh : get key.resource_id key.session_id rest ≡ none = rw other at h in
      let (r', e, gone) = remove-insert key rest fresh in
      ((id, keys) ∷ r', rw (other, remove, other, e), rw other gone)
]

-- A key that is registered and not yet expired, where none was for its session and resource: the
-- first request with its ids is let through to its resource, and a second one, at any time, is
-- refused for invalid credentials.
pub authorize-insert :
    (now later : ℕ) (key : SessionKey) (r : SessionRegistry)
    → get key.resource_id key.session_id r ≡ none
    → now ≤ key.expires
    → (r' : SessionRegistry) × (authorize now
          (some key.resource_id)
          (some key.session_id)
          (insert key r)
        ≡ (granted key.resource_id, r'))
      × (authorize later (some key.resource_id) (some key.session_id) r'
          ≡ (invalid_credentials, r'))
unfolding authorize check_key is_expired
authorize-insert now later key r fresh valid =
    let (r', e, gone) = remove-insert key r fresh in
    let current : ltb key.expires now ≡ false = ground (arith, valid) in
    (
      r',
      rw (e, check_key, ==-refl key.session_id, current),
      rw (remove_missing key.resource_id key.session_id r' gone),
    )

-- An expired key is refused for invalid credentials, and used up nevertheless.
pub authorize-insert_expired :
    (now : ℕ) (key : SessionKey) (r : SessionRegistry)
    → get key.resource_id key.session_id r ≡ none
    → key.expires < now
    → (r' : SessionRegistry) × (authorize now
          (some key.resource_id)
          (some key.session_id)
          (insert key r)
        ≡ (invalid_credentials, r'))
      × (get key.resource_id key.session_id r' ≡ none)
unfolding authorize check_key is_expired
authorize-insert_expired now key r fresh old =
    let (r', e, gone) = remove-insert key r fresh in
    let stale : ltb key.expires now ≡ true = ground (arith, old) in
    (r', rw (e, check_key, ==-refl key.session_id, stale), gone)
