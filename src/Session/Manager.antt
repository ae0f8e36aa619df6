-- ===== src/Session/Manager.antt =====
-- `BufferSessionManager` of stsync-proxy/src/session/buffer.rs: `request` and `publish`. Of a
-- broadcast channel the model keeps that it exists, and of a `BufferSink` what was sent with it.
use streamsync.Base.{
  ℕ, ◌≡◌, refl, sym, ap, Option, none, some, List, [], ◌∷◌, ◌==◌, false, not, ◌||◌, Bool-cases, inl,
  inr, if◌then◌else◌, arith,
}
use streamsync.Conn.Shared.{
  SessionManager, Opened, opened, invalid_resource_id, invalid_credentials,
}
use streamsync.Session.{
  SessionKey, SessionRegistry, Access, granted, authorize, get, remove, find_key, remove_key,
  check_key, is_expired,
}
use streamsync.Session

-- `Inner`; `streams` has the resources with a channel.
pub record Inner : Type 0 where
  pub streams : List ℕ
  pub registry : SessionRegistry

-- The lookup in `streams`, and the insertion when there is no channel yet.
abbrev pub open_stream : ℕ → List ℕ → List ℕ
open_stream id [] = id ∷ []
open_stream id (x ∷ streams) =
    let others = open_stream id streams in if x == id then x ∷ streams else x ∷ others

-- The rest of `request` and `publish` after the check of the key.
abbrev pub attach : {A : Type 0} → A → Access × SessionRegistry → Inner → Opened A × Inner
attach a (granted id, registry) inner =
    (opened a, record { streams = open_stream id inner.streams; registry = registry })
attach a (Session.invalid_resource_id, registry) inner =
    (invalid_resource_id, record inner { registry = registry })
attach a (Session.invalid_credentials, registry) inner =
    (invalid_credentials, record inner { registry = registry })

-- `now` is the time of the check.
abbrev pub buffer_session_manager : ℕ → SessionManager Inner (List (List ℕ))
buffer_session_manager now = record {
  publish =
      λ resource session inner. attach [] (authorize now resource session inner.registry) inner;
  request =
      λ resource session inner. attach tt (authorize now resource session inner.registry) inner;
}

remove_key-find_key :
    (session : ℕ) (keys : List SessionKey) → (remove_key session keys).0 ≡ find_key session keys
unfolding remove_key find_key
remove_key-find_key session [] = refl
remove_key-find_key session (k ∷ keys) = elim (Bool-cases (k.session_id == session)) [
  | inl same ↦ rw same refl
  | inr other ↦ rw other (remove_key-find_key session keys)
]

-- `remove` gives what `get` finds.
remove-get :
    (resource session : ℕ) (r : SessionRegistry)
    → (remove resource session r).0 ≡ get resource session r
unfolding remove get
remove-get resource session [] = refl
remove-get resource session ((id, keys) ∷ rest) = elim (Bool-cases (id == resource)) [
  | inl same ↦ rw same (remove_key-find_key session keys)
  | inr other ↦ rw other (remove-get resource session rest)
]

-- The registry has a key of this resource and session that has not expired.
pub record HoldsKey (now : ℕ) (resource session : Option ℕ) (r : SessionRegistry) : Type 0 where
  pub resource_id : ℕ
  pub session_id : ℕ
  pub key : SessionKey
  pub resource_is : resource ≡ some resource_id
  pub session_is : session ≡ some session_id
  pub found : get resource_id session_id r ≡ some key
  pub live : is_expired now key ≡ false

not_credentials : {A : Type 0} (x : A) → ◌≡◌ {A = Opened A} invalid_credentials (opened x) → ⊥
not_credentials x h = cc

not_resource : {A : Type 0} (x : A) → ◌≡◌ {A = Opened A} invalid_resource_id (opened x) → ⊥
not_resource x h = cc

check_key-HoldsKey :
    {A : Type 0} (now id s : ℕ) (a x : A) (r r' : SessionRegistry) (inner m : Inner)
    (key : Option SessionKey)
    → get id s r ≡ key
    → attach a (check_key now s key id, r') inner ≡ (opened x, m)
    → HoldsKey now (some id) (some s) r
unfolding check_key
check_key-HoldsKey now id s a x r r' inner m none e h = absurd (not_credentials x (ap (λ o. o.0) h))
check_key-HoldsKey now id s a x r r' inner m (some key) e h =
    elim (Bool-cases (not (key.session_id == s) || is_expired now key)) [
      | inl refused ↦ absurd (not_credentials x (ap (λ o. o.0) (rw refused at h)))
      | inr fine ↦ record {
        resource_id = id;
        session_id = s;
        key = key;
        resource_is = refl;
        session_is = refl;
        found = e;
        live = ground (arith, fine);
      }
    ]

-- A stream is opened for a key of the registry only, which has not expired.
pub attach-authorize :
    {A : Type 0} (now : ℕ) (resource session : Option ℕ) (a x : A) (inner m : Inner)
    → attach a (authorize now resource session inner.registry) inner ≡ (opened x, m)
    → HoldsKey now resource session inner.registry
unfolding authorize
attach-authorize now none session a x inner m h = absurd (not_resource x (ap (λ o. o.0) h))
attach-authorize now (some id) none a x inner m h = absurd (not_credentials x (ap (λ o. o.0) h))
attach-authorize now (some id) (some s) a x inner m h =
    check_key-HoldsKey now id s a x inner.registry (remove id s inner.registry).1 inner m
      (remove id s inner.registry).0 (sym (remove-get id s inner.registry)) h
