-- ===== src/Session.antt =====
-- stsync-proxy/src/session/buffer.rs: the registry of session keys, and what the manager of live
-- streams does with them. Ids are numbers, an `Instant` a number of microseconds. The hash map is a
-- list of its entries, with one entry per resource.
pub mod Id
pub mod File
pub mod Manager
pub mod SingleUse
mod Tests
use streamsync.Base.{
  ℕ, Bool, ◌||◌, not, Option, none, some, List, [], ◌∷◌, ◌++◌, ltb, ◌==◌, if◌then◌else◌,
}

pub record SessionKey : Type 0 where
  pub resource_id : ℕ
  pub session_id : ℕ
  pub expires : ℕ

unfoldable pub is_expired : ℕ → SessionKey → Bool
is_expired now key = ltb key.expires now

abbrev pub SessionRegistry : Type 0
SessionRegistry = List (ℕ × List SessionKey)

pub insert : SessionKey → SessionRegistry → SessionRegistry
insert key [] = (key.resource_id, key ∷ []) ∷ []
insert key ((id, keys) ∷ rest) =
    let others = insert key rest in
    if id == key.resource_id then (id, keys ++ (key ∷ [])) ∷ rest else (id, keys) ∷ others

unfoldable pub find_key : ℕ → List SessionKey → Option SessionKey
find_key session_id [] = none
find_key session_id (key ∷ keys) =
    let later = find_key session_id keys in if key.session_id == session_id then some key else later

unfoldable pub get : ℕ → ℕ → SessionRegistry → Option SessionKey
unfolding find_key
get resource_id session_id [] = none
get resource_id session_id ((id, keys) ∷ rest) =
    let others = get resource_id session_id rest in
    if id == resource_id then find_key session_id keys else others

-- The first key of this session, and the keys without it.
unfoldable pub remove_key : ℕ → List SessionKey → Option SessionKey × List SessionKey
remove_key session_id [] = (none, [])
remove_key session_id (key ∷ keys) =
    let later = remove_key session_id keys in
    if key.session_id == session_id then (some key, keys) else (later.0, key ∷ later.1)

unfoldable pub remove : ℕ → ℕ → SessionRegistry → Option SessionKey × SessionRegistry
unfolding remove_key
remove resource_id session_id [] = (none, [])
remove resource_id session_id ((id, keys) ∷ rest) =
    let others = remove resource_id session_id rest in
    let here = remove_key session_id keys in
    if id == resource_id then (here.0, (id, here.1) ∷ rest) else (others.0, (id, keys) ∷ others.1)

-- The check that `request` and `publish` make before they open a stream: the resource that they go
-- on with, or the error. The key is used up.
pub data Access : Type 0 where
  granted : ℕ → Access
  invalid_resource_id invalid_credentials : Access

unfoldable pub check_key : ℕ → ℕ → Option SessionKey → ℕ → Access
unfolding is_expired
check_key now session_id none resource_id = invalid_credentials
check_key now session_id (some key) resource_id =
    if not (key.session_id == session_id) || is_expired now key
    then invalid_credentials
    else granted resource_id

unfoldable pub authorize : ℕ → Option ℕ → Option ℕ → SessionRegistry → Access × SessionRegistry
unfolding check_key remove
authorize now none session r = (invalid_resource_id, r)
authorize now (some resource_id) none r = (invalid_credentials, r)
authorize now (some resource_id) (some session_id) r =
    let removed = remove resource_id session_id r in
    (check_key now session_id removed.0 resource_id, removed.1)
