-- ===== src/Http.antt =====
-- The HTTP interface of stsync-proxy/src/http: requests, responses and paths (http/mod.rs), and the
-- state behind it (state.rs, database.rs). A string is the list of its bytes. Of the headers the model
-- has `Authorization`.
pub mod Sessions
pub mod Routes
pub mod Registers
pub mod Created
mod Tests
use streamsync.Base.{ℕ, Bool, false, Option, none, some, List, [], ◌∷◌, drop, ◌==◌, if◌then◌else◌}
use streamsync.Extensions.StreamId.{strip_prefix}
use streamsync.Session.{SessionRegistry}

pub data Method : Type 0 where
  get post delete options other_method : Method

pub record Request : Type 0 where
  pub method : Method
  pub uri_path : List ℕ
  pub authorization_header : Option (List ℕ)

pub record Response : Type 0 where
  pub status : ℕ
  pub body : List ℕ

-- `Body::empty()`.
abbrev pub empty_response : ℕ → Response
empty_response status = record { status = status; body = [] }

-- `Stream` of database.rs.
pub record Stream : Type 0 where
  pub id : List ℕ
  pub name : List ℕ
  pub token : List ℕ

-- The database, as the list of its entries, and the registry of session keys.
pub record State : Type 0 where
  pub streams : List (ℕ × Stream)
  pub registry : SessionRegistry

unfoldable pub get_stream : ℕ → List (ℕ × Stream) → Option Stream
get_stream id [] = none
get_stream id ((k, stream) ∷ streams) =
    let later = get_stream id streams in if k == id then some stream else later

-- `Bearer `.
abbrev pub bearer : List ℕ
bearer = 66 ∷ 101 ∷ 97 ∷ 114 ∷ 101 ∷ 114 ∷ 32 ∷ []

-- `Context::authorization`.
abbrev pub strip_bearer : Option (List ℕ) → Option (List ℕ)
strip_bearer none = none
strip_bearer (some token) = strip_prefix bearer token

abbrev pub authorization : Request → Option (List ℕ)
authorization r = strip_bearer r.authorization_header

abbrev pub prepend : ℕ → List (List ℕ) → List (List ℕ)
prepend c [] = (c ∷ []) ∷ []
prepend c (word ∷ words) = (c ∷ word) ∷ words

-- `str::split` at a byte.
unfoldable pub split : ℕ → List ℕ → List (List ℕ)
split sep [] = [] ∷ []
split sep (c ∷ s) = let words = split sep s in if c == sep then [] ∷ words else prepend c words

abbrev starts_with : ℕ → List ℕ → Bool
starts_with c [] = false
starts_with c (d ∷ s) = d == c

-- `Path::new`; a slash is 47.
abbrev pub new_path : List ℕ → List (List ℕ)
new_path path = let buf = split 47 path in if starts_with 47 path then drop 1 buf else buf

-- `Path::take`.
abbrev pub take_segment : List (List ℕ) → Option (List ℕ) × List (List ℕ)
take_segment [] = (none, [])
take_segment (word ∷ words) = (some word, words)
