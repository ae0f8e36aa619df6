-- ===== src/Http/Sessions.antt =====
-- stsync-proxy/src/http/v1/streams/sessions.rs. `now` is the time of the call, and `random` what the
-- generator gives.
use streamsync.Base.{
  ℕ, ◌+◌, Bool, false, not, Option, none, some, List, [], ◌∷◌, ◌++◌, if◌then◌else◌,
}
use streamsync.Extensions.StreamId.{same_string}
use streamsync.Http.{
  Method, get, post, delete, options, other_method, Request, Response, empty_response, Stream,
  State, get_stream, authorization, take_segment,
}
use streamsync.Session.{SessionKey, insert}
use streamsync.Session.Id.{display_id, parse_id}

-- A day.
abbrev pub day : ℕ
day = 86_400_000_000

-- `{"resource_id":"`, `","session_id":"` and `"}`.
abbrev body_start : List ℕ
body_start =
    123 ∷ 34 ∷ 114 ∷ 101 ∷ 115 ∷ 111 ∷ 117 ∷ 114 ∷ 99 ∷ 101 ∷ 95 ∷ 105 ∷ 100 ∷ 34 ∷ 58 ∷ 34 ∷ []

abbrev body_middle : List ℕ
body_middle =
    34 ∷ 44 ∷ 34 ∷ 115 ∷ 101 ∷ 115 ∷ 115 ∷ 105 ∷ 111 ∷ 110 ∷ 95 ∷ 105 ∷ 100 ∷ 34 ∷ 58 ∷ 34 ∷ []

abbrev body_end : List ℕ
body_end = 34 ∷ 125 ∷ []

abbrev pub session_body : ℕ → ℕ → List ℕ
session_body resource_id session_id =
    body_start ++ display_id resource_id ++ body_middle ++ display_id session_id ++ body_end

abbrev is_token : Option (List ℕ) → Stream → Bool
is_token none stream = false
is_token (some token) stream = same_string token stream.token

-- The key that `create` registers.
abbrev pub new_key : ℕ → ℕ → ℕ → SessionKey
new_key now random id = record { resource_id = id; session_id = random; expires = now + day }

module _ (now random : ℕ) where
  -- The rest of `create` for a stream that is there.
  abbrev pub create_on : Option Stream → ℕ → Request → State → Response × State
  create_on none id r s = (empty_response 404, s)
  create_on (some stream) id r s =
      if not (is_token (authorization r) stream) then (empty_response 401, s) else (
        record { status = 201; body = session_body id random },
        record s { registry = insert (new_key now random id) s.registry },
      )

  abbrev pub create : ℕ → Request → State → Response × State
  create id r s = create_on (get_stream id s.streams) id r s

-- `get` and `list` answer 501, and so does `delete` after its checks.
abbrev pub delete_on : Option Stream → Request → Response
delete_on none r = empty_response 404
delete_on (some stream) r =
    if not (is_token (authorization r) stream) then empty_response 401 else empty_response 501

abbrev pub delete_session : ℕ → Request → State → Response
delete_session id r s = delete_on (get_stream id s.streams) r

-- The `match` on the method for a session of the path, and without one.
abbrev pub route_session : Method → ℕ → Request → State → Response × State
route_session get id r s = (empty_response 501, s)
route_session delete id r s = (delete_session id r s, s)
route_session options id r s = (empty_response 204, s)
route_session post id r s = (empty_response 405, s)
route_session other_method id r s = (empty_response 405, s)

abbrev pub route_sessions : ℕ → ℕ → Method → ℕ → Request → State → Response × State
route_sessions now random get id r s = (empty_response 501, s)
route_sessions now random post id r s = create now random id r s
route_sessions now random options id r s = (empty_response 204, s)
route_sessions now random delete id r s = (empty_response 405, s)
route_sessions now random other_method id r s = (empty_response 405, s)

-- `Failed to parse session id`.
abbrev unparsed_session : Response
unparsed_session = record {
  status = 400;
  body =
      70 ∷ 97 ∷ 105 ∷ 108 ∷ 101 ∷ 100 ∷ 32 ∷ 116 ∷ 111 ∷ 32 ∷ 112 ∷ 97 ∷ 114 ∷ 115 ∷ 101 ∷ 32 ∷ 115
      ∷ 101 ∷ 115 ∷ 115 ∷ 105 ∷ 111 ∷ 110 ∷ 32 ∷ 105 ∷ 100 ∷ [];
}

abbrev pub with_session : Option ℕ → ℕ → Request → State → Response × State
with_session none id r s = (unparsed_session, s)
with_session (some session_id) id r s = route_session r.method id r s

abbrev pub route_rest : ℕ → ℕ → Option (List ℕ) → ℕ → Request → State → Response × State
route_rest now random none id r s = route_sessions now random r.method id r s
route_rest now random (some word) id r s = with_session (parse_id word) id r s

-- `route`.
abbrev pub route : ℕ → ℕ → List (List ℕ) → ℕ → Request → State → Response × State
route now random path id r s = route_rest now random (take_segment path).0 id r s
