-- ===== src/Http/Routes.antt =====
-- The routes of stsync-proxy/src/http/mod.rs, http/v1/mod.rs and http/v1/streams/mod.rs.
use streamsync.Base.{ℕ, Option, none, some, List, [], ◌∷◌, if◌then◌else◌}
use streamsync.Extensions.StreamId.{same_string}
use streamsync.Http.{
  Method, get, post, delete, options, other_method, Request, Response, empty_response, State,
  new_path, take_segment,
}
use streamsync.Http.Sessions
use streamsync.Session.Id.{parse_id}

-- `v1`, `metrics`, `streams` and `sessions`.
abbrev pub v1_name : List ℕ
v1_name = 118 ∷ 49 ∷ []

abbrev pub metrics_name : List ℕ
metrics_name = 109 ∷ 101 ∷ 116 ∷ 114 ∷ 105 ∷ 99 ∷ 115 ∷ []

abbrev pub streams_name : List ℕ
streams_name = 115 ∷ 116 ∷ 114 ∷ 101 ∷ 97 ∷ 109 ∷ 115 ∷ []

abbrev pub sessions_name : List ℕ
sessions_name = 115 ∷ 101 ∷ 115 ∷ 115 ∷ 105 ∷ 111 ∷ 110 ∷ 115 ∷ []

-- `Failed to parse id`, and `Not Found`.
abbrev unparsed_id : Response
unparsed_id = record {
  status = 400;
  body =
      70 ∷ 97 ∷ 105 ∷ 108 ∷ 101 ∷ 100 ∷ 32 ∷ 116 ∷ 111 ∷ 32 ∷ 112 ∷ 97 ∷ 114 ∷ 115 ∷ 101 ∷ 32 ∷ 105
      ∷ 100 ∷ [];
}

abbrev not_found : Response
not_found = record { status = 404; body = 78 ∷ 111 ∷ 116 ∷ 32 ∷ 70 ∷ 111 ∷ 117 ∷ 110 ∷ 100 ∷ [] }

abbrev pub streams_method : Method → Response
streams_method get = empty_response 501
streams_method post = empty_response 405
streams_method delete = empty_response 405
streams_method options = empty_response 405
streams_method other_method = empty_response 405

module _ (now random : ℕ) where
  abbrev pub after_id : Option (List ℕ) × List (List ℕ) → ℕ → Request → State → Response × State
  after_id (none, path) id r s = (empty_response 404, s)
  after_id (some word, path) id r s =
      if same_string word sessions_name
      then Sessions.route now random path id r s
      else (empty_response 404, s)

  abbrev pub with_id : Option ℕ → List (List ℕ) → Request → State → Response × State
  with_id none path r s = (unparsed_id, s)
  with_id (some id) path r s = after_id (take_segment path) id r s

  -- `streams::route`.
  abbrev pub route_streams : Option (List ℕ) × List (List ℕ) → Request → State → Response × State
  route_streams (none, path) r s = (streams_method r.method, s)
  route_streams (some word, path) r s = with_id (parse_id word) path r s

  -- `v1::route`.
  abbrev pub route_v1 : Option (List ℕ) × List (List ℕ) → Request → State → Response × State
  route_v1 (none, path) r s = (empty_response 404, s)
  route_v1 (some word, path) r s =
      if same_string word streams_name
      then route_streams (take_segment path) r s
      else (empty_response 404, s)

  -- The service of `serve`, before the headers. The text of the metrics is an argument.
  abbrev pub route_first :
      Response → Option (List ℕ) × List (List ℕ) → Request → State → Response × State
  route_first metrics (none, path) r s = (not_found, s)
  route_first metrics (some word, path) r s =
      if same_string word v1_name
      then route_v1 (take_segment path) r s
      else if same_string word metrics_name
      then (metrics, s)
      else (not_found, s)

  unfoldable pub serve : Response → Request → State → Response × State
  serve metrics r s = route_first metrics (take_segment (new_path r.uri_path)) r s
