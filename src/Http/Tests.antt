-- ===== src/Http/Tests.antt =====
-- The HTTP interface on concrete requests.
use streamsync.Base.{◌≡◌, refl, Option, some, [], ◌∷◌, arith, ◌++◌}
use streamsync.Http.{
  Request, Stream, State, post, empty_response, get_stream, bearer, split, new_path,
}
use streamsync.Http.Created.{Asks, sessions_path, serve-authorize}
use streamsync.Http.Registers.{Registers, serve-Registers}
use streamsync.Http.Routes.{serve}
use streamsync.Http.Sessions.{session_body}
use streamsync.Session.{SessionRegistry, authorize, get, granted, invalid_credentials}
use streamsync.Session.Id.{display_id, parse_id, hex_digits}
use streamsync.Session.Id.RoundTrip.{parse-display_id}

-- The text of 0xbeef.
display_id_run : display_id 48_879 ≡ 98 ∷ 101 ∷ 101 ∷ 102 ∷ []
unfolding display_id hex_digits
display_id_run = refl

parse-display_id_example : parse_id (display_id 48_879) ≡ some 48_879
parse-display_id_example = parse-display_id 48_879 (omega arith)

split_run : new_path (47 ∷ 97 ∷ 47 ∷ 47 ∷ 98 ∷ []) ≡ (97 ∷ []) ∷ [] ∷ (98 ∷ []) ∷ []
unfolding split
split_run = refl

abbrev channel : Stream
channel = record { id = 53 ∷ []; name = []; token = 120 ∷ 121 ∷ [] }

abbrev state : State
state = record { streams = (5, channel) ∷ []; registry = [] }

abbrev ask : Request
ask = record {
  method = post;
  uri_path = sessions_path 5;
  authorization_header = some (bearer ++ (120 ∷ 121 ∷ []));
}

-- Nothing is registered without a token.
abbrev anonymous : Request
anonymous = record ask { authorization_header = some [] }

serve-Registers_example :
    Registers 1_000 51 ask state (serve 1_000 51 (empty_response 200) ask state)
serve-Registers_example = serve-Registers 1_000 51 ask state (empty_response 200)

asks : Asks ask state 5
unfolding get_stream
asks = record { stream = channel; path = refl; method = refl; known = refl; token = refl }

none_registered : get 5 51 [] ≡ Option.none
unfolding get
none_registered = refl

serve-authorize_example :
    let (a, s') = serve 1_000 51 (empty_response 200) ask state in
    (a ≡ record { status = 201; body = session_body 5 51 })
    × ((left : SessionRegistry) × (authorize 2_000
            (parse_id (display_id 5))
            (parse_id (display_id 51))
            s'.registry
          ≡ (granted 5, left))
        × (authorize 3_000 (parse_id (display_id 5)) (parse_id (display_id 51)) left
            ≡ (invalid_credentials, left)))
serve-authorize_example =
    serve-authorize 1_000 51 5 (empty_response 200) ask state 2_000 3_000 asks (omega arith)
      (omega arith) none_registered (omega arith)
