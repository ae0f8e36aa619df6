-- ===== src/Http/Registers.antt =====
-- Which requests register a session key.
use streamsync.Base.{
  ℕ, ◌≡◌, refl, ◌∙◌, ap, ap₂, true, Bool-cases, ==_iff, ◌==◌, if_both, Option, Option-cases, none,
  some, inl, inr, List, [], ◌∷◌,
}
use streamsync.Extensions.StreamId.{same_string}
use streamsync.Http.{
  Method, get, post, delete, options, other_method, Request, Response, Stream, State, get_stream,
  authorization, new_path, take_segment,
}
use streamsync.Http.Routes.{
  metrics_name, v1_name, streams_name, sessions_name, after_id, route_streams, route_v1,
  route_first, serve,
}
use streamsync.Http.Sessions.{
  create, new_key, session_body, route_session, route_sessions, with_session, route,
}
use streamsync.Session.{insert}
use streamsync.Session.Id.{parse_id}

same_string-eq : (s t : List ℕ) → same_string s t ≡ true → s ≡ t
same_string-eq [] [] e = refl
same_string-eq [] (b ∷ t) e = cc
same_string-eq (a ∷ s) [] e = cc
same_string-eq (a ∷ s) (b ∷ t) e = elim (Bool-cases (a == b)) [
  | inl same ↦
      ap₂ (λ (x : ℕ) (l : List ℕ). x ∷ l) ((==_iff a b).0 same) (same_string-eq s t (rw same at e))
  | inr other ↦ cc (rw other at e)
]

-- What a request must be to register a key: a POST to `/v1/streams/ID/sessions`, where `ID` is that of
-- a stream of the database, with this stream's token.
pub record MayRegister (r : Request) (s : State) (id : ℕ) : Type 0 where
  pub word : List ℕ
  pub stream : Stream
  pub path : new_path r.uri_path ≡ v1_name ∷ streams_name ∷ word ∷ sessions_name ∷ []
  pub names : parse_id word ≡ some id
  pub method : r.method ≡ post
  pub known : get_stream id s.streams ≡ some stream
  pub token : authorization r ≡ some stream.token

-- The outcomes of a request.
pub data Registers (now random : ℕ) (r : Request) (s : State) : Response × State → Type 0 where
  unchanged : (a : Response) → Registers now random r s (a, s)
  registered :
      (id : ℕ)
      → MayRegister r s id
      → Registers now random r s (
        record { status = 201; body = session_body id random },
        record s { registry = insert (new_key now random id) s.registry },
      )

module _ (now random : ℕ) (r : Request) (s : State) where
  -- The path up to the id is the right one.
  record Reaches (word : List ℕ) (path : List (List ℕ)) (id : ℕ) : Type 0 where
    pub whole : new_path r.uri_path ≡ v1_name ∷ streams_name ∷ word ∷ path
    pub names : parse_id word ≡ some id

  create-Registers :
      (word : List ℕ) (id : ℕ)
      → Reaches word (sessions_name ∷ []) id
      → r.method ≡ post
      → Registers now random r s (create now random id r s)
  create-Registers word id h is_post = elim (Option-cases (get_stream id s.streams)) [
    | inl unknown ↦ rw unknown (unchanged _)
    | inr (stream, known) ↦ rw known (elim (Option-cases (authorization r)) [
      | inl anonymous ↦ rw anonymous (unchanged _)
      | inr (token, sent) ↦ elim (Bool-cases (same_string token stream.token)) [
        | inr wrong ↦ rw (sent, wrong) (unchanged _)
        | inl right ↦
            rw (sent, right)
              (registered id (record {
                word = word;
                stream = stream;
                path = h.whole;
                names = h.names;
                method = is_post;
                known = known;
                token = sent ∙ ap some (same_string-eq token stream.token right);
              }))
      ]
    ])
  ]

  route_sessions-Registers :
      (word : List ℕ) (id : ℕ)
      → Reaches word (sessions_name ∷ []) id
      → Registers now random r s (route_sessions now random r.method id r s)
  route_sessions-Registers word id h = by_method r.method refl
    where
      by_method :
          (m : Method)
          → r.method ≡ m
          → Registers now random r s (route_sessions now random m id r s)
      by_method get e = unchanged _
      by_method post e = create-Registers word id h e
      by_method delete e = unchanged _
      by_method options e = unchanged _
      by_method other_method e = unchanged _

  route_session-Registers :
      (m : Method) (id : ℕ) → Registers now random r s (route_session m id r s)
  route_session-Registers get id = unchanged _
  route_session-Registers post id = unchanged _
  route_session-Registers delete id = unchanged _
  route_session-Registers options id = unchanged _
  route_session-Registers other_method id = unchanged _

  with_session-Registers :
      (o : Option ℕ) (id : ℕ) → Registers now random r s (with_session o id r s)
  with_session-Registers none id = unchanged _
  with_session-Registers (some session_id) id = route_session-Registers r.method id

  route-Registers :
      (word : List ℕ) (path : List (List ℕ)) (id : ℕ)
      → Reaches word (sessions_name ∷ path) id
      → Registers now random r s (route now random path id r s)
  route-Registers word [] id h = route_sessions-Registers word id h
  route-Registers word (w ∷ path) id h = with_session-Registers (parse_id w) id

  after_id-Registers :
      (word : List ℕ) (path : List (List ℕ)) (id : ℕ)
      → Reaches word path id
      → Registers now random r s (after_id now random (take_segment path) id r s)
  after_id-Registers word [] id h = unchanged _
  after_id-Registers word (w ∷ path) id h = elim (Bool-cases (same_string w sessions_name)) [
    | inr other ↦ rw other (unchanged _)
    | inl same ↦ rw same (
        route-Registers word path id (record {
          whole =
              h.whole
              ∙ ap (λ (x : List ℕ). v1_name ∷ streams_name ∷ word ∷ x ∷ path)
                  (same_string-eq w sessions_name same);
          names = h.names;
        }))
  ]

  route_streams-Registers :
      (path : List (List ℕ))
      → new_path r.uri_path ≡ v1_name ∷ streams_name ∷ path
      → Registers now random r s (route_streams now random (take_segment path) r s)
  route_streams-Registers [] e = unchanged _
  route_streams-Registers (w ∷ path) e = elim (Option-cases (parse_id w)) [
    | inl no_id ↦ rw no_id (unchanged _)
    | inr (id, names) ↦
        rw names (after_id-Registers w path id (record { whole = e; names = names }))
  ]

  route_v1-Registers :
      (path : List (List ℕ))
      → new_path r.uri_path ≡ v1_name ∷ path
      → Registers now random r s (route_v1 now random (take_segment path) r s)
  route_v1-Registers [] e = unchanged _
  route_v1-Registers (w ∷ path) e = elim (Bool-cases (same_string w streams_name)) [
    | inr other ↦ rw other (unchanged _)
    | inl same ↦ rw same (
        route_streams-Registers path
          (e ∙ ap (λ (x : List ℕ). v1_name ∷ x ∷ path) (same_string-eq w streams_name same)))
  ]

  route_first-Registers :
      (metrics : Response) (path : List (List ℕ))
      → new_path r.uri_path ≡ path
      → Registers now random r s (route_first now random metrics (take_segment path) r s)
  route_first-Registers metrics [] e = unchanged _
  route_first-Registers metrics (w ∷ path) e = elim (Bool-cases (same_string w v1_name)) [
    | inr other ↦ rw other (
        if_both (Registers now random r s) (same_string w metrics_name) _ _ (unchanged metrics)
          (unchanged _))
    | inl same ↦ rw same (
        route_v1-Registers path (e ∙ ap (λ (x : List ℕ). x ∷ path) (same_string-eq w v1_name same)))
  ]

  -- A request leaves the server's keys as they are, or it is a POST to `/v1/streams/ID/sessions` with
  -- nothing after, `ID` is that of a stream in the database, and the request carries the token of this
  -- stream; then it is answered with 201, and one key is registered, for that stream, with the random
  -- number as its session, valid for a day.
  pub serve-Registers :
      (metrics : Response) → Registers now random r s (serve now random metrics r s)
  unfolding serve
  serve-Registers metrics = route_first-Registers metrics (new_path r.uri_path) refl
