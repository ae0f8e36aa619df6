-- ===== src/Http/Created.antt =====
-- A session made over HTTP opens a stream.
use streamsync.Base.{
  ℕ, zero, suc, ◌+◌, ◌/◌, ◌%◌, ◌^◌, ◌<◌, ◌≤◌, ◌≡◌, refl, ◌∙◌, ap, arith, true, false, none, some,
  List, [], ◌∷◌, ◌++◌, ltb, ◌==◌, ==-refl, Bool-cases, inl, inr,
}
use streamsync.Extensions.StreamId.{same_string}
use streamsync.Http.{
  post, Request, Response, Stream, State, get_stream, authorization, split, new_path, take_segment,
}
use streamsync.Http.Routes.{v1_name, streams_name, sessions_name, route_first, serve}
use streamsync.Http.Sessions.{day, session_body, new_key}
use streamsync.Session.{SessionRegistry, insert, get, granted, invalid_credentials, authorize}
use streamsync.Session.Id.{hex_char, hex_digits, display_id, parse_id}
use streamsync.Session.Id.RoundTrip.{parse-display_id}
use streamsync.Session.SingleUse.{authorize-insert}

abbrev HasNoSlash : List ℕ → Type 0
HasNoSlash [] = Unit {0}
HasNoSlash (c ∷ s) = ((c == 47) ≡ false) × HasNoSlash s

split-append : (w s : List ℕ) → HasNoSlash w → split 47 (w ++ (47 ∷ s)) ≡ w ∷ split 47 s
unfolding split
split-append [] s h = refl
split-append (c ∷ w) s h = rw (h.0, split-append w s h.1) refl

split_word : (w : List ℕ) → HasNoSlash w → split 47 w ≡ w ∷ []
unfolding split
split_word [] h = refl
split_word (c ∷ w) h = rw (h.0, split_word w h.1) refl

hex_char-slash : (d : ℕ) → d < 16 → (hex_char d == 47) ≡ false
hex_char-slash d h = ground arith

hex_digits-HasNoSlash : (k n : ℕ) (s : List ℕ) → HasNoSlash s → HasNoSlash (hex_digits k n s)
unfolding hex_digits
hex_digits-HasNoSlash zero n s h = h
hex_digits-HasNoSlash (suc k) n s h = elim (Bool-cases (ltb n 16)) [
  | inl small ↦ rw small (hex_char-slash n (ground arith), h)
  | inr large ↦ rw large (
      hex_digits-HasNoSlash k (n / 16) (hex_char (n % 16) ∷ s)
        (hex_char-slash (n % 16) (omega arith), h))
]

display_id-HasNoSlash : (n : ℕ) → HasNoSlash (display_id n)
unfolding display_id
display_id-HasNoSlash n = hex_digits-HasNoSlash 16 n [] tt

same_string_refl : (s : List ℕ) → same_string s s ≡ true
same_string_refl [] = refl
same_string_refl (a ∷ s) = rw (==-refl a) (same_string_refl s)

-- `/v1/streams/ID/sessions`.
abbrev pub sessions_path : ℕ → List ℕ
sessions_path id =
    47 ∷ (v1_name ++ (47 ∷ (streams_name ++ (47 ∷ (display_id id ++ (47 ∷ sessions_name))))))

new_path-sessions :
    (id : ℕ)
    → new_path (sessions_path id) ≡ v1_name ∷ streams_name ∷ display_id id ∷ sessions_name ∷ []
unfolding split
new_path-sessions id =
    ap (λ words. v1_name ∷ streams_name ∷ words)
      (split-append (display_id id) sessions_name (display_id-HasNoSlash id)
        ∙ ap (λ words. display_id id ∷ words)
            (split_word sessions_name
              (refl, (refl, (refl, (refl, (refl, (refl, (refl, (refl, tt))))))))))

-- A POST for a stream of the database, with its token.
pub record Asks (r : Request) (s : State) (id : ℕ) : Type 0 where
  pub stream : Stream
  pub path : r.uri_path ≡ sessions_path id
  pub method : r.method ≡ post
  pub known : get_stream id s.streams ≡ some stream
  pub token : authorization r ≡ some stream.token

module _ (now random id : ℕ) (metrics : Response) (r : Request) (s : State) where
  serve-Asks :
      Asks r s id
      → id < 2 ^ 64
      → serve now random metrics r s ≡ (
        record { status = 201; body = session_body id random },
        record s { registry = insert (new_key now random id) s.registry },
      )
  unfolding serve
  serve-Asks a small =
      ap (λ p. route_first now random metrics (take_segment p) r s)
        (ap new_path a.path ∙ new_path-sessions id)
      ∙ rw (parse-display_id id small, a.method, a.known, a.token, same_string_refl a.stream.token)
          refl

  -- A POST to `/v1/streams/ID/sessions` with the token of the stream `ID`, an id of 64 bits, is
  -- answered with 201 and the ids as text. When the random session id is new for the stream, the two
  -- ids read back from their text open the stream once, at any time within a day, and not again.
  pub serve-authorize :
      (t later : ℕ)
      → Asks r s id
      → id < 2 ^ 64
      → random < 2 ^ 64
      → get id random s.registry ≡ none
      → t ≤ now + day
      → let (a, s') = serve now random metrics r s in
        (a ≡ record { status = 201; body = session_body id random })
        × ((left : SessionRegistry) × (authorize t
                (parse_id (display_id id))
                (parse_id (display_id random))
                s'.registry
              ≡ (granted id, left))
            × (authorize later (parse_id (display_id id)) (parse_id (display_id random)) left
                ≡ (invalid_credentials, left)))
  serve-authorize t later a small small' fresh in_time =
      let (left, opens, used) =
        authorize-insert t later (new_key now random id) s.registry fresh in_time in
      rw (serve-Asks a small, parse-display_id id small, parse-display_id random small')
        (refl, (left, opens, used))
