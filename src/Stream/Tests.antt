-- ===== src/Stream/Tests.antt =====
-- A stream whose sequence numbers wrap, polled three times.
use streamsync.Base.{ℕ, ◌≡◌, refl, List, [], ◌∷◌, arith}
use streamsync.Buffer.{found}
use streamsync.Proto.Error.{ok}
use streamsync.Sequence.{add_sequence}
use streamsync.Timestamp.{from_start}
use streamsync.Stream.{Sent, SrtStream, new_stream, get_sent}
use streamsync.Stream.Resend.{send_all, expected, get_sent-send_all}

abbrev polls : List (ℕ × List ℕ)
polls = (1_010, 1 ∷ []) ∷ (1_020, 2 ∷ 2 ∷ []) ∷ (1_040, 3 ∷ []) ∷ []

abbrev third : Sent
third = record { payload = 3 ∷ []; timestamp = 40; message_number = 3 }

get_sent-send_all_example :
    (s : SrtStream) × (send_all polls (new_stream 2 2_147_483_646 1_000)
      ≡ ok (s, expected 1_000 0 polls))
    × (get_sent s (add_sequence 2_147_483_646 2) ≡ found third)
get_sent-send_all_example =
    get_sent-send_all 2 2_147_483_646 1_000 2 polls third (omega arith) (omega arith)
      (unfold expected in unfold from_start in refl) (omega arith) (omega arith)
