-- ===== src/Stream/Resend.antt =====
-- A stream answers a lookup of a sequence number with what was sent under it.
use mathlib.Core.List.{append-nil, append_assoc}
use native.Mathlib.Decide.{ℕ_discrete}
use streamsync.Base.{
  if◌then◌else◌, ℕ, suc, ◌+◌, ◌%◌, ◌^◌, ◌≤◌, ◌<◌, ◌≡◌, refl, sym, ◌∙◌, ap, ap₂, arith, some, List,
  [], ◌∷◌, ◌++◌, length, length-append, get_elem?, false,
}
use streamsync.Buffer
use streamsync.Buffer.{Buffer, push, push_at, absent, found}
use streamsync.Buffer.Slots.{Holds, new-Holds, push-Holds}
use streamsync.Buffer.Window.{get_stored, size-new}
use streamsync.Proto.Error.{Result, ok, ◌>>=◌}
use streamsync.Sequence.{add_message, add_sequence, sub_sequence, cmp_sequence, is_lt}
use streamsync.Serial.Laws.{add-eq-mod, sub-add}
use streamsync.Serial.Order.{cmp-add, cmp-eq_iff}
use streamsync.Stream.{Sent, SrtStream, new_stream, get_sent, next_item}
use streamsync.Timestamp.{from_start}

-- The calls of `poll_next` for payloads that come at the given instants, and what they return.
pub send_all : List (ℕ × List ℕ) → SrtStream → Result (SrtStream × List Sent)
send_all [] s = ok (s, [])
send_all ((now, payload) ∷ items) s =
    next_item now payload s >>= λ n. send_all items n.stream >>= λ (s', xs). ok (s', n.sent ∷ xs)

-- The stream has sent `xs`, its message numbers count them.
pub record Tracks (s : SrtStream) (xs : List Sent) : Type 0 where
  pub held : Holds s.buffer xs
  pub numbered : s.next_message_number ≡ (1 + length xs) % 2 ^ 26

pub new_stream-Tracks : (n initial start : ℕ) → 0 < n → Tracks (new_stream n initial start) []
unfolding new_stream
new_stream-Tracks n initial start h = record { held = new-Holds n h; numbered = refl }

-- What one poll sends: the payload, the time since the start, the next message number.
pub next_item-Tracks :
    (now : ℕ) (payload : List ℕ) (s : SrtStream) (xs : List Sent)
    → Tracks s xs
    → (s' : SrtStream) × (x : Sent) × (next_item now payload s
        ≡ ok (record { stream = s'; sent = x }))
      × Tracks s' (xs ++ (x ∷ []))
      × (x ≡ record {
        payload = payload;
        timestamp = from_start s.start_time now;
        message_number = (1 + length xs) % 2 ^ 26;
      })
      × (s'.initial_sequence_number ≡ s.initial_sequence_number)
      × (s'.start_time ≡ s.start_time)
      × (Buffer.size s'.buffer ≡ Buffer.size s.buffer)
unfolding next_item
next_item-Tracks now payload s xs v =
    let sent : Sent = record {
      payload = payload;
      timestamp = from_start s.start_time now;
      message_number = s.next_message_number;
    } in
    let (e, w, same) = push-Holds s.buffer xs sent v.held in
    let numbered : s.next_message_number ≡ (1 + length xs) % 2 ^ 26 = v.numbered in
    let next : add_message s.next_message_number 1 ≡ (1 + length (xs ++ (sent ∷ []))) % 2 ^ 26 =
      omega
        (arith, add-eq-mod 26 s.next_message_number 1, numbered, length-append xs (sent ∷ [])) in
    (
      record s {
        buffer = (push_at (s.buffer.head % Buffer.size s.buffer) s.buffer sent).buffer;
        next_message_number = add_message s.next_message_number 1;
      },
      sent,
      rw (e, next_item),
      record { held = w; numbered = next },
      rw numbered,
      refl,
      refl,
      same,
    )

-- Within the window and half the sequence range from the start, the lookup finds it.
pub get_sent_lem :
    (s : SrtStream) (xs : List Sent) (i : ℕ) (x : Sent)
    → Tracks s xs
    → s.initial_sequence_number < 2 ^ 31
    → i < 2 ^ 30
    → get_elem? xs i ≡ some x
    → length xs ≤ i + Buffer.size s.buffer
    → get_sent s (add_sequence s.initial_sequence_number i) ≡ found x
unfolding get_sent
get_sent_lem s xs i x v small near h window =
    let initial = s.initial_sequence_number in
    let after : is_lt (cmp_sequence (add_sequence initial i) initial) ≡ false =
      elim (ℕ_discrete i 0) [
        | yes none_sent ↦
            let start : add_sequence initial i ≡ initial =
              omega (arith, add-eq-mod 31 initial i (omega arith), none_sent) in
            ap is_lt ((cmp-eq_iff 31 (add_sequence initial i) initial).1 start)
        | no some_sent ↦
            ap is_lt
              (cmp-add 31 initial i (omega arith) (omega arith) small (omega arith) (omega arith)).1
      ] in
    rw (after, sub-add 31 initial i (omega arith) small (omega arith))
      (get_stored s.buffer xs v.held i x h (omega (arith, v.held.counted)))

-- A lookup reads the buffer and the first sequence number only.
pub get_sent_same :
    (s s' : SrtStream) (seq : ℕ)
    → s'.initial_sequence_number ≡ s.initial_sequence_number
    → s'.buffer ≡ s.buffer
    → get_sent s' seq ≡ get_sent s seq
unfolding get_sent
get_sent_same s s' seq e f =
    ap₂
      (λ (first : ℕ) (b : Buffer Sent).
        if is_lt (cmp_sequence seq first) then absent else Buffer.get b (sub_sequence seq first))
      e f

-- The packets of a run of polls, after `k` packets: each payload in order, with the time since the
-- start, and message numbers that count from 1 on modulo 2 ^ 26.
unfoldable pub expected : ℕ → ℕ → List (ℕ × List ℕ) → List Sent
expected start k [] = []
expected start k ((now, payload) ∷ items) =
    record {
      payload = payload;
      timestamp = from_start start now;
      message_number = (1 + k) % 2 ^ 26;
    }
    ∷ expected start (k + 1) items

send_all-Tracks :
    (items : List (ℕ × List ℕ)) (s : SrtStream) (xs : List Sent)
    → Tracks s xs
    → (s' : SrtStream) × (send_all items s ≡ ok (s', expected s.start_time (length xs) items))
      × Tracks s' (xs ++ expected s.start_time (length xs) items)
      × (s'.initial_sequence_number ≡ s.initial_sequence_number)
      × (Buffer.size s'.buffer ≡ Buffer.size s.buffer)
unfolding send_all expected
send_all-Tracks [] s xs v = (s, refl, rw append-nil v, refl, refl)
send_all-Tracks ((now, payload) ∷ items) s xs v =
    let (s', x, e, w, sent, initial, start, size) = next_item-Tracks now payload s xs v in
    let (s2, f, w2, initial2, size2) = send_all-Tracks items s' (xs ++ (x ∷ [])) w in
    let rest = expected s.start_time (length xs + 1) items in
    let count : length (xs ++ (x ∷ [])) ≡ length xs + 1 = length-append xs (x ∷ []) in
    let same : expected s'.start_time (length (xs ++ (x ∷ []))) items ≡ rest =
      ap₂ (λ (t k : ℕ). expected t k items) start count in
    (
      s2,
      rw (e, send_all, f, same, sent),
      rw (same, append_assoc, sent) at w2,
      initial2 ∙ initial,
      size2 ∙ size,
    )

pub length-expected :
    (start k : ℕ) (items : List (ℕ × List ℕ)) → length (expected start k items) ≡ length items
unfolding expected
length-expected start k [] = refl
length-expected start k (item ∷ items) = ap suc (length-expected start (k + 1) items)

-- A new stream with a buffer of `n` slots, `n` not 0, and an initial sequence number of 31 bits,
-- polled for any payloads: no poll panics; the packets sent are the payloads in order, stamped with
-- the time since the start and numbered from 1 on; and then the sequence number of each of the last
-- `n` packets, within half the sequence range from the first, looks up that very packet.
pub get_sent-send_all :
    (n initial start i : ℕ) (items : List (ℕ × List ℕ)) (x : Sent)
    → 0 < n
    → initial < 2 ^ 31
    → get_elem? (expected start 0 items) i ≡ some x
    → length items ≤ i + n
    → i < 2 ^ 30
    → (s : SrtStream) × (send_all items (new_stream n initial start)
        ≡ ok (s, expected start 0 items))
      × (get_sent s (add_sequence initial i) ≡ found x)
unfolding new_stream
get_sent-send_all n initial start i items x pos small h window near =
    let first = new_stream n initial start in
    let (s, e, w, same, size) =
      send_all-Tracks items first [] (new_stream-Tracks n initial start pos) in
    let slots : Buffer.size s.buffer ≡ n = size ∙ size-new Sent n in
    (
      s,
      e,
      ap (λ (k : ℕ). get_sent s (add_sequence k i)) (sym same)
          ∙ get_sent_lem s (expected start 0 items) i x w (rw same small) near h
              (omega (arith, slots, window, length-expected start 0 items)),
    )
