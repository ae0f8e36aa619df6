-- ===== src/Conn/Modes/Data.antt =====
-- The receiving and the sending side keep the kind of the mode and the fit of the stored future.
use streamsync.Base.{
  ℕ, ◌≡◌, ◌∙◌, refl, sym, ap, if_both, ◌&&◌, not, Bool, ◌-◌, List, [], ◌∷◌, Option-cases, inl, inr,
}
use streamsync.Buffer.{Access, absent, found, undefined}
use streamsync.Conn.LossList.{BinarySearch, extend_range, remove}
use streamsync.Conn.Modes.{
  Kind, handshaking, publishing, requesting, Keeps-same, of_kind, Keeps, Keeps-trans, Keeps-refl,
  timestamp-mode,
}
use streamsync.Conn.Modes.Handlers.{on_mode}
use streamsync.Conn.Receive.{
  after_remove, push_nak, record_gap, receive, accept, handle_published, handle_data,
}
use streamsync.Conn.Rtt.{is_reachable}
use streamsync.Conn.State.{OutputSink, Connection, request, timestamp}
use streamsync.Conn.Transmit.{send_next, send_stream, answer_nak, answer_naks, handle_nak}
use streamsync.Control.Casts.{Nak}
use streamsync.Control.Numbers.{SequenceNumbers, items, from_range}
use streamsync.Packet.{DataPacket, packet_sequence_number}
use streamsync.Proto.Error.{Result, OnOk, any_result, on_weaken, on_bind}
use streamsync.Sequence.{new_sequence, cmp_sequence, is_lt, is_gt}
use streamsync.Stream.{SrtStream, get_sent, next_item}

-- What holds of each outcome of an access.
on_access :
    {A C : Type 0} (P : C → Type 0) (a : Access A) (x : A → C) (y z : C)
    → ((v : A) → P (x v))
    → P y
    → P z
    → P (elim a [ found v ↦ x v | absent ↦ y | undefined ↦ z ])
on_access P (found v) x y z p q r = p v
on_access P absent x y z p q r = q
on_access P undefined x y z p q r = r

-- What a step keeps after another.
after-Keeps :
    {S : Type 0} (c d : Connection S) (m : Result (Connection S))
    → Keeps c d
    → OnOk (Keeps d) m
    → OnOk (Keeps c) m
after-Keeps c d m h = on_weaken (Keeps d) (Keeps c) m (λ e k. Keeps-trans h k)

module _ {S : Type 0} where
  push_nak-mode :
      (depth ts first end : ℕ) (c : Connection S) → OnOk (Keeps c) (push_nak depth ts first end c)
  unfolding push_nak
  push_nak-mode depth ts first end c = elim (Option-cases (from_range depth first end)) [
    | inl deep ↦ rw (deep, OnOk) tt
    | inr (numbers, e) ↦ rw (e, OnOk) (record { kind = λ k. refl; stored = λ v. v })
  ]

  record_gap-mode :
      (depth now ts seqnum : ℕ) (c : Connection S)
      → OnOk (Keeps c) (record_gap depth now ts seqnum c)
  unfolding record_gap
  record_gap-mode depth now ts seqnum c =
      let first = c.client_sequence_number in
      let recorded = record c { loss_list = extend_range (seqnum - first) first now c.loss_list } in
      let kept : Keeps c recorded = record { kind = λ k. refl; stored = λ v. v } in
      if_both (OnOk (Keeps c)) (is_reachable c.latency c.rtt) _ _
        (after-Keeps c recorded _ kept (push_nak-mode depth ts first seqnum recorded)) kept

  accept-mode :
      (again : Bool) (seqnum : ℕ) (p : DataPacket) (c : Connection S)
      → of_kind publishing c.mode ≡ 1
      → Keeps c (accept again seqnum p c)
  unfolding accept
  accept-mode again seqnum p c e = record { kind = λ k. refl; stored = λ _. e }

  receive-mode :
      (depth now ts : ℕ) (again : Bool) (seqnum : ℕ) (p : DataPacket) (c : Connection S)
      → of_kind publishing c.mode ≡ 1
      → OnOk (Keeps c) (receive depth now ts again seqnum p c)
  unfolding receive
  receive-mode depth now ts again seqnum p c e =
      let order = cmp_sequence seqnum c.client_sequence_number in
      if_both (OnOk (Keeps c)) (not again && is_lt order) _ _
        (record { kind = λ k. refl; stored = λ v. v })
        (if_both (OnOk (Keeps c)) (not again && is_gt order) _ _
          (on_bind (Keeps c) (Keeps c) (record_gap depth now ts seqnum c) _
            (record_gap-mode depth now ts seqnum c)
            (λ d h. Keeps-trans h (accept-mode again seqnum p d (h.kind publishing ∙ e))))
          (accept-mode again seqnum p c e))

  pub handle_published-mode :
      (bs : BinarySearch) (depth now ts : ℕ) (p : DataPacket) (c : Connection S)
      → of_kind publishing c.mode ≡ 1
      → OnOk (Keeps c) (handle_published bs depth now ts p c)
  unfolding handle_published
  handle_published-mode bs depth now ts p c e =
      on_bind (λ _. Unit {0}) (Keeps c) (new_sequence (packet_sequence_number p.header)) _
        (any_result _)
        (λ seqnum _.
          let (lost, again) = after_remove c.loss_list (remove bs seqnum c.loss_list) in
          let d = record c { loss_list = lost } in
          after-Keeps c d _ (record { kind = λ k. refl; stored = λ v. v })
            (receive-mode depth now ts again seqnum p d e))

module _ {S : Type 0} (o : OutputSink S) (now : ℕ) where
  pub handle_data-mode :
      (bs : BinarySearch) (depth : ℕ) (p : DataPacket) (c : Connection S)
      → OnOk (Keeps c) (handle_data o bs depth now p c)
  unfolding handle_data
  handle_data-mode bs depth p c =
      let (ts, c') = timestamp o now c in
      let kept = timestamp-mode o now c in
      after-Keeps c c' _ kept (
        on_mode (OnOk (Keeps c')) c'.mode _ _ _ (λ _ _. Keeps-refl c')
          (λ sink e. handle_published-mode bs depth now ts p c' (ap (of_kind publishing) e))
          (λ _ _. Keeps-refl c'))

request-kind :
    (S : Type 0) (k : Kind) (s s' : SrtStream)
    → of_kind {S = S} k (request s') ≡ of_kind {S = S} k (request s)
request-kind S handshaking s s' = refl
request-kind S publishing s s' = refl
request-kind S requesting s s' = refl

-- The sending side pushes into the queue, and replaces the stream by a stream.
module _ {S : Type 0} where
  answer_nak-mode :
      (ts : ℕ) (numbers : SequenceNumbers) (stream : SrtStream) (seq : ℕ) (c : Connection S)
      → OnOk (Keeps c) (answer_nak ts numbers stream seq c)
  unfolding answer_nak
  answer_nak-mode ts numbers stream seq c =
      on_access (OnOk (Keeps c)) (get_sent stream seq) _ _ _
        (λ _. record { kind = λ k. refl; stored = λ v. v })
        (record { kind = λ k. refl; stored = λ v. v }) tt

  answer_naks-mode :
      (ts : ℕ) (numbers : SequenceNumbers) (stream : SrtStream) (seqs : List ℕ) (c : Connection S)
      → OnOk (Keeps c) (answer_naks ts numbers stream seqs c)
  unfolding answer_naks
  answer_naks-mode ts numbers stream [] c = Keeps-refl c
  answer_naks-mode ts numbers stream (seq ∷ rest) c =
      on_bind (Keeps c) (Keeps c) (answer_nak ts numbers stream seq c) _
        (answer_nak-mode ts numbers stream seq c)
        (λ d h. after-Keeps c d _ h (answer_naks-mode ts numbers stream rest d))

  -- The stream of the connection is `stream'`, after a step that keeps what it must.
  abbrev Streams : Connection S → SrtStream × Connection S → Type 0
  Streams c (stream, c') = Keeps c c' × (c'.mode ≡ request stream)

  send_next-mode :
      (now : ℕ) (payload : List ℕ) (stream : SrtStream) (c : Connection S)
      → c.mode ≡ request stream
      → OnOk (Streams c) (send_next now payload stream c)
  unfolding send_next
  send_next-mode now payload stream c e =
      on_bind (λ _. Unit {0}) (Streams c) (next_item now payload stream) _ (any_result _)
        (λ n _. (
          Keeps-same c _ refl (λ k. request-kind S k stream n.stream ∙ ap (of_kind k) (sym e)),
          refl,
        ))

  -- `send_stream` of the stream of a connection in request mode.
  pub send_stream-mode :
      (payloads : List (ℕ × List ℕ)) (stream : SrtStream) (c : Connection S)
      → c.mode ≡ request stream
      → OnOk (Keeps c) (send_stream payloads stream c)
  unfolding send_stream
  send_stream-mode [] stream c e = Keeps-refl c
  send_stream-mode ((now, payload) ∷ rest) stream c e =
      on_bind (Streams c) (Keeps c) (send_next now payload stream c) _
        (send_next-mode now payload stream c e)
        (λ r h. after-Keeps c r.1 _ h.0 (send_stream-mode rest r.0 r.1 h.1))

module _ {S : Type 0} (o : OutputSink S) (now : ℕ) where
  pub handle_nak-mode : (p : Nak) (c : Connection S) → OnOk (Keeps c) (handle_nak o now p c)
  unfolding handle_nak
  handle_nak-mode p c =
      let (ts, c') = timestamp o now c in
      let numbers = p.lost_packet_sequence_numbers in
      after-Keeps c c' _ (timestamp-mode o now c) (
        on_mode (OnOk (Keeps c')) c'.mode _ _ _ (λ _ _. Keeps-refl c') (λ _ _. Keeps-refl c')
          (λ stream _. answer_naks-mode ts numbers stream (items numbers) c'))
