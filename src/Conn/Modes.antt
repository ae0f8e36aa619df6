-- ===== src/Conn/Modes.antt =====
-- What the handlers of a connection keep: the kind of its mode, and that a stored future borrows a
-- sink in publish mode alone.
pub mod Handlers
pub mod Data
pub mod Dispatch
pub mod Reads
pub mod Polls
use mathlib.Core.Path.{subst}
use streamsync.Base.{ℕ, ◌≡◌, ◌∙◌, refl, sym, true, ◌&&◌, not, if_both, if◌then◌else◌}
use streamsync.Conn.Shared.{ServerMetrics}
use streamsync.Conn.State.{
  OutputSink, Connection, ConnectionMode, induction, publish, request, PollState, read, write,
  write_sink, close_sink, closed, send, send_prio, close, timestamp, leave_wrapping,
  update_mode_start, closing,
}
use streamsync.Control.Casts.{upcast_shutdown, build_shutdown}
use streamsync.Packet.{Packet}
use streamsync.Timestamp.{from_start, is_wrapping}

pub data Kind : Type 0 where
  handshaking publishing requesting : Kind

abbrev pub gauge : Kind → ServerMetrics → ℕ
gauge handshaking m = m.connections_handshake_current
gauge publishing m = m.connections_publish_current
gauge requesting m = m.connections_request_current

-- 1 for a mode of the kind, and 0 for others.
abbrev pub of_kind : {S : Type 0} → Kind → ConnectionMode S → ℕ
of_kind handshaking (induction _) = 1
of_kind publishing (publish _) = 1
of_kind requesting (request _) = 1
of_kind _ _ = 0

module _ {S : Type 0} (o : OutputSink S) (now : ℕ) where
  update_mode_start-kind :
      (k : Kind) (mode : ConnectionMode S)
      → of_kind k (update_mode_start o now mode) ≡ of_kind k mode
  update_mode_start-kind handshaking (induction _) = refl
  update_mode_start-kind handshaking (publish _) = refl
  update_mode_start-kind handshaking (request _) = refl
  update_mode_start-kind publishing (induction _) = refl
  update_mode_start-kind publishing (publish _) = refl
  update_mode_start-kind publishing (request _) = refl
  update_mode_start-kind requesting (induction _) = refl
  update_mode_start-kind requesting (publish _) = refl
  update_mode_start-kind requesting (request _) = refl

-- A future that borrows the sink is stored in publish mode alone.
abbrev pub Fits : {S : Type 0} → PollState → ConnectionMode S → Type 0
Fits (write_sink _) mode = of_kind publishing mode ≡ 1
Fits close_sink mode = of_kind publishing mode ≡ 1
Fits _ mode = Unit {0}

-- `c'` has a mode of the kind of `c`'s, and a future that fits it if `c` has.
pub record Keeps {S : Type 0} (c c' : Connection S) : Type 0 where
  pub kind : (k : Kind) → of_kind k c'.mode ≡ of_kind k c.mode
  pub stored : Fits c.poll_state c.mode → Fits c'.poll_state c'.mode

pub Keeps-trans : {S : Type 0} {c c' c'' : Connection S} → Keeps c c' → Keeps c' c'' → Keeps c c''
Keeps-trans h h' = record { kind = λ k. h'.kind k ∙ h.kind k; stored = λ v. h'.stored (h.stored v) }

Fits-kind :
    {S : Type 0} (ps : PollState) (m m' : ConnectionMode S)
    → of_kind publishing m' ≡ of_kind publishing m
    → Fits ps m
    → Fits ps m'
Fits-kind read m m' e v = tt
Fits-kind (write _) m m' e v = tt
Fits-kind (write_sink _) m m' e v = e ∙ v
Fits-kind close_sink m m' e v = e ∙ v
Fits-kind closed m m' e v = tt

-- The stored future is the same, and the kind of the mode.
pub Keeps-same :
    {S : Type 0} (c c' : Connection S)
    → c'.poll_state ≡ c.poll_state
    → ((k : Kind) → of_kind k c'.mode ≡ of_kind k c.mode)
    → Keeps c c'
Keeps-same c c' e h = record {
  kind = h;
  stored = λ v.
      subst (λ ps. Fits ps c'.mode) (sym e)
        (Fits-kind c.poll_state c.mode c'.mode (h publishing) v);
}

pub Keeps-refl : {S : Type 0} (c : Connection S) → Keeps c c
Keeps-refl c = record { kind = λ k. refl; stored = λ v. v }

module _ {S : Type 0} (o : OutputSink S) (now : ℕ) where
  pub timestamp-mode : (c : Connection S) → Keeps c (timestamp o now c).1
  unfolding timestamp leave_wrapping
  timestamp-mode c =
      let ts = from_start c.start_time now in
      let left =
        if c.timestamp_is_wrapping && not (is_wrapping ts) then leave_wrapping o now c else c in
      let on_left : Keeps c left =
        if_both (λ d. Keeps c d) (c.timestamp_is_wrapping && not (is_wrapping ts))
          (leave_wrapping o now c) c
          (Keeps-same c _ refl (λ k. update_mode_start-kind o now k c.mode)) (Keeps-refl c) in
      if_both (λ d. Keeps c d) (is_wrapping ts) (record left { timestamp_is_wrapping = true }) left
        (record { kind = on_left.kind; stored = on_left.stored }) on_left

  -- Sending keeps the kind of the mode.
  pub send-mode : (p : Packet) (c : Connection S) → Keeps c (send o now p c)
  unfolding send
  send-mode p c = let kept = timestamp-mode c in record { kind = kept.kind; stored = kept.stored }

  pub send-kind :
      (k : Kind) (p : Packet) (c : Connection S)
      → of_kind k (send o now p c).mode ≡ of_kind k c.mode
  send-kind k p c = (send-mode p c).kind k

  closing-Fits : (mode : ConnectionMode S) → Fits (closing o mode) mode
  closing-Fits (induction _) = tt
  closing-Fits (publish _) = refl
  closing-Fits (request _) = tt

  pub close-mode : (c : Connection S) → Keeps c (close o now c)
  unfolding close
  close-mode c =
      let c' = send o now (upcast_shutdown build_shutdown) c in
      record {
        kind = (send-mode (upcast_shutdown build_shutdown) c).kind;
        stored = λ _. closing-Fits c'.mode;
      }
