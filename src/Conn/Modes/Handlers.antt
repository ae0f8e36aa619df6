-- ===== src/Conn/Modes/Handlers.antt =====
-- Every handler but that of the handshake keeps the kind of the mode and the fit of the stored
-- future.
use streamsync.Control.Casts.{acknowledgement_number}
use streamsync.Conn.LossList.{BinarySearch, remove}
use streamsync.Conn.Rtt.{Float}
use streamsync.Base.{Option-cases, inl, inr, ℕ, ◌≡◌, refl, if_both, leb, ◌-◌}
use streamsync.Conn.Handlers.{
  handle_shutdown, handle_keepalive, handle_ack, handle_ackack, tick, tick_publish, timeout,
}
use streamsync.Conn.Modes.{Keeps, Keeps-refl, send-mode, close-mode}
use streamsync.Conn.State.{OutputSink, Connection, ConnectionMode, induction, publish, request}
use streamsync.Control.Casts.{Plain, Ack}
use streamsync.Stream.{SrtStream}

-- What holds of each arm of a `match` on the mode.
pub on_mode :
    {S C : Type 0} (P : C → Type 0) (m : ConnectionMode S) (x : ℕ → C) (y : S → C)
    (z : SrtStream → C)
    → ((n : ℕ) → m ≡ induction n → P (x n))
    → ((s : S) → m ≡ publish s → P (y s))
    → ((s : SrtStream) → m ≡ request s → P (z s))
    → P (elim m [ induction n ↦ x n | publish s ↦ y s | request s ↦ z s ])
on_mode P (induction n) x y z p q r = p n refl
on_mode P (publish s) x y z p q r = q s refl
on_mode P (request s) x y z p q r = r s refl

module _ {S : Type 0} (o : OutputSink S) (now : ℕ) where
  pub handle_keepalive-mode : (p : Plain) (c : Connection S) → Keeps c (handle_keepalive o now p c)
  unfolding handle_keepalive
  handle_keepalive-mode p c = send-mode o now _ c

  pub handle_shutdown-mode : (p : Plain) (c : Connection S) → Keeps c (handle_shutdown o now p c)
  unfolding handle_shutdown
  handle_shutdown-mode p c = close-mode o now c

  pub handle_ack-mode : (p : Ack) (c : Connection S) → Keeps c (handle_ack o now p c)
  unfolding handle_ack
  handle_ack-mode p c =
      on_mode (Keeps c) c.mode _ _ _ (λ _ _. Keeps-refl c) (λ _ _. Keeps-refl c)
        (λ _ _. let kept = send-mode o now _ _ in record { kind = kept.kind; stored = kept.stored })

  tick_publish-mode : (sink : S) (c : Connection S) → Keeps c (tick_publish o now sink c)
  unfolding tick_publish
  tick_publish-mode sink c =
      let kept = send-mode o now _ _ in record { kind = kept.kind; stored = kept.stored }

  pub tick-mode : (c : Connection S) → Keeps c (tick o now c)
  unfolding tick
  tick-mode c = if_both (Keeps c) c.shutdown _ _ (close-mode o now c) (
      if_both (Keeps c) (leb timeout (now - c.last_time)) _ _ (close-mode o now c) (
        on_mode (Keeps c) c.mode _ _ _ (λ _ _. Keeps-refl c) (λ sink _. tick_publish-mode sink c)
          (λ _ _. Keeps-refl c)))

module _ {S : Type 0} (bs : BinarySearch) (f : Float) where
  pub handle_ackack-mode :
      (now : ℕ) (p : Plain) (c : Connection S) → Keeps c (handle_ackack bs f now p c)
  unfolding handle_ackack
  handle_ackack-mode now p c =
      elim (Option-cases (remove bs (acknowledgement_number p) c.inflight_acks)) [
        | inl absent_ack ↦ rw (absent_ack, handle_ackack) (Keeps-refl c)
        | inr (x, found) ↦ rw (found, handle_ackack) (record { kind = λ k. refl; stored = λ v. v })
      ]
