-- ===== src/Server/Stored.antt =====
-- The futures that connections store over their own sinks.
use mathlib.Core.Option.{none-ne-some, some-injective}
use mathlib.Core.Path.{subst}
use streamsync.Base.{
  ℕ, ◌≡◌, Bool, if_both, not, inl, inr, Bool-cases, some, List, [], ◌∷◌, ◌++◌, ◌==◌,
}
use streamsync.Conn.Handshake.{Peer}
use streamsync.Conn.LossList.{BinarySearch}
use streamsync.Conn.Modes.{Fits}
use streamsync.Conn.Modes.Dispatch.{Advances}
use streamsync.Conn.Modes.Polls.{after, poll-Advances}
use streamsync.Conn.Polls.{SinkFutures}
use streamsync.Conn.Rtt.{Float}
use streamsync.Conn.Shared.{Config, SessionManager, ServerMetrics}
use streamsync.Handshake.{Handshake}
use streamsync.Proto.Error.{Result, ok, err, panicked, OnOk, on_bind, any_result}
use streamsync.Sequence.{new_sequence}
use streamsync.Server.{
  Server, Task, find_task, remove_task, set_task, handshake_induction, induct, new_connection,
  induction_id, random_cookie, spawn_made, induction_response,
}
use streamsync.Server.Gauges.{Reachable, empty, after_induction, after_poll, after_drop}
use streamsync.Sink
use streamsync.Sink.Heap.{BinaryHeap}
use streamsync.Sink.Queue.{Segment}
use streamsync.Types.Encryption.{no_encryption}
use streamsync.Types.Flags.{induction_field}

-- A future over a sink is stored by connections in publish mode alone.
abbrev pub AllFit : {H K : Type 0} → List (Task H K) → Type 0
AllFit [] = Unit {0}
AllFit (t ∷ ts) = Fits t.connection.poll_state t.connection.mode × AllFit ts

find_task-AllFit :
    {H K : Type 0} (channel : ℕ) (t : Task H K) (ts : List (Task H K))
    → find_task channel ts ≡ some t
    → AllFit ts
    → Fits t.connection.poll_state t.connection.mode
find_task-AllFit channel t [] e v = absurd (none-ne-some t e)
find_task-AllFit channel t (u ∷ ts) e v = elim (Bool-cases (u.channel == channel)) [
  | inl same ↦
      let found : u ≡ t = some-injective u t (rw same at e) in
      subst (λ (x : Task _ _). Fits x.connection.poll_state x.connection.mode) found v.0
  | inr other ↦ find_task-AllFit channel t ts (rw other at e) v.1
]

remove_task-AllFit :
    {H K : Type 0} (channel : ℕ) (ts : List (Task H K))
    → AllFit ts
    → AllFit (remove_task channel ts)
remove_task-AllFit channel [] v = tt
remove_task-AllFit channel (u ∷ ts) v =
    if_both AllFit (u.channel == channel) _ _ v.1 (v.0, remove_task-AllFit channel ts v.1)

set_task-AllFit :
    {H K : Type 0} (channel : ℕ) (c : Peer H K) (ts : List (Task H K))
    → Fits c.poll_state c.mode
    → AllFit ts
    → AllFit (set_task channel c ts)
set_task-AllFit channel c [] h v = tt
set_task-AllFit channel c (u ∷ ts) h v =
    if_both AllFit (u.channel == channel) _ _ (h, v.1) (v.0, set_task-AllFit channel c ts h v.1)

-- Every task of the server is so.
abbrev pub IsStored : {H K M : Type 0} → Server H K M → Type 0
IsStored s = AllFit s.tasks

module _ {H K M : Type 0} (config : Config) where
  induction-IsStored :
      (now random addr peer_address : ℕ) (p : Handshake) (s : Server H K M)
      → IsStored s
      → IsStored (handshake_induction config now random addr peer_address p s).1
  unfolding handshake_induction induct new_connection
  induction-IsStored now random addr peer_address p s v =
      let P : Result {0} Unit × Server H K M → Type 0 = λ r. IsStored r.1 in
      let Q : Peer H K → Type 0 = λ c. Fits c.poll_state c.mode in
      if_both P (not (p.version == 4)) _ _ v (
        if_both P (not (p.encryption_field == no_encryption)) _ _ v (
          if_both P (not (p.extension_field == induction_field)) _ _ v (
            if_both P (not (p.syn_cookie == 0)) _ _ v (
              made
                (new_connection (induction_id addr p) now p.initial_packet_sequence_number
                  (random_cookie random) s.shared.metrics)
                (on_bind (λ _. Unit {0}) Q (new_sequence p.initial_packet_sequence_number) _
                  (any_result _) (λ _ _. tt))))))
    where
      made :
          (r : Result (Peer H K) × ServerMetrics)
          → OnOk (λ (c : Peer H K). Fits c.poll_state c.mode) r.0
          → IsStored
              (spawn_made
                (induction_id addr p)
                (record s {
                  outgoing =
                      s.outgoing
                      ++ ((addr, induction_response config peer_address (random_cookie random) p)
                          ∷ []);
                })
                r).1
      made (ok c, m) h = (h, v)
      made (err _, m) h = v
      made (panicked, m) h = v

module _ {H K M E : Type 0} (b : BinaryHeap Segment H) (manager : SessionManager M K)
    (config : Config) (bs : BinarySearch) (f : Float) (valid_utf8 : List ℕ → Bool)
    (futures : SinkFutures (Sink.OutputSink H K) E) (depth : ℕ) where
  -- The future that a connection stores to feed or to close a sink borrows the sink inside its own
  -- mode, for a lifetime that the compiler does not check. After any sequence of INDUCTIONs, polls of
  -- connections and drops of connections, whatever the rounds of the polls find, every connection
  -- that stores such a future is in publish mode, so that the sink is there.
  pub Reachable-IsStored :
      (n : ℕ) (s : Server H K M)
      → Reachable b manager config bs f valid_utf8 futures depth n s
      → IsStored s
  Reachable-IsStored _ _ (empty m n) = tt
  Reachable-IsStored _ _ (after_induction {s} n now random addr peer_address p r) =
      induction-IsStored config now random addr peer_address p s (Reachable-IsStored n s r)
  Reachable-IsStored _ _ (after_poll {s} n peer_address channel turns t q r found e) =
      let v = Reachable-IsStored n s r in
      let advances : Advances t.connection s.shared (after q) =
        subst (OnOk (λ r'. Advances t.connection s.shared (after r'))) e (
          poll-Advances b manager config peer_address bs f valid_utf8 futures depth turns
            t.connection s.shared) in
      set_task-AllFit channel (after q).0 s.tasks
        (advances.stored (find_task-AllFit channel t s.tasks found v)) v
  Reachable-IsStored _ _ (after_drop {s} n t r found) =
      remove_task-AllFit t.channel s.tasks (Reachable-IsStored n s r)
