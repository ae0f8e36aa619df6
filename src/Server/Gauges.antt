-- ===== src/Server/Gauges.antt =====
-- The gauges of the server count its connections.
use mathlib.Core.Option.{none-ne-some, some-injective}
use streamsync.Base.{
  Bool, if_both, not, ℕ, ◌+◌, ◌%◌, ◌^◌, ◌-◌, leb, ◌++◌, ◌≡◌, ◌∙◌, refl, ap, arith, inl, inr,
  Bool-cases, some, List, [], ◌∷◌, ◌==◌,
}
use streamsync.Conn.Dispatch.{Served}
use streamsync.Conn.LossList.{BinarySearch}
use streamsync.Conn.Modes.Dispatch.{Advances}
use streamsync.Conn.Modes.Polls.{after, poll-Advances}
use streamsync.Conn.Polls.{SinkFutures, Turn, Polled, poll}
use streamsync.Conn.Rtt.{Float}
use streamsync.Conn.Handshake.{Peer}
use streamsync.Conn.Modes.{Kind, handshaking, publishing, requesting, gauge, of_kind}
use streamsync.Conn.Shared.{Config, SessionManager, ServerMetrics}
use streamsync.Conn.State.{ConnectionMode, induction, publish, request}
use streamsync.Handshake.{Handshake}
use streamsync.Metrics.{fetch_add, fetch_sub}
use streamsync.Proto.Error.{OnOk, Result, ok, panicked, ◌>>=◌}
use streamsync.Sequence.{new_sequence}
use streamsync.Types.Encryption.{no_encryption}
use streamsync.Types.Flags.{induction_field}
use streamsync.Server.{
  induct, new_connection, fresh_connection, random_cookie, Server, Task, handshake_induction,
  drop_task, spawn_made, induction_response, find_task, remove_task, set_task, count_drop,
  count_new, induction_id,
}
use mathlib.Core.Path.{subst}
use streamsync.Sink
use streamsync.Sink.Heap.{BinaryHeap}
use streamsync.Sink.Queue.{Segment}

-- How many tasks have a connection of the kind.
abbrev pub count : {H K : Type 0} → Kind → List (Task H K) → ℕ
count k [] = 0
count k (t ∷ ts) = of_kind k t.connection.mode + count k ts

remove_task-count :
    {H K : Type 0} (k : Kind) (channel : ℕ) (t : Task H K) (ts : List (Task H K))
    → find_task channel ts ≡ some t
    → count k ts ≡ of_kind k t.connection.mode + count k (remove_task channel ts)
remove_task-count k channel t [] e = absurd (none-ne-some t e)
remove_task-count k channel t (u ∷ ts) e = elim (Bool-cases (u.channel == channel)) [
  | inl same ↦
      let found : u ≡ t = some-injective u t (rw same at e) in
      rw same (ap (λ (v : Task _ _). of_kind k v.connection.mode + count k ts) found)
  | inr other ↦ rw other (omega (arith, remove_task-count k channel t ts (rw other at e)))
]

set_task-count :
    {H K : Type 0} (k : Kind) (channel : ℕ) (t : Task H K) (c : Peer H K) (ts : List (Task H K))
    → find_task channel ts ≡ some t
    → count k (set_task channel c ts) + of_kind k t.connection.mode ≡ count k ts + of_kind k c.mode
set_task-count k channel t c [] e = absurd (none-ne-some t e)
set_task-count k channel t c (u ∷ ts) e = elim (Bool-cases (u.channel == channel)) [
  | inl same ↦
      let found : u ≡ t = some-injective u t (rw same at e) in
      rw same (omega (arith, ap (λ (v : Task _ _). of_kind k v.connection.mode) found))
  | inr other ↦ rw other (omega (arith, set_task-count k channel t c ts (rw other at e)))
]

abbrev pub no_metrics : ServerMetrics
no_metrics = record {
  connections_total = 0;
  connections_publish_current = 0;
  connections_request_current = 0;
  connections_handshake_current = 0;
}

-- What a poll leaves of the connection on `channel`, and of what is shared.
abbrev pub polled : {H K M : Type 0} → ℕ → Polled (Served H K M) → Server H K M → Server H K M
polled channel r s =
    let (c, w) = after r in record s { tasks = set_task channel c s.tasks; shared = w }

-- The connections that a gauge counts but that a panic left unmade.
abbrev pub leaked : Kind → ℕ → ℕ
leaked handshaking n = n
leaked publishing n = 0
leaked requesting n = 0

-- The panics so far, after an INDUCTION.
abbrev pub panics : Result {0} Unit → ℕ → ℕ
panics panicked n = 1 + n
panics _ n = n

-- Every gauge counts, on words of 64 bits, the tasks of its kind, that of the handshakes the panics
-- too.
abbrev pub IsCounted : {H K M : Type 0} → ℕ → Server H K M → Type 0
IsCounted panics s =
    (k : Kind) → gauge k s.shared.metrics ≡ (count k s.tasks + leaked k panics) % 2 ^ 64

new_gauge :
    (S : Type 0) (k : Kind) (m : ServerMetrics) (cookie n : ℕ)
    → gauge k m ≡ n % 2 ^ 64
    → gauge k (count_new m) ≡ (of_kind {S = S} k (induction cookie) + n) % 2 ^ 64
unfolding fetch_add
new_gauge S handshaking m cookie n h = omega arith
new_gauge S publishing m cookie n h = omega arith
new_gauge S requesting m cookie n h = omega arith

count_new-leaked :
    (k : Kind) (m : ServerMetrics) (n tasks : ℕ)
    → gauge k m ≡ (tasks + leaked k n) % 2 ^ 64
    → gauge k (count_new m) ≡ (tasks + leaked k (1 + n)) % 2 ^ 64
unfolding fetch_add
count_new-leaked handshaking m n tasks h = omega arith
count_new-leaked publishing m n tasks h = h
count_new-leaked requesting m n tasks h = h

drop_gauge :
    {S : Type 0} (k : Kind) (m : ServerMetrics) (mode : ConnectionMode S) (n : ℕ)
    → gauge k m ≡ (of_kind k mode + n) % 2 ^ 64
    → gauge k (count_drop mode m) ≡ n % 2 ^ 64
unfolding fetch_sub
drop_gauge handshaking m (induction _) n h = omega arith
drop_gauge handshaking m (publish _) n h = omega arith
drop_gauge handshaking m (request _) n h = omega arith
drop_gauge publishing m (induction _) n h = omega arith
drop_gauge publishing m (publish _) n h = omega arith
drop_gauge publishing m (request _) n h = omega arith
drop_gauge requesting m (induction _) n h = omega arith
drop_gauge requesting m (publish _) n h = omega arith
drop_gauge requesting m (request _) n h = omega arith

module _ {H K M : Type 0} (b : BinaryHeap Segment H) (manager : SessionManager M K)
    (config : Config) where
  After : ℕ → Result {0} Unit × Server H K M → Type 0
  After n r = IsCounted (panics r.0 n) r.1

  induction-IsCounted :
      (now random addr peer_address n : ℕ) (p : Handshake) (s : Server H K M)
      → IsCounted n s
      → After n (handshake_induction config now random addr peer_address p s)
  unfolding handshake_induction induct new_connection new_sequence After
  induction-IsCounted now random addr peer_address n p s v =
      let P : Result {0} Unit × Server H K M → Type 0 = After n in
      if_both P (not (p.version == 4)) _ _ v (
        if_both P (not (p.encryption_field == no_encryption)) _ _ v (
          if_both P (not (p.extension_field == induction_field)) _ _ v
            (if_both P (not (p.syn_cookie == 0)) _ _ v made)))
    where
      replied : Server H K M
      replied = record s {
        outgoing =
            s.outgoing
            ++ ((addr, induction_response config peer_address (random_cookie random) p) ∷ []);
      }

      Made : Result ℕ → Type 0
      Made r = After n (
          spawn_made (induction_id addr p) replied (
            r >>= λ seq. ok (fresh_connection (induction_id addr p) now seq (random_cookie random)),
            count_new s.shared.metrics,
          ))

      made : Made (new_sequence p.initial_packet_sequence_number)
      made =
          if_both Made (leb p.initial_packet_sequence_number (2 ^ 31 - 1)) _ _
            (λ k.
              let regroup : (of_kind {S = Sink.OutputSink H K} k (induction (random_cookie random))
                      + (count k s.tasks + leaked k n))
                    % 2 ^ 64
                  ≡ (of_kind {S = Sink.OutputSink H K} k (induction (random_cookie random))
                      + count k s.tasks
                      + leaked k n)
                    % 2 ^ 64 =
                omega arith in
              new_gauge (Sink.OutputSink H K) k s.shared.metrics (random_cookie random)
                (count k s.tasks + leaked k n) (v k)
              ∙ regroup)
            (λ k. count_new-leaked k s.shared.metrics n (count k s.tasks) (v k))

  module _ {E : Type 0} (bs : BinarySearch) (f : Float) (valid_utf8 : List ℕ → Bool)
      (futures : SinkFutures (Sink.OutputSink H K) E) (depth : ℕ) where
    -- The servers after any sequence of INDUCTIONs, polls of connections, and drops of connections.
    -- Each poll runs any number of rounds. A poll that panics is one of the rounds before, and the drop
    -- of its connection: no round changes the shared state before it panics.
    pub data Reachable : ℕ → Server H K M → Type 0 where
      empty :
          (m : M) (n : ℕ)
          → Reachable 0 (record {
            pool = [];
            shared = record { session_manager = m; metrics = no_metrics };
            tasks = [];
            next_channel = n;
            outgoing = [];
          })
      after_induction :
          {s : Server H K M} (n now random addr peer_address : ℕ) (p : Handshake)
          → Reachable n s
          → Reachable
              (panics (handshake_induction config now random addr peer_address p s).0 n)
              (handshake_induction config now random addr peer_address p s).1
      after_poll :
          {s : Server H K M} (n peer_address channel : ℕ) (turns : List Turn) (t : Task H K)
          (r : Polled (Served H K M))
          → Reachable n s
          → find_task channel s.tasks ≡ some t
          → poll b manager config peer_address bs f valid_utf8 futures depth turns t.connection
              s.shared
            ≡ ok r
          → Reachable n (polled channel r s)
      after_drop :
          {s : Server H K M} (n : ℕ) (t : Task H K)
          → Reachable n s
          → find_task t.channel s.tasks ≡ some t
          → Reachable n (drop_task t s)

    -- A server starts without connections; INDUCTIONs, polls of its connections that return, and drops
    -- of connections follow in any order, where a poll runs any number of rounds of its loop on
    -- whatever packets, timers, payloads and socket give, handshakes included. Each INDUCTION with
    -- the fields it must have but a sequence number of more than 31 bits panics after the gauge of the
    -- handshakes is raised, and makes no connection. Then each of the three gauges is the number of
    -- the live connections in its mode, to which that of the handshakes adds the number of these
    -- panics, modulo 2^64, also after a session is refused and after a connection is dropped in any
    -- mode.
    pub Reachable-IsCounted : (n : ℕ) (s : Server H K M) → Reachable n s → IsCounted n s
    unfolding After
    Reachable-IsCounted _ _ (empty m n) handshaking = refl
    Reachable-IsCounted _ _ (empty m n) publishing = refl
    Reachable-IsCounted _ _ (empty m n) requesting = refl
    Reachable-IsCounted _ _ (after_induction {s} n now random addr peer_address p r) k =
        induction-IsCounted now random addr peer_address n p s (Reachable-IsCounted n s r) k
    Reachable-IsCounted _ _ (after_poll {s} n peer_address channel turns t q r found e) k =
        let v = Reachable-IsCounted n s r k in
        let advances : Advances t.connection s.shared (after q) =
          subst (OnOk (λ r'. Advances t.connection s.shared (after r'))) e (
            poll-Advances b manager config peer_address bs f valid_utf8 futures depth turns
              t.connection s.shared) in
        let (bound, moved) = advances.moves k (omega (arith, v)) in
        omega (arith, v, bound, moved, set_task-count k channel t (after q).0 s.tasks found)
    Reachable-IsCounted _ _ (after_drop {s} n t r found) k =
        drop_gauge k s.shared.metrics t.connection.mode
          (count k (remove_task t.channel s.tasks) + leaked k n)
          (omega
            (arith, Reachable-IsCounted n s r k, remove_task-count k t.channel t s.tasks found))
