-- ===== src/Server.antt =====
-- The server of stsync-proxy: `ConnectionPool` of srt/state.rs, the INDUCTION and the dispatch of
-- srt/handshake.rs, `handle_message` of srt/server.rs, `Connection::new` and the `Drop` of a
-- connection of srt/conn.rs.
pub mod Pool
pub mod Routing
pub mod Gauges
pub mod Stored
mod Tests
use streamsync.Base.{
  ℕ, suc, ◌+◌, ◌-◌, ◌/◌, Bool, true, false, not, Option, none, some, List, [], ◌∷◌, ◌++◌, ◌==◌,
  if◌then◌else◌,
}
use streamsync.Conn.Handshake.{Peer}
use streamsync.Conn.Metrics.{new_metrics}
use streamsync.Conn.Queue.{empty_queue}
use streamsync.Conn.Rtt.{new_rtt}
use streamsync.Conn.Shared.{Config, Shared, ServerMetrics}
use streamsync.Conn.State.{Connection, ConnectionMode, induction, publish, request, read}
use streamsync.Handshake.{Handshake, default_handshake, upcast_handshake, downcast_handshake}
use streamsync.Metrics.{fetch_add, fetch_sub}
use streamsync.Packet.{Packet}
use streamsync.Proto.Error.{Result, ok, err, panicked, ◌>>=◌}
use streamsync.Sequence.{new_sequence}
use streamsync.Server.Pool
use streamsync.Server.Pool.{ConnectionId, Handle, ConnectionPool}
use streamsync.Types.Encryption.{no_encryption}
use streamsync.Types.Flags.{induction_field, srt_magic}
use streamsync.Types.HandshakeType

-- A connection that was spawned and not dropped: its channel and its id.
pub record Task (H K : Type 0) : Type 0 where
  pub channel : ℕ
  pub id : ConnectionId
  pub connection : Peer H K

-- `State`, with the tasks and what was sent to the socket. A channel is known by a number.
pub record Server (H K M : Type 0) : Type 0 where
  pub pool : ConnectionPool
  pub shared : Shared M
  pub tasks : List (Task H K)
  pub next_channel : ℕ
  pub outgoing : List (ℕ × Handshake)

-- The channel that a packet is put into, if any.
pub data Delivery : Type 0 where
  dropped : Delivery
  delivered : ℕ → Packet → Delivery

abbrev pub deliver_to : Option Handle → Packet → Delivery
deliver_to none p = dropped
deliver_to (some handle) p = delivered handle.channel p

-- The connection that `Connection::new` makes.
abbrev pub fresh_connection : {H K : Type 0} → ConnectionId → ℕ → ℕ → ℕ → Peer H K
fresh_connection id now seq syn_cookie = record {
  client_socket_id = id.client_socket_id;
  server_socket_id = id.server_socket_id;
  start_time = now;
  timestamp_is_wrapping = false;
  server_sequence_number = seq;
  client_sequence_number = seq;
  mode = induction syn_cookie;
  inflight_acks = [];
  loss_list = [];
  rtt = new_rtt;
  last_time = now;
  poll_state = read;
  mtu = 1_500;
  queue = empty_queue;
  latency = 0;
  shutdown = false;
  metrics = new_metrics;
}

-- `state.random()` of the number that the generator gives.
abbrev pub random_cookie : ℕ → ℕ
random_cookie n = n / 2

abbrev pub count_new : ServerMetrics → ServerMetrics
count_new m = record m {
  connections_total = fetch_add 1 m.connections_total;
  connections_handshake_current = fetch_add 1 m.connections_handshake_current;
}

-- `Connection::new`: the gauges are raised first, also when the assertion of `Sequence::new` panics.
unfoldable pub new_connection :
    {H K : Type 0} → ConnectionId → ℕ → ℕ → ℕ → ServerMetrics → Result (Peer H K) × ServerMetrics
new_connection id now seqnum syn_cookie m =
    (new_sequence seqnum >>= λ seq. ok (fresh_connection id now seq syn_cookie), count_new m)

abbrev pub count_drop : {S : Type 0} → ConnectionMode S → ServerMetrics → ServerMetrics
count_drop (induction _) m = record m {
  connections_handshake_current = fetch_sub 1 m.connections_handshake_current;
}
count_drop (publish _) m = record m {
  connections_publish_current = fetch_sub 1 m.connections_publish_current;
}
count_drop (request _) m = record m {
  connections_request_current = fetch_sub 1 m.connections_request_current;
}

-- The response of the INDUCTION.
abbrev pub induction_response : Config → ℕ → ℕ → Handshake → Handshake
induction_response config peer_address syn_cookie p = record default_handshake {
  header = record default_handshake.header {
    timestamp = 0;
    destination_socket_id = p.srt_socket_id;
  };
  handshake_type = HandshakeType.induction;
  version = 5;
  extension_field = srt_magic;
  syn_cookie = syn_cookie;
  srt_socket_id = p.srt_socket_id;
  initial_packet_sequence_number = p.initial_packet_sequence_number;
  peer_ip_address = peer_address;
  maximum_transmission_unit_size = config.mtu;
  maximum_flow_window_size = config.flow_window;
}

abbrev pub induction_id : ℕ → Handshake → ConnectionId
induction_id addr p = record {
  addr = addr;
  server_socket_id = p.srt_socket_id;
  client_socket_id = p.srt_socket_id;
}

module _ {H K M : Type 0} where
  -- The handle and the task of a connection.
  abbrev pub spawn : ConnectionId → Peer H K → Server H K M → Server H K M
  spawn id c s = record s {
    pool = Pool.insert (record { id = id; channel = s.next_channel }) s.pool;
    tasks = record { channel = s.next_channel; id = id; connection = c } ∷ s.tasks;
    next_channel = suc s.next_channel;
  }

  -- The gauges are those that `Connection::new` left; a panic of it ends the INDUCTION.
  abbrev pub spawn_made :
      ConnectionId
      → Server H K M
      → Result (Peer H K) × ServerMetrics
      → Result {0} Unit × Server H K M
  spawn_made id s (ok c, m) =
      (ok tt, spawn id c (record s { shared = record s.shared { metrics = m } }))
  spawn_made id s (err e, m) = (err e, record s { shared = record s.shared { metrics = m } })
  spawn_made id s (panicked, m) = (panicked, record s { shared = record s.shared { metrics = m } })

  unfoldable pub handshake_conclusion : ℕ → Handshake → Server H K M → Delivery
  handshake_conclusion addr p s =
      if not (p.version == 5)
      then dropped
      else if not (p.encryption_field == no_encryption)
      then dropped
      else deliver_to (Pool.find_client_id addr p.srt_socket_id s.pool) (upcast_handshake p)

module _ {H K M : Type 0} (config : Config) where
  -- `handshake_induction` after its assertions, for a response that the socket takes. A panic keeps
  -- what was done before it.
  unfoldable pub induct : ℕ → ℕ → ℕ → ℕ → Handshake → Server H K M → Result {0} Unit × Server H K M
  induct now random addr peer_address p s =
      let syn_cookie = random_cookie random in
      let id = induction_id addr p in
      let reply : ℕ × Handshake = (addr, induction_response config peer_address syn_cookie p) in
      spawn_made id (record s { outgoing = s.outgoing ++ (reply ∷ []) })
        (new_connection id now p.initial_packet_sequence_number syn_cookie s.shared.metrics)

  unfoldable pub handshake_induction :
      ℕ → ℕ → ℕ → ℕ → Handshake → Server H K M → Result {0} Unit × Server H K M
  handshake_induction now random addr peer_address p s =
      if not (p.version == 4)
      then (ok tt, s)
      else if not (p.encryption_field == no_encryption)
      then (ok tt, s)
      else if not (p.extension_field == induction_field)
      then (ok tt, s)
      else if not (p.syn_cookie == 0)
      then (ok tt, s)
      else induct now random addr peer_address p s

  -- `handshake`.
  unfoldable pub handle_first :
      ℕ → ℕ → ℕ → ℕ → Handshake → Server H K M → Result Delivery × Server H K M
  handle_first now random addr peer_address p s =
      if p.handshake_type == HandshakeType.induction
      then (let (done, s') = handshake_induction now random addr peer_address p s in
          (done >>= λ _. ok dropped, s'))
      else if p.handshake_type == HandshakeType.conclusion
      then (ok (handshake_conclusion addr p s), s)
      else (ok dropped, s)

  unfoldable pub handle_message :
      (List ℕ → Bool) → ℕ → ℕ → ℕ → ℕ → Packet → Server H K M → Result Delivery × Server H K M
  handle_message valid_utf8 now random addr peer_address p s =
      if p.header.destination_socket_id == 0
      then elim (downcast_handshake valid_utf8 p) [
        | ok q ↦ handle_first now random addr peer_address q s
        | err _ ↦ (ok dropped, s)
        | panicked ↦ (panicked, s)
      ]
      else let id : ConnectionId = record {
        addr = addr;
        server_socket_id = p.header.destination_socket_id;
        client_socket_id = p.header.destination_socket_id;
      } in
        (ok (deliver_to (Pool.get id s.pool) p), s)

-- The task of a channel, if it lives.
abbrev pub find_task : {H K : Type 0} → ℕ → List (Task H K) → Option (Task H K)
find_task channel [] = none
find_task channel (t ∷ ts) =
    let later = find_task channel ts in if t.channel == channel then some t else later

abbrev pub remove_task : {H K : Type 0} → ℕ → List (Task H K) → List (Task H K)
remove_task channel [] = []
remove_task channel (t ∷ ts) =
    let others = remove_task channel ts in if t.channel == channel then ts else t ∷ others

-- `Drop for Connection`, on the task `t`.
abbrev pub drop_task : {H K M : Type 0} → Task H K → Server H K M → Server H K M
drop_task t s = record s {
  pool = Pool.remove t.id s.pool;
  shared = record s.shared { metrics = count_drop t.connection.mode s.shared.metrics };
  tasks = remove_task t.channel s.tasks;
}

-- The tasks with another connection in that of the channel.
abbrev pub set_task : {H K : Type 0} → ℕ → Peer H K → List (Task H K) → List (Task H K)
set_task channel c [] = []
set_task channel c (t ∷ ts) =
    let others = set_task channel c ts in
    if t.channel == channel then record t { connection = c } ∷ ts else t ∷ others
