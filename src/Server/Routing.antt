-- ===== src/Server/Routing.antt =====
-- Which connection a packet from the socket reaches.
use mathlib.Core.Option.{none-ne-some}
use streamsync.Base.{
  ℕ, ◌-◌, ◌^◌, ◌<◌, ◌≡◌, ◌≢◌, refl, sym, arith, inl, inr, true, false, ◌&&◌, Bool, Bool-cases,
  ==-refl, ==_of_ne, leb, none, some, List, [], ◌∷◌, ◌++◌, ◌==◌,
}
use streamsync.Conn.Handshake.{Peer}
use streamsync.Conn.Shared.{Config}
use streamsync.Handshake.{Handshake, upcast_handshake}
use streamsync.Packet.{Packet}
use streamsync.Proto.Error.{ok}
use streamsync.Sequence.{new_sequence}
use streamsync.Server.{
  Server, Task, dropped, delivered, handshake_induction, handshake_conclusion, handle_message,
  induct, new_connection, induction_id, spawn, induction_response, random_cookie, drop_task,
  count_new,
}
use streamsync.Server.Pool
use streamsync.Server.Pool.{ConnectionId, Handle, ConnectionPool, same_id}
use streamsync.Types.Encryption.{no_encryption}
use streamsync.Types.Flags.{induction_field}

same_id_refl : (id : ConnectionId) → same_id id id ≡ true
same_id_refl id =
    rw (==-refl id.addr, ==-refl id.server_socket_id, ==-refl id.client_socket_id) refl

-- A removed id is not found.
get-remove : (id : ConnectionId) (pool : ConnectionPool) → Pool.get id (Pool.remove id pool) ≡ none
get-remove id [] = refl
get-remove id (h ∷ pool) = elim (Bool-cases (same_id h.id id)) [
  | inl same ↦ rw same (get-remove id pool)
  | inr other ↦ rw (other, other) (get-remove id pool)
]

-- A client id that is not found belongs to no handle.
no_handle :
    (addr x : ℕ) (pool : ConnectionPool)
    → Pool.find_client_id addr x pool ≡ none
    → Pool.get (record { addr = addr; server_socket_id = x; client_socket_id = x }) pool ≡ none
no_handle addr x [] e = refl
no_handle addr x (h ∷ pool) e =
    elim (Bool-cases (h.id.addr == addr && (h.id.client_socket_id == x))) [
      | inl found ↦ absurd (none-ne-some h (sym (rw found at e)))
      | inr other ↦
          let id : ConnectionId = record {
            addr = addr;
            server_socket_id = x;
            client_socket_id = x;
          } in
          let different : same_id h.id id ≡ false = ground (arith, other) in
          rw different (no_handle addr x pool (rw other at e))
    ]

-- An INDUCTION whose fields are as they must be, with a sequence number of 31 bits.
pub record IsInduction (p : Handshake) : Type 0 where
  pub version : p.version ≡ 4
  pub encryption : p.encryption_field ≡ no_encryption
  pub field : p.extension_field ≡ induction_field
  pub cookie : p.syn_cookie ≡ 0
  pub number : p.initial_packet_sequence_number < 2 ^ 31

module _ {H K M : Type 0} (config : Config) (now random addr peer_address : ℕ) where
  -- The connection that an INDUCTION makes, and the server after it.
  abbrev pub inducted : Handshake → Peer H K → Server H K M → Server H K M
  inducted p c s = spawn (induction_id addr p) c (record s {
    outgoing =
        s.outgoing
        ++ ((addr, induction_response config peer_address (random_cookie random) p) ∷ []);
    shared = record s.shared { metrics = count_new s.shared.metrics };
  })

  pub induction_accepted :
      (p : Handshake) (s : Server H K M)
      → IsInduction p
      → (c : Peer H K) × (new_connection
            (induction_id addr p)
            now
            p.initial_packet_sequence_number
            (random_cookie random)
            s.shared.metrics
          ≡ (ok c, count_new s.shared.metrics))
        × (handshake_induction config now random addr peer_address p s ≡ (ok tt, inducted p c s))
  unfolding handshake_induction induct new_connection new_sequence
  induction_accepted p s v =
      let fits : leb p.initial_packet_sequence_number (2 ^ 31 - 1) ≡ true =
        ground (arith, v.number) in
      rw (v.version, v.encryption, v.field, v.cookie, fits) (_, refl, refl)

  -- An INDUCTION as it must be, from an address and with a socket id that is not 0 and that no handle
  -- of the pool has.
  -- It makes a connection, and then every packet from that address to that socket id, and every
  -- CONCLUSION of version 5 without encryption from there with that socket id, goes into the channel
  -- of this connection.
  pub handle_message-induction :
      (valid_utf8 : List ℕ → Bool) (p : Handshake) (s : Server H K M) (q : Packet) (r : Handshake)
      → IsInduction p
      → Pool.find_client_id addr p.srt_socket_id s.pool ≡ none
      → p.srt_socket_id ≢ 0
      → q.header.destination_socket_id ≡ p.srt_socket_id
      → r.version ≡ 5
      → r.encryption_field ≡ no_encryption
      → r.srt_socket_id ≡ p.srt_socket_id
      → (s' : Server H K M) × (handshake_induction config now random addr peer_address p s
          ≡ (ok tt, s'))
        × (handle_message config valid_utf8 now random addr peer_address q s'
            ≡ (ok (delivered s.next_channel q), s'))
        × (handshake_conclusion addr r s' ≡ delivered s.next_channel (upcast_handshake r))
  unfolding handle_message handshake_conclusion
  handle_message-induction valid_utf8 p s q r v free nonzero to version encryption from =
      let (c, made, e) = induction_accepted p s v in
      let id = induction_id addr p in
      let pooled : Pool.insert (record { id = id; channel = s.next_channel }) s.pool
          ≡ record { id = id; channel = s.next_channel } ∷ s.pool =
        rw (no_handle addr p.srt_socket_id s.pool free) refl in
      let other : (p.srt_socket_id == 0) ≡ false = ==_of_ne _ _ nonzero in
      (
        inducted p c s,
        e,
        rw (to, other, pooled, same_id_refl id) refl,
        rw (version, encryption, from, pooled, ==-refl addr, ==-refl p.srt_socket_id) refl,
      )

  -- A second INDUCTION as it must be, from an address and with a socket id that is not 0 and that a
  -- handle of the pool has already. Its connection gets no handle; once it is dropped, the tasks are
  -- those of before, the first connection among them, but no packet from that address to that socket
  -- id is delivered any more.
  pub drop_task-induction :
      (valid_utf8 : List ℕ → Bool) (p : Handshake) (s : Server H K M) (h : Handle) (q : Packet)
      → IsInduction p
      → Pool.get (induction_id addr p) s.pool ≡ some h
      → p.srt_socket_id ≢ 0
      → q.header.destination_socket_id ≡ p.srt_socket_id
      → (t : Task H K) × (s' : Server H K M) × (handshake_induction config now random addr
            peer_address p s
          ≡ (ok tt, s'))
        × (s'.pool ≡ s.pool)
        × (s'.tasks ≡ t ∷ s.tasks)
        × ((drop_task t s').tasks ≡ s.tasks)
        × (handle_message config valid_utf8 now random addr peer_address q (drop_task t s')
            ≡ (ok dropped, drop_task t s'))
  unfolding handle_message
  drop_task-induction valid_utf8 p s h q v held nonzero to =
      let (c, made, e) = induction_accepted p s v in
      let id = induction_id addr p in
      let t : Task H K = record { channel = s.next_channel; id = id; connection = c } in
      let pooled : Pool.insert (record { id = id; channel = s.next_channel }) s.pool ≡ s.pool =
        rw held refl in
      let other : (p.srt_socket_id == 0) ≡ false = ==_of_ne _ _ nonzero in
      (
        t,
        inducted p c s,
        e,
        pooled,
        refl,
        rw (==-refl s.next_channel) refl,
        rw
            (
              to,
              other,
              get-remove id (Pool.insert (record { id = id; channel = s.next_channel }) s.pool),
            )
            refl,
      )
