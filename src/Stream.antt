-- ===== src/Stream.antt =====
-- stsync-proxy/src/srt/stream.rs: the stream of a requesting peer, which keeps what was sent for
-- retransmission.
pub mod Resend
mod Tests
use streamsync.Base.{ℕ, Option, none, some, List, [], ◌∷◌, if◌then◌else◌}
use streamsync.Buffer
use streamsync.Buffer.{Buffer, Access, absent}
use streamsync.Proto.Error.{Result, ok, panicked}
use streamsync.Sequence.{add_message, sub_sequence, cmp_sequence, is_lt}
use streamsync.Timestamp.{from_start}

-- The payload, the timestamp and the message number of a sent packet.
pub record Sent : Type 0 where
  pub payload : List ℕ
  pub timestamp : ℕ
  pub message_number : ℕ

-- The inner stream is the environment's: what it yields is an argument of `poll_next`.
pub record SrtStream : Type 0 where
  pub initial_sequence_number : ℕ
  pub buffer : Buffer Sent
  pub next_message_number : ℕ
  pub start_time : ℕ

unfoldable pub new_stream : ℕ → ℕ → ℕ → SrtStream
new_stream size initial start = record {
  initial_sequence_number = initial;
  buffer = Buffer.new size;
  next_message_number = 1;
  start_time = start;
}

pub get_sent : SrtStream → ℕ → Access Sent
get_sent s seq =
    if is_lt (cmp_sequence seq s.initial_sequence_number)
    then absent
    else Buffer.get s.buffer (sub_sequence seq s.initial_sequence_number)

unfoldable pub update_stream_start : ℕ → SrtStream → SrtStream
update_stream_start instant s = record s { start_time = instant }

-- What a poll of the inner stream returns.
pub data Polled : Type 0 where
  pending : Polled
  ended : Polled
  item : List ℕ → Polled

-- The item for the caller, if one is ready, and the stream after the call.
pub record Next : Type 0 where
  pub stream : SrtStream
  pub sent : Sent

-- `poll_next` when the inner stream yields `payload` at the instant `now`.
pub next_item : ℕ → List ℕ → SrtStream → Result Next
next_item now payload s =
    let sent : Sent = record {
      payload = payload;
      timestamp = from_start s.start_time now;
      message_number = s.next_message_number;
    } in
    elim (Buffer.push s.buffer sent) [
      | none ↦ panicked
      | some c ↦ ok (record {
        stream = record s {
          buffer = c.buffer;
          next_message_number = add_message s.next_message_number 1;
        };
        sent = sent;
      })
    ]
