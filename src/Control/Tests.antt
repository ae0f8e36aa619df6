-- ===== src/Control/Tests.antt =====
-- The theorems on control packets at concrete packets.
use streamsync.Base.{ℕ, ◌+◌, ◌%◌, ◌^◌, ◌≡◌, List, [], ◌∷◌, ◌++◌, some, arith}
use streamsync.Proto.{encode_uint}
use streamsync.Proto.Error.{ok, err, io, unexpected_eof}
use streamsync.Types.ControlType.{ack, drop_req, ack_ack}
use streamsync.Packet.{default_header}
use streamsync.Packet.ControlHeader.{default_header_lem}
use streamsync.Control.Numbers.{single, range, encode_numbers, decode_numbers, from_range}
use streamsync.Control.Numbers.Laws.{decode-encode_range, from_range_first}
use streamsync.Control.Casts.{
  Plain, Ack, DropRequest, build_light_ack, upcast_light_ack, downcast_light_ack, downcast_ack,
}
use streamsync.Control.Casts.ShortAcks.{downcast_ack-light}
use streamsync.Control.Casts.RoundTrip.{IsAck}

abbrev trailing : List ℕ
trailing = 1 ∷ 2 ∷ []

decode-encode_range_example :
    decode_numbers (encode_numbers (range (2 ^ 30 + 9) (2 ^ 30 + 12)) ++ trailing)
    ≡ ok (single ((2 ^ 30 + 9) % 2 ^ 30), encode_uint 4 (2 ^ 30 + 12) ++ trailing)
decode-encode_range_example =
    decode-encode_range (2 ^ 30 + 9) (2 ^ 30 + 12) trailing (omega arith) (omega arith)

from_range_first_example : from_range 3 9 12 ≡ some (single 9)
from_range_first_example = from_range_first 3 9 12 (omega arith) (omega arith) (omega arith)

abbrev full_ack : Ack
full_ack = record {
  header = default_header ack;
  last_acknowledged_packet_sequence_number = 40;
  rtt = 100_000;
  rtt_variance = 50_000;
  avaliable_buffer_size = 8_192;
  packets_receiving_rate = 3;
  estimated_link_capacity = 2;
  receiving_rate = 1;
}

abbrev full_ack-IsAck : IsAck full_ack
full_ack-IsAck = record {
  typed = ((default_header_lem ack).0, (default_header_lem ack).1);
  last = omega arith;
  rtt = omega arith;
  variance = omega arith;
  available = omega arith;
  packets_rate = omega arith;
  capacity = omega arith;
  rate = omega arith;
}

abbrev answer : Plain
answer = record { header = default_header ack_ack; unused = 0 }

abbrev dropped : DropRequest
dropped = record {
  header = default_header drop_req;
  first_packet_sequence_number = 9;
  last_packet_sequence_number = 12;
}

downcast_ack-light_example :
    (downcast_light_ack (upcast_light_ack (build_light_ack 1_234)) ≡ ok (build_light_ack 1_234))
    × (downcast_ack (upcast_light_ack (build_light_ack 1_234)) ≡ err (io unexpected_eof))
downcast_ack-light_example = downcast_ack-light 1_234 (omega arith)
