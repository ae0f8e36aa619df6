-- ===== src/Control/Casts/ShortAcks.antt =====
-- The short ACKs, as the packets' own types and the connection read them.
use streamsync.Base.{ℕ, ◌^◌, ◌<◌, ◌≡◌, refl, [], ◌++◌, arith}
use streamsync.Proto.{encode_uint}
use streamsync.Proto.Codec.{decode_uint_short, decode-encode_uint, decode-encode_last}
use streamsync.Proto.Error.{ok, err, io, unexpected_eof}
use streamsync.Types.ControlType.{ack}
use streamsync.Packet.{default_header}
use streamsync.Packet.ControlHeader.{accepts, default_header_lem}
use streamsync.Control.Casts.{
  build_light_ack, upcast_light_ack, downcast_light_ack, build_small_ack, upcast_small_ack,
  downcast_small_ack, decode_ack, downcast_ack,
}

-- A LightAck that the builder makes with a number of 32 bits is read back as it was sent, but read as
-- an Ack, which is how the connection reads each ACK, it is an unexpected end of input.
pub downcast_ack-light :
    (last : ℕ)
    → last < 2 ^ 32
    → (downcast_light_ack (upcast_light_ack (build_light_ack last)) ≡ ok (build_light_ack last))
      × (downcast_ack (upcast_light_ack (build_light_ack last)) ≡ err (io unexpected_eof))
unfolding downcast_light_ack upcast_light_ack build_light_ack downcast_ack decode_ack
downcast_ack-light last h =
    let (typed, known, _) = default_header_lem ack in
    rw
      (
        accepts ack (default_header ack) typed known,
        decode-encode_last 4 last h,
        decode_uint_short 4 [] (omega arith),
      )
      (refl, refl)

-- The same of a SmallAck whose numbers have 32 bits.
pub downcast_ack-small :
    (last rtt variance : ℕ)
    → last < 2 ^ 32
    → rtt < 2 ^ 32
    → variance < 2 ^ 32
    → (downcast_small_ack (upcast_small_ack (build_small_ack last rtt variance))
        ≡ ok (build_small_ack last rtt variance))
      × (downcast_ack (upcast_small_ack (build_small_ack last rtt variance))
          ≡ err (io unexpected_eof))
unfolding downcast_small_ack upcast_small_ack build_small_ack downcast_ack decode_ack
downcast_ack-small last rtt variance h k l =
    let (typed, known, _) = default_header_lem ack in
    rw
      (
        accepts ack (default_header ack) typed known,
        decode-encode_uint 4 last (encode_uint 4 rtt ++ (encode_uint 4 variance ++ encode_uint 4 0))
            h,
        decode-encode_uint 4 rtt (encode_uint 4 variance ++ encode_uint 4 0) k,
        decode-encode_uint 4 variance (encode_uint 4 0) l,
        decode-encode_last 4 0 (omega arith),
        decode_uint_short 4 [] (omega arith),
      )
      (refl, refl)
