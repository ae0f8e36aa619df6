-- ===== src/Packet/ControlHeader.antt =====
-- The headers of control packets: which ones a typed header accepts.
use streamsync.Base.{
  ◌↔◌, none, refl, sym, ap, Bool-cases, inl, inr, ==_iff, if◌then◌else◌, ◌≡◌, ◌∙◌, arith, ==-refl,
}
use streamsync.Proto.{bits}
use streamsync.Proto.Error.{
  Result, ◌>>=◌, ok, err, panicked, invalid_packet_type, invalid_control_type,
}
use streamsync.Types.ControlType
use streamsync.Types.ControlType.{
  PacketType, data_packet, control_packet, ControlPacketType, to_u16-injective,
}
use streamsync.Packet.{
  same_type, Header, packet_type, control_type, set_packet_type, try_from_header, default_header,
  zero_header,
}
use streamsync.Packet.HeaderFields.{
  IsHeader, packet_type-set_packet_type, control_type-set_control_type,
}

pub accepts :
    (t : ControlPacketType) (h : Header)
    → packet_type h ≡ control_packet
    → control_type h ≡ ok t
    → try_from_header t h ≡ ok h
unfolding try_from_header
accepts t h e f = rw (e, f, try_from_header, ==-refl (ControlType.to_u16 t))

accepted :
    (t : ControlPacketType) (h h' : Header) (kind : PacketType) (known : Result ControlPacketType)
    → ◌≡◌ {A = Result Header}
        (elim kind [
          | data_packet ↦ err (invalid_packet_type 0)
          | control_packet ↦ known >>= λ s.
              if same_type s t then ok h else err (invalid_control_type (ControlType.to_u16 t))
        ])
        (ok h')
    → (kind ≡ control_packet) × (known ≡ ok t) × (h' ≡ h)
accepted t h h' data_packet known e = cc
accepted t h h' control_packet panicked e = cc
accepted t h h' control_packet (err _) e = cc
accepted t h h' control_packet (ok s) e = elim (Bool-cases (same_type s t)) [
  | inl same ↦
      let found : s ≡ t = to_u16-injective s t ((==_iff _ _).0 same) in
      (refl, ap (λ k. ok k) found, cc (rw same at e))
  | inr other ↦
      absurd
        (let no : err (invalid_control_type (ControlType.to_u16 t)) ≡ ok h' = rw other at e in cc)
]

-- `TryFrom<Header>` of the type `t` succeeds on a control header of that type, with this very header,
-- and on no other header.
pub try_from_header_iff :
    (t : ControlPacketType) (h h' : Header)
    → (try_from_header t h ≡ ok h')
      ↔ ((packet_type h ≡ control_packet) × (control_type h ≡ ok t) × (h' ≡ h))
unfolding try_from_header
try_from_header_iff t h h' = (
  λ e. accepted t h h' (packet_type h) (control_type h) e,
  λ (e, f, same). accepts t h e f ∙ ap (λ k. ok k) (sym same),
)

-- It panics on a control header whose type is not one of the ten known.
pub try_from_header_unknown :
    (t : ControlPacketType) (h : Header)
    → packet_type h ≡ control_packet
    → ControlType.from_u32 (bits h.seg0 1 16) ≡ none
    → try_from_header t h ≡ panicked
unfolding try_from_header control_type
try_from_header_unknown t h e f = rw (e, try_from_header, control_type, f)

-- The default header of a control type is a control header of that type.
pub default_header_lem :
    (t : ControlPacketType)
    → (packet_type (default_header t) ≡ control_packet)
      × (control_type (default_header t) ≡ ok t)
      × IsHeader (default_header t)
unfolding default_header
default_header_lem t =
    let start : IsHeader zero_header = omega arith in
    let (typed, _, v) = packet_type-set_packet_type control_packet zero_header start in
    let (known, kept, w) =
      control_type-set_control_type t (set_packet_type control_packet zero_header) v in
    (kept ∙ typed, known, w)
