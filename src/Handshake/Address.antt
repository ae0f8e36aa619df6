-- ===== src/Handshake/Address.antt =====
-- `PeerIpAddress` of stsync-proxy/src/srt/proto.rs and its conversions from and to `IpAddr`. An
-- address is the number that `u32::from` or `u128::from` gives; the machine is little-endian.
use streamsync.Base.{ℕ, ◌*◌, ◌/◌, ◌%◌, ◌^◌, [], ◌==◌, if◌then◌else◌}
use streamsync.Extensions.StreamId.{reverse_onto}
use streamsync.Proto.{encode_uint, from_be_bytes}

pub data IpAddr : Type 0 where
  v4 : ℕ → IpAddr
  v6 : ℕ → IpAddr

-- `to_be` of an integer of `k` bytes: the bytes in the other order.
unfoldable pub to_be : ℕ → ℕ → ℕ
to_be k n = from_be_bytes 0 (reverse_onto [] (encode_uint k n))

unfoldable pub from_ip : IpAddr → ℕ
from_ip (v4 addr) = to_be 4 addr * 2 ^ 96 % 2 ^ 128
from_ip (v6 addr) = to_be 16 addr

unfoldable pub to_ip : ℕ → IpAddr
to_ip n = if n % 2 ^ 96 == 0 then v4 (to_be 4 (n / 2 ^ 96 % 2 ^ 32)) else v6 (to_be 16 n)
