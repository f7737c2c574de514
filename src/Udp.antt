-- ===== src/Udp.antt =====
-- UDP datagrams (minitcp/net/udp.py). `none` is the ValueError, or the error of the struct module for a
-- number that does not fit its field.
pub mod RoundTrip
use mini_tcp.Base.{
  ℕ, ◌+◌, Bool, true, false, not, ◌&&◌, ◌||◌, Option, none, some, [], ◌∷◌, ◌++◌, ltb, ◌==◌,
  if◌then◌else◌, Bytes, length, take, drop,
}
use mini_tcp.Wire.{pack_16, unpack_16}
use mini_tcp.Wire.Checksum.{transport_checksum}

abbrev pub header_len : ℕ
header_len = 8

abbrev pub max_port : ℕ
max_port = 0xFFFF

abbrev pub proto_udp : ℕ
proto_udp = 17

pub record UdpSegment : Type 0 where
  pub src_port : ℕ
  pub dst_port : ℕ
  pub payload : Bytes
  pub checksum : ℕ

-- The value of the length field.
unfoldable pub length_field : UdpSegment → ℕ
length_field s = header_len + length s.payload

unfoldable pub pack_header : UdpSegment → ℕ → ℕ → Bytes → Bytes
pack_header s size csum rest =
    pack_16 s.src_port ++ (pack_16 s.dst_port ++ (pack_16 size ++ (pack_16 csum ++ rest)))

-- A checksum of zero is sent as all ones.
unfoldable pub sent_checksum : ℕ → ℕ
sent_checksum csum = if csum == 0 then 0xFFFF else csum

unfoldable pub checksum_field : UdpSegment → Bytes → Option Bytes → Option Bytes → Bool → Option ℕ
unfolding sent_checksum
checksum_field s body src dst false = if ltb 0xFFFF s.checksum then none else some s.checksum
checksum_field s body (some src) (some dst) true =
    elim (transport_checksum src dst proto_udp body) [
      | none ↦ none
      | some sum ↦ some (sent_checksum sum)
    ]
checksum_field s body _ _ true = none

unfoldable pub with_field : UdpSegment → Bytes → Option ℕ → Option Bytes
with_field s header none = none
with_field s header (some csum) = some (take 6 header ++ (pack_16 csum ++ s.payload))

unfoldable pub to_bytes : UdpSegment → Option Bytes → Option Bytes → Bool → Option Bytes
unfolding length_field pack_header checksum_field with_field
to_bytes s src dst compute =
    let header = pack_header s (length_field s) 0 [] in
    if ltb max_port s.src_port || (ltb max_port s.dst_port || ltb 0xFFFF (length_field s))
    then none
    else with_field s header (checksum_field s (header ++ s.payload) src dst compute)

unfoldable pub parse : Bytes → Bytes → Bytes → Option UdpSegment
parse bytes src dst =
    let size = unpack_16 (drop 4 bytes) in
    let csum = unpack_16 (drop 6 bytes) in
    let body = take size bytes in
    if ltb (length bytes) header_len
    then none
    else if ltb size header_len
    then none
    else if ltb (length bytes) size
    then none
    else if not (csum == 0) && elim (transport_checksum src dst proto_udp body) [
      | none ↦ true
      | some sum ↦ not (sum == 0)
    ]
    then none
    else some (record {
      src_port = unpack_16 bytes;
      dst_port = unpack_16 (drop 2 bytes);
      payload = drop header_len body;
      checksum = csum;
    })
