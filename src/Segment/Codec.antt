-- ===== src/Segment/Codec.antt =====
-- The wire format of a segment (minitcp/net/tcp/segment.py, `TCPSegment.to_bytes` and `.parse`). `none`
-- is the ValueError, or the error of the struct module for a number that does not fit its field.
use Prim.Native.Nat.{bit_or}
use mini_tcp.Base.{
  ℕ, ◌+◌, ◌-◌, ◌*◌, ◌/◌, ◌%◌, Bool, true, false, not, ◌&&◌, ◌||◌, Option, none, some, ◌++◌, ltb,
  ◌==◌, if◌then◌else◌, Bytes, length, take, drop, get_or,
}
use mini_tcp.Seqno.{seq_space}
use mini_tcp.Wire.{pack_8, pack_16, pack_32, unpack_16, unpack_32}
use mini_tcp.Wire.Checksum.{transport_checksum}
use mini_tcp.Segment.{TcpSegment}
use mini_tcp.Segment.Options

abbrev pub header_len : ℕ
header_len = 20

abbrev pub proto_tcp : ℕ
proto_tcp = 6

-- (data_offset << 4) | ((flags >> 8) & 0x01)
unfoldable pub offset_byte : ℕ → ℕ → ℕ
offset_byte data_offset flags = bit_or (data_offset * 16) (flags / 256 % 2)

-- The twenty fixed bytes, in front of the rest.
unfoldable pub pack_header : TcpSegment → ℕ → ℕ → Bytes → Bytes
pack_header s data_offset csum rest =
    pack_16 s.src_port
    ++ (pack_16 s.dst_port
        ++ (pack_32 (s.seq % seq_space)
            ++ (pack_32 (s.ack % seq_space)
                ++ (pack_8 (offset_byte data_offset s.flags)
                    ++ (pack_8 (s.flags % 256)
                        ++ (pack_16 s.window
                            ++ (pack_16 csum ++ (pack_16 s.urgent_pointer ++ rest))))))))

-- The checksum field: computed over the addresses, or the segment's own.
unfoldable pub checksum_field : TcpSegment → Bytes → Option Bytes → Option Bytes → Bool → Option ℕ
checksum_field s header src dst false = if ltb 65535 s.checksum then none else some s.checksum
checksum_field s header (some src) (some dst) true =
    transport_checksum src dst proto_tcp (header ++ s.payload)
checksum_field s header _ _ true = none

-- The header with the field in its place, and the payload.
unfoldable pub with_field : TcpSegment → Bytes → Option ℕ → Option Bytes
with_field s header none = none
with_field s header (some csum) =
    some (take 16 header ++ (pack_16 csum ++ (drop 18 header ++ s.payload)))

unfoldable pub with_options :
    TcpSegment → Option Bytes → Option Bytes → Option Bytes → Bool → Option Bytes
with_options s none src dst compute = none
with_options s (some options) src dst compute =
    let data_offset = (header_len + length options) / 4 in
    let header = pack_header s data_offset 0 options in
    if ltb 15 data_offset || ltb 65535 s.urgent_pointer
    then none
    else with_field s header (checksum_field s header src dst compute)

unfoldable pub to_bytes : TcpSegment → Option Bytes → Option Bytes → Bool → Option Bytes
to_bytes s src dst compute =
    if ltb 65535 s.src_port || (ltb 65535 s.dst_port || ltb 65535 s.window)
    then none
    else with_options s (Options.to_bytes s.options) src dst compute

-- Whether parsing raises on account of the checksum: it is there, both addresses are known, and it is
-- wrong or cannot be computed.
unfoldable pub is_corrupt : Bytes → ℕ → Option Bytes → Option Bytes → Bool
is_corrupt bytes csum (some src) (some dst) =
    not (csum == 0)
    && elim (transport_checksum src dst proto_tcp bytes) [ none ↦ true | some sum ↦ not (sum == 0) ]
is_corrupt bytes csum _ _ = false

-- The segment of bytes whose lengths are checked.
unfoldable pub decode : Bytes → ℕ → TcpSegment
decode bytes size = record {
  src_port = unpack_16 bytes;
  dst_port = unpack_16 (drop 2 bytes);
  seq = unpack_32 (drop 4 bytes);
  ack = unpack_32 (drop 8 bytes);
  flags = bit_or (get_or bytes 12 0 % 2 * 256) (get_or bytes 13 0);
  window = unpack_16 (drop 14 bytes);
  payload = drop size bytes;
  options = Options.parse (take (size - header_len) (drop header_len bytes));
  urgent_pointer = unpack_16 (drop 18 bytes);
  checksum = unpack_16 (drop 16 bytes);
}

unfoldable pub parse : Bytes → Option Bytes → Option Bytes → Bool → Option TcpSegment
parse bytes src dst verify_checksum =
    let size = get_or bytes 12 0 / 16 * 4 in
    let csum = unpack_16 (drop 16 bytes) in
    if ltb (length bytes) header_len
    then none
    else if ltb size header_len
    then none
    else if ltb (length bytes) size
    then none
    else if verify_checksum && is_corrupt bytes csum src dst
    then none
    else some (decode bytes size)
