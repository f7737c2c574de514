-- ===== src/Ipv4.antt =====
-- IPv4 datagrams (minitcp/net/ipv4.py). `none` is the ValueError, or the error of the struct module for
-- a number that does not fit its field.
pub mod Address
pub mod RoundTrip
pub mod Fragment
pub mod Reassembly
pub mod Pieces
pub mod Rebuilt
pub mod EndToEnd
pub mod Complete
use Prim.Native.Nat.{bit_and, bit_or}
use mini_tcp.Base.{
  ℕ, ◌+◌, ◌*◌, ◌/◌, ◌%◌, Bool, not, ◌&&◌, ◌||◌, Option, none, some, [], ◌∷◌, ◌++◌, ltb, ◌==◌,
  if◌then◌else◌, Bytes, length, take, drop, get_or,
}
use mini_tcp.Wire.{pack_8, pack_16, unpack_16}
use mini_tcp.Wire.Checksum.{checksum}
use mini_tcp.Segment.{has_flag}

abbrev pub flag_df : ℕ
flag_df = 0x4000

abbrev pub flag_mf : ℕ
flag_mf = 0x2000

abbrev pub flag_mask : ℕ
flag_mask = 0xE000

abbrev pub frag_offset_mask : ℕ
frag_offset_mask = 0x1FFF

abbrev pub header_len : ℕ
header_len = 20

abbrev pub min_mtu : ℕ
min_mtu = 68

abbrev pub max_packet : ℕ
max_packet = 0xFFFF

pub record Ipv4Packet : Type 0 where
  pub src : Bytes
  pub dst : Bytes
  pub protocol : ℕ
  pub payload : Bytes
  pub ttl : ℕ
  pub identification : ℕ
  pub flags : ℕ
  pub fragment_offset : ℕ
  pub dscp : ℕ
  pub options : Bytes

unfoldable pub ihl : Ipv4Packet → ℕ
ihl p = (header_len + length p.options) / 4

unfoldable pub header_length : Ipv4Packet → ℕ
unfolding ihl
header_length p = ihl p * 4

unfoldable pub total_length : Ipv4Packet → ℕ
unfolding header_length
total_length p = header_length p + length p.payload

unfoldable pub is_fragmented : Ipv4Packet → Bool
is_fragmented p = has_flag p.flags flag_mf || ltb 0 p.fragment_offset

unfoldable pub dont_fragment : Ipv4Packet → Bool
dont_fragment p = has_flag p.flags flag_df

-- The header with the given checksum, in front of the rest.
unfoldable pub pack_header : Ipv4Packet → ℕ → Bytes → Bytes
pack_header p csum rest =
    pack_8 (bit_or (4 * 16) (ihl p))
    ++ (pack_8 p.dscp
        ++ (pack_16 (total_length p)
            ++ (pack_16 (p.identification % 65536)
                ++ (pack_16 (bit_or (bit_and p.flags flag_mask) p.fragment_offset)
                    ++ (pack_8 p.ttl
                        ++ (pack_8 p.protocol
                            ++ (pack_16 csum ++ (p.src ++ (p.dst ++ (p.options ++ rest))))))))))

unfoldable pub is_printable : Ipv4Packet → Bool
is_printable p =
    ((length p.src == 4) && (length p.dst == 4))
    && ((length p.options % 4 == 0)
        && (not (ltb 40 (length p.options))
            && (not (ltb max_packet (total_length p))
                && (not (ltb frag_offset_mask p.fragment_offset)
                    && (ltb p.ttl 256 && (ltb p.dscp 256 && ltb p.protocol 256))))))

unfoldable pub to_bytes : Ipv4Packet → Option Bytes
to_bytes p =
    let header = pack_header p 0 [] in
    if is_printable p
    then some (take 10 header ++ (pack_16 (checksum header) ++ (drop 12 header ++ p.payload)))
    else none

-- The fields of bytes whose lengths are checked.
unfoldable pub decode : Bytes → ℕ → ℕ → Ipv4Packet
decode bytes size total =
    let flags_frag = unpack_16 (drop 6 bytes) in
    record {
      src = take 4 (drop 12 bytes);
      dst = take 4 (drop 16 bytes);
      protocol = get_or bytes 9 0;
      payload = drop size (take total bytes);
      ttl = get_or bytes 8 0;
      identification = unpack_16 (drop 4 bytes);
      flags = bit_and flags_frag flag_mask;
      fragment_offset = bit_and flags_frag frag_offset_mask;
      dscp = get_or bytes 1 0;
      options = drop header_len (take size bytes);
    }

-- The reader that the source moves past the header yields nothing that is used.
unfoldable pub parse : Bytes → Option Ipv4Packet
parse bytes =
    let size = get_or bytes 0 0 % 16 * 4 in
    let total = unpack_16 (drop 2 bytes) in
    if ltb (length bytes) header_len
    then none
    else if not (get_or bytes 0 0 / 16 == 4)
    then none
    else if ltb (get_or bytes 0 0 % 16) 5
    then none
    else if ltb (length bytes) size
    then none
    else if not (checksum (take size bytes) == 0)
    then none
    else if ltb total size
    then none
    else if ltb (length bytes) total
    then none
    else some (decode bytes size total)
