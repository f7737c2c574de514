-- ===== src/Ethernet.antt =====
-- Ethernet II frames (minitcp/net/ethernet.py), on the reader and the writer of
-- minitcp/util/byteio.py. `none` is the ValueError.
pub mod RoundTrip
use mini_tcp.Base.{
  ℕ, ◌-◌, ◌%◌, Bool, true, false, not, ◌&&◌, ◌||◌, Option, none, some, [], ◌∷◌, ◌++◌, ltb, ◌==◌,
  if◌then◌else◌, Bytes, length, replicate, get_or, same_bytes,
}
use mini_tcp.Wire.Reader
use mini_tcp.Wire.Writer
use mini_tcp.Wire.Writer.{Writer}

abbrev pub ethertype_ipv4 : ℕ
ethertype_ipv4 = 0x0800

abbrev pub ethertype_arp : ℕ
ethertype_arp = 0x0806

abbrev pub broadcast_mac : Bytes
broadcast_mac = replicate 6 0xff

abbrev pub header_len : ℕ
header_len = 14

abbrev pub min_frame_len : ℕ
min_frame_len = 60

pub record EthernetFrame : Type 0 where
  pub dst : Bytes
  pub src : Bytes
  pub ethertype : ℕ
  pub payload : Bytes

-- The frame padded to the minimum, if so asked.
unfoldable pub padded : Bytes → Bool → Bytes
padded frame pad =
    if pad && ltb (length frame) min_frame_len
    then frame ++ replicate (min_frame_len - length frame) 0
    else frame

unfoldable pub to_bytes : EthernetFrame → Bool → Option Bytes
unfolding padded
to_bytes f pad = elim (Writer.u16 (Writer.raw (Writer.raw Writer.make f.dst) f.src) f.ethertype) [
  | none ↦ none
  | some w ↦ some (padded (Writer.bytes (Writer.raw w f.payload)) pad)
]

-- The fields in their order; a read past the end is a ValueError.
unfoldable pub parse : Bytes → Option EthernetFrame
parse bytes =
    if ltb (length bytes) header_len then none else elim (Reader.raw (Reader.make bytes) 6) [
      | none ↦ none
      | some (r, dst) ↦ elim (Reader.raw r 6) [
        | none ↦ none
        | some (r', src) ↦ elim (Reader.u16 r') [
          | none ↦ none
          | some (r'', ethertype) ↦ some (record {
            dst = dst;
            src = src;
            ethertype = ethertype;
            payload = (Reader.rest r'').1;
          })
        ]
      ]
    ]

unfoldable pub is_broadcast : EthernetFrame → Bool
is_broadcast f = same_bytes f.dst broadcast_mac

-- The low bit of the first byte; a parsed frame has one.
unfoldable pub is_multicast : EthernetFrame → Bool
is_multicast f = not (get_or f.dst 0 0 % 2 == 0)

unfoldable pub accepted_by : EthernetFrame → Bytes → Bool
unfolding is_broadcast is_multicast
accepted_by f mac = same_bytes f.dst mac || (is_broadcast f || is_multicast f)
