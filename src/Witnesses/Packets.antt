-- ===== src/Witnesses/Packets.antt =====
-- Packets of every layer that are printed and parsed.
use Prim.Native.Nat.{bit_and}
use mini_tcp.Base.{◌%◌, ◌≡◌, refl, true, Option, none, some, [], ◌∷◌, ◌++◌, Bytes, drop, replicate}
use mini_tcp.Wire.{unpack_16}
use mini_tcp.Wire.Writer
use mini_tcp.Wire.Checksum.{transport_checksum}
use mini_tcp.Segment.{TcpSegment, no_options}
use mini_tcp.Segment.Options
use mini_tcp.Segment.Codec
use mini_tcp.Segment.RoundTrip.{as_received, segment_parse-to_bytes}
use mini_tcp.Udp
use mini_tcp.Udp.{UdpSegment}
use mini_tcp.Udp.RoundTrip.{udp_parse-to_bytes}
use mini_tcp.Icmp
use mini_tcp.Icmp.{IcmpMessage}
use mini_tcp.Ethernet
use mini_tcp.Ethernet.{EthernetFrame}
use mini_tcp.Ethernet.RoundTrip.{padding_len, ethernet_parse-to_bytes}
use mini_tcp.Arp
use mini_tcp.Arp.{ArpPacket}
use mini_tcp.Ipv4
use mini_tcp.Ipv4.{Ipv4Packet, flag_mask}
use mini_tcp.Ipv4.RoundTrip.{ipv4_parse-to_bytes}

abbrev pub here : Bytes
here = 10 ∷ 0 ∷ 0 ∷ 1 ∷ []

abbrev pub there : Bytes
there = 10 ∷ 0 ∷ 0 ∷ 2 ∷ []

abbrev pub mac_here : Bytes
mac_here = 2 ∷ 0 ∷ 0 ∷ 0 ∷ 0 ∷ 1 ∷ []

abbrev pub mac_there : Bytes
mac_there = 2 ∷ 0 ∷ 0 ∷ 0 ∷ 0 ∷ 2 ∷ []

abbrev pub of_some : Option Bytes → Bytes
of_some none = []
of_some (some raw) = raw

-- A segment with flags ACK and PSH, an MSS option and three bytes.
abbrev tcp : TcpSegment
tcp = record {
  src_port = 49152;
  dst_port = 80;
  seq = 4294967298;
  ack = 7;
  flags = 24;
  window = 4096;
  payload = 1 ∷ 2 ∷ 3 ∷ [];
  options = record no_options { mss = some 1460 };
  urgent_pointer = 0;
  checksum = 0;
}

abbrev tcp_raw : Bytes
tcp_raw = of_some (Codec.to_bytes tcp (some here) (some there) true)

tcp_printed : Codec.to_bytes tcp (some here) (some there) true ≡ some tcp_raw
unfolding Codec.to_bytes Codec.with_options Options.to_bytes Options.mss_bytes Options.scale_bytes
    Options.finish Options.sack_permitted_bytes Options.timestamp_bytes Options.sack_bytes
    Options.padding Codec.with_field Codec.checksum_field Codec.pack_header transport_checksum
tcp_printed = refl

segment_parse-to_bytes_example :
    Codec.parse tcp_raw (some here) (some there) true
    ≡ some (as_received tcp (unpack_16 (drop 16 tcp_raw)))
segment_parse-to_bytes_example = segment_parse-to_bytes tcp here there tcp_raw refl refl tcp_printed

abbrev udp : UdpSegment
udp = record { src_port = 5353; dst_port = 53; payload = 1 ∷ 2 ∷ 3 ∷ []; checksum = 0 }

abbrev udp_raw : Bytes
udp_raw = of_some (Udp.to_bytes udp (some here) (some there) true)

udp_printed : Udp.to_bytes udp (some here) (some there) true ≡ some udp_raw
unfolding Udp.to_bytes Udp.checksum_field Udp.with_field transport_checksum
udp_printed = refl

udp_parse-to_bytes_example :
    Udp.parse (udp_raw ++ (0 ∷ 0 ∷ [])) here there
    ≡ some (record udp { checksum = unpack_16 (drop 6 udp_raw) })
udp_parse-to_bytes_example =
    udp_parse-to_bytes udp here there udp_raw (0 ∷ 0 ∷ []) refl refl udp_printed

-- An echo request.
abbrev ping : IcmpMessage
ping = record { kind = 8; code = 0; body = 0 ∷ 1 ∷ 0 ∷ 2 ∷ 104 ∷ 105 ∷ [] }

abbrev ping_raw : Bytes
ping_raw = of_some (Icmp.to_bytes ping)

ping_printed : Icmp.to_bytes ping ≡ some ping_raw
unfolding Icmp.to_bytes
ping_printed = refl

abbrev pub ip_packet : Ipv4Packet
ip_packet = record {
  src = here;
  dst = there;
  protocol = 17;
  payload = 9 ∷ 8 ∷ 7 ∷ [];
  ttl = 64;
  identification = 65537;
  flags = 0x4000;
  fragment_offset = 0;
  dscp = 0;
  options = 1 ∷ 1 ∷ 1 ∷ 0 ∷ [];
}

abbrev pub ip_raw : Bytes
ip_raw = of_some (Ipv4.to_bytes ip_packet)

pub ip_printed : Ipv4.to_bytes ip_packet ≡ some ip_raw
unfolding Ipv4.to_bytes Ipv4.is_printable Ipv4.total_length
ip_printed = refl

ipv4_parse-to_bytes_example :
    Ipv4.parse (ip_raw ++ (0 ∷ 0 ∷ []))
    ≡ some (record ip_packet {
      identification = ip_packet.identification % 65536;
      flags = bit_and ip_packet.flags flag_mask;
    })
ipv4_parse-to_bytes_example = ipv4_parse-to_bytes ip_packet ip_raw (0 ∷ 0 ∷ []) ip_printed

abbrev pub ether : EthernetFrame
ether = record { dst = mac_there; src = mac_here; ethertype = 0x0800; payload = 69 ∷ 0 ∷ [] }

abbrev ether_raw : Bytes
ether_raw = of_some (Ethernet.to_bytes ether true)

ether_printed : Ethernet.to_bytes ether true ≡ some ether_raw
unfolding Ethernet.to_bytes Writer.u16 Writer.raw Writer.make
ether_printed = refl

ethernet_parse-to_bytes_example :
    Ethernet.parse ether_raw
    ≡ some (record ether { payload = ether.payload ++ replicate (padding_len ether true) 0 })
ethernet_parse-to_bytes_example =
    ethernet_parse-to_bytes ether true ether_raw refl refl ether_printed

abbrev who_has : ArpPacket
who_has = record {
  operation = 1;
  sender_mac = mac_here;
  sender_ip = here;
  target_mac = replicate 6 0;
  target_ip = there;
  hardware_type = 1;
  protocol_type = 0x0800;
  hardware_len = 6;
  protocol_len = 4;
}

abbrev arp_raw : Bytes
arp_raw = of_some (Arp.to_bytes who_has)

arp_printed : Arp.to_bytes who_has ≡ some arp_raw
unfolding Arp.to_bytes Arp.lengths_match Arp.fields_fit
arp_printed = refl
