-- ===== src/Stack/Inbound.antt =====
-- How the stack takes a frame apart (minitcp/stack.py: `handle_frame` and the handlers it calls). A
-- ValueError of a parser is counted where the source catches it.
use Prim.Native.Nat.{bit_or}
use mini_tcp.Base.{
  ℕ, ◌+◌, Bool, true, false, not, ◌&&◌, Option, none, some, List, [], ◌∷◌, ◌==◌, if◌then◌else◌,
  Bytes, same_bytes,
}
use mini_tcp.Seqno.{seq_add}
use mini_tcp.Time.{TimeOps}
use mini_tcp.Ethernet
use mini_tcp.Ethernet.{EthernetFrame, accepted_by, ethertype_ipv4, ethertype_arp}
use mini_tcp.Arp
use mini_tcp.Arp.{ArpPacket, arp_reply, is_request, is_reply}
use mini_tcp.Arp.Cache
use mini_tcp.Icmp
use mini_tcp.Icmp.{echo_reply, echo_request, from_icmp, to_icmp}
use mini_tcp.Ipv4
use mini_tcp.Ipv4.{Ipv4Packet, is_fragmented}
use mini_tcp.Ipv4.Reassembly
use mini_tcp.Segment.{TcpSegment, is_rst, is_ack, seq_len, no_options, flag_rst, flag_ack}
use mini_tcp.Segment.Codec
use mini_tcp.Segment.Codec.{proto_tcp}
use mini_tcp.Udp
use mini_tcp.Udp.{proto_udp}
use mini_tcp.Stack.{Stack, FourTuple, Datagram, allocate_id}
use mini_tcp.Stack.Outbound.{and_then, given, emit, flush_pending, send_ipv4, ip_broadcast}
use mini_tcp.Stack.Tcp.{own_packet, find_connection, find_listener, deliver, deliver_to_listener}

abbrev pub proto_icmp : ℕ
proto_icmp = 1

abbrev pub has_handler : ℕ → List ℕ → Bool
has_handler port [] = false
has_handler port (p ∷ ports) = if p == port then true else has_handler port ports

-- The answer to a segment that nothing here owns.
unfoldable pub reset_for : TcpSegment → TcpSegment
reset_for segment = record {
  src_port = segment.dst_port;
  dst_port = segment.src_port;
  seq = if is_ack segment then segment.ack else 0;
  ack = if is_ack segment then 0 else seq_add segment.seq (seq_len segment);
  flags = bit_or flag_rst (if is_ack segment then 0 else flag_ack);
  window = 0;
  payload = [];
  options = no_options;
  urgent_pointer = 0;
  checksum = 0;
}

module _ {T : Type 0} where
  unfoldable pub drop_frame : Stack T → Stack T
  drop_frame s = record s { stats = record s.stats { frames_dropped = s.stats.frames_dropped + 1 } }

  unfoldable pub count_malformed : Stack T → Stack T
  count_malformed s = record s { stats = record s.stats { malformed = s.stats.malformed + 1 } }

  -- except ValueError: malformed += 1
  unfoldable pub catching : Stack T × Option (Unit {0}) → Stack T
  unfolding count_malformed
  catching (s, none) = count_malformed s
  catching (s, some _) = s

  unfoldable pub reply_to : Stack T → ArpPacket → ArpPacket
  reply_to s p = record {
    operation = arp_reply;
    sender_mac = s.mac;
    sender_ip = s.ip;
    target_mac = p.sender_mac;
    target_ip = p.sender_ip;
    hardware_type = Arp.hardware_ethernet;
    protocol_type = ethertype_ipv4;
    hardware_len = 6;
    protocol_len = 4;
  }

  -- A handler is called with the payload and where it came from.
  unfoldable pub handle_udp : Stack T → Ipv4Packet → Stack T × Option (Unit {0})
  handle_udp s packet = given s (Udp.parse packet.payload packet.src packet.dst) (λ segment.
      let counted = record s { stats = record s.stats { udp_in = s.stats.udp_in + 1 } } in
      let datagram : Datagram = record {
        port = segment.dst_port;
        payload = segment.payload;
        src_ip = packet.src;
        src_port = segment.src_port;
      } in
      (
        if has_handler segment.dst_port s.udp_handlers
            then record counted { handled = datagram ∷ counted.handled }
            else counted,
        some tt,
      ))

module _ {T : Type 0} ⦃ops : TimeOps T⦄ where
  unfoldable pub answer_arp : Stack T → ArpPacket → Stack T × Option (Unit {0})
  unfolding reply_to flush_pending
  answer_arp s p =
      let counted = record s {
        stats = record s.stats { arp_replies_sent = s.stats.arp_replies_sent + 1 };
      } in
      let replied =
        given counted (Arp.to_bytes (reply_to s p))
          (λ raw. emit counted p.sender_mac ethertype_arp raw) in
      let flushed = flush_pending s p.sender_ip p.sender_mac in
      if is_request p && same_bytes p.target_ip s.ip
      then replied
      else if is_reply p
      then flushed
      else (s, some tt)

  -- The sender's address is learned from any ARP packet.
  unfoldable pub handle_arp : Stack T → T → EthernetFrame → Stack T × Option (Unit {0})
  unfolding answer_arp
  handle_arp s now frame = given s (Arp.parse frame.payload) (λ p.
      given s (Cache.store s.arp_cache p.sender_ip p.sender_mac now)
        (λ arp_cache. answer_arp (record s { arp_cache = arp_cache }) p))

  unfoldable pub handle_icmp : Stack T → T → Ipv4Packet → Stack T × Option (Unit {0})
  handle_icmp s now packet = given s (Icmp.parse packet.payload) (λ message.
      let answered = given s (from_icmp message) (λ echo.
        let counted = record s {
          stats = record s.stats { icmp_echo_replied = s.stats.icmp_echo_replied + 1 };
        } in
        given counted (Icmp.to_bytes (to_icmp echo echo_reply)) (λ raw.
          let (ready, id) = allocate_id counted in
          and_then (send_ipv4 ready now (own_packet ready packet.src proto_icmp raw id))
            (λ s' _. (s', some tt)))) in
      if message.kind == echo_request then answered else (s, some tt))

  unfoldable pub send_reset : Stack T → T → Ipv4Packet → TcpSegment → Stack T × Option (Unit {0})
  unfolding reset_for
  send_reset s now packet segment =
      let sent =
        given s (Codec.to_bytes (reset_for segment) (some s.ip) (some packet.src) true) (λ raw.
          let (ready, id) = allocate_id s in
          and_then (send_ipv4 ready now (own_packet ready packet.src proto_tcp raw id))
            (λ s' _. (s', some tt))) in
      if is_rst segment then (s, some tt) else sent

  -- The connection of the four-tuple, else the listener of the port, else a reset.
  unfoldable pub route_segment :
      Stack T → T → ℕ → Ipv4Packet → TcpSegment → Stack T × Option (Unit {0})
  unfolding find_connection find_listener send_reset
  route_segment s now random packet segment =
      let key : FourTuple = record {
        local_ip = packet.dst;
        local_port = segment.dst_port;
        remote_ip = packet.src;
        remote_port = segment.src_port;
      } in
      elim (find_connection key s.connections) [
        | some r ↦ deliver s now random key r segment packet.src
        | none ↦ elim (find_listener segment.dst_port s.listeners) [
          | some l ↦ deliver_to_listener s now random key l segment packet.src
          | none ↦ send_reset s now packet segment
        ]
      ]

  unfoldable pub handle_tcp : Stack T → T → ℕ → Ipv4Packet → Stack T × Option (Unit {0})
  unfolding route_segment
  handle_tcp s now random packet =
      given s (Codec.parse packet.payload (some packet.src) (some packet.dst) true) (λ segment.
        let counted = record s { stats = record s.stats { tcp_in = s.stats.tcp_in + 1 } } in
        route_segment counted now random packet segment)

  unfoldable pub dispatch_ipv4 : Stack T → T → ℕ → Ipv4Packet → Stack T
  unfolding catching handle_icmp handle_tcp handle_udp
  dispatch_ipv4 s now random packet =
      let p = packet.protocol in
      if p == proto_icmp
      then catching (handle_icmp s now packet)
      else if p == proto_tcp
      then catching (handle_tcp s now random packet)
      else if p == proto_udp
      then catching (handle_udp s packet)
      else s

  unfoldable pub route_ipv4 : Stack T → T → ℕ → Ipv4Packet → Stack T
  unfolding drop_frame dispatch_ipv4
  route_ipv4 s now random packet =
      if not (same_bytes packet.dst s.ip) && not (same_bytes packet.dst ip_broadcast)
      then drop_frame s
      else dispatch_ipv4 s now random packet

  -- A fragment waits until its datagram is whole.
  unfoldable pub reassemble : Stack T → T → Ipv4Packet → Stack T × Option Ipv4Packet
  reassemble s now packet =
      let (reassembler, out) = Reassembly.add s.reassembler now packet in
      if is_fragmented packet
      then (record s { reassembler = reassembler }, out)
      else (s, some packet)

  unfoldable pub handle_ipv4_frame : Stack T → T → ℕ → EthernetFrame → Stack T
  unfolding count_malformed reassemble route_ipv4
  handle_ipv4_frame s now random frame = elim (Ipv4.parse frame.payload) [
    | none ↦ count_malformed s
    | some packet ↦
        let counted = record s { stats = record s.stats { ipv4_in = s.stats.ipv4_in + 1 } } in
        let (kept, out) = reassemble counted now packet in
        elim out [ none ↦ kept | some whole ↦ route_ipv4 kept now random whole ]
  ]

  -- `random` is for the initial sequence number of a connection that the frame may open.
  unfoldable pub handle_frame : Stack T → T → ℕ → Bytes → Stack T
  unfolding catching handle_arp handle_ipv4_frame drop_frame
  handle_frame s now random raw = elim (Ethernet.parse raw) [
    | none ↦ count_malformed s
    | some frame ↦
        if not s.promiscuous && not (accepted_by frame s.mac)
        then drop_frame s
        else if frame.ethertype == ethertype_arp
        then catching (handle_arp s now frame)
        else if frame.ethertype == ethertype_ipv4
        then handle_ipv4_frame s now random frame
        else drop_frame s
  ]
