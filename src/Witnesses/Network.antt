-- ===== src/Witnesses/Network.antt =====
-- A stack on one link, with one packet that waits for an address.
use mini_tcp.Base.{
  ◌≢◌, length, ℕ, ◌+◌, ◌≡◌, ◌↔◌, refl, true, false, none, some, [], ◌∷◌, if◌then◌else◌, leb, arith,
  Bytes,
}
use mini_tcp.Witnesses.{milliseconds, segment_from_peer}
use mini_tcp.Witnesses.Packets.{
  here, there, mac_here, mac_there, of_some, ip_packet, ip_raw, ip_printed, ether,
}
use mini_tcp.Arp.Cache.{ArpCache, lookup, store}
use mini_tcp.Arp.Cache.Laws.{lookup-store}
use mini_tcp.Ethernet
use mini_tcp.Icmp
use mini_tcp.Icmp.{EchoMessage, to_icmp, echo_request, echo_reply}
use mini_tcp.Ipv4.{Ipv4Packet}
use mini_tcp.Stack.Ping.{reply_datagram}
use mini_tcp.Ipv4
use mini_tcp.Stack.{Stack, Stats, allocate_id, allocate_port, port_in_use}
use mini_tcp.Wire.Writer
use mini_tcp.Wire.Reader
use mini_tcp.Wire.Checksum.{checksum, ones_complement_sum, fold, word_sum}
use mini_tcp.Ipv4.Address.{same_subnet}
use mini_tcp.Stack.Tcp.{find_connection, find_listener, own_packet}
use mini_tcp.Stack.Outbound.{waiting, send_ipv4, flush_pending, park_pending}
use mini_tcp.Stack.Inbound.{
  handle_frame, handle_icmp, dispatch_ipv4, handle_arp, route_segment, reset_for,
}
use mini_tcp.Stack.Numbers.{port_before, IsEphemeral, allocate_port_free, allocate_port_fails}
use mini_tcp.Stack.Pending.{IsBounded, pending-IsBounded}
use mini_tcp.Stack.Flush.{push_all, flush-park}
use mini_tcp.Stack.Quiet.{tables, tables_kept, reset_unanswered}

abbrev no_stats : Stats
no_stats = record {
  frames_out = 0;
  frames_dropped = 0;
  ipv4_in = 0;
  ipv4_out = 0;
  arp_requests_sent = 0;
  arp_replies_sent = 0;
  icmp_echo_replied = 0;
  tcp_in = 0;
  tcp_out = 0;
  udp_in = 0;
  udp_out = 0;
  malformed = 0;
  errors = 0;
}

abbrev cache : ArpCache ℕ
cache = record { entries = []; timeout = 300; max_entries = 1 }

abbrev stack : Stack ℕ
stack = record {
  mac = mac_here;
  ip = here;
  netmask = 255 ∷ 255 ∷ 255 ∷ 0 ∷ [];
  gateway = none;
  promiscuous = false;
  receive_capacity = 65535;
  max_arp_pending = 2;
  arp_cache = cache;
  reassembler = record { sets = []; timeout = 30; max_pending = 64; reassembled = 0; dropped = 0 };
  connections = [];
  listeners = [];
  accept_queues = [];
  udp_handlers = [];
  arp_pending = (there, ip_packet ∷ []) ∷ [];
  next_port = 49152;
  next_id = 1;
  stats = no_stats;
  link_out = [];
  handled = [];
}

abbrev learned : ArpCache ℕ
learned = record cache { entries = (there, record { mac = mac_there; expires_at = 305 }) ∷ [] }

lookup-store_example :
    (lookup learned there 9).1 ≡ (if leb (5 + cache.timeout) 9 then none else some mac_there)
lookup-store_example = lookup-store cache learned there mac_there 5 9 (unfold store in refl)

pending-IsBounded_example :
    IsBounded (send_ipv4 stack 9 ip_packet).0 × IsBounded (flush_pending stack there mac_there).0
pending-IsBounded_example = pending-IsBounded stack 9 ip_packet there mac_there (omega arith, tt)

abbrev ip_frame : Bytes
ip_frame = of_some (
    Ethernet.to_bytes
      (record { dst = mac_there; src = mac_here; ethertype = 0x0800; payload = ip_raw }) true)

flush-park_example :
    (flush_pending (park_pending stack there ip_packet).0 there mac_there).0.link_out
    ≡ push_all (ip_frame ∷ ip_frame ∷ []) (park_pending stack there ip_packet).0.link_out
flush-park_example =
    flush-park stack there mac_there ip_packet (ip_frame ∷ ip_frame ∷ [])
      (unfold waiting in omega arith) (unfold waiting in (carried, (carried, tt)))
  where
    framed :
        Ethernet.to_bytes
          (record { dst = mac_there; src = mac_here; ethertype = 0x0800; payload = ip_raw })
          true
        ≡ some ip_frame
    framed = unfold Ethernet.to_bytes Writer.u16 Writer.raw Writer.make in refl

    carried :
        (raw : Bytes) × ((Ipv4.to_bytes ip_packet ≡ some raw)
          × (Ethernet.to_bytes
                (record { dst = mac_there; src = mac_here; ethertype = 0x0800; payload = raw })
                true
              ≡ some ip_frame))
    carried = (ip_raw, (ip_printed, framed))

allocate_port_free_example :
    (port_in_use stack 49152 ≡ false)
    × (IsEphemeral 49152 × IsEphemeral (allocate_port stack).0.next_port)
allocate_port_free_example =
    allocate_port_free stack 49152 (omega arith, omega arith) (unfold allocate_port in refl)

allocate_port_fails_example : ((allocate_port stack).1 ≡ none) ↔ (
    (port : ℕ)
    → IsEphemeral port
    → port ≢ port_before stack.next_port
    → port_in_use stack port ≡ true)
allocate_port_fails_example = allocate_port_fails stack (omega arith, omega arith)

tables_kept_example :
    (tables (dispatch_ipv4 stack 9 0 ip_packet) ≡ tables stack)
    × (tables (handle_arp stack 9 ether).0 ≡ tables stack)
tables_kept_example = tables_kept stack 9 0 ip_packet ether (λ e. absurd (omega (arith, e)))

reset_unanswered_example :
    route_segment stack 9 0 ip_packet (reset_for (segment_from_peer 5 6 16 [])) ≡ (stack, some tt)
reset_unanswered_example =
    reset_unanswered stack 9 0 ip_packet (segment_from_peer 5 6 16 [])
      (unfold find_connection in refl) (unfold find_listener in refl)

-- A test: a ping in a frame, to a stack that knows the sender, is answered with one frame.
abbrev ping_frame : Bytes
ping_frame = of_some (
    Ethernet.to_bytes
      (record {
        dst = mac_here;
        src = mac_there;
        ethertype = 0x0800;
        payload = of_some (
            Ipv4.to_bytes (record ip_packet {
              src = there;
              dst = here;
              protocol = 1;
              payload =
                  of_some (
                    Icmp.to_bytes (record { kind = 8; code = 0; body = 0 ∷ 1 ∷ 0 ∷ 2 ∷ 104 ∷ [] }));
            }));
      })
      true)

abbrev after_ping : Stack ℕ
after_ping = handle_frame (record stack { arp_cache = learned }) 9 0 ping_frame

ping_is_answered : (after_ping.stats.icmp_echo_replied ≡ 1) × (length after_ping.link_out ≡ 1)
unfolding handle_frame Ethernet.parse Ethernet.to_bytes Ethernet.accepted_by Writer.u16 Writer.bytes
    Writer.raw Writer.make Reader.raw Reader.make Reader.u16 Reader.rest Ipv4.to_bytes
    Ipv4.is_printable Ipv4.total_length Ipv4.pack_header Ipv4.parse Ipv4.decode Ipv4.is_fragmented
    Icmp.to_bytes Icmp.parse Icmp.to_icmp Icmp.from_icmp checksum ones_complement_sum fold word_sum
    handle_icmp send_ipv4 own_packet allocate_id same_subnet lookup
ping_is_answered = (refl, refl)

abbrev echo : EchoMessage
echo = record { identifier = 1; sequence = 65538; contents = 104 ∷ [] }

abbrev ping_packet : Ipv4Packet
ping_packet = record ip_packet {
  src = there;
  dst = here;
  protocol = 1;
  payload = of_some (Icmp.to_bytes (to_icmp echo echo_request));
}

abbrev pong_raw : Bytes
pong_raw = of_some (Icmp.to_bytes (to_icmp echo echo_reply))

abbrev knowing : Stack ℕ
knowing = record stack { arp_cache = learned }

abbrev pong_ip : Bytes
pong_ip = of_some (Ipv4.to_bytes (reply_datagram knowing ping_packet pong_raw))

abbrev pong_frame : Bytes
pong_frame = of_some (
    Ethernet.to_bytes
      (record { dst = mac_there; src = mac_here; ethertype = 0x0800; payload = pong_ip }) true)
