-- ===== src/Stack/Quiet.antt =====
-- What the stack answers, and what it leaves alone (minitcp/stack.py).
use mini_tcp.Base.{
  ℕ, ◌≡◌, ◌≢◌, refl, Bool, true, false, ◌&&◌, Option, none, some, List, ◌==◌, if◌then◌else◌, Bytes,
  same_bytes, arith, ltb, length, Bool-cases, inl, inr,
}
use mini_tcp.Time.{TimeOps}
use mini_tcp.Ethernet.{EthernetFrame, ethertype_arp}
use mini_tcp.Arp
use mini_tcp.Arp.{is_request, is_reply}
use mini_tcp.Arp.Cache
use mini_tcp.Icmp
use mini_tcp.Icmp.{echo_reply, echo_request, from_icmp, to_icmp}
use mini_tcp.Udp
use mini_tcp.Udp.{proto_udp}
use mini_tcp.Segment.Codec.{proto_tcp}
use mini_tcp.Segment.{TcpSegment, is_rst, is_ack}
use mini_tcp.Connection.{Connection}
use mini_tcp.Ipv4.{Ipv4Packet}
use mini_tcp.Stack.{Stack, FourTuple, Registered, allocate_id}
use mini_tcp.Stack.Outbound.{waiting, park_pending, send_ipv4, flush_pending}
use mini_tcp.Stack.Keeps.{
  if-keeps, given-keeps, and_then-keeps, emit-keeps, emit_all-keeps, send_arp_request-keeps,
  send_ipv4-keeps,
}
use mini_tcp.Stack.Tcp.{find_connection, find_listener}
use mini_tcp.Stack.Inbound.{
  has_handler, reset_for, reply_to, send_reset, route_segment, catching, count_malformed,
  handle_udp, handle_icmp, answer_arp, handle_arp, dispatch_ipv4, proto_icmp,
}

reset_for-is_rst : (segment : TcpSegment) → is_rst (reset_for segment) ≡ true
unfolding reset_for is_rst
reset_for-is_rst segment = elim (Bool-cases (is_ack segment)) [
  | inl acks ↦ rw acks refl
  | inr bare ↦ rw bare refl
]

module _ {T : Type 0} ⦃ops : TimeOps T⦄ where
  -- The reset that answers a segment is itself not answered: a stack where nothing owns its port takes
  -- it and stays as it is.
  pub reset_unanswered :
      (s : Stack T) (now : T) (random : ℕ) (packet : Ipv4Packet) (segment : TcpSegment)
      → find_connection
          (record {
            local_ip = packet.dst;
            local_port = segment.src_port;
            remote_ip = packet.src;
            remote_port = segment.dst_port;
          })
          s.connections
        ≡ none
      → find_listener segment.src_port s.listeners ≡ none
      → route_segment s now random packet (reset_for segment) ≡ (s, some tt)
  unfolding route_segment send_reset
  reset_unanswered s now random packet segment e e' =
      unfold reset_for in rw (route_segment, e, e', send_reset, reset_for-is_rst segment) refl

-- The tables of the TCP layer.
module _ {T : Type 0} where
  abbrev pub tables :
      Stack T
      → List (FourTuple × Registered T) × (List (ℕ × Connection T) × List (ℕ × List FourTuple))
  tables s = (s.connections, (s.listeners, s.accept_queues))

module _ {T : Type 0} (before : Stack T) where
  -- A stack whose TCP tables are those of `before`.
  abbrev IsSame : Stack T → Type 0
  IsSame s = tables s ≡ tables before

  park_pending-IsSame :
      (s : Stack T) (ip : Bytes) (packet : Ipv4Packet)
      → IsSame s
      → IsSame (park_pending s ip packet).0
  unfolding park_pending
  park_pending-IsSame s ip packet h =
      if-keeps IsSame (ltb (length (waiting ip s.arp_pending)) s.max_arp_pending) _ _
        (send_arp_request-keeps IsSame (λ s stats out h'. h') _ ip h) h

  either-IsSame : (b : Bool) (x y : Stack T) → IsSame x → IsSame y → IsSame (if b then x else y)
  either-IsSame true x y h k = h
  either-IsSame false x y h k = k

  catching-IsSame : (x : Stack T × Option (Unit {0})) → IsSame x.0 → IsSame (catching x)
  unfolding catching count_malformed
  catching-IsSame (s, none) h = h
  catching-IsSame (s, some _) h = h

  handle_udp-IsSame :
      (s : Stack T) (packet : Ipv4Packet) → IsSame s → IsSame (handle_udp s packet).0
  unfolding handle_udp
  handle_udp-IsSame s packet h =
      given-keeps IsSame s (Udp.parse packet.payload packet.src packet.dst) _ h
        (λ segment. either-IsSame (has_handler segment.dst_port s.udp_handlers) _ _ h h)

  module _ ⦃ops : TimeOps T⦄ where
    send_ipv4-IsSame :
        (s : Stack T) (now : T) (packet : Ipv4Packet) → IsSame s → IsSame (send_ipv4 s now packet).0
    send_ipv4-IsSame s now packet h =
        send_ipv4-keeps IsSame (λ s stats out h'. h') park_pending-IsSame (λ s cache h'. h') s now
          packet h

    handle_icmp-IsSame :
        (s : Stack T) (now : T) (packet : Ipv4Packet)
        → IsSame s
        → IsSame (handle_icmp s now packet).0
    unfolding handle_icmp allocate_id
    handle_icmp-IsSame s now packet h =
        given-keeps IsSame s (Icmp.parse packet.payload) _ h (λ message.
          if-keeps IsSame (message.kind == echo_request) _ _
            (given-keeps IsSame s (from_icmp message) _ h (λ echo.
              given-keeps IsSame _ (Icmp.to_bytes (to_icmp echo echo_reply)) _ h
                (λ raw. and_then-keeps IsSame _ _ (send_ipv4-IsSame _ now _ h) (λ s' _ h'. h'))))
            h)

    handle_arp-IsSame :
        (s : Stack T) (now : T) (frame : EthernetFrame)
        → IsSame s
        → IsSame (handle_arp s now frame).0
    unfolding handle_arp answer_arp flush_pending
    handle_arp-IsSame s now frame h = given-keeps IsSame s (Arp.parse frame.payload) _ h (λ p.
        given-keeps IsSame s (Cache.store s.arp_cache p.sender_ip p.sender_mac now) _ h (λ cache.
          if-keeps IsSame (is_request p && same_bytes p.target_ip s.ip) _ _
            (given-keeps IsSame _ (Arp.to_bytes (reply_to (record s { arp_cache = cache }) p)) _ h
              (λ raw. emit-keeps IsSame (λ s stats out h'. h') _ p.sender_mac ethertype_arp raw h))
            (if-keeps IsSame (is_reply p) _ _
              (emit_all-keeps IsSame (λ s stats out h'. h') _ p.sender_mac
                (waiting p.sender_ip s.arp_pending) h)
              h)))

module _ {T : Type 0} ⦃ops : TimeOps T⦄ where
  -- A datagram that is not TCP, and an ARP frame, leave the connections, the listeners and the accept
  -- queues as they are, whatever they contain and whatever goes wrong.
  pub tables_kept :
      (s : Stack T) (now : T) (random : ℕ) (packet : Ipv4Packet) (frame : EthernetFrame)
      → packet.protocol ≢ 6
      → (tables (dispatch_ipv4 s now random packet) ≡ tables s)
        × (tables (handle_arp s now frame).0 ≡ tables s)
  unfolding dispatch_ipv4
  tables_kept s now random packet frame other =
      let not_tcp : (packet.protocol == proto_tcp) ≡ false = ground (arith, other) in
      (
        rw not_tcp (
            either-IsSame s (packet.protocol == proto_icmp) _ _
              (catching-IsSame s _ (handle_icmp-IsSame s s now packet refl))
              (either-IsSame s (packet.protocol == proto_udp) _ _
                (catching-IsSame s _ (handle_udp-IsSame s s packet refl)) refl)),
        handle_arp-IsSame s s now frame refl,
      )
