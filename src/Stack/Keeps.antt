-- ===== src/Stack/Keeps.antt =====
-- What sending preserves (minitcp/stack.py): the steps of Stack/Outbound.antt, for any predicate on the
-- stack that counters, frames sent and the ARP cache play no part in.
use mini_tcp.Base.{
  ℕ, Bool, true, false, Option, none, some, List, [], ◌∷◌, if◌then◌else◌, Bytes, same_bytes,
}
use mini_tcp.Time.{TimeOps}
use mini_tcp.Ethernet.{ethertype_ipv4, ethertype_arp, broadcast_mac}
use mini_tcp.Arp.Cache
use mini_tcp.Arp.Cache.{ArpCache}
use mini_tcp.Ipv4
use mini_tcp.Ipv4.{Ipv4Packet}
use mini_tcp.Stack.{Stack, Stats}
use mini_tcp.Stack.Outbound.{
  and_then, given, next_hop, emit, send_arp_request, park_pending, emit_all, send_towards,
  send_ipv4, ip_broadcast,
}

module _ {T : Type 0} (R : Stack T → Type 0) where
  module _ {A B : Type 0} where
    pub and_then-keeps :
        (x : Stack T × Option A) (k : Stack T → A → Stack T × Option B)
        → R x.0
        → ((s : Stack T) (a : A) → R s → R (k s a).0)
        → R (and_then x k).0
    and_then-keeps (s, none) k h f = h
    and_then-keeps (s, some a) k h f = f s a h

    pub given-keeps :
        (s : Stack T) (o : Option A) (k : A → Stack T × Option B)
        → R s
        → ((a : A) → R (k a).0)
        → R (given s o k).0
    given-keeps s none k h f = h
    given-keeps s (some a) k h f = f a

  module _ {B : Type 0} where
    pub if-keeps : (b : Bool) (x y : Stack T × Option B) → R x.0 → R y.0 → R (if b then x else y).0
    if-keeps true x y h k = h
    if-keeps false x y h k = k

  module _
      (sent : (s : Stack T) (stats : Stats) (link_out : List Bytes)
        → R s
        → R (record s { stats = stats; link_out = link_out })) where
    pub emit-keeps :
        (s : Stack T) (mac : Bytes) (ethertype : ℕ) (payload : Bytes)
        → R s
        → R (emit s mac ethertype payload).0
    unfolding emit
    emit-keeps s mac ethertype payload h =
        given-keeps _ _ _ (sent s _ s.link_out h) (λ raw. sent s _ (raw ∷ s.link_out) h)

    pub send_arp_request-keeps : (s : Stack T) (ip : Bytes) → R s → R (send_arp_request s ip).0
    unfolding send_arp_request
    send_arp_request-keeps s ip h =
        given-keeps _ _ _ (sent s _ s.link_out h)
          (λ raw. emit-keeps _ broadcast_mac ethertype_arp raw (sent s _ s.link_out h))

    pub emit_all-keeps :
        (s : Stack T) (mac : Bytes) (queue : List Ipv4Packet) → R s → R (emit_all s mac queue).0
    unfolding emit_all
    emit_all-keeps s mac [] h = h
    emit_all-keeps s mac (packet ∷ queue) h =
        and_then-keeps _ _
          (given-keeps s (Ipv4.to_bytes packet) _ h (λ raw. emit-keeps s mac ethertype_ipv4 raw h))
          (λ s' _ h'. emit_all-keeps s' mac queue h')

    module _ ⦃ops : TimeOps T⦄
        (parked : (s : Stack T) (ip : Bytes) (packet : Ipv4Packet)
          → R s
          → R (park_pending s ip packet).0)
        (cached : (s : Stack T) (cache : ArpCache T)
          → R s
          → R (record s { arp_cache = cache })) where
      send_towards-keeps :
          (s : Stack T) (hop : Bytes) (mac : Option Bytes) (packet : Ipv4Packet)
          → R s
          → R (send_towards s hop mac packet).0
      unfolding send_towards
      send_towards-keeps s hop none packet h =
          and_then-keeps _ _ (parked s hop packet h) (λ s' _ h'. h')
      send_towards-keeps s hop (some mac) packet h =
          given-keeps s (Ipv4.to_bytes packet) _ h
            (λ raw. and_then-keeps _ _ (emit-keeps s mac ethertype_ipv4 raw h) (λ s' _ h'. h'))

      pub send_ipv4-keeps :
          (s : Stack T) (now : T) (packet : Ipv4Packet) → R s → R (send_ipv4 s now packet).0
      unfolding send_ipv4
      send_ipv4-keeps s now packet h =
          if-keeps (same_bytes packet.dst ip_broadcast) _ _
            (given-keeps s (Ipv4.to_bytes packet) _ h (λ raw.
              and_then-keeps _ _ (emit-keeps s broadcast_mac ethertype_ipv4 raw h) (λ s' _ h'. h')))
            (given-keeps s (next_hop s packet.dst) _ h (λ hop.
              send_towards-keeps _ hop _ packet (cached s (Cache.lookup s.arp_cache hop now).0 h)))
