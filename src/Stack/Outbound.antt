-- ===== src/Stack/Outbound.antt =====
-- How the stack sends (minitcp/stack.py: `send_ipv4`, `_next_hop`, `_emit`, `_park_pending`,
-- `_flush_pending`, `_send_arp_request`). A step returns the stack and what the method returns, or
-- `none` where it raises a ValueError. The link takes every frame.
use mini_tcp.Base.{
  ℕ, ◌+◌, Bool, true, false, Option, none, some, List, [], ◌∷◌, ◌++◌, ltb, ◌==◌, if◌then◌else◌,
  Bytes, length, replicate, same_bytes,
}
use mini_tcp.Time.{TimeOps}
use mini_tcp.Ethernet
use mini_tcp.Ethernet.{ethertype_ipv4, ethertype_arp, broadcast_mac}
use mini_tcp.Arp
use mini_tcp.Arp.{arp_request}
use mini_tcp.Arp.Cache
use mini_tcp.Ipv4
use mini_tcp.Ipv4.{Ipv4Packet}
use mini_tcp.Ipv4.Address.{same_subnet}
use mini_tcp.Stack.{Stack, Stats}

abbrev pub ip_broadcast : Bytes
ip_broadcast = replicate 4 0xff

-- The rest of a method after a call that may raise, and after a value that may not exist.
module _ {T : Type 0} {A B : Type 0} where
  abbrev pub and_then : Stack T × Option A → (Stack T → A → Stack T × Option B) → Stack T × Option B
  and_then (s, none) k = (s, none)
  and_then (s, some a) k = k s a

  abbrev pub given : Stack T → Option A → (A → Stack T × Option B) → Stack T × Option B
  given s none k = (s, none)
  given s (some a) k = k a

unfoldable pub count_emitted : Stats → ℕ → Stats
count_emitted stats ethertype = record stats {
  frames_out = stats.frames_out + 1;
  ipv4_out = if ethertype == ethertype_ipv4 then stats.ipv4_out + 1 else stats.ipv4_out;
}

-- The packets that wait for an address.
unfoldable pub waiting : Bytes → List (Bytes × List Ipv4Packet) → List Ipv4Packet
waiting ip [] = []
waiting ip ((k, queue) ∷ m) = let rest = waiting ip m in if same_bytes k ip then queue else rest

unfoldable pub set_waiting :
    Bytes → List Ipv4Packet → List (Bytes × List Ipv4Packet) → List (Bytes × List Ipv4Packet)
set_waiting ip new [] = (ip, new) ∷ []
set_waiting ip new ((k, queue) ∷ m) =
    let rest = set_waiting ip new m in if same_bytes k ip then (k, new) ∷ m else (k, queue) ∷ rest

unfoldable pub forget_waiting :
    Bytes → List (Bytes × List Ipv4Packet) → List (Bytes × List Ipv4Packet)
forget_waiting ip [] = []
forget_waiting ip ((k, queue) ∷ m) =
    let rest = forget_waiting ip m in if same_bytes k ip then m else (k, queue) ∷ rest

module _ {T : Type 0} where
  -- `none` where the lengths differ.
  unfoldable pub next_hop : Stack T → Bytes → Option Bytes
  next_hop s dst = elim (same_subnet dst s.ip s.netmask) [
    | none ↦ none
    | some true ↦ some dst
    | some false ↦ elim s.gateway [ none ↦ some dst | some gateway ↦ some gateway ]
  ]

  unfoldable pub emit : Stack T → Bytes → ℕ → Bytes → Stack T × Option (Unit {0})
  unfolding count_emitted
  emit s dst_mac ethertype payload =
      let counted = record s { stats = count_emitted s.stats ethertype } in
      given counted
        (Ethernet.to_bytes
          (record { dst = dst_mac; src = s.mac; ethertype = ethertype; payload = payload }) true)
        (λ raw. (record counted { link_out = raw ∷ counted.link_out }, some tt))

  unfoldable pub arp_request_for : Stack T → Bytes → Arp.ArpPacket
  arp_request_for s target_ip = record {
    operation = arp_request;
    sender_mac = s.mac;
    sender_ip = s.ip;
    target_mac = replicate 6 0;
    target_ip = target_ip;
    hardware_type = Arp.hardware_ethernet;
    protocol_type = ethertype_ipv4;
    hardware_len = 6;
    protocol_len = 4;
  }

  unfoldable pub send_arp_request : Stack T → Bytes → Stack T × Option (Unit {0})
  unfolding arp_request_for emit
  send_arp_request s target_ip =
      let counted = record s {
        stats = record s.stats { arp_requests_sent = s.stats.arp_requests_sent + 1 };
      } in
      given counted (Arp.to_bytes (arp_request_for s target_ip))
        (λ raw. emit counted broadcast_mac ethertype_arp raw)

  unfoldable pub park_pending : Stack T → Bytes → Ipv4Packet → Stack T × Option (Unit {0})
  unfolding waiting set_waiting send_arp_request
  park_pending s ip packet =
      let queue = waiting ip s.arp_pending in
      let full = record s {
        arp_pending = set_waiting ip queue s.arp_pending;
        stats = record s.stats { frames_dropped = s.stats.frames_dropped + 1 };
      } in
      let parked = record s {
        arp_pending = set_waiting ip (queue ++ (packet ∷ [])) s.arp_pending;
      } in
      if ltb (length queue) s.max_arp_pending then send_arp_request parked ip else (full, some tt)

  -- The packets in order, until one cannot be printed.
  unfoldable pub emit_all : Stack T → Bytes → List Ipv4Packet → Stack T × Option (Unit {0})
  unfolding emit
  emit_all s mac [] = (s, some tt)
  emit_all s mac (packet ∷ queue) =
      and_then (given s (Ipv4.to_bytes packet) (λ raw. emit s mac ethertype_ipv4 raw))
        (λ s' _. emit_all s' mac queue)

  unfoldable pub flush_pending : Stack T → Bytes → Bytes → Stack T × Option (Unit {0})
  unfolding waiting forget_waiting emit_all
  flush_pending s ip mac =
      emit_all (record s { arp_pending = forget_waiting ip s.arp_pending }) mac
        (waiting ip s.arp_pending)

module _ {T : Type 0} ⦃ops : TimeOps T⦄ where
  -- Towards a next hop whose hardware address may be known.
  unfoldable pub send_towards : Stack T → Bytes → Option Bytes → Ipv4Packet → Stack T × Option Bool
  unfolding park_pending emit
  send_towards s hop none packet = and_then (park_pending s hop packet) (λ s' _. (s', some false))
  send_towards s hop (some mac) packet =
      given s (Ipv4.to_bytes packet)
        (λ raw. and_then (emit s mac ethertype_ipv4 raw) (λ s' _. (s', some true)))

  -- `false` is returned for a packet that had to be parked.
  unfoldable pub send_ipv4 : Stack T → T → Ipv4Packet → Stack T × Option Bool
  unfolding next_hop send_towards emit
  send_ipv4 s now packet =
      if same_bytes packet.dst ip_broadcast
      then given s (Ipv4.to_bytes packet)
          (λ raw. and_then (emit s broadcast_mac ethertype_ipv4 raw) (λ s' _. (s', some true)))
      else given s (next_hop s packet.dst) (λ hop.
        let (arp_cache, mac) = Cache.lookup s.arp_cache hop now in
        send_towards (record s { arp_cache = arp_cache }) hop mac packet)
