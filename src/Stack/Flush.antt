-- ===== src/Stack/Flush.antt =====
-- The order in which waiting packets leave (minitcp/stack.py: `_park_pending`, `_flush_pending`).
use mini_tcp.Base.{
  ◌<◌, ◌≡◌, refl, sym, subst, true, some, List, [], ◌∷◌, ◌++◌, lt→ltb, Bytes, length,
}
use mini_tcp.Ethernet
use mini_tcp.Ethernet.{ethertype_ipv4}
use mini_tcp.Ipv4
use mini_tcp.Ipv4.{Ipv4Packet}
use mini_tcp.Stack.{Stack}
use mini_tcp.Stack.Pending.{waiting-set}
use mini_tcp.Stack.Keeps.{send_arp_request-keeps}
use mini_tcp.Stack.Outbound.{count_emitted, emit, waiting, park_pending, emit_all, flush_pending}

-- The frame that carries each packet to a hardware address.
abbrev pub AreFrames : Bytes → Bytes → List Ipv4Packet → List Bytes → Type 0
AreFrames src mac [] [] = Unit {0}
AreFrames src mac (p ∷ ps) (f ∷ fs) =
    ((raw : Bytes) × ((Ipv4.to_bytes p ≡ some raw)
        × (Ethernet.to_bytes
              (record { dst = mac; src = src; ethertype = ethertype_ipv4; payload = raw }) true
            ≡ some f)))
    × AreFrames src mac ps fs
AreFrames src mac _ _ = ⊥

-- Frames that are sent one after another, on a list that has its newest first.
abbrev pub push_all : List Bytes → List Bytes → List Bytes
push_all [] out = out
push_all (f ∷ fs) out = push_all fs (f ∷ out)

module _ {T : Type 0} where
  unfoldable pub sent_frame : Stack T → Bytes → Stack T
  sent_frame s f = record s {
    stats = count_emitted s.stats ethertype_ipv4;
    link_out = f ∷ s.link_out;
  }

  pub emit_lem :
      (s : Stack T) (mac raw f : Bytes)
      → Ethernet.to_bytes
          (record { dst = mac; src = s.mac; ethertype = ethertype_ipv4; payload = raw })
          true
        ≡ some f
      → emit s mac ethertype_ipv4 raw ≡ (sent_frame s f, some tt)
  unfolding emit sent_frame
  emit_lem s mac raw f e = rw e refl

  emit_all-push_all :
      (queue : List Ipv4Packet) (s : Stack T) (mac : Bytes) (fs : List Bytes)
      → AreFrames s.mac mac queue fs
      → ((emit_all s mac queue).0.link_out ≡ push_all fs s.link_out)
        × ((emit_all s mac queue).1 ≡ some tt)
  unfolding emit_all sent_frame
  emit_all-push_all [] s mac [] h = (refl, refl)
  emit_all-push_all (p ∷ queue) s mac (f ∷ fs) ((raw, (printed, framed)), h) =
      let step : emit_all s mac (p ∷ queue) ≡ emit_all (sent_frame s f) mac queue =
        rw (printed, emit_lem s mac raw f framed) refl in
      subst (λ x. (x.0.link_out ≡ push_all fs (f ∷ s.link_out)) × (x.1 ≡ some tt)) (sym step)
        (emit_all-push_all queue (sent_frame s f) mac fs h)
  emit_all-push_all [] s mac (f ∷ fs) h = absurd h
  emit_all-push_all (p ∷ queue) s mac [] h = absurd h

  -- The queue is as it was, with the packet at its end.
  IsQueued : Stack T → Bytes → List Ipv4Packet → Stack T → Type 0
  IsQueued s ip queue s' = (waiting ip s'.arp_pending ≡ queue) × (s'.mac ≡ s.mac)

  park_pending_lem :
      (s : Stack T) (ip : Bytes) (packet : Ipv4Packet)
      → length (waiting ip s.arp_pending) < s.max_arp_pending
      → IsQueued s ip (waiting ip s.arp_pending ++ (packet ∷ [])) (park_pending s ip packet).0
  unfolding park_pending IsQueued
  park_pending_lem s ip packet room =
      let queue = waiting ip s.arp_pending ++ (packet ∷ []) in
      rw (lt→ltb (length (waiting ip s.arp_pending)) s.max_arp_pending room) (
        send_arp_request-keeps (IsQueued s ip queue) (λ s' stats out h. h) _ ip
          (waiting-set ip queue s.arp_pending, refl))

  -- Where a queue of waiting packets has room, a packet joins it behind the others. If all of them can
  -- be put into frames, then flushing the queue sends these frames in the order in which the packets
  -- were parked.
  pub flush-park :
      (s : Stack T) (ip mac : Bytes) (packet : Ipv4Packet) (fs : List Bytes)
      → length (waiting ip s.arp_pending) < s.max_arp_pending
      → AreFrames s.mac mac (waiting ip s.arp_pending ++ (packet ∷ [])) fs
      → (flush_pending (park_pending s ip packet).0 ip mac).0.link_out
        ≡ push_all fs (park_pending s ip packet).0.link_out
  unfolding flush_pending IsQueued
  flush-park s ip mac packet fs room h =
      let parked = (park_pending s ip packet).0 in
      let (queued, same) = park_pending_lem s ip packet room in
      (emit_all-push_all (waiting ip parked.arp_pending) _ mac fs (
        subst (λ x. AreFrames x mac (waiting ip parked.arp_pending) fs) (sym same)
          (subst (λ x. AreFrames s.mac mac x fs) (sym queued) h))).0
