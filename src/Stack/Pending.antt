-- ===== src/Stack/Pending.antt =====
-- The packets that wait for an address (minitcp/stack.py: `_park_pending`, `_flush_pending`).
use mini_tcp.Base.{
  ℕ, ◌≤◌, ◌≡◌, refl, List, [], ◌∷◌, ltb, arith, Bytes, length, length-append, same_bytes,
  same_bytes_refl, Bool-cases, inl, inr,
}
use mini_tcp.Ipv4.{Ipv4Packet}
use mini_tcp.Time.{TimeOps}
use mini_tcp.Stack.{Stack}
use mini_tcp.Stack.Keeps.{send_arp_request-keeps, emit_all-keeps, send_ipv4-keeps}
use mini_tcp.Stack.Outbound.{
  send_ipv4, waiting, set_waiting, forget_waiting, park_pending, flush_pending,
}

-- Every queue is within the limit.
abbrev pub AllWithin : ℕ → List (Bytes × List Ipv4Packet) → Type 0
AllWithin limit [] = Unit {0}
AllWithin limit ((k, queue) ∷ m) = (length queue ≤ limit) × AllWithin limit m

set_waiting-AllWithin :
    (limit : ℕ) (ip : Bytes) (new : List Ipv4Packet) (m : List (Bytes × List Ipv4Packet))
    → length new ≤ limit
    → AllWithin limit m
    → AllWithin limit (set_waiting ip new m)
unfolding set_waiting
set_waiting-AllWithin limit ip new [] n h = (n, tt)
set_waiting-AllWithin limit ip new ((k, queue) ∷ m) n h =
    ground (arith, set_waiting-AllWithin limit ip new m n h.1)

waiting-within :
    (limit : ℕ) (ip : Bytes) (m : List (Bytes × List Ipv4Packet))
    → AllWithin limit m
    → length (waiting ip m) ≤ limit
unfolding waiting
waiting-within limit ip [] h = omega arith
waiting-within limit ip ((k, queue) ∷ m) h = ground (arith, waiting-within limit ip m h.1)

pub waiting-set :
    (ip : Bytes) (new : List Ipv4Packet) (m : List (Bytes × List Ipv4Packet))
    → waiting ip (set_waiting ip new m) ≡ new
unfolding waiting set_waiting
waiting-set ip new [] = rw (same_bytes_refl ip) refl
waiting-set ip new ((k, queue) ∷ m) = elim (Bool-cases (same_bytes k ip)) [
  | inl same ↦ rw (same, same) refl
  | inr other ↦ rw (other, other) (waiting-set ip new m)
]

forget_waiting-AllWithin :
    (limit : ℕ) (ip : Bytes) (m : List (Bytes × List Ipv4Packet))
    → AllWithin limit m
    → AllWithin limit (forget_waiting ip m)
unfolding forget_waiting
forget_waiting-AllWithin limit ip [] h = tt
forget_waiting-AllWithin limit ip ((k, queue) ∷ m) h =
    ground (arith, forget_waiting-AllWithin limit ip m h.1)

module _ {T : Type 0} where
  -- No queue is longer than the limit of the stack.
  abbrev pub IsBounded : Stack T → Type 0
  IsBounded s = AllWithin s.max_arp_pending s.arp_pending

  park_pending-IsBounded :
      (s : Stack T) (ip : Bytes) (packet : Ipv4Packet)
      → IsBounded s
      → IsBounded (park_pending s ip packet).0
  unfolding park_pending
  park_pending-IsBounded s ip packet h =
      elim (Bool-cases (ltb (length (waiting ip s.arp_pending)) s.max_arp_pending)) [
        | inl room ↦ rw room (
            send_arp_request-keeps IsBounded (λ s stats out h'. h') _ ip
              (set_waiting-AllWithin s.max_arp_pending ip _ s.arp_pending
                (ground (arith, length-append (waiting ip s.arp_pending) (packet ∷ []))) h))
        | inr full ↦ rw full (
            set_waiting-AllWithin s.max_arp_pending ip _ s.arp_pending
              (waiting-within s.max_arp_pending ip s.arp_pending h) h)
      ]

  -- Sending a datagram, and sending those that waited for an address, keep every queue of waiting
  -- packets within the limit of the stack.
  pub pending-IsBounded :
      ⦃ops : TimeOps T⦄
      → (s : Stack T) (now : T) (packet : Ipv4Packet) (ip mac : Bytes) → IsBounded s
      → IsBounded (send_ipv4 s now packet).0 × IsBounded (flush_pending s ip mac).0
  unfolding flush_pending
  pending-IsBounded s now packet ip mac h = (
    send_ipv4-keeps IsBounded (λ s stats out h'. h') park_pending-IsBounded (λ s cache h'. h') s now
        packet h,
    emit_all-keeps IsBounded (λ s stats out h'. h') _ mac (waiting ip s.arp_pending)
        (forget_waiting-AllWithin s.max_arp_pending ip s.arp_pending h),
  )
