-- ===== src/Congestion/Recovery.antt =====
-- Fast retransmit: when it is asked for, and what ends the recovery that it starts.
use mini_tcp.Base.{
  ℕ, zero, suc, ◌+◌, ◌*◌, ◌/◌, ◌≤◌, ◌<◌, ◌≡◌, refl, true, false, Option, some, arith, leb, min, max,
  if◌then◌else◌, ltb, not, Bool, ◌∙◌, ap₂,
}
use mini_tcp.Seqno.{seq_half, seq_ge}
use mini_tcp.Seqno.Order.{wire, seq_cmp-wire}
use mini_tcp.Congestion.{
  RenoCongestion, Mode, slow_start, congestion_avoidance, fast_recovery, grow, leave_recovery,
  on_ack, on_duplicate_ack, is_recovery, max_cwnd,
}

-- The state after `n` duplicate ACKs in a row, and how many of them asked for a retransmission.
pub duplicates : ℕ → RenoCongestion → Option ℕ → RenoCongestion × ℕ
duplicates zero r a = (r, 0)
duplicates (suc n) r a =
    let (r', fast) = on_duplicate_ack r a in
    let (r'', count) = duplicates n r' a in (r'', if fast then count + 1 else count)

stays :
    (n : ℕ) (r : RenoCongestion) (a : Option ℕ)
    → is_recovery r.state ≡ true
    → ((duplicates n r a).1 ≡ 0) × (is_recovery (duplicates n r a).0.state ≡ true)
unfolding duplicates on_duplicate_ack
stays zero r a h = (refl, h)
stays (suc n) r a h =
    ground (arith, stays n (record r { cwnd = min (r.cwnd + r.mss) max_cwnd }) a h)

counts :
    (n : ℕ) (r : RenoCongestion) (a : Option ℕ)
    → is_recovery r.state ≡ false
    → r.duplicate_acks ≤ 2
    → ((duplicates n r a).1 ≡ (if leb 3 (r.duplicate_acks + n) then 1 else 0))
      × (is_recovery (duplicates n r a).0.state ≡ leb 3 (r.duplicate_acks + n))
unfolding duplicates on_duplicate_ack
counts zero r a h k = ground arith
counts (suc n) r a h k = ground (
  arith,
  counts n (record r { duplicate_acks = r.duplicate_acks + 1 }) a h,
  stays n (on_duplicate_ack r a).0 a,
)

-- From a state outside recovery with no duplicate ACK counted, a run of `n` of them asks for one fast
-- retransmit and begins recovery if `n` is at least 3, and does neither otherwise.
pub duplicates_lem :
    (n : ℕ) (r : RenoCongestion) (a : Option ℕ)
    → is_recovery r.state ≡ false
    → r.duplicate_acks ≡ 0
    → ((duplicates n r a).1 ≡ (if leb 3 n then 1 else 0))
      × (is_recovery (duplicates n r a).0.state ≡ leb 3 n)
duplicates_lem n r a h k = ground (arith, counts n r a h)

-- Further duplicates during recovery change neither the threshold nor the point at which it ends.
recovering :
    (n : ℕ) (r : RenoCongestion) (a : Option ℕ)
    → is_recovery r.state ≡ true
    → let s = (duplicates n r a).0 in
      (is_recovery s.state ≡ true)
      × ((s.recover ≡ r.recover) × ((s.ssthresh ≡ r.ssthresh) × (s.mss ≡ r.mss)))
unfolding duplicates on_duplicate_ack
recovering zero r a h = (h, (refl, (refl, refl)))
recovering (suc n) r a h =
    rw h (recovering n (record r { cwnd = min (r.cwnd + r.mss) max_cwnd }) a h)

-- Duplicates of `p`, of which one is the third, begin a recovery up to `p`.
begun :
    (n : ℕ) (r : RenoCongestion) (p : ℕ)
    → is_recovery r.state ≡ false
    → r.duplicate_acks ≤ 2
    → 3 ≤ r.duplicate_acks + n
    → let s = (duplicates n r (some p)).0 in
      (is_recovery s.state ≡ true)
      × ((s.recover ≡ p) × ((s.ssthresh ≡ max (r.cwnd / 2) (2 * r.mss)) × (s.mss ≡ r.mss)))
unfolding duplicates on_duplicate_ack
begun zero r p h k l = absurd (omega (arith, k, l))
begun (suc n) r p h k l = ground (
  arith,
  begun n (record r { duplicate_acks = r.duplicate_acks + 1 }) p h,
  recovering n (on_duplicate_ack r (some p)).0 (some p),
)

grow_keeps :
    (t : RenoCongestion) (m : ℕ) (mode : Mode)
    → is_recovery mode ≡ true
    → (grow t m mode).state ≡ t.state
unfolding grow
grow_keeps t m slow_start h = absurd cc
grow_keeps t m congestion_avoidance h = absurd cc
grow_keeps t m fast_recovery h = refl

-- An acknowledgement during recovery: it ends the recovery if it reaches the point, and it does not otherwise.
ended :
    (t : RenoCongestion) (m q : ℕ) (reached : Bool)
    → is_recovery t.state ≡ true
    → 0 < m
    → seq_ge q t.recover ≡ reached
    → let s = on_ack t m (some q) in
      (is_recovery s.state ≡ not reached) × (reached ≡ true → s.cwnd ≡ max t.ssthresh t.mss)
unfolding on_ack leave_recovery
ended t m q true a l e = ground (arith, l)
ended t m q false a l e = ground (arith, l, grow_keeps t m t.state a)

-- From a state outside recovery with no duplicate counted, after three or more duplicates of
-- acknowledgement `p`, an acknowledgement `q` of new bytes, less than 2 ^ 31 before or behind `p`, ends
-- the recovery exactly if `q` is not before `p`. The window is then half the old one, but at least two
-- segments.
pub recovery_ends_at :
    (n m : ℕ) (r : RenoCongestion) (base p q : ℕ)
    → is_recovery r.state ≡ false
    → r.duplicate_acks ≡ 0
    → 3 ≤ n
    → 0 < m
    → p < q + seq_half
    → q < p + seq_half
    → let s = on_ack (duplicates n r (some (wire base p))).0 m (some (wire base q)) in
      (is_recovery s.state ≡ ltb q p) × (p ≤ q → s.cwnd ≡ max (max (r.cwnd / 2) (2 * r.mss)) r.mss)
recovery_ends_at n m r base p q h k many l before behind =
    let t = (duplicates n r (some (wire base p))).0 in
    let (a, (b, (c, d))) = begun n r (wire base p) h (omega (arith, k)) (omega (arith, k, many)) in
    let end =
      ended t m (wire base q) (leb p q) a l (rw b (seq_cmp-wire base q p behind before).2) in
    (end.0 ∙ ground arith, λ h. end.1 (ground (arith, h)) ∙ ap₂ max c d)
