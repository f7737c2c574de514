-- ===== src/Congestion/Window.antt =====
-- Bounds on the congestion window.
use mini_tcp.Base.{
  ℕ, ◌+◌, ◌*◌, ◌/◌, ◌≤◌, ◌<◌, ◌≡◌, refl, true, false, Option, none, arith, ◌==◌, max, Bool-cases,
  inl, inr,
}
use mini_tcp.Congestion.{
  RenoCongestion, Mode, slow_start, congestion_avoidance, fast_recovery, make, grow, leave_recovery,
  on_ack, on_duplicate_ack, on_timeout, on_partial_ack, effective_window, is_recovery, max_cwnd,
}

-- The window never falls below one segment, and in recovery the threshold is at least two.
pub record IsValid (r : RenoCongestion) : Type 0 where
  pub positive : 0 < r.mss
  pub segment_fits : r.mss ≤ max_cwnd
  pub one_segment : r.mss ≤ r.cwnd
  pub threshold : is_recovery r.state ≡ true → 2 * r.mss ≤ r.ssthresh

pub data Event : Type 0 where
  ack : ℕ → Option ℕ → Event
  duplicate : Option ℕ → Event
  timeout : Event
  partial : ℕ → Event

pub step : RenoCongestion → Event → RenoCongestion
step r (ack bytes_acked number) = on_ack r bytes_acked number
step r (duplicate number) = (on_duplicate_ack r number).0
step r timeout = on_timeout r
step r (partial number) = on_partial_ack r number

pub make-IsValid :
    (mss : ℕ) (ssthresh : Option ℕ) → 0 < mss → mss ≤ max_cwnd → IsValid (make mss none ssthresh)
unfolding make
make-IsValid mss ssthresh h k = ground arith

grow-IsValid :
    (r : RenoCongestion) (n : ℕ) (m : Mode) → r.state ≡ m → IsValid r → IsValid (grow r n m)
unfolding grow
grow-IsValid r n slow_start e v = ground (arith, v.threshold)
grow-IsValid r n congestion_avoidance e v = ground (arith, v.threshold)
grow-IsValid r n fast_recovery e v = ground (arith, v.threshold)

leave_recovery-IsValid : (r : RenoCongestion) → IsValid r → IsValid (leave_recovery r)
unfolding leave_recovery
leave_recovery-IsValid r v = ground (arith, v.threshold)

on_ack-IsValid : (r : RenoCongestion) (n : ℕ) (a : Option ℕ) → IsValid r → IsValid (on_ack r n a)
unfolding on_ack
on_ack-IsValid r n a v = ground (arith, leave_recovery-IsValid r v, grow-IsValid r n r.state refl v)

on_duplicate_ack-IsValid :
    (r : RenoCongestion) (a : Option ℕ) → IsValid r → IsValid (on_duplicate_ack r a).0
unfolding on_duplicate_ack
on_duplicate_ack-IsValid r a v = ground (arith, v.threshold)

-- From a valid state every event keeps the congestion window at one segment or more, and the threshold at two segments
-- or more while recovery lasts.
pub event-IsValid : (r : RenoCongestion) (e : Event) → IsValid r → IsValid (step r e)
unfolding step on_timeout on_partial_ack
event-IsValid r (ack n a) v = on_ack-IsValid r n a v
event-IsValid r (duplicate a) v = on_duplicate_ack-IsValid r a v
event-IsValid r timeout v = ground (arith, v.threshold)
event-IsValid r (partial a) v = ground (arith, v.threshold, leave_recovery-IsValid r v)

-- The share of a window that an acknowledgement of at most that window earns is one segment at most.
share_le : (mss n cwnd : ℕ) → n ≤ cwnd → (mss * n) / max cwnd 1 ≤ mss
share_le mss n cwnd h = grind arith

-- What an acknowledgement of `n` bytes may add in a mode, for a segment size of `mss`.
abbrev pub gain : Mode → ℕ → ℕ → ℕ
gain slow_start mss n = n
gain _ mss n = mss

-- Outside recovery, an acknowledgement of at most a window of bytes never shrinks the window of a
-- valid state and keeps it within the largest one; it adds at most the bytes acknowledged in slow
-- start, and at most one segment in congestion avoidance.
pub growth_bound :
    (r : RenoCongestion) (n : ℕ) (a : Option ℕ)
    → IsValid r
    → r.cwnd ≤ max_cwnd
    → n ≤ r.cwnd
    → is_recovery r.state ≡ false
    → (r.cwnd ≤ (on_ack r n a).cwnd)
      × ((on_ack r n a).cwnd ≤ max_cwnd)
      × ((on_ack r n a).cwnd ≤ r.cwnd + gain r.state r.mss n)
unfolding on_ack
growth_bound r n a v cap fits h = elim (Bool-cases (n == 0)) [
  | inl e ↦ rw e (omega arith, cap, omega arith)
  | inr e ↦ rw (e, h) (by_mode r.state h)
]
  where
    by_mode :
        (m : Mode)
        → is_recovery m ≡ false
        → (r.cwnd ≤ (grow r n m).cwnd)
          × ((grow r n m).cwnd ≤ max_cwnd)
          × ((grow r n m).cwnd ≤ r.cwnd + gain m r.mss n)
    by_mode slow_start k = unfold grow in (ground arith, ground arith, ground arith)
    by_mode congestion_avoidance k =
        unfold grow in
        (ground arith, ground arith, ground (arith, share_le r.mss n r.cwnd fits, v.positive))
    by_mode fast_recovery k = absurd (cc)

-- In a valid state what may be in flight is at least one segment and at most the larger of a segment and either
-- window.
pub effective_window_bounds :
    (r : RenoCongestion) (receiver_window : ℕ)
    → IsValid r
    → (r.mss ≤ effective_window r receiver_window)
      × (effective_window r receiver_window ≤ r.cwnd)
      × (effective_window r receiver_window ≤ max receiver_window r.mss)
unfolding effective_window
effective_window_bounds r receiver_window v = omega arith
