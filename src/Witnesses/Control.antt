-- ===== src/Witnesses/Control.antt =====
-- Sequence numbers, congestion control and the retransmission timeout on concrete inputs.
use mini_tcp.Base.{
  ℕ, ◌*◌, ◌/◌, ◌≤◌, ◌≡◌, refl, false, none, some, [], ◌∷◌, arith, ltb, leb, if◌then◌else◌, sub_ℕ,
  min, max,
}
use mini_tcp.Seqno.{seq_diff, seq_lt, seq_le, seq_gt, seq_ge, seq_min, seq_max}
use mini_tcp.Seqno.Order.{wire, seq_order}
use mini_tcp.Congestion
use mini_tcp.Congestion.{
  RenoCongestion, Mode, congestion_avoidance, fast_recovery, max_cwnd, on_ack, on_duplicate_ack,
  effective_window, is_recovery,
}
use mini_tcp.Congestion.Window
use mini_tcp.Congestion.Window.{event-IsValid, growth_bound, effective_window_bounds}
use mini_tcp.Congestion.Recovery.{duplicates, duplicates_lem, recovery_ends_at}
use mini_tcp.Retransmit
use mini_tcp.Retransmit.{RtoEstimator}
use mini_tcp.Retransmit.Rto
use mini_tcp.Retransmit.Rto.{Bounded, run-init-Bounded, recompute_undoes_backoff, backoffs}
use mini_tcp.Witnesses.{milliseconds, milliseconds_laws}

-- Positions 1 and 3 of a stream whose numbers wrap between them.
seq_order_example :
    (seq_lt (wire 4294967294 1) (wire 4294967294 3) ≡ ltb 1 3)
    × (seq_le (wire 4294967294 1) (wire 4294967294 3) ≡ leb 1 3)
    × (seq_gt (wire 4294967294 1) (wire 4294967294 3) ≡ ltb 3 1)
    × (seq_ge (wire 4294967294 1) (wire 4294967294 3) ≡ leb 3 1)
    × (seq_diff (wire 4294967294 1) (wire 4294967294 3) ≡ sub_ℕ 1 3)
    × (seq_min (wire 4294967294 1) (wire 4294967294 3) ≡ wire 4294967294 (min 1 3))
    × (seq_max (wire 4294967294 1) (wire 4294967294 3) ≡ wire 4294967294 (max 1 3))
seq_order_example = seq_order 4294967294 1 3 (omega arith) (omega arith)

abbrev last_number : ℕ
last_number = 4294967295

abbrev example_reno : RenoCongestion
example_reno = Congestion.make 1000 none none

example_reno-IsValid : Window.IsValid example_reno
example_reno-IsValid = Window.make-IsValid 1000 none (omega arith) (omega arith)

event-IsValid_example : Window.IsValid (Window.step example_reno Window.timeout)
event-IsValid_example = event-IsValid example_reno Window.timeout example_reno-IsValid

small_window : example_reno.cwnd ≤ max_cwnd
unfolding Congestion.make
small_window = omega arith

piece : 1000 ≤ example_reno.cwnd
unfolding Congestion.make
piece = omega arith

grows : is_recovery example_reno.state ≡ false
unfolding Congestion.make
grows = refl

fresh : example_reno.duplicate_acks ≡ 0
unfolding Congestion.make
fresh = refl

duplicates_lem_example :
    ((duplicates 5 example_reno none).1 ≡ (if leb 3 5 then 1 else 0))
    × (is_recovery (duplicates 5 example_reno none).0.state ≡ leb 3 5)
duplicates_lem_example = duplicates_lem 5 example_reno none grows fresh

recovery_ends_at_example :
    let s = on_ack (duplicates 4 example_reno (some (wire 0 5000))).0 100 (some (wire 0 4000)) in
    (is_recovery s.state ≡ ltb 4000 5000)
    × (5000 ≤ 4000
        → s.cwnd ≡ max (max (example_reno.cwnd / 2) (2 * example_reno.mss)) example_reno.mss)
recovery_ends_at_example =
    recovery_ends_at 4 100 example_reno 0 5000 4000 grows fresh (omega arith) (omega arith)
      (omega arith) (omega arith)

-- The estimator with the default bounds, in milliseconds.
abbrev example_rto : RtoEstimator ℕ
example_rto = record {
  srtt = none;
  rttvar = 0;
  min_rto = 200;
  max_rto = 60000;
  rto = 1000;
  samples = 0;
}

accepted : Retransmit.init 1000 200 60000 ≡ some example_rto
unfolding Retransmit.init
accepted = refl

run-init-Bounded_example :
    Bounded milliseconds_laws
      (Rto.run example_rto (Rto.measured 100 ∷ Rto.timed_out ∷ Rto.timed_out ∷ []))
run-init-Bounded_example =
    run-init-Bounded milliseconds_laws 1000 200 60000 example_rto
      (Rto.measured 100 ∷ Rto.timed_out ∷ Rto.timed_out ∷ []) accepted
