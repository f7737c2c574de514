-- ===== src/Retransmit/Rto.antt =====
-- Bounds on the retransmission timeout.
use mini_tcp.Base.{
  ℕ, zero, suc, ◌∙◌, ap, sym, ◌+◌, ◌≡◌, refl, true, false, some, List, [], ◌∷◌, arith, Bool-cases,
  Option-cases, inl, inr,
}
use mini_tcp.Time.{TimeOps, TimeLaws, clamp}
use mini_tcp.Retransmit.{
  RtoEstimator, init, sample, backoff, recompute, reset, zero_time, timeout_of, default_initial_rto,
  next_srtt, next_rttvar,
}

pub data Event (T : Type 0) : Type 0 where
  measured : T → Event T
  timed_out advanced restarted : Event T

module _ {T : Type 0} ⦃ops : TimeOps T⦄ where
  pub step : RtoEstimator T → Event T → RtoEstimator T
  step e (measured rtt) = sample e rtt
  step e timed_out = backoff e
  step e advanced = recompute e
  step e restarted = reset e

  pub run : RtoEstimator T → List (Event T) → RtoEstimator T
  run e [] = e
  run e (event ∷ events) = run (step e event) events

module _ {T : Type 0} ⦃ops : TimeOps T⦄ (laws : TimeLaws T ops) where
  -- The timeout lies between the bounds, which are in order and not negative.
  pub record Bounded (e : RtoEstimator T) : Type 0 where
    pub positive : ops.leq zero_time e.min_rto ≡ true
    pub ordered : ops.leq e.min_rto e.max_rto ≡ true
    pub above : ops.leq e.min_rto e.rto ≡ true
    pub below : ops.leq e.rto e.max_rto ≡ true

  clamp_bounds :
      (x low high : T)
      → ops.leq low high ≡ true
      → (ops.leq low (clamp x low high) ≡ true) × (ops.leq (clamp x low high) high ≡ true)
  clamp_bounds x low high h = ground (
    arith,
    laws.leq_refl high,
    laws.leq_refl low,
    laws.leq_total x low,
    laws.leq_total low x,
    laws.leq_total x high,
  )

  init-Bounded :
      (initial low high : T) {e : RtoEstimator T} → init initial low high ≡ some e → Bounded e
  unfolding init
  init-Bounded initial low high h =
      ground (arith, clamp_bounds initial low high, laws.leq_total low zero_time)

  sample-Bounded : (e : RtoEstimator T) (rtt : T) → Bounded e → Bounded (sample e rtt)
  unfolding sample
  sample-Bounded e rtt b = elim (Bool-cases (ops.leq rtt zero_time)) [
    | inl old ↦ rw old b
    | inr new ↦
        let bounds =
          clamp_bounds (ops.plus srtt (ops.times (ops.literal 4 1) rttvar)) e.min_rto e.max_rto
            b.ordered in
        rw new (record {
          positive = b.positive;
          ordered = b.ordered;
          above = bounds.0;
          below = bounds.1;
        })
  ]
    where
      srtt : T
      srtt = next_srtt e rtt

      rttvar : T
      rttvar = next_rttvar e rtt

  backoff_grows : (e : RtoEstimator T) → Bounded e → ops.leq e.rto (backoff e).rto ≡ true
  unfolding backoff
  backoff_grows e b = ground (
    arith,
    laws.doubling e.rto,
    laws.leq_trans zero_time e.min_rto e.rto b.positive b.above,
    b.below,
  )

  backoff-Bounded : (e : RtoEstimator T) → Bounded e → Bounded (backoff e)
  unfolding backoff
  backoff-Bounded e b = record {
    positive = b.positive;
    ordered = b.ordered;
    above = laws.leq_trans e.min_rto e.rto (backoff e).rto b.above (backoff_grows e b);
    below = ground (
      arith,
      laws.leq_refl e.max_rto,
      laws.leq_total (ops.times e.rto (ops.literal 2 1)) e.max_rto,
    );
  }

  recompute-Bounded : (e : RtoEstimator T) → Bounded e → Bounded (recompute e)
  unfolding recompute
  recompute-Bounded e b = elim (Option-cases e.srtt) [
    | inl new ↦
        bounded (clamp_bounds default_initial_rto e.min_rto e.max_rto b.ordered) (ground arith)
    | inr (srtt, old) ↦
        bounded
          (clamp_bounds (ops.plus srtt (ops.times (ops.literal 4 1) e.rttvar)) e.min_rto e.max_rto
            b.ordered)
          (ground arith)
  ]
    where
      bounded :
          {x : T}
          → (ops.leq e.min_rto x ≡ true) × (ops.leq x e.max_rto ≡ true)
          → (recompute e).rto ≡ x
          → Bounded (recompute e)
      bounded h eq = record {
        positive = b.positive;
        ordered = b.ordered;
        above = rw eq h.0;
        below = rw eq h.1;
      }

  reset-Bounded : (e : RtoEstimator T) → Bounded e → Bounded (reset e)
  unfolding reset
  reset-Bounded e b =
      let bounds = clamp_bounds default_initial_rto e.min_rto e.max_rto b.ordered in
      record { positive = b.positive; ordered = b.ordered; above = bounds.0; below = bounds.1 }

  step-Bounded : (e : RtoEstimator T) (event : Event T) → Bounded e → Bounded (step e event)
  unfolding step
  step-Bounded e (measured rtt) b = sample-Bounded e rtt b
  step-Bounded e timed_out b = backoff-Bounded e b
  step-Bounded e advanced b = recompute-Bounded e b
  step-Bounded e restarted b = reset-Bounded e b

  run-Bounded : (e : RtoEstimator T) (events : List (Event T)) → Bounded e → Bounded (run e events)
  unfolding run
  run-Bounded e [] b = b
  run-Bounded e (event ∷ events) b = run-Bounded (step e event) events (step-Bounded e event b)

  -- If the comparison of times is a total preorder and doubling does not shrink a time that is not
  -- negative: from an estimator that the constructor accepts, every series of samples, timeouts,
  -- recomputations and resets keeps the timeout within the bounds.
  pub run-init-Bounded :
      (initial low high : T) (e : RtoEstimator T) (events : List (Event T))
      → init initial low high ≡ some e
      → Bounded (run e events)
  run-init-Bounded initial low high e events h =
      run-Bounded e events (init-Bounded initial low high h)

module _ {T : Type 0} ⦃ops : TimeOps T⦄ where
  pub backoffs : ℕ → RtoEstimator T → RtoEstimator T
  backoffs zero e = e
  backoffs (suc n) e = backoff (backoffs n e)

  recompute-backoffs : (n : ℕ) (e : RtoEstimator T) → recompute (backoffs n e) ≡ recompute e
  unfolding backoffs backoff recompute
  recompute-backoffs zero e = refl
  recompute-backoffs (suc n) e = recompute-backoffs n e

  -- However often the timeout was doubled after a sample that is more than zero, recomputing restores the value that the
  -- sample set, and no other field changes.
  pub recompute_undoes_backoff :
      (n : ℕ) (e : RtoEstimator T) (rtt : T)
      → ops.leq rtt zero_time ≡ false
      → recompute (backoffs n (sample e rtt)) ≡ sample e rtt
  recompute_undoes_backoff n e rtt h = recompute-backoffs n (sample e rtt) ∙ restored
    where
      taken : RtoEstimator T
      taken = record e {
        srtt = some (next_srtt e rtt);
        rttvar = next_rttvar e rtt;
        samples = e.samples + 1;
        rto = timeout_of e (next_srtt e rtt) (next_rttvar e rtt);
      }

      sampled : sample e rtt ≡ taken
      sampled = unfold sample in rw h refl

      restored : recompute (sample e rtt) ≡ sample e rtt
      restored = ap recompute sampled ∙ (unfold recompute in sym sampled)
