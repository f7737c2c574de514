-- ===== src/Time.antt =====
-- Times and durations are floats of the Python runtime. What the engine uses of them is a parameter:
-- a type with its operations, and the laws that hold of floats other than NaN: their
-- order is total, and doubling a float that is not negative does not make it smaller.
use mini_tcp.Base.{ℕ, ◌≡◌, Bool, true, false, if◌then◌else◌}

pub record TimeOps (T : Type 0) : Type 0 where
  -- `literal n d` is the constant n / d.
  pub literal : ℕ → ℕ → T
  pub plus : T → T → T
  pub minus : T → T → T
  pub times : T → T → T
  pub divide : T → T → T
  pub absolute : T → T
  -- a <= b
  pub leq : T → T → Bool

pub record TimeLaws (T : Type 0) (ops : TimeOps T) : Type 0 where
  pub leq_refl : (a : T) → ops.leq a a ≡ true
  pub leq_total : (a b : T) → ops.leq a b ≡ false → ops.leq b a ≡ true
  pub doubling :
      (a : T)
      → ops.leq (ops.literal 0 1) a ≡ true
      → ops.leq a (ops.times a (ops.literal 2 1)) ≡ true
  pub leq_trans : (a b c : T) → ops.leq a b ≡ true → ops.leq b c ≡ true → ops.leq a c ≡ true

module _ {T : Type 0} ⦃ops : TimeOps T⦄ where
  -- Python's `max` and `min` of two arguments keep the first unless the second is beyond it.
  abbrev pub max_time : T → T → T
  max_time a b = if ops.leq b a then a else b

  abbrev pub min_time : T → T → T
  min_time a b = if ops.leq a b then a else b

  abbrev pub at_least : T → T → Bool
  at_least a b = ops.leq b a

  -- min(max(x, low), high)
  abbrev pub clamp : T → T → T → T
  clamp x low high = min_time (max_time x low) high
