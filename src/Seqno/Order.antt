-- ===== src/Seqno/Order.antt =====
-- The comparisons of minitcp/net/tcp/seqno.py against positions in an unwrapped stream.
use mini_tcp.Base.{
  ℕ, suc, ◌+◌, ◌-◌, ◌%◌, ◌<◌, ◌≡◌, ◌⊎◌, ◌↔◌, inl, inr, true, false, arith, ltb, leb, pos, negsuc,
  sub_ℕ, ◌≢◌, min, max, Bool-cases,
}
use mini_tcp.Seqno.{
  seq_space, seq_half, seq_add, seq_sub, seq_diff, seq_lt, seq_le, seq_gt, seq_ge, seq_between,
  seq_min, seq_max,
}

-- The wire number of position `p` of a stream that starts at `base`.
abbrev pub wire : ℕ → ℕ → ℕ
wire base p = (base + p) % seq_space

pub seq_add-lt : (a k : ℕ) → seq_add a k < seq_space
unfolding seq_add
seq_add-lt a k = omega arith

pub seq_add-wire : (base p k : ℕ) → seq_add (wire base p) k ≡ wire base (p + k)
unfolding seq_add
seq_add-wire base p k = omega arith

-- On positions less than 2 ^ 31 apart, `seq_lt` on wire numbers is `<` on the positions.
pub seq_lt-wire :
    (base p q : ℕ)
    → p < q + seq_half
    → q < p + seq_half
    → seq_lt (wire base p) (wire base q) ≡ ltb p q
unfolding seq_lt
seq_lt-wire base p q h k = ground arith

pub seq_diff-wire :
    (base p q : ℕ)
    → p < q + seq_half
    → q < p + seq_half
    → seq_diff (wire base p) (wire base q) ≡ sub_ℕ p q
unfolding seq_diff
seq_diff-wire base p q h k = ground arith

-- The other comparisons, on positions less than 2 ^ 31 apart.
pub seq_cmp-wire :
    (base p q : ℕ)
    → p < q + seq_half
    → q < p + seq_half
    → (seq_le (wire base p) (wire base q) ≡ leb p q)
      × (seq_gt (wire base p) (wire base q) ≡ ltb q p)
      × (seq_ge (wire base p) (wire base q) ≡ leb q p)
unfolding seq_le seq_gt seq_ge
seq_cmp-wire base p q h k = (ground arith, ground arith, ground arith)

pub wire-injective :
    (base p q : ℕ) → p < seq_space → q < seq_space → wire base p ≡ wire base q → p ≡ q
wire-injective base p q h k e = omega arith

-- Within half the space of each other, `seq_lt` and the five tests built on it order the wire
-- numbers as the positions they stand for, and `seq_diff` is the signed distance.
pub seq_order :
    (base p q : ℕ)
    → p < q + seq_half
    → q < p + seq_half
    → (seq_lt (wire base p) (wire base q) ≡ ltb p q)
      × (seq_le (wire base p) (wire base q) ≡ leb p q)
      × (seq_gt (wire base p) (wire base q) ≡ ltb q p)
      × (seq_ge (wire base p) (wire base q) ≡ leb q p)
      × (seq_diff (wire base p) (wire base q) ≡ sub_ℕ p q)
      × (seq_min (wire base p) (wire base q) ≡ wire base (min p q))
      × (seq_max (wire base p) (wire base q) ≡ wire base (max p q))
unfolding seq_min seq_max
seq_order base p q h k = (
  seq_lt-wire base p q h k,
  (seq_cmp-wire base p q h k).0,
  (seq_cmp-wire base p q h k).1,
  (seq_cmp-wire base p q h k).2,
  seq_diff-wire base p q h k,
  ground (arith, seq_cmp-wire base p q h k),
  ground (arith, seq_cmp-wire base p q h k),
)

-- Any two sequence numbers are equal, or one precedes the other and not conversely, or they are
-- exactly 2 ^ 31 apart and neither precedes the other.
pub seq_lt_trichotomy :
    (a b : ℕ)
    → a < seq_space
    → b < seq_space
    → ((a ≡ b) × (seq_lt a b ≡ false) × (seq_lt b a ≡ false))
      ⊎ ((seq_lt a b ≡ true) × (seq_lt b a ≡ false) × (a ≢ b))
      ⊎ ((seq_lt b a ≡ true) × (seq_lt a b ≡ false) × (a ≢ b))
      ⊎ ((seq_sub a b ≡ seq_half) × (seq_lt a b ≡ false) × (seq_lt b a ≡ false))
unfolding seq_lt
seq_lt_trichotomy a b h k = ground arith

-- The signed distance of two sequence numbers lies in [-2 ^ 31, 2 ^ 31), and adding it to `b` modulo 2 ^ 32 gives `a`.
pub seq_diff_lem :
    (a b : ℕ)
    → a < seq_space
    → b < seq_space
    → ((k : ℕ) × (seq_diff a b ≡ pos k) × (k < seq_half) × (seq_add b k ≡ a))
      ⊎ ((k : ℕ) × (seq_diff a b ≡ negsuc k) × (k < seq_half) × (seq_add a (suc k) ≡ b))
unfolding seq_diff seq_add
seq_diff_lem a b h k = elim (Bool-cases (leb seq_half (seq_sub a b))) [
  | inl e ↦ inr (seq_space - seq_sub a b - 1, ground arith, ground arith, ground arith)
  | inr e ↦ inl (seq_sub a b, ground arith, ground arith, ground arith)
]

-- A window of fewer than 2 ^ 31 numbers that begins at `low` holds exactly the numbers at distance
-- less than its size ahead of `low`.
pub seq_between_lem :
    (seq low size : ℕ)
    → seq < seq_space
    → low < seq_space
    → size < seq_half
    → (seq_between seq low (seq_add low size) ≡ true) ↔ (seq_sub seq low < size)
unfolding seq_between seq_add
seq_between_lem seq low size h k s = (λ e. ground arith, λ e. ground arith)
