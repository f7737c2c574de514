-- ===== src/Seqno.antt =====
-- Sequence numbers (minitcp/net/tcp/seqno.py): arithmetic modulo 2 ^ 32 and the half-space order.
pub mod Order
use mini_tcp.Base.{
  ℕ, ◌+◌, ◌-◌, ◌%◌, ◌^◌, Bool, ◌&&◌, ◌||◌, ltb, leb, ◌==◌, if◌then◌else◌, ℤ, pos, sub_ℕ,
}

-- SEQ_MASK + 1; masking with SEQ_MASK is the remainder by this number.
abbrev pub seq_space : ℕ
seq_space = 2 ^ 32

abbrev pub seq_half : ℕ
seq_half = 0x8000_0000

unfoldable pub seq_add : ℕ → ℕ → ℕ
seq_add seq offset = (seq + offset) % seq_space

-- (a - b) & SEQ_MASK; the source subtracts in the integers, so the modulus is added first.
unfoldable pub seq_sub : ℕ → ℕ → ℕ
seq_sub a b = (a + seq_space - b % seq_space) % seq_space

unfoldable pub seq_diff : ℕ → ℕ → ℤ
unfolding seq_sub
seq_diff a b =
    let diff = seq_sub a b in if leb seq_half diff then sub_ℕ diff seq_space else pos diff

unfoldable pub seq_lt : ℕ → ℕ → Bool
unfolding seq_sub
seq_lt a b = ltb 0 (seq_sub b a) && ltb (seq_sub b a) seq_half

unfoldable pub seq_le : ℕ → ℕ → Bool
unfolding seq_lt
seq_le a b = (a == b) || seq_lt a b

unfoldable pub seq_gt : ℕ → ℕ → Bool
unfolding seq_lt
seq_gt a b = seq_lt b a

unfoldable pub seq_ge : ℕ → ℕ → Bool
unfolding seq_lt
seq_ge a b = (a == b) || seq_lt b a

unfoldable pub seq_between : ℕ → ℕ → ℕ → Bool
unfolding seq_ge seq_lt
seq_between seq low high = seq_ge seq low && seq_lt seq high

unfoldable pub seq_min : ℕ → ℕ → ℕ
unfolding seq_le
seq_min a b = if seq_le a b then a else b

unfoldable pub seq_max : ℕ → ℕ → ℕ
unfolding seq_ge
seq_max a b = if seq_ge a b then a else b
