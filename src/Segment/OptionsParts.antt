-- ===== src/Segment/OptionsParts.antt =====
-- Parsing each part of the options that were printed (minitcp/net/tcp/segment.py).
use mini_tcp.Base.{
  ℕ, zero, suc, ◌%◌, ◌≤◌, ◌≡◌, refl, Bool, true, false, ◌||◌, Option, none, some, List, [], ◌∷◌,
  ◌++◌, arith, ◌==◌, Bytes, length, Bool-cases, inl, inr, subst,
}
use mini_tcp.Seqno.{seq_space}
use mini_tcp.Wire.{pack_16, pack_32, unpack_32}
use mini_tcp.Segment.{TcpOptions}
use mini_tcp.Segment.Options.{
  mss_bytes, sack_permitted_bytes, scale_bytes, or_zero, timestamp_bytes, sack_bytes, padding,
  blocks_of, read_option, parse_loop,
}

-- With enough fuel the loop goes from `o` to `o'`.
unfoldable pub Parses : Bytes → TcpOptions → TcpOptions → Type 0
Parses bytes o o' = (fuel : ℕ) → length bytes ≤ fuel → parse_loop fuel bytes o ≡ o'

-- The last block, as 32 bits hold it; `kept` if there is none.
pub last_block : List (ℕ × ℕ) → List (ℕ × ℕ) → List (ℕ × ℕ)
last_block kept [] = kept
last_block kept ((left, right) ∷ blocks) =
    last_block ((left % seq_space, right % seq_space) ∷ []) blocks

mss-Parses :
    (m : ℕ) (tail : Bytes) (o o' : TcpOptions)
    → Parses tail (record o { mss = some m }) o'
    → Parses (2 ∷ 4 ∷ pack_16 m ++ tail) o o'
unfolding Parses parse_loop read_option
mss-Parses m tail o o' h zero k = absurd (omega (arith, k))
mss-Parses m tail o o' h (suc fuel) k = ground (arith, h fuel (omega (arith, k)))

scale-Parses :
    (n : ℕ) (tail : Bytes) (o o' : TcpOptions)
    → Parses tail (record o { window_scale = some n }) o'
    → Parses (3 ∷ 3 ∷ n ∷ tail) o o'
unfolding Parses parse_loop read_option
scale-Parses n tail o o' h zero k = absurd (omega (arith, k))
scale-Parses n tail o o' h (suc fuel) k = ground (arith, h fuel (omega (arith, k)))

permitted-Parses :
    (tail : Bytes) (o o' : TcpOptions)
    → Parses tail (record o { sack_permitted = true }) o'
    → Parses (4 ∷ 2 ∷ tail) o o'
unfolding Parses parse_loop read_option
permitted-Parses tail o o' h zero k = absurd (omega (arith, k))
permitted-Parses tail o o' h (suc fuel) k = ground (arith, h fuel (omega (arith, k)))

unpack_32-pack :
    (n : ℕ) (tail : Bytes) → unpack_32 (pack_32 (n % seq_space) ++ tail) ≡ n % seq_space
unpack_32-pack n tail = omega arith

timestamp-Parses :
    (t e : ℕ) (tail : Bytes) (o o' : TcpOptions)
    → Parses tail
        (record o { timestamp = some (t % seq_space); timestamp_echo = some (e % seq_space) })
        o'
    → Parses (8 ∷ 10 ∷ pack_32 (t % seq_space) ++ (pack_32 (e % seq_space) ++ tail)) o o'
unfolding Parses parse_loop read_option
timestamp-Parses t e tail o o' h zero k = absurd (omega (arith, k))
timestamp-Parses t e tail o o' h (suc fuel) k =
    ground (arith, h fuel (omega (arith, k)), unpack_32-pack t [], unpack_32-pack e [])

block-Parses :
    (l r : ℕ) (tail : Bytes) (o o' : TcpOptions)
    → Parses tail (record o { sack_blocks = (l % seq_space, r % seq_space) ∷ [] }) o'
    → Parses (5 ∷ 10 ∷ pack_32 (l % seq_space) ++ (pack_32 (r % seq_space) ++ tail)) o o'
unfolding Parses parse_loop read_option blocks_of
block-Parses l r tail o o' h zero k = absurd (omega (arith, k))
block-Parses l r tail o o' h (suc fuel) k =
    ground (arith, h fuel (omega (arith, k)), unpack_32-pack l [], unpack_32-pack r [])

one_left : (fuel kind : ℕ) (o : TcpOptions) → parse_loop fuel (kind ∷ []) o ≡ o
unfolding parse_loop
one_left zero kind o = refl
one_left (suc fuel) kind o = refl

two_left : (fuel kind : ℕ) (o : TcpOptions) → parse_loop fuel (1 ∷ kind ∷ []) o ≡ o
unfolding parse_loop
two_left zero kind o = refl
two_left (suc fuel) kind o = one_left fuel kind o

three_left : (fuel kind : ℕ) (o : TcpOptions) → parse_loop fuel (1 ∷ 1 ∷ kind ∷ []) o ≡ o
unfolding parse_loop
three_left zero kind o = refl
three_left (suc fuel) kind o = two_left fuel kind o

pub padding-Parses : (count : ℕ) (o : TcpOptions) → Parses (padding count) o o
unfolding Parses padding
padding-Parses count o fuel k = elim (Bool-cases (count == 3)) [
  | inl e ↦ rw e (three_left fuel 1 o)
  | inr e ↦ rw e (elim (Bool-cases (count == 2)) [
    | inl e' ↦ rw e' (two_left fuel 1 o)
    | inr e' ↦ rw e' (elim (Bool-cases (count == 1)) [
      | inl e'' ↦ rw e'' (one_left fuel 0 o)
      | inr e'' ↦ rw e'' (nothing_left fuel)
    ])
  ])
]
  where
    nothing_left : (fuel : ℕ) → parse_loop fuel [] o ≡ o
    nothing_left zero = unfold parse_loop in refl
    nothing_left (suc fuel) = unfold parse_loop in refl

-- The first value if there is one.
abbrev pub or_kept {ℓ} : {A : Type ℓ} → Option A → Option A → Option A
or_kept none kept = kept
or_kept (some a) kept = some a

abbrev pub masked : Option ℕ → Option ℕ
masked none = none
masked (some n) = some (n % seq_space)

-- The echo goes with the timestamp.
abbrev pub echoed : Option ℕ → Option ℕ → Option ℕ
echoed none echo = none
echoed (some t) echo = some (or_zero echo % seq_space)

pub mss_part :
    (m : Option ℕ) (b tail : Bytes) (o o' : TcpOptions)
    → mss_bytes m ≡ some b
    → Parses tail (record o { mss = or_kept m o.mss }) o'
    → Parses (b ++ tail) o o'
unfolding mss_bytes
mss_part none b tail o o' e h = subst (λ x. Parses (x ++ tail) o o') {x = []} (ground arith) h
mss_part (some m) b tail o o' e h =
    subst (λ x. Parses (x ++ tail) o o') {x = 2 ∷ 4 ∷ pack_16 m} (ground arith)
      (mss-Parses m tail o o' h)

pub scale_part :
    (n : Option ℕ) (b tail : Bytes) (o o' : TcpOptions)
    → scale_bytes n ≡ some b
    → Parses tail (record o { window_scale = or_kept n o.window_scale }) o'
    → Parses (b ++ tail) o o'
unfolding scale_bytes
scale_part none b tail o o' e h = subst (λ x. Parses (x ++ tail) o o') {x = []} (ground arith) h
scale_part (some n) b tail o o' e h =
    subst (λ x. Parses (x ++ tail) o o') {x = 3 ∷ 3 ∷ n ∷ []} (ground arith)
      (scale-Parses n tail o o' h)

pub permitted_part :
    (p : Bool) (tail : Bytes) (o o' : TcpOptions)
    → Parses tail (record o { sack_permitted = p || o.sack_permitted }) o'
    → Parses (sack_permitted_bytes p ++ tail) o o'
unfolding sack_permitted_bytes
permitted_part true tail o o' h = permitted-Parses tail o o' h
permitted_part false tail o o' h = h

pub timestamp_part :
    (t e : Option ℕ) (tail : Bytes) (o o' : TcpOptions)
    → Parses tail
        (record o {
          timestamp = or_kept (masked t) o.timestamp;
          timestamp_echo = or_kept (echoed t e) o.timestamp_echo;
        })
        o'
    → Parses (timestamp_bytes t e ++ tail) o o'
unfolding timestamp_bytes
timestamp_part none e tail o o' h = h
timestamp_part (some t) e tail o o' h = timestamp-Parses t (or_zero e) tail o o' h

pub sack_part :
    (blocks : List (ℕ × ℕ)) (tail : Bytes) (o o' : TcpOptions)
    → Parses tail (record o { sack_blocks = last_block o.sack_blocks blocks }) o'
    → Parses (sack_bytes blocks ++ tail) o o'
unfolding sack_bytes last_block
sack_part [] tail o o' h = h
sack_part ((l, r) ∷ blocks) tail o o' h =
    block-Parses l r (sack_bytes blocks ++ tail) o o'
      (sack_part blocks tail (record o { sack_blocks = (l % seq_space, r % seq_space) ∷ [] }) o' h)
