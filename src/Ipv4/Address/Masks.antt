-- ===== src/Ipv4/Address/Masks.antt =====
-- What netmasks mean (minitcp/net/ipv4.py).
use Prim.Native.Nat.{bit_and}
use mini_tcp.Base.{
  ℕ, zero, suc, ◌<◌, ◌≡◌, refl, sym, subst, Bool, true, false, Option, none, some, [], ◌&&◌, ◌∷◌,
  ◌==◌, Bytes, length, arith, compare_cases, inl, inr, Option-cases, same_bytes, ◌∙◌,
}
use mini_tcp.Ipv4.Address.{prefix_to_mask, mask_to_prefix, same_subnet}

comes_back : ℕ → Option ℕ → Bool
comes_back n none = false
comes_back n (some p) = p == n

survives : ℕ → Option Bytes → Bool
unfolding comes_back mask_to_prefix
survives n none = true
survives n (some mask) = comes_back n (mask_to_prefix mask)

-- Whether every prefix below a bound survives, which is computed.
all_below : ℕ → Bool
unfolding survives prefix_to_mask
all_below zero = true
all_below (suc n) = survives n (prefix_to_mask n) && all_below n

all_survive : all_below 33 ≡ true
unfolding all_below
all_survive = refl

below-survives :
    (bound n : ℕ) → n < bound → all_below bound ≡ true → survives n (prefix_to_mask n) ≡ true
unfolding all_below
below-survives zero n h e = absurd (omega arith)
below-survives (suc bound) n h e = elim (compare_cases n bound) [
  | inl less ↦ below-survives bound n less (ground (arith, e))
  | inr (inl same) ↦
      subst (λ k. survives k (prefix_to_mask k) ≡ true) (sym same) (ground (arith, e))
  | inr (inr more) ↦ absurd (omega arith)
]

within_bounds : (prefix : ℕ) (mask : Bytes) → prefix_to_mask prefix ≡ some mask → prefix < 33
unfolding prefix_to_mask
within_bounds prefix mask e = ground arith

-- A netmask made from a prefix length gives the prefix length back.
pub mask_to_prefix-prefix_to_mask :
    (prefix : ℕ) (mask : Bytes)
    → prefix_to_mask prefix ≡ some mask
    → mask_to_prefix mask ≡ some prefix
unfolding comes_back survives
mask_to_prefix-prefix_to_mask prefix mask e =
    let whole = below-survives 33 prefix (within_bounds prefix mask e) all_survive in
    let kept : comes_back prefix (mask_to_prefix mask) ≡ true =
      subst (λ x. survives prefix x ≡ true) e whole in
    elim (Option-cases (mask_to_prefix mask)) [
      | inl refused ↦ absurd (ground (arith, kept, refused))
      | inr (p, found) ↦
          let same : comes_back prefix (some p) ≡ true =
            subst (λ x. comes_back prefix x ≡ true) found kept in
          found ∙ ground (arith, same)
    ]

-- An address under a mask.
unfoldable pub masked : Bytes → Bytes → Bytes
masked (x ∷ a) (m ∷ mask) = bit_and x m ∷ masked a mask
masked _ _ = []

-- Of addresses as long as the mask, two are on a subnet exactly if they agree under it.
pub same_subnet-masked :
    (a b mask : Bytes)
    → length a ≡ length mask
    → length b ≡ length mask
    → same_subnet a b mask ≡ some (same_bytes (masked a mask) (masked b mask))
unfolding same_subnet masked
same_subnet-masked [] [] [] h k = refl
same_subnet-masked (x ∷ a) (y ∷ b) (m ∷ mask) h k = ground (arith, same_subnet-masked a b mask)
same_subnet-masked _ _ _ h k = absurd (omega (arith, h, k))
