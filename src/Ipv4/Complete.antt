-- ===== src/Ipv4/Complete.antt =====
-- When a datagram is rebuilt (`_try_complete` of minitcp/net/ipv4.py).
use mini_tcp.Base.{
  ℕ, ◌+◌, ◌≤◌, ◌<◌, ◌≡◌, refl, false, some, [], ◌∷◌, arith, ltb, ◌⊎◌, inl, inr, Bytes, length, max,
  Bool-cases, is_empty, compare_cases,
}
use mini_tcp.Base.Slices.{slice}
use mini_tcp.Reorder.Entries.{Dict, Each}
use mini_tcp.Ipv4.{Ipv4Packet}
use mini_tcp.Ipv4.Reassembly.{FragmentSet, insert_sorted, sorted, reach, rebuild, try_complete}
use mini_tcp.Ipv4.Pieces.{IsPiece, sorted-Each, place_all_complete}

-- A piece holds byte `i`.
abbrev pub IsCovered : ℕ → Dict → Type 0
IsCovered i [] = ⊥
IsCovered i ((offset, d) ∷ m) = ((offset ≤ i) × (i < offset + length d)) ⊎ IsCovered i m

-- Every piece starts at `k` or later.
abbrev AllFrom : ℕ → Dict → Type 0
AllFrom k m = Each (λ offset d. k ≤ offset) m

abbrev IsSorted : Dict → Type 0
IsSorted [] = Unit {0}
IsSorted ((offset, d) ∷ m) = AllFrom offset m × IsSorted m

covered-from : (k i : ℕ) (m : Dict) → AllFrom k m → IsCovered i m → k ≤ i
covered-from k i [] h c = absurd c
covered-from k i ((offset, d) ∷ m) (h, hs) (inl (here, _)) = omega (arith, h, here)
covered-from k i ((offset, d) ∷ m) (h, hs) (inr later) = covered-from k i m hs later

insert_sorted-IsCovered :
    (i k : ℕ) (d : Bytes) (m : Dict) → IsCovered i ((k, d) ∷ m) → IsCovered i (insert_sorted k d m)
unfolding insert_sorted
insert_sorted-IsCovered i k d [] c = c
insert_sorted-IsCovered i k d ((j, e) ∷ m) c = elim (Bool-cases (ltb j k)) [
  | inr after ↦ rw after c
  | inl before ↦ rw before (elim c [
    | inl here ↦ inr (insert_sorted-IsCovered i k d m (inl here))
    | inr (inl first) ↦ inl first
    | inr (inr later) ↦ inr (insert_sorted-IsCovered i k d m (inr later))
  ])
]

sorted-IsCovered : (i : ℕ) (m : Dict) → IsCovered i m → IsCovered i (sorted m)
unfolding sorted
sorted-IsCovered i [] c = c
sorted-IsCovered i ((k, d) ∷ m) (inl here) = insert_sorted-IsCovered i k d (sorted m) (inl here)
sorted-IsCovered i ((k, d) ∷ m) (inr later) =
    insert_sorted-IsCovered i k d (sorted m) (inr (sorted-IsCovered i m later))

insert_sorted-AllFrom :
    (a k : ℕ) (d : Bytes) (m : Dict) → a ≤ k → AllFrom a m → AllFrom a (insert_sorted k d m)
unfolding insert_sorted
insert_sorted-AllFrom a k d [] h hs = (h, tt)
insert_sorted-AllFrom a k d ((j, e) ∷ m) h hs = ground (arith, insert_sorted-AllFrom a k d m h hs.1)

weaken : (a b : ℕ) (m : Dict) → a ≤ b → AllFrom b m → AllFrom a m
weaken a b [] h hs = tt
weaken a b ((j, e) ∷ m) h (x, hs) = (omega arith, weaken a b m h hs)

insert_sorted-IsSorted :
    (k : ℕ) (d : Bytes) (m : Dict) → IsSorted m → IsSorted (insert_sorted k d m)
unfolding insert_sorted
insert_sorted-IsSorted k d [] h = (tt, tt)
insert_sorted-IsSorted k d ((j, e) ∷ m) (h, hs) = elim (Bool-cases (ltb j k)) [
  | inl before ↦
      rw before (insert_sorted-AllFrom j k d m (ground arith) h, insert_sorted-IsSorted k d m hs)
  | inr after ↦
      let later : k ≤ j = ground arith in rw after ((later, weaken k j m later h), (h, hs))
]

sorted-IsSorted : (m : Dict) → IsSorted (sorted m)
unfolding sorted
sorted-IsSorted [] = tt
sorted-IsSorted ((k, d) ∷ m) = insert_sorted-IsSorted k d (sorted m) (sorted-IsSorted m)

-- Sorted pieces within the payload that cover all of it from the cursor on leave no hole.
reach_covered :
    (m : Dict) (c total : ℕ)
    → IsSorted m
    → Each (λ offset d. offset + length d ≤ total) m
    → c ≤ total
    → ((i : ℕ) → c ≤ i → i < total → IsCovered i m)
    → (last : ℕ) × ((reach c m ≡ some last) × (total ≤ last))
unfolding reach
reach_covered [] c total s w h cover = elim (compare_cases c total) [
  | inl less ↦ absurd (cover c (omega arith) less)
  | inr rest ↦ (c, (refl, omega (arith, rest)))
]
reach_covered ((offset, d) ∷ m) c total (from, s) (within, w) h cover =
    let near : offset ≤ c = elim (compare_cases c total) [
      | inl less ↦
          covered-from offset c ((offset, d) ∷ m) (omega arith, from) (cover c (omega arith) less)
      | inr rest ↦ omega (arith, within, rest)
    ] in
    let cover' : (i : ℕ) → max c (offset + length d) ≤ i → i < total → IsCovered i m =
      λ i h k. later (cover i (omega arith) k) (omega arith) in
    let (last, (reached, far)) =
      reach_covered m (max c (offset + length d)) total s w (omega (arith, within)) cover' in
    (last, (rw (near_test near) reached, far))
  where
    near_test : offset ≤ c → ltb c offset ≡ false
    near_test h = ground arith

    later : {i : ℕ} → IsCovered i ((offset, d) ∷ m) → offset + length d ≤ i → IsCovered i m
    later (inl (_, here)) beyond = absurd (omega (arith, here, beyond))
    later (inr rest) beyond = rest

bounds_of :
    (S : ℕ → ℕ) (total : ℕ) (m : Dict)
    → Each (IsPiece S total) m
    → Each (λ offset d. offset + length d ≤ total) m
bounds_of S total [] h = tt
bounds_of S total ((offset, d) ∷ m) (h, hs) = (h.1, bounds_of S total m hs)

not_empty : (m : Dict) → IsCovered 0 m → is_empty m ≡ false
not_empty [] c = absurd c
not_empty ((offset, d) ∷ m) c = refl

module _ {T : Type 0} where
  -- A set that knows the length of its payload, which is not empty, and whose pieces carry what stands
  -- at their offsets and cover every byte, in whatever order they came and however they overlap, is
  -- complete: the datagram is rebuilt with exactly that payload.
  pub try_complete_covered :
      (S : ℕ → ℕ) (total : ℕ) (entry : FragmentSet T) (head : Ipv4Packet)
      → entry.total_length ≡ some total
      → entry.header ≡ some head
      → 1 ≤ total
      → Each (IsPiece S total) entry.pieces
      → ((i : ℕ) → i < total → IsCovered i entry.pieces)
      → try_complete entry ≡ some (rebuild head (slice S 0 total))
  unfolding try_complete
  try_complete_covered S total entry head ends first positive genuine cover =
      let ordered = sorted entry.pieces in
      let pieces = sorted-Each (IsPiece S total) entry.pieces genuine in
      let (last, (reached, far)) =
        reach_covered ordered 0 total (sorted-IsSorted entry.pieces)
          (bounds_of S total ordered pieces) (omega arith)
          (λ i _ h. sorted-IsCovered i entry.pieces (cover i h)) in
      let some_piece = not_empty entry.pieces (cover 0 (omega arith)) in
      let enough : ltb last total ≡ false = ground arith in
      rw
        (
          ends,
          some_piece,
          reached,
          first,
          enough,
          place_all_complete S total ordered last pieces reached far,
        )
        refl
