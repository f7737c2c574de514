-- ===== src/Ipv4/Pieces.antt =====
-- The buffer that fragments are copied into (`_try_complete` of minitcp/net/ipv4.py).
use mini_tcp.Base.{
  ℕ, zero, suc, ◌+◌, ◌-◌, ◌≤◌, ◌≡◌, sym, ap, ◌∙◌, false, some, [], ◌∷◌, ◌++◌, arith, ltb,
  Bool-cases, inl, inr, Bytes, length, take, drop, replicate, min, max, take_front, drop_front,
  take_all, drop-drop, append_assoc, append-nil,
}
use mini_tcp.Base.Slices.{slice, IsPart, slice-append, length-slice}
use mini_tcp.Reorder.Entries.{Dict, Each}
use mini_tcp.Ipv4.Reassembly.{insert_sorted, sorted, reach, clip, place, place_all}

drop-replicate : (k n : ℕ) → drop {A = ℕ} k (replicate n 0) ≡ replicate (n - k) 0
drop-replicate zero n = ap (λ m. replicate {A = ℕ} m 0) (omega arith)
drop-replicate (suc k) zero =
    let empty : 0 ≡ 0 - suc k = omega arith in ap (λ m. replicate {A = ℕ} m 0) empty
drop-replicate (suc k) (suc n) =
    let same : n - k ≡ suc n - suc k = omega arith in
    drop-replicate k n ∙ ap (λ m. replicate {A = ℕ} m 0) same

module _ (P : ℕ → Bytes → Type 0) where
  insert_sorted-Each :
      (k : ℕ) (d : Bytes) (m : Dict) → P k d → Each P m → Each P (insert_sorted k d m)
  unfolding insert_sorted
  insert_sorted-Each k d [] p h = (p, tt)
  insert_sorted-Each k d ((j, e) ∷ m) p h = ground (arith, insert_sorted-Each k d m p h.1)

  pub sorted-Each : (m : Dict) → Each P m → Each P (sorted m)
  unfolding sorted
  sorted-Each [] h = tt
  sorted-Each ((k, d) ∷ m) h = insert_sorted-Each k d (sorted m) h.0 (sorted-Each m h.1)

-- A piece of the stream `S`, of which the first `total` bytes make the payload.
abbrev pub IsPiece : (ℕ → ℕ) → ℕ → ℕ → Bytes → Type 0
IsPiece S total offset d = IsPart S offset d × (offset + length d ≤ total)

module _ (S : ℕ → ℕ) (total : ℕ) where
  -- The first `c` bytes are in place, and the others still zero.
  abbrev filled : ℕ → Bytes
  filled c = slice S 0 c ++ replicate (total - c) 0

  slice_front : (m n : ℕ) → slice S 0 m ++ slice S m n ≡ slice S 0 (m + n)
  slice_front m n =
      let start : m ≡ 0 + m = omega arith in
      ap (λ k. slice S 0 m ++ slice S k n) start ∙ slice-append S 0 m n

  split :
      (c k : ℕ) → k ≤ c → filled c ≡ slice S 0 k ++ (slice S k (c - k) ++ replicate (total - c) 0)
  split c k h =
      let whole : k + (c - k) ≡ c = omega arith in
      ap (λ n. slice S 0 n ++ replicate (total - c) 0) (sym whole)
      ∙ ap (λ x. x ++ replicate (total - c) 0) (sym (slice_front k (c - k)))
      ∙ append_assoc (slice S 0 k) _ _

  take-filled : (c k : ℕ) → k ≤ c → take k (filled c) ≡ slice S 0 k
  take-filled c k h = ap (take k) (split c k h) ∙ take_front k (slice S 0 k) _ (length-slice S 0 k)

  drop-filled_below :
      (c k : ℕ) → k ≤ c → drop k (filled c) ≡ slice S k (c - k) ++ replicate (total - c) 0
  drop-filled_below c k h =
      ap (drop k) (split c k h) ∙ drop_front k (slice S 0 k) _ (length-slice S 0 k)

  drop-filled_above : (c k : ℕ) → c ≤ k → drop k (filled c) ≡ replicate (total - k) 0
  drop-filled_above c k h =
      let there : c + (k - c) ≡ k = omega arith in
      let left : total - c - (k - c) ≡ total - k = omega arith in
      ap (λ n. drop n (filled c)) (sym there)
      ∙ sym (drop-drop (k - c) c (filled c))
      ∙ ap (drop (k - c)) (drop_front c (slice S 0 c) _ (length-slice S 0 c))
      ∙ drop-replicate (k - c) (total - c)
      ∙ ap (λ n. replicate n 0) left

  -- A genuine piece is copied whole.
  place-genuine :
      (c offset : ℕ) (d : Bytes)
      → offset ≤ c
      → IsPiece S total offset d
      → place total (filled c) offset d
        ≡ slice S 0 (offset + length d) ++ drop (offset + length d) (filled c)
  unfolding place clip
  place-genuine c offset d h piece =
      let end : min (offset + length d) total ≡ offset + length d = omega (arith, piece.1) in
      let later : max offset (offset + length d) ≡ offset + length d = omega arith in
      let forward : ltb (offset + length d) offset ≡ false = ground arith in
      rw (end, later, forward, take-filled c offset h)
        (ap (λ x. slice S 0 offset ++ (x ++ drop (offset + length d) (filled c)))
            (take_all (offset + length d - offset) d (omega arith) ∙ piece.0)
          ∙ sym (append_assoc (slice S 0 offset) (slice S offset (length d)) _)
          ∙ ap (λ x. x ++ drop (offset + length d) (filled c)) (slice_front offset (length d)))

  place_lem :
      (c offset : ℕ) (d : Bytes)
      → offset ≤ c
      → IsPiece S total offset d
      → place total (filled c) offset d ≡ filled (max c (offset + length d))
  place_lem c offset d h piece = elim (Bool-cases (ltb c (offset + length d))) [
    | inl beyond ↦
        let most : max c (offset + length d) ≡ offset + length d = ground arith in
        rw most (
          place-genuine c offset d h piece
          ∙ ap (◌++◌ (slice S 0 (offset + length d)))
              (drop-filled_above c (offset + length d) (ground arith)))
    | inr within ↦
        let most : max c (offset + length d) ≡ c = ground arith in
        let inside : offset + length d ≤ c = ground arith in
        rw most (
          place-genuine c offset d h piece
          ∙ ap (◌++◌ (slice S 0 (offset + length d)))
              (drop-filled_below c (offset + length d) inside)
          ∙ sym (split c (offset + length d) inside))
  ]

  place_all_lem :
      (m : Dict) (c last : ℕ)
      → c ≤ total
      → Each (IsPiece S total) m
      → reach c m ≡ some last
      → (last ≤ total) × (place_all total (filled c) m ≡ filled last)
  unfolding reach place_all
  place_all_lem [] c last h pieces e = ground arith
  place_all_lem ((offset, d) ∷ m) c last h (piece, pieces) e =
      let near : offset ≤ c = ground arith in
      let next = max c (offset + length d) in
      let e' : reach next m ≡ some last = ground arith in
      let rest = place_all_lem m next last (omega (arith, piece.1)) pieces e' in
      (rest.0, rw (place_lem c offset d near piece) rest.1)

  -- Pieces that reach the end, in whatever order they overlap, fill the buffer with the payload.
  pub place_all_complete :
      (m : Dict) (last : ℕ)
      → Each (IsPiece S total) m
      → reach 0 m ≡ some last
      → total ≤ last
      → place_all total (replicate total 0) m ≡ slice S 0 total
  place_all_complete m last pieces e h =
      let (bounded, done) = place_all_lem m 0 last (omega arith) pieces e in
      let whole : last ≡ total = omega arith in
      let none_left : total - total ≡ 0 = omega arith in
      let all_zero : total ≡ total - 0 = omega arith in
      ap (λ n. place_all total (replicate {A = ℕ} n 0) m) all_zero
      ∙ done
      ∙ ap filled whole
      ∙ rw none_left (append-nil (slice S 0 total))
