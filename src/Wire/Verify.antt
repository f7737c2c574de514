-- ===== src/Wire/Verify.antt =====
-- What the checksum guarantees.
use mini_tcp.Base.{
  ℕ, zero, suc, ◌+◌, ◌-◌, ◌/◌, ◌%◌, ◌≤◌, ◌≡◌, true, [], ◌∷◌, ◌++◌, arith, ltb, ◌==◌, if◌then◌else◌,
  Bytes, length, Bool-cases, inl, inr, ◌⊎◌, refl, length-append, append_assoc, some, le→ltb,
}
use mini_tcp.Wire.{pack_8, pack_16}
use mini_tcp.Wire.Checksum.{
  word_sum, fold, ones_complement_sum, checksum, pseudo_checksum, transport_checksum, verify,
}

-- A positive total keeps its remainder by 65535, as a number from 1 to 65535.
fold_lem :
    (fuel total : ℕ)
    → total ≤ fuel
    → fold fuel total ≡ (if total == 0 then 0 else (total - 1) % 65535 + 1)
unfolding fold
fold_lem zero total h = ground arith
fold_lem (suc fuel) total h = elim (Bool-cases (ltb total 65536)) [
  | inl small ↦ rw small (ground arith)
  | inr large ↦
      let smaller : total % 65536 + total / 65536 ≤ fuel = ground arith in
      rw large (ground (arith, fold_lem fuel (total % 65536 + total / 65536) smaller))
]

word_sum-append :
    (front back : Bytes)
    → length front % 2 ≡ 0
    → word_sum (front ++ back) ≡ word_sum front + word_sum back
unfolding word_sum
word_sum-append [] back even = omega arith
word_sum-append (a ∷ []) back even = absurd (omega (arith, even))
word_sum-append (a ∷ b ∷ front) back even =
    let rest = word_sum-append front back (omega (arith, even)) in omega (arith, rest)

-- The field may also hold all ones where the checksum is zero, as UDP sends it.
abbrev pub StandsFor : ℕ → ℕ → Type 0
StandsFor field sum = (field ≡ sum) ⊎ ((sum ≡ 0) × (field ≡ 65535))

-- If the checksum is computed with zeros in its field, at an even offset, and a number that stands
-- for it is then stored there, the data verifies.
pub stored-verify :
    (front back : Bytes) (field : ℕ)
    → length front % 2 ≡ 0
    → StandsFor field (checksum (front ++ (0 ∷ 0 ∷ back)))
    → verify (front ++ (pack_16 field ++ back)) ≡ true
unfolding verify checksum ones_complement_sum
stored-verify front back field even stands =
    let total = word_sum (front ++ (0 ∷ 0 ∷ back)) in
    let whole = word_sum (front ++ (pack_16 field ++ back)) in
    let zeros : total ≡ word_sum front + word_sum back =
      unfold word_sum in omega (arith, word_sum-append front (0 ∷ 0 ∷ back) even) in
    let stored : whole ≡ word_sum front + word_sum back + field =
      unfold word_sum in omega (arith, word_sum-append front (pack_16 field ++ back) even) in
    ground (arith, fold_lem total total, fold_lem whole whole, zeros, stored, stands)

-- If the checksum is computed with zeros in its field, at an even offset, and then stored there, the
-- data verifies.
pub checksum-verify :
    (front back : Bytes)
    → length front % 2 ≡ 0
    → verify (front ++ (pack_16 (checksum (front ++ (0 ∷ 0 ∷ back))) ++ back)) ≡ true
checksum-verify front back even = stored-verify front back _ even (inl refl)

pub zero_of_verify : (bytes : Bytes) → verify bytes ≡ true → checksum bytes ≡ 0
unfolding verify
zero_of_verify bytes h = ground arith

-- The same of a message whose checksum covers the pseudo-header, for addresses that take an even
-- number of bytes.
pub transport-verify :
    (src dst : Bytes) (protocol : ℕ) (front back : Bytes) (field : ℕ)
    → (length src + length dst) % 2 ≡ 0
    → length front % 2 ≡ 0
    → StandsFor field (pseudo_checksum src dst protocol (front ++ (0 ∷ 0 ∷ back)))
    → pseudo_checksum src dst protocol (front ++ (pack_16 field ++ back)) ≡ 0
unfolding pseudo_checksum
transport-verify src dst protocol front back field addresses even stands =
    let size = length (front ++ (0 ∷ 0 ∷ back)) in
    let pseudo = src ++ dst ++ pack_8 0 ++ pack_8 protocol ++ pack_16 size in
    let whole = front ++ (pack_16 field ++ back) in
    let same : length whole ≡ size =
      omega
        (arith, length-append front (0 ∷ 0 ∷ back), length-append front (pack_16 field ++ back)) in
    let pseudo_even : length (pseudo ++ front) % 2 ≡ 0 = omega (
      arith,
      length-append pseudo front,
      length-append (src ++ dst ++ pack_8 0 ++ pack_8 protocol) (pack_16 size),
      length-append (src ++ dst ++ pack_8 0) (pack_8 protocol),
      length-append (src ++ dst) (pack_8 0),
      length-append src dst,
      even,
      addresses,
    ) in
    let verified =
      stored-verify (pseudo ++ front) back field pseudo_even
        (rw (append_assoc pseudo front (0 ∷ 0 ∷ back)) stands) in
    rw (same, ← append_assoc pseudo front (pack_16 field ++ back)) (zero_of_verify _ verified)

-- A segment that is not too long has a checksum.
pub transport_checksum-pseudo_checksum :
    (src dst : Bytes) (protocol : ℕ) (segment : Bytes)
    → length segment ≤ 65535
    → transport_checksum src dst protocol segment ≡ some (pseudo_checksum src dst protocol segment)
unfolding transport_checksum
transport_checksum-pseudo_checksum src dst protocol segment h =
    rw (le→ltb 65535 (length segment) h) refl
