-- ===== src/Base/Slices.antt =====
-- Pieces of an endless byte stream, given as a function from positions to bytes.
use native.Mathlib.Nat.{zero-add}
use mini_tcp.Base.{
  ℕ, zero, suc, ◌+◌, ◌-◌, ◌≡◌, refl, sym, ap, ap₂, ◌∙◌, [], ◌∷◌, ◌++◌, arith, Bytes, length, take,
  drop, get_or, min, length-take, length-drop, length-append,
}

abbrev pub slice : (ℕ → ℕ) → ℕ → ℕ → Bytes
slice S p zero = []
slice S p (suc n) = S p ∷ slice S (suc p) n

-- `d` is what the stream holds from position `p` on.
abbrev pub IsPart : (ℕ → ℕ) → ℕ → Bytes → Type 0
IsPart S p d = d ≡ slice S p (length d)

module _ (S : ℕ → ℕ) where
  pub length-slice : (p n : ℕ) → length (slice S p n) ≡ n
  length-slice p zero = refl
  length-slice p (suc n) = ap suc (length-slice (suc p) n)

  slice_congr : {p q m n : ℕ} → p ≡ q → m ≡ n → slice S p m ≡ slice S q n
  slice_congr e h = rw (e, h)

  pub slice-append : (p m n : ℕ) → slice S p m ++ slice S (p + m) n ≡ slice S p (m + n)
  slice-append p zero n = slice_congr (omega arith) (omega arith)
  slice-append p (suc m) n =
      ap (◌++◌ (slice S p (suc m))) (slice_congr {q = suc p + m} (omega arith) refl)
      ∙ ap (◌∷◌ (S p)) (slice-append (suc p) m n)
      ∙ slice_congr {m = suc (m + n)} refl (omega arith)

  take-slice : (k p n : ℕ) → take k (slice S p n) ≡ slice S p (min k n)
  take-slice zero p n = slice_congr {m = 0} refl (omega arith)
  take-slice (suc k) p zero = slice_congr {p = p} {m = 0} refl (omega arith)
  take-slice (suc k) p (suc n) =
      ap (◌∷◌ (S p)) (take-slice k (suc p) n)
      ∙ slice_congr {p = p} {m = suc (min k n)} refl (omega arith)

  pub drop-slice : (k p n : ℕ) → drop k (slice S p n) ≡ slice S (p + k) (n - k)
  drop-slice zero p n = slice_congr (omega arith) (omega arith)
  drop-slice (suc k) p zero = slice_congr {p = p + suc k} {m = 0} (omega arith) (omega arith)
  drop-slice (suc k) p (suc n) = drop-slice k (suc p) n ∙ slice_congr (omega arith) (omega arith)

  pub take-IsPart : (p k : ℕ) (d : Bytes) → IsPart S p d → IsPart S p (take k d)
  take-IsPart p k d e =
      ap (take k) e ∙ take-slice k p (length d) ∙ slice_congr refl (sym (length-take k d))

  pub drop-IsPart : (p k : ℕ) (d : Bytes) → IsPart S p d → IsPart S (p + k) (drop k d)
  drop-IsPart p k d e =
      ap (drop k) e ∙ drop-slice k p (length d) ∙ slice_congr refl (sym (length-drop k d))

  -- Two pieces that meet make one.
  pub append-IsPart :
      (p q : ℕ) (d e : Bytes) → IsPart S p d → IsPart S q e → q ≡ p + length d → IsPart S p (d ++ e)
  append-IsPart p q d e h k meet =
      ap (λ (x : Bytes). x ++ e) h
      ∙ ap (◌++◌ (slice S p (length d))) (k ∙ slice_congr meet refl)
      ∙ slice-append p (length d) (length e)
      ∙ slice_congr refl (sym (length-append d e))

-- A list read as a stream is its own beginning.
pub slice-get_or : (xs : Bytes) → slice (λ i. get_or xs i 0) 0 (length xs) ≡ xs
slice-get_or xs = from_position xs (λ i. get_or xs i 0) 0 (λ i. rw zero-add refl)
  where
    from_position :
        (ys : Bytes) (S : ℕ → ℕ) (p : ℕ)
        → ((i : ℕ) → S (p + i) ≡ get_or ys i 0)
        → slice S p (length ys) ≡ ys
    from_position [] S p h = refl
    from_position (y ∷ ys) S p h =
        ap₂ ◌∷◌ (ap S (omega arith) ∙ h 0)
          (from_position ys S (suc p) (λ i. ap S (omega arith) ∙ h (suc i)))
