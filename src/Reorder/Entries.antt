-- ===== src/Reorder/Entries.antt =====
-- The `dict[int, bytes]` of minitcp/net/tcp/reorder.py, as an association list with distinct keys.
use mini_tcp.Base.{
  ℕ, ◌+◌, ◌≡◌, refl, Bool, true, false, Option, none, some, List, [], ◌∷◌, arith, ◌==◌,
  if◌then◌else◌, Bytes, length,
}

abbrev pub Dict : Type 0
Dict = List (ℕ × Bytes)

unfoldable pub lookup : ℕ → Dict → Option Bytes
lookup k [] = none
lookup k ((j, d) ∷ m) = if j == k then some d else lookup k m

unfoldable pub has_key : ℕ → Dict → Bool
unfolding lookup
has_key k m = elim (lookup k m) [ none ↦ false | some d ↦ true ]

unfoldable pub erase : ℕ → Dict → Dict
erase k [] = []
erase k ((j, d) ∷ m) = if j == k then m else (j, d) ∷ erase k m

-- A new key goes last; an old one keeps its place.
unfoldable pub put : ℕ → Bytes → Dict → Dict
put k v [] = (k, v) ∷ []
put k v ((j, d) ∷ m) = if j == k then (k, v) ∷ m else (j, d) ∷ put k v m

-- The bytes that a dictionary holds.
unfoldable pub total : Dict → ℕ
total [] = 0
total ((j, d) ∷ m) = length d + total m

abbrev pub Distinct : Dict → Type 0
Distinct [] = Unit {0}
Distinct ((j, d) ∷ m) = (lookup j m ≡ none) × Distinct m

-- A property of every entry.
abbrev pub Each : (ℕ → Bytes → Type 0) → Dict → Type 0
Each P [] = Unit {0}
Each P ((j, d) ∷ m) = P j d × Each P m

pub lookup-put :
    (k j : ℕ) (v : Bytes) (m : Dict)
    → lookup j (put k v m) ≡ (if k == j then some v else lookup j m)
unfolding lookup put
lookup-put k j v [] = refl
lookup-put k j v ((i, d) ∷ m) = ground (arith, lookup-put k j v m)

pub lookup-erase :
    (k j : ℕ) (m : Dict) → Distinct m → lookup j (erase k m) ≡ (if k == j then none else lookup j m)
unfolding lookup erase
lookup-erase k j [] h = ground arith
lookup-erase k j ((i, d) ∷ m) h = ground (arith, lookup-erase k j m h.1)

pub total-put :
    (k : ℕ) (v : Bytes) (m : Dict) → lookup k m ≡ none → total (put k v m) ≡ total m + length v
unfolding lookup put total
total-put k v [] h = omega arith
total-put k v ((i, d) ∷ m) h = ground (arith, total-put k v m)

pub total-erase :
    (k : ℕ) (m : Dict) {v : Bytes} → lookup k m ≡ some v → total (erase k m) + length v ≡ total m
unfolding lookup erase total
total-erase k [] h = cc
total-erase k ((i, d) ∷ m) {v} h = ground (arith, total-erase k m {v = v})

pub put-Distinct : (k : ℕ) (v : Bytes) (m : Dict) → Distinct m → Distinct (put k v m)
unfolding lookup put
put-Distinct k v [] h = ground arith
put-Distinct k v ((i, d) ∷ m) h = ground (arith, put-Distinct k v m h.1, lookup-put k i v m)

pub erase-Distinct : (k : ℕ) (m : Dict) → Distinct m → Distinct (erase k m)
unfolding lookup erase
erase-Distinct k [] h = tt
erase-Distinct k ((i, d) ∷ m) h = ground (arith, erase-Distinct k m h.1, lookup-erase k i m h.1)

module _ (P : ℕ → Bytes → Type 0) where
  pub put-Each : (k : ℕ) (v : Bytes) (m : Dict) → P k v → Each P m → Each P (put k v m)
  unfolding put
  put-Each k v [] p h = (p, tt)
  put-Each k v ((i, d) ∷ m) p h = ground (arith, put-Each k v m p h.1)

  pub erase-Each : (k : ℕ) (m : Dict) → Each P m → Each P (erase k m)
  unfolding erase
  erase-Each k [] h = tt
  erase-Each k ((i, d) ∷ m) h = ground (arith, erase-Each k m h.1)

  pub lookup-Each : (k : ℕ) (m : Dict) {v : Bytes} → Each P m → lookup k m ≡ some v → P k v
  unfolding lookup
  lookup-Each k [] h e = cc
  lookup-Each k ((i, d) ∷ m) {v} h e = ground (arith, lookup-Each k m {v = v} h.1)
