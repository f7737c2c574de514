-- ===== src/Reorder/Invariant.antt =====
-- Every operation of the reorder queue keeps its account of the bytes it holds.
use mini_tcp.Base.{
  Option-cases, inl, inr, ℕ, ◌≤◌, ◌<◌, ◌≡◌, refl, List, [], ◌∷◌, arith, Bytes, length,
}
use mini_tcp.Reorder.Entries.{
  lookup, has_key, total, Distinct, Each, total-put, total-erase, put-Distinct, erase-Distinct,
  put-Each, erase-Each,
}
use mini_tcp.Reorder.{ReorderQueue, make, insert, take, stale, pop_all, discard_before, clear}

abbrev pub NonEmpty : ℕ → Bytes → Type 0
NonEmpty k d = 0 < length d

-- `bytes_buffered` is what the entries hold and is within the capacity; keys are distinct, and no
-- entry is empty.
pub record IsValid (q : ReorderQueue) : Type 0 where
  pub accounted : total q.entries ≡ q.bytes_buffered
  pub bounded : q.bytes_buffered ≤ q.capacity
  pub distinct : Distinct q.entries
  pub nonempty : Each NonEmpty q.entries

pub make-IsValid : (capacity : ℕ) → IsValid (make capacity)
unfolding make total
make-IsValid capacity = record {
  accounted = refl;
  bounded = omega arith;
  distinct = tt;
  nonempty = tt;
}

pub insert-IsValid :
    (q : ReorderQueue) (seq : ℕ) (d : Bytes) → IsValid q → IsValid (insert q seq d).0
unfolding insert has_key
insert-IsValid q seq [] v = v
insert-IsValid q seq (x ∷ d) v = ground (
  arith,
  total-put seq (x ∷ d) q.entries,
  put-Distinct seq (x ∷ d) q.entries v.distinct,
  put-Each NonEmpty seq (x ∷ d) q.entries (omega arith) v.nonempty,
)

pub take-IsValid : (q : ReorderQueue) (seq : ℕ) → IsValid q → IsValid (take q seq).0
unfolding take
take-IsValid q seq v = elim (Option-cases (lookup seq q.entries)) [
  | inl e ↦ rw (e, take) v
  | inr (d, e) ↦
      rw (e, take)
        (record {
          accounted = omega (arith, total-erase seq q.entries e, v.accounted);
          bounded = omega (arith, v.bounded);
          distinct = erase-Distinct seq q.entries v.distinct;
          nonempty = erase-Each NonEmpty seq q.entries v.nonempty;
        })
]

pub pop_all-IsValid : (q : ReorderQueue) (keys : List ℕ) → IsValid q → IsValid (pop_all q keys)
unfolding pop_all
pop_all-IsValid q [] v = v
pop_all-IsValid q (key ∷ keys) v = pop_all-IsValid (take q key).0 keys (take-IsValid q key v)

take_shrinks :
    (q : ReorderQueue) (seq : ℕ)
    → ((take q seq).0.bytes_buffered ≤ q.bytes_buffered) × ((take q seq).0.capacity ≡ q.capacity)
unfolding take
take_shrinks q seq = ground arith

pub pop_all_shrinks :
    (q : ReorderQueue) (keys : List ℕ)
    → ((pop_all q keys).bytes_buffered ≤ q.bytes_buffered)
      × ((pop_all q keys).capacity ≡ q.capacity)
unfolding pop_all
pop_all_shrinks q [] = (omega arith, refl)
pop_all_shrinks q (key ∷ keys) =
    ground (arith, take_shrinks q key, pop_all_shrinks (take q key).0 keys)

pub discard_before-IsValid :
    (q : ReorderQueue) (seq : ℕ) → IsValid q → IsValid (discard_before q seq).0
unfolding discard_before
discard_before-IsValid q seq v = pop_all-IsValid q (stale seq q.entries) v

pub clear-IsValid : (q : ReorderQueue) → IsValid q → IsValid (clear q)
unfolding clear total
clear-IsValid q v = record { accounted = refl; bounded = omega arith; distinct = tt; nonempty = tt }

-- One call of the queue.
pub data Call : Type 0 where
  inserts : ℕ → Bytes → Call
  takes discards : ℕ → Call
  clears : Call

pub step : ReorderQueue → Call → ReorderQueue
step q (inserts seq d) = (insert q seq d).0
step q (takes seq) = (take q seq).0
step q (discards seq) = (discard_before q seq).0
step q clears = clear q

-- From a valid queue every operation keeps the byte count equal to the bytes held and within the
-- capacity, the keys distinct and the entries non-empty.
pub step-IsValid : (q : ReorderQueue) (c : Call) → IsValid q → IsValid (step q c)
unfolding step
step-IsValid q (inserts seq d) v = insert-IsValid q seq d v
step-IsValid q (takes seq) v = take-IsValid q seq v
step-IsValid q (discards seq) v = discard_before-IsValid q seq v
step-IsValid q clears v = clear-IsValid q v
