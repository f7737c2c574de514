-- ===== src/Reorder/Each.antt =====
-- A property of every parked payload survives the operations that the receive queue uses.
use mini_tcp.Base.{ℕ, ◌≡◌, some, Bytes, arith, Option-cases, inl, inr}
use mini_tcp.Reorder.{ReorderQueue, insert, take}
use mini_tcp.Reorder.Entries.{Each, lookup, put-Each, erase-Each, lookup-Each}

module _ (P : ℕ → Bytes → Type 0) where
  pub taken-Each :
      (q : ReorderQueue) (seq : ℕ) {d : Bytes}
      → Each P q.entries
      → (take q seq).1 ≡ some d
      → P seq d
  unfolding take
  taken-Each q seq {d} h e = lookup-Each P seq q.entries h (ground arith)

  pub take-Each : (q : ReorderQueue) (seq : ℕ) → Each P q.entries → Each P (take q seq).0.entries
  unfolding take
  take-Each q seq h = elim (Option-cases (lookup seq q.entries)) [
    | inl e ↦ rw (e, take) h
    | inr (d, e) ↦ rw (e, take) (erase-Each P seq q.entries h)
  ]

  pub insert-Each :
      (q : ReorderQueue) (seq : ℕ) (d : Bytes)
      → P seq d
      → Each P q.entries
      → Each P (insert q seq d).0.entries
  unfolding insert
  insert-Each q seq d p h = ground (arith, put-Each P seq d q.entries p h)
