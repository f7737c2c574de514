-- ===== src/Reorder/Lookup.antt =====
-- The reorder queue as a finite map from sequence numbers to payloads.
use mini_tcp.Base.{
  ℕ, ◌+◌, ◌<◌, ◌≡◌, refl, Bool, false, none, some, List, [], ◌∷◌, ◌&&◌, arith, ltb, ◌==◌,
  if◌then◌else◌, Bytes, length, Option-cases, inl, inr, ◌||◌, not,
}
use mini_tcp.Seqno.{seq_lt}
use mini_tcp.Reorder.Entries.{Dict, lookup, has_key, lookup-put, lookup-erase}
use mini_tcp.Reorder.{ReorderQueue, insert, take, peek, stale, pop_all, discard_before}
use mini_tcp.Reorder.Invariant.{IsValid, take-IsValid}

member : ℕ → List ℕ → Bool
member k [] = false
member k (j ∷ js) = (j == k) || member k js

member-stale : (seq k : ℕ) (m : Dict) → member k (stale seq m) ≡ (seq_lt k seq && has_key k m)
unfolding member stale has_key lookup
member-stale seq k [] = ground arith
member-stale seq k ((j, d) ∷ m) = ground (arith, member-stale seq k m)

pub peek-take :
    (q : ReorderQueue) (seq k : ℕ)
    → IsValid q
    → peek (take q seq).0 k ≡ (if seq == k then none else peek q k)
unfolding peek take
peek-take q seq k v = elim (Option-cases (lookup seq q.entries)) [
  | inl e ↦ rw (e, take) (ground arith)
  | inr (d, e) ↦ rw (e, take) (lookup-erase seq k q.entries v.distinct)
]

peek-pop_all :
    (q : ReorderQueue) (keys : List ℕ) (k : ℕ)
    → IsValid q
    → peek (pop_all q keys) k ≡ (if member k keys then none else peek q k)
unfolding pop_all member
peek-pop_all q [] k v = refl
peek-pop_all q (key ∷ keys) k v =
    ground (arith, peek-pop_all (take q key).0 keys k (take-IsValid q key v), peek-take q key k v)

-- In a valid queue, after `discard_before seq` exactly the payloads whose number does not precede `seq` are left.
pub peek-discard_before :
    (q : ReorderQueue) (seq k : ℕ)
    → IsValid q
    → peek (discard_before q seq).0 k ≡ (if seq_lt k seq then none else peek q k)
unfolding discard_before has_key peek
peek-discard_before q seq k v =
    ground (arith, peek-pop_all q (stale seq q.entries) k v, member-stale seq k q.entries)

-- A payload that is not empty is refused exactly when its number is taken or the capacity would be
-- exceeded; an accepted one is found under its number and nothing else changes; a refused or empty
-- one changes no entry.
pub peek-insert :
    (q : ReorderQueue) (seq k : ℕ) (d : Bytes)
    → 0 < length d
    → (peek (insert q seq d).0 k ≡ (if (insert q seq d).1 && (seq == k) then some d else peek q k))
      × (peek (insert q seq []).0 k ≡ peek q k)
      × ((insert q seq d).1
          ≡ not (has_key seq q.entries || ltb q.capacity (q.bytes_buffered + length d)))
unfolding peek insert
peek-insert q seq k [] h = absurd (omega arith)
peek-insert q seq k (x ∷ d) h =
    (ground (arith, lookup-put seq k (x ∷ d) q.entries), refl, ground arith)

-- In a valid queue `take` returns what `peek` shows and removes that entry alone.
pub take_lem :
    (q : ReorderQueue) (seq k : ℕ)
    → IsValid q
    → ((take q seq).1 ≡ peek q seq)
      × (peek (take q seq).0 k ≡ (if seq == k then none else peek q k))
take_lem q seq k v = (taken, peek-take q seq k v)
  where
    taken : (take q seq).1 ≡ peek q seq
    taken = unfold take peek in ground arith
