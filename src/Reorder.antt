-- ===== src/Reorder.antt =====
-- The holding area for segments that arrive early (minitcp/net/tcp/reorder.py). The dictionary is
-- an association list in insertion order; a lock or a callback plays no part in it.
pub mod Entries
pub mod Invariant
pub mod Lookup
pub mod Each
use mini_tcp.Base.{
  ℕ, ◌+◌, ◌-◌, Bool, true, false, Option, none, some, List, [], ◌∷◌, ltb, ◌==◌, if◌then◌else◌,
  Bytes, length, is_empty,
}
use mini_tcp.Reorder.Entries.{Dict, lookup, erase, put, has_key}
use mini_tcp.Seqno.{seq_lt}

pub record ReorderQueue : Type 0 where
  pub entries : Dict
  pub capacity : ℕ
  pub bytes_buffered : ℕ
  pub duplicates : ℕ
  pub overflows : ℕ

-- The fields that the constructor sets, once its guard has passed.
unfoldable pub make : ℕ → ReorderQueue
make capacity = record {
  entries = [];
  capacity = capacity;
  bytes_buffered = 0;
  duplicates = 0;
  overflows = 0;
}

-- `none` is the ValueError of a capacity that is not positive.
unfoldable pub init : ℕ → Option ReorderQueue
unfolding make
init capacity = if capacity == 0 then none else some (make capacity)

-- Park a payload; the flag says whether it was accepted.
unfoldable pub insert : ReorderQueue → ℕ → Bytes → ReorderQueue × Bool
insert q seq payload =
    if is_empty payload
    then (q, true)
    else if has_key seq q.entries
    then (record q { duplicates = q.duplicates + 1 }, false)
    else if ltb q.capacity (q.bytes_buffered + length payload)
    then (record q { overflows = q.overflows + 1 }, false)
    else (
      record q {
        entries = put seq payload q.entries;
        bytes_buffered = q.bytes_buffered + length payload;
      },
      true,
    )

unfoldable pub take : ReorderQueue → ℕ → ReorderQueue × Option Bytes
take q seq = elim (lookup seq q.entries) [
  | none ↦ (q, none)
  | some payload ↦ (
    record q { entries = erase seq q.entries; bytes_buffered = q.bytes_buffered - length payload },
    some payload,
  )
]

unfoldable pub peek : ReorderQueue → ℕ → Option Bytes
peek q seq = lookup seq q.entries

-- The keys that lie before `seq`.
unfoldable pub stale : ℕ → Dict → List ℕ
stale seq [] = []
stale seq ((key, payload) ∷ m) =
    let rest = stale seq m in if seq_lt key seq then key ∷ rest else rest

-- Pop each key of the list.
unfoldable pub pop_all : ReorderQueue → List ℕ → ReorderQueue
unfolding take
pop_all q [] = q
pop_all q (key ∷ keys) = pop_all (take q key).0 keys

unfoldable pub discard_before : ReorderQueue → ℕ → ReorderQueue × ℕ
unfolding stale pop_all
discard_before q seq = let keys = stale seq q.entries in (pop_all q keys, length keys)

unfoldable pub clear : ReorderQueue → ReorderQueue
clear q = record q { entries = []; bytes_buffered = 0 }

unfoldable pub free : ReorderQueue → ℕ
free q = q.capacity - q.bytes_buffered
