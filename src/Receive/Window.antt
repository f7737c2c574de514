-- ===== src/Receive/Window.antt =====
-- The receive queue never holds more than its capacity.
use mini_tcp.Base.{
  ℕ, zero, suc, ◌+◌, ◌≤◌, ◌≡◌, refl, some, arith, ◌==◌, Bytes, length, take, min, is_empty,
  length-append, length-take, ◌∙◌, length-drop, Option-cases, Bool-cases, inl, inr,
}
use mini_tcp.Reorder
use mini_tcp.Reorder.{ReorderQueue}
use mini_tcp.Reorder.Entries.{total-erase}
use mini_tcp.Reorder.Invariant
use mini_tcp.Seqno.{seq_diff}
use mini_tcp.Receive.{
  ReceiveQueue, make, available, window, deliver, drain, accept, slice_from, park, trim,
  held_out_of_order, accept_tail, insert, compact, read, discard_before,
}

-- The reorder queue is valid and as large as the whole queue, the read position lies in the buffer,
-- and what is buffered and parked together fits the capacity.
pub record IsValid (q : ReceiveQueue) : Type 0 where
  pub parked : Invariant.IsValid q.ooo
  pub same_capacity : q.ooo.capacity ≡ q.capacity
  pub read_within : q.read_pos ≤ length q.buf
  pub fits : length q.buf + q.ooo.bytes_buffered ≤ q.capacity + q.read_pos

pub make-IsValid : (irs capacity : ℕ) → IsValid (make irs capacity)
unfolding make Reorder.make
make-IsValid irs capacity = record {
  parked = Invariant.make-IsValid capacity;
  same_capacity = refl;
  read_within = omega arith;
  fits = omega arith;
}

-- Taking a parked payload out frees exactly its length.
take_frees :
    (q : ReorderQueue) (seq : ℕ) {d : Bytes}
    → Invariant.IsValid q
    → (Reorder.take q seq).1 ≡ some d
    → ((Reorder.take q seq).0.bytes_buffered + length d ≡ q.bytes_buffered)
      × ((Reorder.take q seq).0.capacity ≡ q.capacity)
unfolding Reorder.take
take_frees q seq {d} v h =
    ground (arith, total-erase seq q.entries {v = d}, v.accounted, Invariant.take-IsValid q seq v)

-- One round of the loop keeps the invariant: the bytes move from the reorder queue to the buffer.
pub deliver_taken-IsValid :
    (q : ReceiveQueue) (d : Bytes)
    → IsValid q
    → (Reorder.take q.ooo q.nxt).1 ≡ some d
    → IsValid (deliver (record q { ooo = (Reorder.take q.ooo q.nxt).0 }) d)
unfolding deliver
deliver_taken-IsValid q d v e =
    let frees = take_frees q.ooo q.nxt v.parked e in
    record {
      parked = Invariant.take-IsValid q.ooo q.nxt v.parked;
      same_capacity = frees.1 ∙ v.same_capacity;
      read_within = omega (arith, length-append q.buf d, v.read_within);
      fits = omega (arith, length-append q.buf d, v.fits, frees.0);
    }

drain-IsValid :
    (fuel : ℕ) (q : ReceiveQueue) (newly : ℕ) → IsValid q → IsValid (drain fuel q newly).0
unfolding drain
drain-IsValid zero q newly v = v
drain-IsValid (suc fuel) q newly v = elim (Option-cases (Reorder.take q.ooo q.nxt).1) [
  | inl e ↦ rw (e, drain) v
  | inr (d, e) ↦
      rw (e, drain) (drain-IsValid fuel _ (newly + length d) (deliver_taken-IsValid q d v e))
]

pub deliver-IsValid :
    (q : ReceiveQueue) (payload : Bytes) → IsValid q → IsValid (deliver q (take (window q) payload))
unfolding deliver window available held_out_of_order
deliver-IsValid q payload v =
    let chunk = take (window q) payload in
    record {
      parked = v.parked;
      same_capacity = v.same_capacity;
      read_within = omega (arith, length-append q.buf chunk, v.read_within);
      fits =
          omega (
            arith,
            length-append q.buf chunk,
            length-take (window q) payload,
            v.fits,
            v.read_within,
          );
    }

accept-IsValid : (q : ReceiveQueue) (payload : Bytes) → IsValid q → IsValid (accept q payload).0
unfolding accept
accept-IsValid q payload v = elim (Bool-cases (window q == 0)) [
  | inl e ↦ rw e v
  | inr e ↦ rw e (
      drain-IsValid (suc (length q.ooo.entries)) (deliver q (take (window q) payload))
        (length (take (window q) payload)) (deliver-IsValid q payload v))
]

-- What `insert` of the reorder queue changes.
reorder_insert_grows :
    (q : ReorderQueue) (seq : ℕ) (d : Bytes)
    → ((Reorder.insert q seq d).0.bytes_buffered ≤ q.bytes_buffered + length d)
      × ((Reorder.insert q seq d).0.capacity ≡ q.capacity)
unfolding Reorder.insert
reorder_insert_grows q seq d = ground arith

pub length-trim :
    (room : ℕ) (payload : Bytes) → length (trim room payload) ≡ min room (length payload)
unfolding trim
length-trim room payload = ground (arith, length-take room payload)

pub park-IsValid :
    (q : ReceiveQueue) (seq : ℕ) (payload : Bytes) → IsValid q → IsValid (park q seq payload)
unfolding park
park-IsValid q seq payload v =
    let grows = reorder_insert_grows q.ooo seq (trim (window q) payload) in
    elim (Bool-cases (is_empty (trim (window q) payload))) [
      | inl e ↦ rw e v
      | inr e ↦ rw e (record {
        parked = Invariant.insert-IsValid q.ooo seq (trim (window q) payload) v.parked;
        same_capacity = grows.1 ∙ v.same_capacity;
        read_within = v.read_within;
        fits = parked_fits grows.0 (omega (arith, length-trim (window q) payload));
      })
    ]
  where
    parked_fits :
        {n k : ℕ}
        → n ≤ q.ooo.bytes_buffered + k
        → k ≤ window q
        → length q.buf + n ≤ q.capacity + q.read_pos
    parked_fits h room =
        unfold window available held_out_of_order in omega (arith, v.fits, v.read_within)

pub seen-IsValid :
    (q : ReceiveQueue) → IsValid q → IsValid (record q { duplicates = q.duplicates + 1 })
seen-IsValid q v = record {
  parked = v.parked;
  same_capacity = v.same_capacity;
  read_within = v.read_within;
  fits = v.fits;
}

pub insert-IsValid :
    (q : ReceiveQueue) (seq : ℕ) (payload : Bytes) → IsValid q → IsValid (insert q seq payload).0
unfolding insert accept_tail
insert-IsValid q seq payload v = ground (
  arith,
  accept-IsValid q payload v,
  park-IsValid q seq payload v,
  seen-IsValid q v,
  accept-IsValid (record q { duplicates = q.duplicates + 1 })
      (slice_from (seq_diff q.nxt seq) payload) (seen-IsValid q v),
)

pub read-IsValid : (q : ReceiveQueue) (max_bytes : ℕ) → IsValid q → IsValid (read q max_bytes).0
unfolding read compact
read-IsValid q max_bytes v = compact_valid
  where
    compact_valid : IsValid (read q max_bytes).0
    compact_valid =
        ground (arith, length-drop (min (q.read_pos + max_bytes) (length q.buf)) q.buf, v.parked)

pub discard_before-IsValid :
    (q : ReceiveQueue) (seq : ℕ) → IsValid q → IsValid (discard_before q seq)
unfolding discard_before Reorder.discard_before
discard_before-IsValid q seq v =
    let shrinks = Invariant.pop_all_shrinks q.ooo (Reorder.stale seq q.ooo.entries) in
    record {
      parked = Invariant.pop_all-IsValid q.ooo (Reorder.stale seq q.ooo.entries) v.parked;
      same_capacity = shrinks.1 ∙ v.same_capacity;
      read_within = v.read_within;
      fits = omega (arith, shrinks.0, v.fits);
    }
