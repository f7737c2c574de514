-- ===== src/Receive/Cases.antt =====
-- The branches of `insert`, told apart by stream positions: a segment that starts at `p`, where the
-- queue expects byte `n`.
use mini_tcp.Base.{
  ℕ, ◌+◌, ◌-◌, ◌≤◌, ◌<◌, ◌≡◌, refl, ◌∙◌, true, false, arith, ltb, ◌==◌, ◌≢◌, Bytes, length, drop,
  is_empty, pos, sub_ℕ, length-drop, ==_iff, le→ltb, lt→ltb,
}
use mini_tcp.Seqno.{seq_half, seq_diff, seq_gt}
use mini_tcp.Seqno.Order.{wire, seq_cmp-wire, seq_diff-wire}
use mini_tcp.Receive.{
  ReceiveQueue, accept, slice_from, covers, park, accept_tail, insert, window, available,
  held_out_of_order,
}

abbrev pub seen : ReceiveQueue → ReceiveQueue
seen q = record q { duplicates = q.duplicates + 1 }

pub window-seen : (q : ReceiveQueue) → window (seen q) ≡ window q
unfolding window available held_out_of_order
window-seen q = refl

module _ (base p n : ℕ) (q : ReceiveQueue) (d : Bytes) (at_nxt : q.nxt ≡ wire base n)
    (filled : 0 < length d) (near : p < n + seq_half) (far : n < p + seq_half) where
  gt_nxt : seq_gt (wire base p) q.nxt ≡ ltb n p
  gt_nxt = rw at_nxt (seq_cmp-wire base p n near far).1

  diff_nxt : seq_diff q.nxt (wire base p) ≡ sub_ℕ n p
  diff_nxt = rw at_nxt (seq_diff-wire base n p far near)

  not_empty : is_empty d ≡ false
  not_empty = ground arith

  same_number : p ≡ n → (wire base p == q.nxt) ≡ true
  same_number e = (==_iff _ _).1 (rw (e, at_nxt) refl)

  other_number : p ≢ n → (wire base p == q.nxt) ≡ false
  other_number ne = rw at_nxt (ground arith)

  pub insert_next : p ≡ n → insert q (wire base p) d ≡ accept q d
  unfolding insert
  insert_next e = rw (not_empty, same_number e) refl

  pub insert_ahead : n < p → insert q (wire base p) d ≡ (park q (wire base p) d, 0)
  unfolding insert
  insert_ahead h = rw (not_empty, other_number (omega arith), gt_nxt, lt→ltb n p h) refl

  behind : p ≤ n → seq_diff q.nxt (wire base p) ≡ pos (n - p)
  behind h = diff_nxt ∙ ground arith

  pub insert_covered : p + length d ≤ n → insert q (wire base p) d ≡ (seen q, 0)
  unfolding insert covers
  insert_covered h =
      rw
        (
          not_empty,
          other_number (omega arith),
          gt_nxt,
          le→ltb n p (omega arith),
          behind (omega arith),
        )
        (ground arith)

  pub insert_overlap :
      p < n → n < p + length d → insert q (wire base p) d ≡ accept (seen q) (drop (n - p) d)
  unfolding insert accept_tail covers slice_from
  insert_overlap h k =
      rw
        (
          not_empty,
          other_number (omega arith),
          gt_nxt,
          le→ltb n p (omega arith),
          behind (omega arith),
        )
        (ground (arith, length-drop (n - p) d))
