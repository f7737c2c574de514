-- ===== src/Retransmit/Queue.antt =====
-- What an acknowledgement takes out of the retransmission queue.
use mini_tcp.Base.{
  ℕ, ◌+◌, ◌≤◌, ◌<◌, ◌≡◌, refl, ap, ◌∙◌, false, Option, none, some, List, [], ◌∷◌, ◌++◌, arith, ltb,
  leb, if◌then◌else◌, Bytes, length, inl, inr, Bool-cases, leb→le,
}
use mini_tcp.Seqno.{seq_le, seq_half}
use mini_tcp.Seqno.Order.{wire, seq_add-wire, seq_cmp-wire}
use mini_tcp.Retransmit.{
  OutstandingSegment, RetransmitQueue, seq_len, seq_end, total_bytes, bytes_outstanding, add,
  split_acked, acknowledge, mark_retransmitted, mark_oldest, purge_before, clear,
}

abbrev pub head {ℓ} : {A : Type ℓ} → List A → Option A
head [] = none
head (x ∷ xs) = some x

module _ {T : Type 0} where
  -- The queue stays within its capacity.
  unfoldable pub IsValid : RetransmitQueue T → Type 0
  IsValid q = bytes_outstanding q ≤ q.capacity

  total_bytes-append :
      (xs ys : List (OutstandingSegment T))
      → total_bytes (xs ++ ys) ≡ total_bytes xs + total_bytes ys
  unfolding total_bytes
  total_bytes-append [] ys = omega arith
  total_bytes-append (x ∷ xs) ys = omega (arith, total_bytes-append xs ys)

  -- A new segment goes last if the capacity allows it, and otherwise the queue is as it was.
  pub add_lem :
      (q : RetransmitQueue T) (seq flags : ℕ) (payload : Bytes) (now : T)
      → let total = bytes_outstanding q + length payload in
        (bytes_outstanding (add q seq flags payload now).0
          ≡ (if leb total q.capacity then total else bytes_outstanding q))
        × (((add q seq flags payload now).1 ≡ none) → (add q seq flags payload now).0 ≡ q)
  unfolding add bytes_outstanding total_bytes
  add_lem q seq flags payload now =
      elim (Bool-cases (ltb q.capacity (total_bytes q.segments + length payload))) [
        | inl full ↦ rw full (ground arith, λ _. refl)
        | inr room ↦
            rw room (ground (arith, total_bytes-append q.segments (entry ∷ [])), λ e. absurd (cc))
      ]
    where
      entry : OutstandingSegment T
      entry = record {
        seq = seq;
        flags = flags;
        payload = payload;
        sent_at = now;
        retransmits = 0;
        rtt_sampled = false;
      }

  split_bytes :
      (ack : ℕ) (ss : List (OutstandingSegment T))
      → total_bytes (split_acked ack ss).0 + total_bytes (split_acked ack ss).1 ≡ total_bytes ss
  unfolding split_acked total_bytes
  split_bytes ack [] = refl
  split_bytes ack (s ∷ ss) = ground (arith, split_bytes ack ss)

  -- The segments tile the stream from position `p` to position `e`.
  abbrev pub Tiles : ℕ → ℕ → ℕ → List (OutstandingSegment T) → Type 0
  Tiles base p e [] = p ≡ e
  Tiles base p e (s ∷ ss) = (s.seq ≡ wire base p) × Tiles base (p + seq_len s) e ss

  pub Tiles-le : (base p e : ℕ) (ss : List (OutstandingSegment T)) → Tiles base p e ss → p ≤ e
  Tiles-le base p e [] h = omega arith
  Tiles-le base p e (s ∷ ss) h = omega (arith, Tiles-le base (p + seq_len s) e ss h.1)

  seq_end-wire :
      (base p : ℕ) (s : OutstandingSegment T)
      → s.seq ≡ wire base p
      → seq_end s ≡ wire base (p + seq_len s)
  unfolding seq_end
  seq_end-wire base p s h = rw h (seq_add-wire base p (seq_len s))

  -- If an acknowledgement covers no part of the first segment's end, it covers no later end.
  split_none :
      (base p e a : ℕ) (ss : List (OutstandingSegment T))
      → Tiles base p e ss
      → a < p
      → e < a + seq_half
      → split_acked (wire base a) ss ≡ ([], ss)
  unfolding split_acked
  split_none base p e a [] h k near = refl
  split_none base p e a (s ∷ ss) h k near = ground (
    arith,
    split_none base (p + seq_len s) e a ss h.1,
    seq_end-wire base p s h.0,
    Tiles-le base (p + seq_len s) e ss h.1,
    seq_cmp-wire base (p + seq_len s) a,
  )

  -- What an acknowledgement of position `a` leaves of segments that tile the stream from `p` to `e`.
  pub record Acknowledged (base p e a : ℕ) (ss : List (OutstandingSegment T))
      (result : List (OutstandingSegment T) × List (OutstandingSegment T)) : Type 0 where
    pub cut : ℕ
    pub at_most : cut ≤ a
    pub whole : result.0 ++ result.1 ≡ ss
    pub before : Tiles base p cut result.0
    pub after : Tiles base cut e result.1
    pub beyond : (s : OutstandingSegment T) → head result.1 ≡ some s → a < cut + seq_len s

  split_acked-Acknowledged :
      (base e a : ℕ) (ss : List (OutstandingSegment T)) (p : ℕ)
      → Tiles base p e ss
      → p ≤ a
      → a < p + seq_half
      → e < p + seq_half
      → Acknowledged base p e a ss (split_acked (wire base a) ss)
  unfolding split_acked
  split_acked-Acknowledged base e a [] p h k near far = record {
    cut = p;
    at_most = k;
    whole = refl;
    before = refl;
    after = h;
    beyond = λ s none_left. absurd (cc);
  }
  split_acked-Acknowledged base e a (s ∷ ss) p h k near far =
      elim (Bool-cases (leb (p + seq_len s) a)) [
        | inl covered ↦
            let rest =
              split_acked-Acknowledged base e a ss (p + seq_len s) h.1 (leb→le _ _ covered)
                (omega arith) (omega arith) in
            rw (test ∙ covered) (record {
              cut = rest.cut;
              at_most = rest.at_most;
              whole = ap (◌∷◌ s) rest.whole;
              before = (h.0, rest.before);
              after = rest.after;
              beyond = rest.beyond;
            })
        | inr open_end ↦
            rw
              (
                test ∙ open_end,
                split_none base (p + seq_len s) e a ss h.1 (leb→lt open_end) (omega arith),
              )
              (record {
                cut = p;
                at_most = k;
                whole = refl;
                before = refl;
                after = h;
                beyond = λ t first. ground (arith, leb→lt open_end);
              })
      ]
    where
      test : seq_le (seq_end s) (wire base a) ≡ leb (p + seq_len s) a
      test =
          rw (seq_end-wire base p s h.0)
            (seq_cmp-wire base (p + seq_len s) a
              (omega (arith, Tiles-le base (p + seq_len s) e ss h.1)) (omega arith)).0

      leb→lt : leb (p + seq_len s) a ≡ false → a < p + seq_len s
      leb→lt open_end = ground arith

  -- If the segments tile the stream from `p` to `e`, an acknowledgement of a position from `p` on,
  -- all less than 2 ^ 31 from `p`, takes out a prefix of the queue, whose segments end at or before
  -- it, and the first segment left ends beyond it; none is lost, and both parts still tile the
  -- stream.
  pub acknowledge-Acknowledged :
      (base p e a : ℕ) (q : RetransmitQueue T)
      → Tiles base p e q.segments
      → p ≤ a
      → a < p + seq_half
      → e < p + seq_half
      → Acknowledged base p e a q.segments
          ((acknowledge q (wire base a)).1, (acknowledge q (wire base a)).0.segments)
  unfolding acknowledge
  acknowledge-Acknowledged base p e a q h k near far =
      split_acked-Acknowledged base e a q.segments p h k near far

  add-IsValid :
      (q : RetransmitQueue T) (seq flags : ℕ) (payload : Bytes) (now : T)
      → IsValid q
      → IsValid (add q seq flags payload now).0
  unfolding IsValid add
  add-IsValid q seq flags payload now v = ground (arith, add_lem q seq flags payload now)

  mark_oldest-IsValid : (q : RetransmitQueue T) (now : T) → IsValid q → IsValid (mark_oldest q now)
  unfolding IsValid mark_oldest mark_retransmitted bytes_outstanding total_bytes
  mark_oldest-IsValid q now v = ground (arith, v)

  -- No operation on a queue within its capacity takes it beyond its capacity: adding refuses a segment that would, and
  -- acknowledging and purging only take segments out.
  pub capacity_kept :
      (q : RetransmitQueue T) (seq flags ack : ℕ) (payload : Bytes) (now : T)
      → IsValid q
      → IsValid (add q seq flags payload now).0
        × IsValid (acknowledge q ack).0
        × IsValid (purge_before q ack).0
        × IsValid (mark_oldest q now)
        × IsValid (clear q)
  capacity_kept q seq flags ack payload now v = (
    add-IsValid q seq flags payload now v,
    unfold IsValid acknowledge bytes_outstanding in omega (arith, v, split_bytes ack q.segments),
    unfold IsValid purge_before bytes_outstanding in omega (arith, v, split_bytes ack q.segments),
    mark_oldest-IsValid q now v,
    unfold IsValid clear bytes_outstanding total_bytes in omega arith,
  )
