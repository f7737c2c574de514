-- ===== src/Receive/Stream.antt =====
-- The receive queue against the peer's byte stream: what it hands out is the stream, in order,
-- however its segments arrive.
use mini_tcp.Base.{
  ℕ, zero, suc, ◌+◌, ◌-◌, ◌≤◌, ◌<◌, ◌≡◌, refl, sym, ap, ◌∙◌, some, [], ◌∷◌, ◌++◌, arith, ltb, leb,
  ◌==◌, if◌then◌else◌, Bytes, length, take, drop, min, is_empty, subst, length-append, length-take,
  length-drop, drop-append, Option-cases, Bool-cases, inl, inr, compare_cases, ltb→lt, ltb→le,
}
use mini_tcp.Base.Slices.{slice, IsPart, take-IsPart, drop-IsPart, append-IsPart, length-slice}
use mini_tcp.Seqno.{seq_add, seq_space, seq_half}
use mini_tcp.Seqno.Order.{wire, seq_add-wire, wire-injective}
use mini_tcp.Reorder
use mini_tcp.Reorder.{ReorderQueue}
use mini_tcp.Reorder.Each.{taken-Each, take-Each, insert-Each}
use mini_tcp.Reorder.Entries.{Each}
use mini_tcp.Receive.{ReceiveQueue, make, window, deliver, drain, accept, park, trim, insert}
use mini_tcp.Receive.Window.{
  IsValid, make-IsValid, deliver_taken-IsValid, deliver-IsValid, seen-IsValid, park-IsValid,
  length-trim,
}
use mini_tcp.Receive.Cases.{
  seen, window-seen, insert_next, insert_ahead, insert_covered, insert_overlap,
}

-- The stream `S` has `limit` bytes, and its first byte has wire number `base`.
module _ (S : ℕ → ℕ) (base limit : ℕ) (small : limit < seq_space) where
  -- A parked payload is the piece of the stream that its number says.
  abbrev pub Parked : ℕ → Bytes → Type 0
  Parked key d = (p : ℕ) × (key ≡ wire base p) × IsPart S p d × (p + length d ≤ limit)

  -- The application has read `r` bytes; bytes `r` up to `n` wait in order; `nxt` is the wire number
  -- of byte `n`; every parked payload is a piece of the stream.
  pub record Tracks (r n : ℕ) (q : ReceiveQueue) : Type 0 where
    pub valid : IsValid q
    pub at_nxt : q.nxt ≡ wire base n
    pub unread : drop q.read_pos q.buf ≡ slice S r (n - r)
    pub ordered : r ≤ n
    pub within : n ≤ limit
    pub parked : Each Parked q.ooo.entries

  move : {r n m : ℕ} {q : ReceiveQueue} → n ≡ m → Tracks r n q → Tracks r m q
  move {r} {q = q} e t = subst (λ x. Tracks r x q) e t

  pub unread-IsPart :
      {r n : ℕ} {q : ReceiveQueue} → Tracks r n q → IsPart S r (drop q.read_pos q.buf)
  unread-IsPart {r} {n} {q} t =
      t.unread ∙ ap (slice S r) (sym (ap length t.unread ∙ length-slice S r (n - r)))

  pub length-unread :
      {r n : ℕ} {q : ReceiveQueue} → Tracks r n q → length (drop q.read_pos q.buf) ≡ n - r
  length-unread {r} {n} t = ap length t.unread ∙ length-slice S r (n - r)

  deliver_unread :
      {r n : ℕ} (q : ReceiveQueue) (d : Bytes)
      → Tracks r n q
      → IsPart S n d
      → drop q.read_pos (q.buf ++ d) ≡ slice S r (n + length d - r)
  deliver_unread {r} {n} q d t h =
      drop-append q.buf d q.read_pos t.valid.read_within
      ∙ append-IsPart S r n (drop q.read_pos q.buf) d (unread-IsPart t) h
          (omega (arith, length-unread t, t.ordered))
      ∙ ap (slice S r)
          (omega (arith, length-append (drop q.read_pos q.buf) d, length-unread t, t.ordered))

  -- Bytes that continue the stream may be delivered, whatever becomes of the reorder queue.
  deliver-Tracks :
      {r n : ℕ} (q : ReceiveQueue) (d : Bytes) (ooo : ReorderQueue)
      → Tracks r n q
      → IsPart S n d
      → n + length d ≤ limit
      → Each Parked ooo.entries
      → IsValid (deliver (record q { ooo = ooo }) d)
      → Tracks r (n + length d) (deliver (record q { ooo = ooo }) d)
  unfolding deliver
  deliver-Tracks {r} {n} q d ooo t h fits parked valid = record {
    valid = valid;
    at_nxt = rw t.at_nxt (seq_add-wire base n (length d));
    unread = deliver_unread q d t h;
    ordered = omega (arith, t.ordered);
    within = fits;
    parked = parked;
  }

  -- A payload taken at `nxt` is the next piece: two positions of the stream with one wire number
  -- are the same.
  taken-IsPart :
      {r n : ℕ} (q : ReceiveQueue) (d : Bytes)
      → Tracks r n q
      → (Reorder.take q.ooo q.nxt).1 ≡ some d
      → IsPart S n d × (n + length d ≤ limit)
  taken-IsPart {r} {n} q d t e =
      let (p, key, part, fits) = taken-Each Parked q.ooo q.nxt t.parked e in
      let same : p ≡ n =
        wire-injective base p n (omega arith) (omega (arith, t.within)) (sym key ∙ t.at_nxt) in
      (subst (λ x. IsPart S x d) same part, omega arith)

  drain-Tracks :
      (fuel : ℕ) {r : ℕ} (n : ℕ) (q : ReceiveQueue) (newly : ℕ)
      → Tracks r n q
      → (m : ℕ) × Tracks r (n + m) (drain fuel q newly).0 × ((drain fuel q newly).1 ≡ newly + m)
  unfolding drain
  drain-Tracks zero {r} n q newly t = (0, move (omega arith) t, omega arith)
  drain-Tracks (suc fuel) {r} n q newly t = elim (Option-cases (Reorder.take q.ooo q.nxt).1) [
    | inl e ↦ rw (e, drain) (0, move (omega arith) t, omega arith)
    | inr (d, e) ↦
        let (part, fits) = taken-IsPart q d t e in
        let ooo = (Reorder.take q.ooo q.nxt).0 in
        let next =
          deliver-Tracks q d ooo t part fits (take-Each Parked q.ooo q.nxt t.parked)
            (deliver_taken-IsValid q d t.valid e) in
        let (m, tracks, count) = drain-Tracks fuel (n + length d) _ (newly + length d) next in
        rw (e, drain) (length d + m, move (omega arith) tracks, omega (arith, count))
  ]

  -- `accept` of a piece that continues the stream moves `n` on by the count that it returns, which
  -- is at least what fits of the piece.
  accept-Tracks :
      {r : ℕ} (n : ℕ) (q : ReceiveQueue) (d : Bytes)
      → Tracks r n q
      → IsPart S n d
      → n + length d ≤ limit
      → (m : ℕ) × Tracks r (n + m) (accept q d).0
        × ((accept q d).1 ≡ m)
        × (min (window q) (length d) ≤ m)
  unfolding accept
  accept-Tracks {r} n q d t h fits = elim (Bool-cases (window q == 0)) [
    | inl e ↦ rw e (0, move (omega arith) t, refl, ground arith)
    | inr e ↦
        let chunk = take (window q) d in
        let start =
          deliver-Tracks q chunk q.ooo t (take-IsPart S n (window q) d h)
            (omega (arith, length-take (window q) d)) t.parked (deliver-IsValid q d t.valid) in
        let (m, tracks, count) =
          drain-Tracks (suc (length q.ooo.entries)) (n + length chunk) _ (length chunk) start in
        rw e (
          length chunk + m,
          move (omega arith) tracks,
          count,
          omega (arith, length-take (window q) d),
        )
  ]

  trim-IsPart : (p room : ℕ) (d : Bytes) → IsPart S p d → IsPart S p (trim room d)
  unfolding trim
  trim-IsPart p room d h = elim (Bool-cases (ltb room (length d))) [
    | inl e ↦ rw e (take-IsPart S p room d h)
    | inr e ↦ rw e h
  ]

  park-Tracks :
      {r n : ℕ} (q : ReceiveQueue) (p : ℕ) (d : Bytes)
      → Tracks r n q
      → IsPart S p d
      → p + length d ≤ limit
      → Tracks r n (park q (wire base p) d)
  unfolding park
  park-Tracks {r} {n} q p d t h fits = elim (Bool-cases (is_empty trimmed)) [
    | inl e ↦ rw e t
    | inr e ↦ rw e (record {
      valid = subst IsValid (rw e) (park-IsValid q (wire base p) d t.valid);
      at_nxt = t.at_nxt;
      unread = t.unread;
      ordered = t.ordered;
      within = t.within;
      parked =
          insert-Each Parked q.ooo (wire base p) trimmed
            (p, refl, trim-IsPart p (window q) d h, omega (arith, length-trim (window q) d))
            t.parked;
    })
  ]
    where
      trimmed : Bytes
      trimmed = trim (window q) d

  seen-Tracks : {r n : ℕ} (q : ReceiveQueue) → Tracks r n q → Tracks r n (seen q)
  seen-Tracks q t = record {
    valid = seen-IsValid q t.valid;
    at_nxt = t.at_nxt;
    unread = t.unread;
    ordered = t.ordered;
    within = t.within;
    parked = t.parked;
  }

  -- What `insert` guarantees of a result: the queue is on the stream, at a byte that is the count
  -- further on.
  pub record Advances (r n least : ℕ) (result : ReceiveQueue × ℕ) : Type 0 where
    pub tracks : Tracks r (n + result.1) result.0
    pub at_least : least ≤ result.1

  weaken : {r n a b : ℕ} {res : ReceiveQueue × ℕ} → b ≤ a → Advances r n a res → Advances r n b res
  weaken h a = record { tracks = a.tracks; at_least = omega (arith, a.at_least) }

  accept-Advances :
      {r n : ℕ} (q : ReceiveQueue) (d : Bytes)
      → Tracks r n q
      → IsPart S n d
      → n + length d ≤ limit
      → Advances r n (min (window q) (length d)) (accept q d)
  accept-Advances {r} {n} q d t h fits =
      let (m, tracks, count, least) = accept-Tracks n q d t h fits in
      record {
        tracks = move (ap (◌+◌ n) (sym count)) tracks;
        at_least = omega (arith, count, least);
      }

  -- A piece of the stream that starts less than 2 ^ 31 from byte `n`, before or behind it, may
  -- arrive at any time at a queue that is on the stream: it stays on the stream, and `n` moves on by the count that `insert`
  -- returns. If the piece starts at or before byte `n` and there is room, that count is at least
  -- what fits of the piece's new part.
  pub insert-Advances :
      {r : ℕ} (n : ℕ) (q : ReceiveQueue) (p : ℕ) (d : Bytes)
      → Tracks r n q
      → IsPart S p d
      → p + length d ≤ limit
      → p < n + seq_half
      → n < p + seq_half
      → Advances r n
          (if leb p n then min (window q) (p + length d - n) else 0)
          (insert q (wire base p) d)
  insert-Advances {r} n q p [] t h fits near far =
      unfold insert in record { tracks = move (omega arith) t; at_least = ground arith }
  insert-Advances {r} n q p (x ∷ d) t h fits near far = elim (compare_cases p n) [
    | inl before ↦ elim (Bool-cases (ltb n (p + length (x ∷ d)))) [
      | inl overlaps ↦
          rw
            (insert_overlap base p n q (x ∷ d) t.at_nxt (omega arith) near far before
              (ltb→lt _ _ overlaps))
            (weaken (ground (arith, length-drop (n - p) (x ∷ d), window-seen q)) (
              accept-Advances (seen q) (drop (n - p) (x ∷ d)) (seen-Tracks q t)
                (subst (λ y. IsPart S y (drop (n - p) (x ∷ d))) (omega arith)
                  (drop-IsPart S p (n - p) (x ∷ d) h))
                (omega (arith, length-drop (n - p) (x ∷ d)))))
      | inr covered ↦
          rw
            (insert_covered base p n q (x ∷ d) t.at_nxt (omega arith) near far (ltb→le _ _ covered))
            (record { tracks = move (omega arith) (seen-Tracks q t); at_least = ground arith })
    ]
    | inr (inl same) ↦ rw (insert_next base p n q (x ∷ d) t.at_nxt (omega arith) near far same) (
        weaken (ground arith)
          (accept-Advances q (x ∷ d) t (subst (λ y. IsPart S y (x ∷ d)) same h) (omega arith)))
    | inr (inr after) ↦
        rw (insert_ahead base p n q (x ∷ d) t.at_nxt (omega arith) near far after) (record {
          tracks = move (omega arith) (park-Tracks q p (x ∷ d) t h fits);
          at_least = ground arith;
        })
  ]

pub make-Tracks :
    (S : ℕ → ℕ) (irs limit capacity : ℕ) (small : limit < seq_space)
    → Tracks S (irs + 1) limit small 0 0 (make irs capacity)
unfolding make Reorder.make seq_add
make-Tracks S irs limit capacity small = record {
  valid = make-IsValid irs capacity;
  at_nxt = omega arith;
  unread = refl;
  ordered = omega arith;
  within = omega arith;
  parked = tt;
}
