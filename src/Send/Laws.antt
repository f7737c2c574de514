-- ===== src/Send/Laws.antt =====
-- The send queue against the application's byte stream.
use mini_tcp.Base.{
  ℕ, ◌+◌, ◌-◌, ◌≤◌, ◌<◌, ◌≡◌, refl, ap, ◌∙◌, true, false, ◌++◌, arith, ltb, leb, ◌==◌,
  if◌then◌else◌, Bytes, length, take, drop, min, subst, pos_part, pos, max, lt→ltb, le→ltb,
  length-append, length-take, length-drop, Bool-cases, inl, inr,
}
use mini_tcp.Base.Slices.{IsPart, take-IsPart, drop-IsPart, append-IsPart}
use mini_tcp.Seqno.{seq_half, seq_diff, seq_gt, seq_lt}
use mini_tcp.Seqno.Order.{wire, seq_lt-wire, seq_cmp-wire, seq_diff-wire}
use mini_tcp.Send.{SendQueue, write, peek, acknowledge, in_flight, unsent}

-- The stream that the application writes, whose byte 0 has wire number `base`.
module _ (S : ℕ → ℕ) (base : ℕ) where
  -- Bytes before `u` are acknowledged, the next to send is byte `x`, and the buffer holds the
  -- bytes from `u` on.
  pub record Holds (u x : ℕ) (q : SendQueue) : Type 0 where
    pub at_una : q.una ≡ wire base u
    pub at_nxt : q.nxt ≡ wire base x
    pub sent : u ≤ x
    pub held : x ≤ u + length q.buf
    pub content : IsPart S u q.buf
    pub fits : length q.buf ≤ q.capacity
    pub narrow : q.capacity < seq_half

  -- The accepted bytes go behind the others.
  pub write_part :
      {u x : ℕ} (q : SendQueue) (d : Bytes)
      → Holds u x q
      → IsPart S (u + length q.buf) (take (q.capacity - length q.buf) d)
      → Holds u x (write q d).0 × ((write q d).1 ≡ min (length d) (q.capacity - length q.buf))
  unfolding write
  write_part {u} {x} q d t h = elim (Bool-cases (leb q.capacity (length q.buf))) [
    | inl full ↦ rw full (t, ground arith)
    | inr room ↦ rw room (grown, omega (arith, length-take (q.capacity - length q.buf) d))
  ]
    where
      chunk : Bytes
      chunk = take (q.capacity - length q.buf) d

      grown :
          Holds u x
            (record q { buf = q.buf ++ chunk; bytes_written = q.bytes_written + length chunk })
      grown = record {
        at_una = t.at_una;
        at_nxt = t.at_nxt;
        sent = t.sent;
        held = omega (arith, length-append q.buf chunk, t.held);
        content = append-IsPart S u (u + length q.buf) q.buf chunk t.content h refl;
        fits =
            omega
              (arith, length-append q.buf chunk, length-take (q.capacity - length q.buf) d, t.fits);
        narrow = t.narrow;
      }

  -- If the queue holds the stream and the new bytes continue it, `write` accepts as many as there is
  -- room for, from the front, and the queue still holds the stream.
  pub write-Holds :
      {u x : ℕ} (q : SendQueue) (d : Bytes)
      → Holds u x q
      → IsPart S (u + length q.buf) d
      → Holds u x (write q d).0 × ((write q d).1 ≡ min (length d) (q.capacity - length q.buf))
  write-Holds {u} q d t h =
      write_part q d t (take-IsPart S (u + length q.buf) (q.capacity - length q.buf) d h)

  ahead : {u x : ℕ} (q : SendQueue) → Holds u x q → seq_diff q.nxt q.una ≡ pos (x - u)
  ahead {u} {x} q t =
      let near : x < u + seq_half = omega (arith, t.held, t.fits, t.narrow) in
      let far : u < x + seq_half = omega (arith, t.sent) in
      let order : u ≤ x = t.sent in
      rw (t.at_nxt, t.at_una) (seq_diff-wire base x u near far ∙ ground arith)

  -- If the queue holds the stream, the bytes in flight are those sent and not acknowledged, and the
  -- others of the buffer are unsent.
  pub in_flight_lem :
      {u x : ℕ} (q : SendQueue)
      → Holds u x q
      → (in_flight q ≡ x - u) × (unsent q ≡ u + length q.buf - x)
  unfolding in_flight unsent
  in_flight_lem {u} {x} q t =
      let flight : pos_part (seq_diff q.nxt q.una) ≡ x - u = ap pos_part (ahead q t) in
      (flight, omega (arith, flight, t.sent, t.held))

  -- If the queue holds the stream, a peek at `nxt` is the stream at that position, as long as asked
  -- for and held.
  pub peek-Holds :
      {u x : ℕ} (q : SendQueue) (count : ℕ)
      → Holds u x q
      → IsPart S x (peek q q.nxt count)
        × (length (peek q q.nxt count) ≡ min count (u + length q.buf - x))
  unfolding peek
  peek-Holds {u} {x} q count t = elim (Bool-cases (count == 0)) [
    | inl e ↦ rw (ahead q t, e) (refl, ground arith)
    | inr e ↦
        rw (ahead q t, e)
          (
            take-IsPart S x count (drop (x - u) q.buf) (
                subst (λ y. IsPart S y (drop (x - u) q.buf)) (omega (arith, t.sent))
                  (drop-IsPart S u (x - u) q.buf t.content)),
            omega (
              arith,
              length-take count (drop (x - u) q.buf),
              length-drop (x - u) q.buf,
              t.sent,
              t.held,
            ),
          )
  ]

  acknowledged :
      {u x : ℕ} (q : SendQueue) (a : ℕ)
      → Holds u x q
      → u < a
      → a ≤ u + length q.buf
      → Holds a (max x a) (record q {
        una = wire base a;
        nxt = if seq_lt q.nxt (wire base a) then wire base a else q.nxt;
        buf = drop (a - u) q.buf;
      })
  acknowledged {u} {x} q a t h k = record {
    at_una = refl;
    at_nxt =
        rw
          (
            t.at_nxt,
            seq_lt-wire base x a (omega (arith, t.held, t.fits, t.narrow))
                (omega (arith, t.sent, t.fits, t.narrow)),
          )
          (picks x a);
    sent = omega arith;
    held = omega (arith, length-drop (a - u) q.buf, t.held);
    content =
        subst (λ y. IsPart S y (drop (a - u) q.buf)) (omega arith)
          (drop-IsPart S u (a - u) q.buf t.content);
    fits = omega (arith, length-drop (a - u) q.buf, t.fits);
    narrow = t.narrow;
  }
    where
      picks : (x a : ℕ) → (if ltb x a then wire base a else wire base x) ≡ wire base (max x a)
      picks x a = ground arith

  -- If the queue holds the stream, an acknowledgement of a new position `a`, up to the end of what
  -- is held, drops exactly the bytes before it, keeps all others in the buffer and counts what it
  -- dropped, and `nxt` never stays behind it.
  pub acknowledge-Holds :
      {u x : ℕ} (q : SendQueue) (a : ℕ)
      → Holds u x q
      → u < a
      → a ≤ u + length q.buf
      → Holds a (max x a) (acknowledge q (wire base a)).0
        × (((acknowledge q (wire base a)).0.buf ≡ drop (a - u) q.buf)
            × ((acknowledge q (wire base a)).1 ≡ a - u))
  unfolding acknowledge
  acknowledge-Holds {u} {x} q a t h k =
      rw (ahead_una, diff, dropped) (acknowledged q a t h k, (refl, refl))
    where
      near : a < u + seq_half
      near = omega (arith, t.fits, t.narrow)

      ahead_una : seq_gt (wire base a) q.una ≡ true
      ahead_una = rw t.at_una ((seq_cmp-wire base a u near (omega arith)).1 ∙ lt→ltb u a h)

      diff : seq_diff (wire base a) q.una ≡ pos (a - u)
      diff = rw t.at_una (seq_diff-wire base a u near (omega arith) ∙ ground arith)

      dropped : min (a - u) (length q.buf) ≡ a - u
      dropped = omega arith

  -- If the queue holds the stream, an acknowledgement of a position that is acknowledged already, by
  -- less than 2 ^ 31 bytes, changes nothing.
  pub acknowledge_old :
      {u x : ℕ} (q : SendQueue) (a : ℕ)
      → Holds u x q
      → a ≤ u
      → u < a + seq_half
      → acknowledge q (wire base a) ≡ (q, 0)
  unfolding acknowledge
  acknowledge_old {u} {x} q a t h near = rw old refl
    where
      old : seq_gt (wire base a) q.una ≡ false
      old = rw t.at_una ((seq_cmp-wire base a u (omega arith) near).1 ∙ le→ltb u a h)
