-- ===== src/Delivery/Acking.antt =====
-- The acknowledgements that TCPConnection (minitcp/net/tcp/connection.py: `_process_ack`) takes.
use mini_tcp.Base.{
  ℕ, ◌+◌, ◌-◌, ◌≤◌, ◌<◌, ◌≡◌, sym, ◌∙◌, subst, Bool, true, false, ◌&&◌, [], ◌∷◌, drop, length-drop,
  arith, length, All, ltb, ◌==◌, max, min, Bool-cases, inl, inr, pos_part, ltb→lt, List,
}
use mini_tcp.Seqno.{seq_gt, seq_diff}
use mini_tcp.Seqno.Order.{wire, seq_cmp-wire}
use mini_tcp.Seqno.{seq_le}
use mini_tcp.Time.{TimeOps}
use mini_tcp.Segment.{TcpSegment, is_some}
use mini_tcp.Send
use mini_tcp.Send.{SendQueue}
use mini_tcp.Send.Laws.{acknowledge-Holds}
use mini_tcp.Retransmit
use mini_tcp.Retransmit.{OutstandingSegment}
use mini_tcp.Connection.{Connection}
use mini_tcp.Connection.Outbound.{arm_retransmit_timer}
use mini_tcp.Connection.Ack.{
  update_peer_window, process_old_ack, process_new_ack, process_ack, count_duplicate,
  answer_duplicate, acknowledge,
}
use mini_tcp.Delivery.Genuine.{Streams, FitsEntry}
use mini_tcp.Delivery.Sending.{Queue, Sends, flush-Sends, retransmit_oldest-Sends}

length-acknowledge :
    (q : SendQueue) (ack : ℕ)
    → seq_gt ack q.una ≡ true
    → length (Send.acknowledge q ack).0.buf
      ≡ length q.buf - min (Send.acknowledge q ack).1 (length q.buf)
unfolding Send.acknowledge
length-acknowledge q ack gt =
    rw gt (length-drop (min (pos_part (seq_diff ack q.una)) (length q.buf)) q.buf)

positive : (a u : ℕ) → u < a → ((a - u) == 0) ≡ false
positive a u h = ground arith

module _ (V : Streams) where
  module _ {T : Type 0} where
    pub split-All :
        (P : OutstandingSegment T → Type 0) (ack : ℕ) (ss : List (OutstandingSegment T))
        → All P ss
        → All P (Retransmit.split_acked ack ss).1
    unfolding Retransmit.split_acked
    split-All P ack [] h = tt
    split-All P ack (s ∷ ss) h = elim (Bool-cases (seq_le (Retransmit.seq_end s) ack)) [
      | inl e ↦ rw e (split-All P ack ss h.1)
      | inr e ↦ rw e (h.0, split-All P ack ss h.1)
    ]

  module _ {T : Type 0} ⦃ops : TimeOps T⦄ (w x n : ℕ) where
    process_old_ack-Sends :
        (c : Connection T) (seg : TcpSegment) (now : T)
        → Sends V w x n c
        → Sends V w x n (process_old_ack c seg now)
    unfolding process_old_ack
    process_old_ack-Sends c seg now s =
        let updated = (update_peer_window c seg).0 in
        let counted = (count_duplicate updated seg).0 in
        flush-Sends V w x n _ now (
          answered counted (count_duplicate updated seg).1 (update_peer_window c seg).1
            (counts updated (updates s)))
      where
        updates : Sends V w x n c → Sends V w x n (update_peer_window c seg).0
        updates s = unfold update_peer_window in s

        counts : (c : Connection T) → Sends V w x n c → Sends V w x n (count_duplicate c seg).0
        counts c s =
            unfold count_duplicate in
            elim (Bool-cases
              ((seg.ack == c.send_queue.una) && ltb 0 (Send.in_flight c.send_queue))) [
                | inl e ↦ rw e s
                | inr e ↦ rw e s
              ]

        answered :
            (c : Connection T) (fast reopened : Bool)
            → Sends V w x n c
            → Sends V w x n (answer_duplicate c fast reopened now)
        answered c true reopened s =
            unfold answer_duplicate in retransmit_oldest-Sends V w x n c now true s
        answered c false reopened s =
            unfold answer_duplicate in
            elim (Bool-cases (reopened && is_some (Retransmit.oldest c.retx_queue))) [
              | inl e ↦ rw e (retransmit_oldest-Sends V w x n c now false s)
              | inr e ↦ rw e s
            ]

    -- An acknowledgement of new bytes, all of which were sent, drops them.
    acknowledge-Sends :
        (c : Connection T) (seg : TcpSegment) (now : T) (a : ℕ)
        → Sends V w x n c
        → seg.ack ≡ wire (V.iss + 1) a
        → a ≤ x
        → seq_gt seg.ack c.send_queue.una ≡ true
        → w ≤ V.limit
        → Sends V w x n (acknowledge c seg now)
          × (((Send.acknowledge c.send_queue seg.ack).1 == 0) ≡ false)
    unfolding acknowledge Retransmit.acknowledge
    acknowledge-Sends c seg now a (u, at, le, queue, total, ready, out) e h gt small = rw e (
      (
        a,
        at,
        le,
        subst (λ y. Queue V a y taken.0) (omega arith) done.0,
        omega (arith, done_length),
        ready,
        (split-All (FitsEntry V at) (wire (V.iss + 1) a) c.retx_queue.segments out.0, out.1),
      ),
      moved_on,
    )
      where
        room : a ≤ u + length c.send_queue.buf
        room = omega (arith, queue.held)

        ahead : u < a
        ahead = ltb→lt u a (
            sym (seq_cmp-wire (V.iss + 1) a u (omega (arith, V.half)) (omega (arith, V.half))).1
            ∙ rw (sym e, sym queue.at_una) gt)

        taken : SendQueue × ℕ
        taken = Send.acknowledge c.send_queue (wire (V.iss + 1) a)

        done :
            Queue V a (max at a) taken.0
            × ((taken.0.buf ≡ drop (a - u) c.send_queue.buf) × (taken.1 ≡ a - u))
        done = acknowledge-Holds V.own (V.iss + 1) c.send_queue a queue ahead room

        done_length : a + length taken.0.buf ≡ w
        done_length = omega (
          arith,
          length-acknowledge c.send_queue (wire (V.iss + 1) a) (rw (sym e) gt),
          done.1.1,
          ahead,
          room,
        )

        moved_on : (taken.1 == 0) ≡ false
        moved_on = rw done.1.1 (positive a u ahead)

    -- An acknowledgement that covers no more than was sent.
    pub process_ack-Sends :
        (c : Connection T) (seg : TcpSegment) (now : T)
        → Sends V w x n c
        → w ≤ V.limit
        → (a : ℕ) × (seg.ack ≡ wire (V.iss + 1) a) × (a ≤ x)
        → Sends V w x n (process_ack c seg now)
    unfolding process_ack process_new_ack arm_retransmit_timer update_peer_window
    process_ack-Sends c seg now s small (a, e, h) =
        elim (Bool-cases (seq_gt seg.ack c.send_queue.una)) [
          | inl gt ↦
              let (next, some_acked) = acknowledge-Sends c seg now a s e h gt small in
              rw (gt, some_acked) (flush-Sends V w x n _ now next)
          | inr old ↦ rw old (process_old_ack-Sends c seg now s)
        ]
