-- ===== src/Delivery/Sending.antt =====
-- The data that TCPConnection (minitcp/net/tcp/connection.py: `_flush`, `_process_ack`) sends, and the
-- acknowledgements that it takes.
use Prim.Native.Nat.{bit_or}
use mini_tcp.Base.{
  ℕ, zero, suc, ◌+◌, ◌-◌, ◌≤◌, ◌≡◌, refl, sym, ap, ◌∙◌, subst, Bool, true, not, ◌&&◌, none, arith,
  Bytes, length, is_empty, ltb, leb, ◌==◌, min, Bool-cases, inl, inr,
}
use mini_tcp.Base.Slices.{IsPart}
use mini_tcp.Seqno.{seq_add}
use mini_tcp.Seqno.Order.{seq_add-wire}
use mini_tcp.State.{is_synchronised}
use mini_tcp.Time.{TimeOps}
use mini_tcp.Segment.{flag_ack, flag_psh}
use mini_tcp.Send
use mini_tcp.Send.{SendQueue}
use mini_tcp.Send.Laws.{Holds, peek-Holds}
use mini_tcp.Connection.{Connection, default_persist_delay}
use mini_tcp.Connection.Outbound.{send_ack, retransmit_oldest, transmit}
use mini_tcp.Connection.Ack.{
  arm_persist_timer, send_piece, flush_loop, flush, allowed, usable_window,
}
use mini_tcp.Connection.Frame.{
  Keeps, send_ack-Keeps, send_queue-send_ack, retransmit_oldest-Keeps, send_queue-transmit,
  transmit-Keeps,
}
use mini_tcp.Delivery.Genuine.{Streams, Fits, Acked, Out, Out-le, Numbered}
use mini_tcp.Delivery.Outgoing.{transmit-Out, send_ack-Out, retransmit_oldest-Out}

module _ (V : Streams) where
  abbrev pub Queue : ℕ → ℕ → SendQueue → Type 0
  Queue u x q = Holds V.own (V.iss + 1) u x q

  -- `w` bytes were written and all before `x` were sent at least once; the peer's bytes before `n`
  -- have come.
  abbrev pub Sends : {T : Type 0} → ℕ → ℕ → ℕ → Connection T → Type 0
  Sends w x n c =
      (u : ℕ) × (at : ℕ) × (x ≤ at)
      × Queue u at c.send_queue
      × (u + length c.send_queue.buf ≡ w)
      × Acked V n c.recv_queue.nxt
      × Out V at n c

  -- The queue after a piece has been sent.
  moved :
      {u x : ℕ} (q : SendQueue) (k : ℕ)
      → Queue u x q
      → x + k ≤ u + length q.buf
      → Queue u (x + k) (record q { nxt = seq_add q.nxt k })
  moved {u} {x} q k t h = record {
    at_una = t.at_una;
    at_nxt = rw t.at_nxt (seq_add-wire (V.iss + 1) x k);
    sent = omega (arith, t.sent);
    held = h;
    content = t.content;
    fits = t.fits;
    narrow = t.narrow;
  }

  module _ {T : Type 0} ⦃ops : TimeOps T⦄ (w x n : ℕ) where
    -- What leaves the two queues alone need only keep the segments genuine.
    pub carry :
        (c d : Connection T)
        → d.send_queue ≡ c.send_queue
        → d.recv_queue ≡ c.recv_queue
        → ((at : ℕ) → Numbered V at n c → Out V at n c → Out V at n d)
        → Sends w x n c
        → Sends w x n d
    carry c d e f step (u, at, le, queue, total, ready, out) = (
      u,
      at,
      le,
      subst (Queue u at) (sym e) queue,
      ap (λ q. u + length q.buf) e ∙ total,
      subst (λ q. Acked V n q.nxt) (sym f) ready,
      step at (queue.at_nxt, ready) out,
    )

    pub send_ack-Sends : (c : Connection T) (now : T) → Sends w x n c → Sends w x n (send_ack c now)
    send_ack-Sends c now =
        carry c (send_ack c now) (send_queue-send_ack c now) (send_ack-Keeps c now).recv_queue
          (λ at h o. send_ack-Out V at n c now o h)

    pub retransmit_oldest-Sends :
        (c : Connection T) (now : T) (fast : Bool)
        → Sends w x n c
        → Sends w x n (retransmit_oldest c now fast)
    retransmit_oldest-Sends c now fast =
        let (keeps, queue) = retransmit_oldest-Keeps c now fast in
        carry c (retransmit_oldest c now fast) queue keeps.recv_queue
          (λ at h o. retransmit_oldest-Out V at n c now fast o h.1)

    -- A piece of the buffer at `nxt` may be sent.
    pub send_piece-Sends :
        (c : Connection T) (count : ℕ) (now : T)
        → Sends w x n c
        → Sends w x n (send_piece c (Send.peek c.send_queue c.send_queue.nxt count) now)
    unfolding send_piece
    send_piece-Sends c count now (u, at, le, queue, total, ready, out) = (
      u,
      at + length payload,
      omega arith,
      subst (λ q. Queue u (at + length payload) (record q { nxt = seq_add q.nxt (length payload) }))
          (sym same) (moved c.send_queue (length payload) queue room),
      ap (λ q. u + length q.buf) same ∙ total,
      subst (λ q. Acked V n q.nxt) (sym keeps.recv_queue) ready,
      transmit-Out V (at + length payload) n c c.send_queue.nxt (bit_or flag_ack flag_psh) payload
          now none none true
          (Out-le V at (at + length payload) n n c (omega arith) (omega arith) out) fits
          (λ _. ready),
    )
      where
        payload : Bytes
        payload = Send.peek c.send_queue c.send_queue.nxt count

        peeked :
            IsPart V.own at payload
            × (length payload ≡ min count (u + length c.send_queue.buf - at))
        peeked = peek-Holds V.own (V.iss + 1) c.send_queue count queue

        room : at + length payload ≤ u + length c.send_queue.buf
        room = omega (arith, peeked.1, queue.held)

        same :
            (transmit c c.send_queue.nxt
              (bit_or flag_ack flag_psh)
              payload
              now
              none
              none
              true).send_queue
            ≡ c.send_queue
        same =
            send_queue-transmit c c.send_queue.nxt (bit_or flag_ack flag_psh) payload now none none
              true

        keeps :
            Keeps c
              (transmit c c.send_queue.nxt (bit_or flag_ack flag_psh) payload now none none true)
        keeps =
            transmit-Keeps c c.send_queue.nxt (bit_or flag_ack flag_psh) payload now none none true

        fits : Fits V (at + length payload) c.send_queue.nxt (bit_or flag_ack flag_psh) payload
        fits = record {
          no_fin = refl;
          syn_at = λ e. absurd (cc);
          piece = λ _. (at, queue.at_nxt, peeked.0, omega arith);
        }

    flush_loop-Sends :
        (fuel : ℕ) (c : Connection T) (now : T)
        → Sends w x n c
        → Sends w x n (flush_loop fuel c now)
    unfolding flush_loop
    flush_loop-Sends zero c now s = s
    flush_loop-Sends (suc fuel) c now s =
        let payload = Send.peek c.send_queue c.send_queue.nxt (allowed c) in
        let sent = send_piece-Sends c (allowed c) now s in
        let rest = flush_loop-Sends fuel (send_piece c payload now) now sent in
        elim (Bool-cases (leb (usable_window c) (Send.in_flight c.send_queue))) [
          | inl e ↦ rw e s
          | inr e ↦ rw e (elim (Bool-cases (is_empty payload)) [
            | inl k ↦ rw k s
            | inr k ↦ rw k (elim (Bool-cases (ltb (length payload) (allowed c))) [
              | inl m ↦ rw m sent
              | inr m ↦ rw m rest
            ])
          ])
        ]

    pub flush-Sends : (c : Connection T) (now : T) → Sends w x n c → Sends w x n (flush c now)
    unfolding flush arm_persist_timer
    flush-Sends c now s =
        let ready = record c { persist_at = none; persist_delay = default_persist_delay } in
        elim (Bool-cases (not (is_synchronised c.state))) [
          | inl e ↦ rw e s
          | inr e ↦ rw e (elim (Bool-cases (c.peer_window == 0)) [
            | inl k ↦
                rw k
                  (elim (Bool-cases
                    ((Send.unsent c.send_queue == 0) && (Send.in_flight c.send_queue == 0))) [
                      | inl m ↦ rw m s
                      | inr m ↦ rw m s
                    ])
            | inr k ↦ rw k (flush_loop-Sends (suc (length c.send_queue.buf)) ready now s)
          ])
        ]
