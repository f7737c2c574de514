-- ===== src/Connection/Ack.antt =====
-- Acknowledgements and the sending of buffered data (minitcp/net/tcp/connection.py: `_process_ack`,
-- `_update_peer_window`, `_flush`, `_arm_persist_timer`).
use Prim.Native.Nat.{bit_or}
use mini_tcp.Base.{
  ℕ, zero, suc, ◌-◌, ◌*◌, ◌^◌, Bool, true, false, not, ◌&&◌, none, some, List, [], ◌∷◌, ltb, leb,
  ◌==◌, min, if◌then◌else◌, Bytes, length, is_empty,
}
use mini_tcp.Seqno.{seq_add, seq_gt}
use mini_tcp.State.{is_synchronised}
use mini_tcp.Time.{TimeOps, max_time}
use mini_tcp.Segment.{TcpSegment, flag_ack, flag_psh, is_some}
use mini_tcp.Send
use mini_tcp.Congestion
use mini_tcp.Retransmit
use mini_tcp.Retransmit.{OutstandingSegment, RtoEstimator}
use mini_tcp.Connection.{Connection, default_persist_delay}
use mini_tcp.Connection.Outbound.{transmit, retransmit_oldest, arm_retransmit_timer}

module _ {T : Type 0} ⦃ops : TimeOps T⦄ where
  unfoldable pub arm_persist_timer : Connection T → T → Connection T
  arm_persist_timer c now =
      if (Send.unsent c.send_queue == 0) && (Send.in_flight c.send_queue == 0)
      then record c { persist_at = none }
      else record c {
        persist_at = elim c.persist_at [
          | none ↦ some (ops.plus now c.persist_delay)
          | some at ↦ some at
        ];
      }

  -- Send one piece of data at `nxt` and move `nxt` past it.
  unfoldable pub send_piece : Connection T → Bytes → T → Connection T
  send_piece c payload now =
      let c' = transmit c c.send_queue.nxt (bit_or flag_ack flag_psh) payload now none none true in
      record c' {
        send_queue = record c'.send_queue { nxt = seq_add c'.send_queue.nxt (length payload) };
      }

  -- The window that may be in flight.
  unfoldable pub usable_window : Connection T → ℕ
  usable_window c = Congestion.effective_window c.reno c.peer_window

  -- How much the next piece may hold.
  unfoldable pub allowed : Connection T → ℕ
  allowed c = min (usable_window c - Send.in_flight c.send_queue) c.peer_mss

  -- The loop of `_flush`. Each round moves `nxt` on by a byte or more of the buffer, so one round
  -- more than the buffer's length is enough fuel.
  unfoldable pub flush_loop : ℕ → Connection T → T → Connection T
  flush_loop zero c now = c
  flush_loop (suc fuel) c now =
      let payload = Send.peek c.send_queue c.send_queue.nxt (allowed c) in
      let sent = send_piece c payload now in
      let rest = flush_loop fuel sent now in
      if leb (usable_window c) (Send.in_flight c.send_queue)
      then c
      else if is_empty payload
      then c
      else if ltb (length payload) (allowed c)
      then sent
      else rest

  unfoldable pub flush : Connection T → T → Connection T
  flush c now =
      if not (is_synchronised c.state)
      then c
      else if c.peer_window == 0
      then arm_persist_timer c now
      else flush_loop (suc (length c.send_queue.buf))
          (record c { persist_at = none; persist_delay = default_persist_delay }) now

  -- The flag says whether the window has just re-opened from zero.
  unfoldable pub update_peer_window : Connection T → TcpSegment → Connection T × Bool
  update_peer_window c seg =
      let window = seg.window * 2 ^ c.snd_wscale in
      (record c { peer_window = window }, (c.peer_window == 0) && ltb 0 window)

  -- The first acknowledged segment that was sent only once gives a sample of the round trip time; if
  -- there is none, any backoff is dropped.
  unfoldable pub sample_acked : RtoEstimator T → List (OutstandingSegment T) → T → RtoEstimator T
  sample_acked rto [] now = Retransmit.recompute rto
  sample_acked rto (s ∷ ss) now =
      let rest = sample_acked rto ss now in
      if s.retransmits == 0
      then Retransmit.sample rto (max_time (ops.minus now s.sent_at) (ops.literal 0 1))
      else rest

  -- A duplicate ACK counts while data is in flight; the flag asks for a fast retransmit.
  unfoldable pub count_duplicate : Connection T → TcpSegment → Connection T × Bool
  count_duplicate c seg =
      let (reno, fast) = Congestion.on_duplicate_ack c.reno (some seg.ack) in
      if (seg.ack == c.send_queue.una) && ltb 0 (Send.in_flight c.send_queue)
      then (record c { reno = reno }, fast)
      else (c, false)

  -- Resend the oldest segment on a fast retransmit, or if the window has just re-opened.
  unfoldable pub answer_duplicate : Connection T → Bool → Bool → T → Connection T
  answer_duplicate c fast reopened now =
      if fast
      then retransmit_oldest c now true
      else if reopened && is_some (Retransmit.oldest c.retx_queue)
      then retransmit_oldest c now false
      else c

  -- An ACK that moves nothing.
  unfoldable pub process_old_ack : Connection T → TcpSegment → T → Connection T
  process_old_ack c seg now =
      let (updated, reopened) = update_peer_window c seg in
      let (counted, fast) = count_duplicate updated seg in
      flush (answer_duplicate counted fast reopened now) now

  -- What an ACK of new data changes before the timer is set.
  unfoldable pub acknowledge : Connection T → TcpSegment → T → Connection T
  acknowledge c seg now =
      let (send_queue, acknowledged) = Send.acknowledge c.send_queue seg.ack in
      let (retx_queue, acked) = Retransmit.acknowledge c.retx_queue seg.ack in
      record c {
        send_queue = send_queue;
        retx_queue = retx_queue;
        rto = sample_acked c.rto acked now;
        reno = Congestion.on_ack c.reno acknowledged (some seg.ack);
      }

  -- An ACK of new data.
  unfoldable pub process_new_ack : Connection T → TcpSegment → T → Connection T
  process_new_ack c seg now =
      let (send_queue, acknowledged) = Send.acknowledge c.send_queue seg.ack in
      if acknowledged == 0
      then record c { send_queue = send_queue }
      else flush (arm_retransmit_timer (update_peer_window (acknowledge c seg now) seg).0 now) now

  unfoldable pub process_ack : Connection T → TcpSegment → T → Connection T
  process_ack c seg now =
      if not (seq_gt seg.ack c.send_queue.una)
      then process_old_ack c seg now
      else process_new_ack c seg now
