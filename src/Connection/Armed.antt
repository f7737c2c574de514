-- ===== src/Connection/Armed.antt =====
-- The retransmission timer of a connection.
use mini_tcp.Base.{
  ltb, leb, ℕ, zero, suc, ◌≡◌, refl, Bool, true, false, not, Option, none, some, [], arith,
  if◌then◌else◌, Bytes, length, is_empty,
}
use mini_tcp.Time.{TimeOps}
use mini_tcp.Segment.{TcpSegment, TcpOptions, is_some, flag_ack, flag_psh, flag_rst, seq_len}
use Prim.Native.Nat.{bit_or}
use mini_tcp.Seqno.{seq_add}
use mini_tcp.Send
use mini_tcp.Retransmit
use mini_tcp.Retransmit.{OutstandingSegment}
use mini_tcp.Connection.{Connection, default_persist_delay}
use mini_tcp.Connection.Outbound.{
  segment_of, arm_retransmit_timer, hand_over, track_segment, transmit, send_ack, reject, resend,
  retransmit_oldest, enter_time_wait, teardown,
}
use mini_tcp.Connection.Ack.{
  arm_persist_timer, send_piece, flush_loop, flush, update_peer_window, process_old_ack,
  process_new_ack, process_ack, allowed, usable_window, count_duplicate, answer_duplicate,
  acknowledge,
}

module _ {T : Type 0} ⦃ops : TimeOps T⦄ where
  -- The timer runs exactly while a segment is outstanding.
  abbrev pub Armed : Connection T → Type 0
  Armed c = is_some c.retransmit_at ≡ not (is_empty c.retx_queue.segments)

  pub arm-Armed : (c : Connection T) (now : T) → Armed (arm_retransmit_timer c now)
  unfolding arm_retransmit_timer
  arm-Armed c now = ground arith

  pub transmit-Armed :
      (c : Connection T) (seq flags : ℕ) (payload : Bytes) (now : T) (ack : Option ℕ)
      (options : Option TcpOptions) (track : Bool)
      → Armed c
      → Armed (transmit c seq flags payload now ack options track)
  unfolding transmit hand_over track_segment
  transmit-Armed c seq flags payload now ack options track h = ground (
    arith,
    arm-Armed
        (record (hand_over c (segment_of c seq flags payload ack options)) {
          retx_queue = (Retransmit.add c.retx_queue seq flags payload now).0;
        })
        now,
  )

  pub send_ack-Armed : (c : Connection T) (now : T) → Armed c → Armed (send_ack c now)
  unfolding send_ack
  send_ack-Armed c now h = ground (
    arith,
    transmit-Armed (record c { delayed_ack_at = none }) c.send_queue.nxt flag_ack [] now
        (some c.recv_queue.nxt) none true h,
  )

  pub resend-Armed :
      (c : Connection T) (s : OutstandingSegment T) (now : T) → Armed c → Armed (resend c s now)
  unfolding resend transmit hand_over Retransmit.mark_oldest
  resend-Armed c s now h = ground arith

  pub retransmit_oldest-Armed :
      (c : Connection T) (now : T) (fast : Bool) → Armed c → Armed (retransmit_oldest c now fast)
  unfolding retransmit_oldest resend transmit hand_over Retransmit.mark_oldest Retransmit.oldest
  retransmit_oldest-Armed c now fast h = ground arith

  pub send_piece-Armed :
      (c : Connection T) (payload : Bytes) (now : T) → Armed c → Armed (send_piece c payload now)
  unfolding send_piece
  send_piece-Armed c payload now h =
      transmit-Armed c c.send_queue.nxt (bit_or flag_ack flag_psh) payload now none none true h

  flush_loop-Armed :
      (fuel : ℕ) (c : Connection T) (now : T) → Armed c → Armed (flush_loop fuel c now)
  unfolding flush_loop
  flush_loop-Armed zero c now h = h
  flush_loop-Armed (suc fuel) c now h =
      let payload = Send.peek c.send_queue c.send_queue.nxt (allowed c) in
      let sent = send_piece-Armed c payload now h in
      branches _ _ _ (leb (usable_window c) (Send.in_flight c.send_queue)) (is_empty payload)
        (ltb (length payload) (allowed c)) h sent
        (flush_loop-Armed fuel (send_piece c payload now) now sent)
    where
      branches :
          (x y z : Connection T) (full none_left short : Bool)
          → Armed x
          → Armed y
          → Armed z
          → Armed (if full then x else if none_left then x else if short then y else z)
      branches x y z true none_left short h k l = h
      branches x y z false true short h k l = h
      branches x y z false false true h k l = k
      branches x y z false false false h k l = l

  pub flush-Armed : (c : Connection T) (now : T) → Armed c → Armed (flush c now)
  unfolding flush arm_persist_timer
  flush-Armed c now h = ground (
    arith,
    flush_loop-Armed (suc (length c.send_queue.buf))
        (record c { persist_at = none; persist_delay = default_persist_delay }) now h,
  )

  answer_duplicate-Armed :
      (c : Connection T) (fast reopened : Bool) (now : T)
      → Armed c
      → Armed (answer_duplicate c fast reopened now)
  unfolding answer_duplicate
  answer_duplicate-Armed c fast reopened now h =
      ground (arith, retransmit_oldest-Armed c now true h, retransmit_oldest-Armed c now false h)

  count_duplicate-Armed :
      (c : Connection T) (seg : TcpSegment) → Armed c → Armed (count_duplicate c seg).0
  unfolding count_duplicate
  count_duplicate-Armed c seg h = ground arith

  process_old_ack-Armed :
      (c : Connection T) (seg : TcpSegment) (now : T) → Armed c → Armed (process_old_ack c seg now)
  unfolding process_old_ack update_peer_window
  process_old_ack-Armed c seg now h = flush-Armed _ now (
      answer_duplicate-Armed _ _ (update_peer_window c seg).1 now
        (count_duplicate-Armed (update_peer_window c seg).0 seg h))

  process_new_ack-Armed :
      (c : Connection T) (seg : TcpSegment) (now : T) → Armed c → Armed (process_new_ack c seg now)
  unfolding process_new_ack
  process_new_ack-Armed c seg now h =
      let acked = (update_peer_window (acknowledge c seg now) seg).0 in
      ground (arith, flush-Armed (arm_retransmit_timer acked now) now (arm-Armed acked now))

  pub process_ack-Armed :
      (c : Connection T) (seg : TcpSegment) (now : T) → Armed c → Armed (process_ack c seg now)
  unfolding process_ack
  process_ack-Armed c seg now h =
      ground (arith, process_old_ack-Armed c seg now h, process_new_ack-Armed c seg now h)

  pub reject-Armed :
      (c : Connection T) (seg : TcpSegment) (now : T) → Armed c → Armed (reject c seg now)
  unfolding reject
  reject-Armed c seg now h = ground (
    arith,
    transmit-Armed c seg.ack flag_rst [] now none none true h,
    transmit-Armed c 0 (bit_or flag_rst flag_ack) [] now (some (seq_add seg.seq (seq_len seg))) none
        true h,
  )

  pub enter_time_wait-Armed : (c : Connection T) (now : T) → Armed (enter_time_wait c now)
  unfolding enter_time_wait Retransmit.clear
  enter_time_wait-Armed c now = refl

  pub teardown-Armed : (c : Connection T) → Armed (teardown c)
  unfolding teardown Retransmit.clear
  teardown-Armed c = refl
