-- ===== src/Connection/Frame.antt =====
-- What sending and acknowledging leave alone: the state, the receive side and the FIN.
use Prim.Native.Nat.{bit_or}
use mini_tcp.Seqno.{seq_add}
use mini_tcp.Send
use mini_tcp.Base.{
  ltb, leb, ℕ, zero, suc, ◌≡◌, refl, ◌∙◌, Bool, true, false, Option, none, some, [], arith,
  if◌then◌else◌, Bytes, length, Option-cases, inl, inr, is_empty,
}
use mini_tcp.Time.{TimeOps}
use mini_tcp.Segment.{TcpSegment, TcpOptions, flag_ack, flag_psh, flag_rst, seq_len}
use mini_tcp.Send.{SendQueue}
use mini_tcp.Retransmit
use mini_tcp.Retransmit.{OutstandingSegment}
use mini_tcp.Connection.{Connection, default_persist_delay}
use mini_tcp.Connection.Outbound.{
  arm_retransmit_timer, hand_over, track_segment, transmit, send_ack, reject, resend,
  retransmit_oldest,
}
use mini_tcp.Connection.Ack.{
  arm_persist_timer, send_piece, flush_loop, flush, update_peer_window, process_old_ack,
  process_new_ack, process_ack, allowed, usable_window, count_duplicate, answer_duplicate,
  acknowledge,
}

module _ {T : Type 0} where
  -- The two connections differ at most in what sending changes.
  pub record Keeps (c d : Connection T) : Type 0 where
    pub state : d.state ≡ c.state
    pub recv_queue : d.recv_queue ≡ c.recv_queue
    pub fin_seq : d.fin_seq ≡ c.fin_seq
    pub config : d.config ≡ c.config
    pub iss : d.iss ≡ c.iss

  pub Keeps-refl : (c : Connection T) → Keeps c c
  Keeps-refl c = record {
    state = refl;
    recv_queue = refl;
    fin_seq = refl;
    config = refl;
    iss = refl;
  }

  pub Keeps-trans : {b c d : Connection T} → Keeps b c → Keeps c d → Keeps b d
  Keeps-trans h k = record {
    state = k.state ∙ h.state;
    recv_queue = k.recv_queue ∙ h.recv_queue;
    fin_seq = k.fin_seq ∙ h.fin_seq;
    config = k.config ∙ h.config;
    iss = k.iss ∙ h.iss;
  }

module _ {T : Type 0} ⦃ops : TimeOps T⦄ where
  pub transmit-Keeps :
      (c : Connection T) (seq flags : ℕ) (payload : Bytes) (now : T) (ack : Option ℕ)
      (options : Option TcpOptions) (track : Bool)
      → Keeps c (transmit c seq flags payload now ack options track)
  unfolding transmit hand_over track_segment arm_retransmit_timer
  transmit-Keeps c seq flags payload now ack options track = ground arith

  -- Nor does `_transmit` touch the send queue.
  pub send_queue-transmit :
      (c : Connection T) (seq flags : ℕ) (payload : Bytes) (now : T) (ack : Option ℕ)
      (options : Option TcpOptions) (track : Bool)
      → (transmit c seq flags payload now ack options track).send_queue ≡ c.send_queue
  unfolding transmit hand_over track_segment arm_retransmit_timer
  send_queue-transmit c seq flags payload now ack options track = ground arith

  pub send_ack-Keeps : (c : Connection T) (now : T) → Keeps c (send_ack c now)
  unfolding send_ack
  send_ack-Keeps c now = ground (
    arith,
    transmit-Keeps (record c { delayed_ack_at = none }) c.send_queue.nxt flag_ack [] now
        (some c.recv_queue.nxt) none true,
  )

  pub send_queue-send_ack :
      (c : Connection T) (now : T) → (send_ack c now).send_queue ≡ c.send_queue
  unfolding send_ack
  send_queue-send_ack c now = ground (
    arith,
    send_queue-transmit (record c { delayed_ack_at = none }) c.send_queue.nxt flag_ack [] now
        (some c.recv_queue.nxt) none true,
  )

  pub resend-Keeps :
      (c : Connection T) (s : OutstandingSegment T) (now : T)
      → Keeps c (resend c s now) × ((resend c s now).send_queue ≡ c.send_queue)
  unfolding resend transmit hand_over
  resend-Keeps c s now = ground arith

  pub retransmit_oldest-Keeps :
      (c : Connection T) (now : T) (fast : Bool)
      → Keeps c (retransmit_oldest c now fast)
        × ((retransmit_oldest c now fast).send_queue ≡ c.send_queue)
  unfolding retransmit_oldest
  retransmit_oldest-Keeps c now fast = elim (Option-cases (Retransmit.oldest c.retx_queue)) [
    | inl e ↦ rw (e, retransmit_oldest) (Keeps-refl c, refl)
    | inr (s, e) ↦ rw (e, retransmit_oldest) (ground (arith, resend-Keeps c s now))
  ]

  pub arm_persist_timer-Keeps : (c : Connection T) (now : T) → Keeps c (arm_persist_timer c now)
  unfolding arm_persist_timer
  arm_persist_timer-Keeps c now = ground arith

  pub send_piece-Keeps :
      (c : Connection T) (payload : Bytes) (now : T) → Keeps c (send_piece c payload now)
  unfolding send_piece
  send_piece-Keeps c payload now = ground (
    arith,
    transmit-Keeps c c.send_queue.nxt (bit_or flag_ack flag_psh) payload now none none true,
  )

  pub flush_loop-Keeps : (fuel : ℕ) (c : Connection T) (now : T) → Keeps c (flush_loop fuel c now)
  unfolding flush_loop
  flush_loop-Keeps zero c now = Keeps-refl c
  flush_loop-Keeps (suc fuel) c now =
      let payload = Send.peek c.send_queue c.send_queue.nxt (allowed c) in
      let sent = send_piece c payload now in
      branches (leb (usable_window c) (Send.in_flight c.send_queue)) (is_empty payload)
        (ltb (length payload) (allowed c)) (Keeps-refl c) (send_piece-Keeps c payload now)
        (Keeps-trans (send_piece-Keeps c payload now) (flush_loop-Keeps fuel sent now))
    where
      branches :
          {x y z : Connection T} (full none_left short : Bool)
          → Keeps c x
          → Keeps c y
          → Keeps c z
          → Keeps c (if full then x else if none_left then x else if short then y else z)
      branches true none_left short h k l = h
      branches false true short h k l = h
      branches false false true h k l = k
      branches false false false h k l = l

  pub flush-Keeps : (c : Connection T) (now : T) → Keeps c (flush c now)
  unfolding flush
  flush-Keeps c now = ground (
    arith,
    arm_persist_timer-Keeps c now,
    flush_loop-Keeps (suc (length c.send_queue.buf))
        (record c { persist_at = none; persist_delay = default_persist_delay }) now,
  )

  count_duplicate-Keeps : (c : Connection T) (seg : TcpSegment) → Keeps c (count_duplicate c seg).0
  unfolding count_duplicate
  count_duplicate-Keeps c seg = ground arith

  answer_duplicate-Keeps :
      (c : Connection T) (fast reopened : Bool) (now : T)
      → Keeps c (answer_duplicate c fast reopened now)
  unfolding answer_duplicate
  answer_duplicate-Keeps c fast reopened now =
      ground (
        arith,
        Keeps-refl c,
        retransmit_oldest-Keeps c now true,
        retransmit_oldest-Keeps c now false,
      )

  update_peer_window-Keeps :
      (c : Connection T) (seg : TcpSegment) → Keeps c (update_peer_window c seg).0
  unfolding update_peer_window
  update_peer_window-Keeps c seg = ground arith

  process_old_ack-Keeps :
      (c : Connection T) (seg : TcpSegment) (now : T) → Keeps c (process_old_ack c seg now)
  unfolding process_old_ack
  process_old_ack-Keeps c seg now = Keeps-trans (update_peer_window-Keeps c seg) (
      Keeps-trans (count_duplicate-Keeps (update_peer_window c seg).0 seg) (
        Keeps-trans (answer_duplicate-Keeps _ _ (update_peer_window c seg).1 now)
          (flush-Keeps _ now)))

  process_new_ack-Keeps :
      (c : Connection T) (seg : TcpSegment) (now : T) → Keeps c (process_new_ack c seg now)
  unfolding process_new_ack acknowledge arm_retransmit_timer update_peer_window
  process_new_ack-Keeps c seg now = ground (
    arith,
    flush-Keeps (arm_retransmit_timer (update_peer_window (acknowledge c seg now) seg).0 now) now,
  )

  pub process_ack-Keeps :
      (c : Connection T) (seg : TcpSegment) (now : T) → Keeps c (process_ack c seg now)
  unfolding process_ack
  process_ack-Keeps c seg now =
      ground (arith, process_old_ack-Keeps c seg now, process_new_ack-Keeps c seg now)

  pub send_queue-reject :
      (c : Connection T) (seg : TcpSegment) (now : T) → (reject c seg now).send_queue ≡ c.send_queue
  unfolding reject
  send_queue-reject c seg now = ground (
    arith,
    send_queue-transmit c seg.ack flag_rst [] now none none true,
    send_queue-transmit c 0 (bit_or flag_rst flag_ack) [] now (some (seq_add seg.seq (seq_len seg)))
        none true,
  )

  pub reject-Keeps : (c : Connection T) (seg : TcpSegment) (now : T) → Keeps c (reject c seg now)
  unfolding reject
  reject-Keeps c seg now = ground (
    arith,
    transmit-Keeps c seg.ack flag_rst [] now none none true,
    transmit-Keeps c 0 (bit_or flag_rst flag_ack) [] now (some (seq_add seg.seq (seq_len seg))) none
        true,
  )
