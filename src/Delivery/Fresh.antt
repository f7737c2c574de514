-- ===== src/Delivery/Fresh.antt =====
-- A connection whose SYN is not acknowledged yet (minitcp/net/tcp/connection.py).
use Prim.Native.Nat.{bit_or}
use mini_tcp.Base.{
  ℕ, ◌+◌, ◌≤◌, ◌<◌, ◌≡◌, refl, ap, ◌∙◌, true, false, none, some, [], arith, if◌then◌else◌, All,
  ◌==◌, Bool-cases, inl, inr, pos,
}
use mini_tcp.Seqno.{seq_half, seq_gt, seq_diff, seq_lt}
use mini_tcp.Seqno.Order.{wire}
use mini_tcp.State.{syn_sent, syn_received}
use mini_tcp.Time.{TimeOps}
use mini_tcp.Segment.{TcpSegment, has_flag, flag_syn, flag_ack}
use mini_tcp.Send
use mini_tcp.Receive
use mini_tcp.Receive.Stream.{make-Tracks}
use mini_tcp.Retransmit
use mini_tcp.Retransmit.{OutstandingSegment}
use mini_tcp.Connection.{Connection}
use mini_tcp.Connection.Outbound.{arm_retransmit_timer}
use mini_tcp.Connection.Ack.{process_ack, process_new_ack, acknowledge, update_peer_window}
use mini_tcp.Connection.Inbound.{syn_options, send_syn_ack}
use mini_tcp.Delivery.Genuine.{Streams, Acked, Out, FitsEntry}
use mini_tcp.Delivery.Outgoing.{transmit-Out}
use mini_tcp.Delivery.Sending.{Sends, flush-Sends}
use mini_tcp.Delivery.Acking.{split-All}
use mini_tcp.Delivery.Receiving.{swap, below, Follows}

-- The number after the SYN's is one ahead of it.
syn_counts :
    (iss : ℕ) → (seq_gt (wire (iss + 1) 0) iss ≡ true) × (seq_diff (wire (iss + 1) 0) iss ≡ pos 1)
unfolding seq_gt seq_diff
syn_counts iss = (ground arith, ground arith)

module _ (V : Streams) where
  -- The send queue that holds the SYN only.
  abbrev pub Fresh : {T : Type 0} → Connection T → Type 0
  Fresh c =
      (c.iss ≡ V.iss)
      × (c.send_queue.una ≡ V.iss)
      × (c.send_queue.nxt ≡ wire (V.iss + 1) 0)
      × (c.send_queue.buf ≡ [])
      × (c.send_queue.capacity < seq_half)

  -- A SYN was sent, and nothing has come.
  abbrev pub Opening : {T : Type 0} → ℕ → Connection T → Type 0
  Opening y c =
      (c.state ≡ syn_sent)
      × (c.fin_seq ≡ none)
      × (c.delayed_ack_at ≡ none)
      × (Receive.available c.recv_queue ≡ 0)
      × Fresh c
      × Out V 0 y c
      × All (λ (s : OutstandingSegment _). has_flag s.flags flag_ack ≡ false) c.retx_queue.segments

  -- A SYN came and was answered.
  abbrev pub Answering : {T : Type 0} → ℕ → Connection T → Type 0
  Answering y c =
      (c.state ≡ syn_received)
      × (c.fin_seq ≡ none)
      × (Receive.available c.recv_queue ≡ 0)
      × Fresh c
      × Out V 0 y c
      × Follows V 0 y c.recv_queue

  -- An acknowledgement before any data is of the SYN.
  pub of_syn : (ack : ℕ) → Acked (swap V) 0 ack → ack ≡ wire (V.iss + 1) 0
  of_syn ack (a, e, h) = e ∙ ap (wire (V.iss + 1)) (omega arith)

  pub made :
      (y capacity irs : ℕ)
      → y ≤ V.limit
      → irs ≡ V.peer_iss
      → Follows V 0 y (Receive.make irs capacity)
  made y capacity irs h e = (h, 0, rw e (make-Tracks V.peer V.peer_iss y capacity (below V y h)))

  module _ {T : Type 0} ⦃ops : TimeOps T⦄ (y : ℕ) where
    pub send_syn_ack-Out :
        (c : Connection T) (now : T)
        → c.iss ≡ V.iss
        → Acked V y c.recv_queue.nxt
        → Out V 0 y c
        → Out V 0 y (send_syn_ack c now)
    unfolding send_syn_ack
    send_syn_ack-Out c now e h o =
        transmit-Out V 0 y c c.iss (bit_or flag_syn flag_ack) [] now (some c.recv_queue.nxt)
          (some (syn_options c)) true o
          (record { no_fin = refl; syn_at = λ _. e; piece = λ k. absurd (cc) }) (λ _. h)

    -- The acknowledgement of the SYN alone.
    acknowledge-Fresh :
        (c : Connection T) (seg : TcpSegment) (now : T)
        → Fresh c
        → seg.ack ≡ wire (V.iss + 1) 0
        → Acked V y c.recv_queue.nxt
        → Out V 0 y c
        → Sends V 0 0 y (acknowledge c seg now)
          × (((Send.acknowledge c.send_queue seg.ack).1 == 0) ≡ false)
          × (seq_gt seg.ack c.send_queue.una ≡ true)
    unfolding acknowledge Retransmit.acknowledge Send.acknowledge
    acknowledge-Fresh c seg now (iss, una, nxt, buf, narrow) e ready o =
        rw (ahead, one, buf)
          (
            (
              0,
              0,
              omega arith,
              record {
                at_una = e;
                at_nxt = either_way;
                sent = omega arith;
                held = omega arith;
                content = refl;
                fits = omega arith;
                narrow = narrow;
              },
              refl,
              ready,
              (split-All V (FitsEntry V 0) seg.ack c.retx_queue.segments o.0, o.1),
            ),
            refl,
            refl,
          )
      where
        ahead : seq_gt seg.ack c.send_queue.una ≡ true
        ahead = rw (e, una) (syn_counts V.iss).0

        one : seq_diff seg.ack c.send_queue.una ≡ pos 1
        one = rw (e, una) (syn_counts V.iss).1

        either_way :
            (if seq_lt c.send_queue.nxt seg.ack then seg.ack else c.send_queue.nxt)
            ≡ wire (V.iss + 1) 0
        either_way = elim (Bool-cases (seq_lt c.send_queue.nxt seg.ack)) [
          | inl k ↦ rw k e
          | inr k ↦ rw k nxt
        ]

    pub process_ack-Fresh :
        (c : Connection T) (seg : TcpSegment) (now : T)
        → Fresh c
        → seg.ack ≡ wire (V.iss + 1) 0
        → Acked V y c.recv_queue.nxt
        → Out V 0 y c
        → Sends V 0 0 y (process_ack c seg now)
    unfolding process_ack process_new_ack arm_retransmit_timer update_peer_window
    process_ack-Fresh c seg now f e ready o =
        let (next, some_acked, ahead) = acknowledge-Fresh c seg now f e ready o in
        rw (ahead, some_acked) (flush-Sends V 0 0 y _ now next)
