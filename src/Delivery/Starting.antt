-- ===== src/Delivery/Starting.antt =====
-- The two ends of a new conversation: the connection that `connect` opens, and the child that a
-- listener makes for its SYN (minitcp/net/tcp/connection.py).
use Prim.Native.Nat.{bit_or}
use mini_tcp.Base.{ℕ, ◌+◌, ◌≤◌, ◌<◌, ◌≡◌, refl, [], inr, true, false, arith}
use mini_tcp.Seqno.{seq_half, seq_add}
use mini_tcp.Seqno.Order.{wire}
use mini_tcp.Time.{TimeOps}
use mini_tcp.Segment.{TcpSegment, flag_syn, flag_ack, flag_fin, has_flag}
use mini_tcp.Send
use mini_tcp.Receive
use mini_tcp.Retransmit
use mini_tcp.Connection.{Config, make, choose_iss}
use mini_tcp.Connection.Outbound.{
  transmit, segment_of, hand_over, track_segment, arm_retransmit_timer,
}
use mini_tcp.Connection.Inbound.{apply_peer_options, begin_passive_open, send_syn_ack}
use mini_tcp.Connection.Application.{open_actively}
use mini_tcp.Connection.Guards.{sent}
use mini_tcp.Delivery.Genuine.{Streams, Fits}
use mini_tcp.Delivery.Receiving.{Follows-Acked}
use mini_tcp.Delivery.Fresh.{Opening, Answering, made}

module _ (V : Streams) where
  -- A SYN without data.
  syn_Fits :
      (seq flags : ℕ)
      → has_flag flags flag_fin ≡ false
      → seq ≡ V.iss
      → has_flag flags flag_syn ≡ true
      → Fits V 0 seq flags []
  syn_Fits seq flags no_fin e syn = record {
    no_fin = no_fin;
    syn_at = λ _. e;
    piece = λ k. absurd (cc);
  }

  after_syn : (iss : ℕ) → iss ≡ V.iss → seq_add iss 1 ≡ wire (V.iss + 1) 0
  unfolding seq_add
  after_syn iss e = omega (arith, e)

  module _ {T : Type 0} ⦃ops : TimeOps T⦄ (y : ℕ) where
    pub open_actively-Opening :
        (config : Config T) (now : T) (random : ℕ)
        → choose_iss config.iss_override random ≡ V.iss
        → config.send_capacity < seq_half
        → Opening V y (open_actively (make config) now random)
    unfolding open_actively make Send.make Receive.make Receive.available transmit segment_of
        hand_over track_segment arm_retransmit_timer Retransmit.add Retransmit.make_queue
        Retransmit.bytes_outstanding sent seq_add
    open_actively-Opening config now random e narrow =
        let syn = syn_Fits (choose_iss config.iss_override random) flag_syn refl e refl in
        (
          refl,
          refl,
          refl,
          refl,
          (e, e, after_syn _ e, refl, narrow),
          ((syn, tt), (inr (syn, λ k. absurd (cc)), tt)),
          (refl, tt),
        )

    pub begin_passive_open-Answering :
        (config : Config T) (seg : TcpSegment) (now : T) (random : ℕ)
        → y ≤ V.limit
        → seg.seq ≡ V.peer_iss
        → choose_iss config.iss_override random ≡ V.iss
        → config.send_capacity < seq_half
        → Answering V y (begin_passive_open (make config) seg now random)
    unfolding begin_passive_open apply_peer_options send_syn_ack make Send.make Receive.make
        Receive.available transmit segment_of hand_over track_segment arm_retransmit_timer
        Retransmit.add Retransmit.make_queue Retransmit.bytes_outstanding sent seq_add
    begin_passive_open-Answering config seg now random low at e narrow =
        let syn =
          syn_Fits (choose_iss config.iss_override random) (bit_or flag_syn flag_ack) refl e refl in
        let ready = made V y config.receive_capacity seg.seq low at in
        (
          refl,
          refl,
          refl,
          (e, e, after_syn _ e, refl, narrow),
          (
            (syn, tt),
            (
              inr (
                syn,
                λ _. Follows-Acked V 0 y (Receive.make seg.seq config.receive_capacity) ready,
              ),
              tt,
            ),
          ),
          ready,
        )
