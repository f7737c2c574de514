-- ===== src/Delivery/Resending.antt =====
-- The oldest segment sent again (minitcp/net/tcp/connection.py: `_on_retransmit_timeout`,
-- `_on_persist_timeout`).
use mini_tcp.Base.{ℕ, ◌≡◌, refl, false, none, some, []}
use mini_tcp.Time.{TimeOps}
use mini_tcp.Segment.{has_flag, flag_ack}
use mini_tcp.Retransmit
use mini_tcp.Retransmit.{OutstandingSegment, RetransmitQueue}
use mini_tcp.Connection.{Connection}
use mini_tcp.Connection.Outbound.{resend, transmit, hand_over}
use mini_tcp.Connection.Frame.{resend-Keeps}
use mini_tcp.Delivery.Genuine.{Streams, FitsEntry}
use mini_tcp.Delivery.Outgoing.{resend-Out, oldest-All, mark-All}
use mini_tcp.Delivery.Sending.{carry}
use mini_tcp.Delivery.Receiving.{Follows-Acked, Open, kept}
use mini_tcp.Delivery.Phases.{Phase, opening, answering, open_phase, over}

module _ {T : Type 0} ⦃ops : TimeOps T⦄ where
  oldest_of_empty : (q : RetransmitQueue T) → q.segments ≡ [] → Retransmit.oldest q ≡ none
  unfolding Retransmit.oldest
  oldest_of_empty q h = rw h refl

module _ (V : Streams) where
  module _ {T : Type 0} ⦃ops : TimeOps T⦄ (w x r y : ℕ) where
    pub resend-Open :
        (c : Connection T) (s : OutstandingSegment T) (now : T)
        → Retransmit.oldest c.retx_queue ≡ some s
        → Open V w x r y c
        → Open V w x r y (resend c s now)
    resend-Open c s now e =
        let (keeps, queue) = resend-Keeps c s now in
        kept V w x r y c (resend c s now) keeps (
          carry V w x y c (resend c s now) queue keeps.recv_queue (λ at h o.
            resend-Out V at y c s now o (oldest-All V (FitsEntry V at) c.retx_queue o.0 e)
              (λ _. h.1)))

    -- Sending the oldest segment again.
    pub resend-Phase :
        (c : Connection T) (s : OutstandingSegment T) (now : T)
        → Retransmit.oldest c.retx_queue ≡ some s
        → Phase V w x r y c
        → Phase V w x r y (resend c s now)
    resend-Phase c s now e (opening a b d (st, fin, idle, none_yet, f, o, quiet)) =
        let fits = oldest-All V (FitsEntry V 0) c.retx_queue o.0 e in
        let silent = oldest-All V (λ s. has_flag s.flags flag_ack ≡ false) c.retx_queue quiet e in
        let again = resend-Out V 0 y c s now o fits (λ k. absurd (cc)) in
        unfold resend transmit hand_over in
        opening a b d (
          st,
          fin,
          idle,
          none_yet,
          f,
          again,
          mark-All V (λ s. has_flag s.flags flag_ack ≡ false) c.retx_queue now
              (λ s. unfold Retransmit.mark_retransmitted in λ f. f) quiet,
        )
    resend-Phase c s now e (answering a b d (st, fin, none_yet, f, o, t)) =
        let fits = oldest-All V (FitsEntry V 0) c.retx_queue o.0 e in
        let again = resend-Out V 0 y c s now o fits (λ _. Follows-Acked V 0 y c.recv_queue t) in
        unfold resend transmit hand_over in answering a b d (st, fin, none_yet, f, again, t)
    resend-Phase c s now e (open_phase o) = open_phase (resend-Open c s now e o)
    resend-Phase c s now e (over o) = let idle = oldest_of_empty c.retx_queue o.1 in absurd (cc)
