-- ===== src/Delivery/Arrivals.antt =====
-- What a genuine segment does to the phases of a connection (minitcp/net/tcp/connection.py:
-- `on_segment`).
use mini_tcp.Base.{
  ℕ, ◌≤◌, ◌≡◌, refl, sym, subst, false, Option, none, if◌then◌else◌, Bytes, Bool-cases, inl, inr,
}
use mini_tcp.State.{TcpState, closed, syn_sent, syn_received, established}
use mini_tcp.Time.{TimeOps}
use mini_tcp.Segment.{
  TcpSegment, is_ack, is_syn, is_fin, is_rst, has_flag, flag_syn, flag_ack, flag_rst,
}
use mini_tcp.Receive
use mini_tcp.Retransmit
use mini_tcp.Retransmit.{OutstandingSegment}
use mini_tcp.Connection.{Connection}
use mini_tcp.Connection.Outbound.{
  teardown, notify, reject, transmit, hand_over, track_segment, segment_of,
}
use mini_tcp.Connection.Inbound.{
  handle_syn, handle_other, handle_rst, arrived, on_segment_in, on_segment,
}
use mini_tcp.Connection.Guards.{sent}
use mini_tcp.Connection.Frame.{reject-Keeps, send_queue-reject}
use mini_tcp.Delivery.Genuine.{Streams, Fits, Acks, IsGenuine}
use mini_tcp.Delivery.Outgoing.{reject-Out}
use mini_tcp.Delivery.Sending.{carry}
use mini_tcp.Delivery.Receiving.{swap, Open, kept, handle_synchronised-Open}
use mini_tcp.Delivery.Fresh.{Opening, Answering}
use mini_tcp.Delivery.Handshake.{
  handle_syn_ack-Open, handle_final_ack-Open, handle_simultaneous_open-Answering,
  retransmit_oldest-Answering,
}
use mini_tcp.Delivery.Phases.{Phase, opening, answering, open_phase, over, Over, tighten}

-- What a segment without the RST flag is answered with.
abbrev answer :
    {T : Type 0} ⦃ops : TimeOps T⦄
    → TcpState
    → Connection T
    → TcpSegment
    → T
    → Connection T × Option (Connection T)
answer s c seg now =
    if is_syn seg then (handle_syn s c seg now, none) else (handle_other s c seg now, none)

module _ (V : Streams) where
  not_reset :
      (x y : ℕ) (seg : TcpSegment)
      → IsGenuine (swap V) y x seg
      → has_flag seg.flags flag_rst ≡ false
      → Fits (swap V) y seg.seq seg.flags seg.payload × Acks (swap V) x seg.flags seg.ack
  not_reset x y seg (inl e) k = absurd (cc)
  not_reset x y seg (inr f) k = f

  module _ {T : Type 0} ⦃ops : TimeOps T⦄ (w x r y : ℕ) (w_low : w ≤ V.limit)
      (y_low : y ≤ V.limit) where
    reject-Open :
        (c : Connection T) (seg : TcpSegment) (now : T)
        → Open V w x r y c
        → Open V w x r y (reject c seg now)
    reject-Open c seg now = kept V w x r y c (reject c seg now) (reject-Keeps c seg now) (
        carry V w x y c (reject c seg now) (send_queue-reject c seg now)
          (reject-Keeps c seg now).recv_queue (λ at h o. reject-Out V at y c seg now o))

    reject-Over :
        (c : Connection T) (seg : TcpSegment) (now : T)
        → Over V w x r y c
        → Over V w x r y (reject c seg now)
    unfolding reject transmit hand_over track_segment segment_of sent
    reject-Over c seg now (e, none_left, nothing, seen, at, le, within, o) =
        elim (Bool-cases (is_rst seg)) [
          | inl k ↦ rw k (e, none_left, nothing, seen, at, le, within, o)
          | inr k ↦ rw k (elim (Bool-cases (is_ack seg)) [
            | inl m ↦ rw m (e, none_left, nothing, seen, at, le, within, (inl refl, o))
            | inr m ↦ rw m (e, none_left, nothing, seen, at, le, within, (inl refl, o))
          ])
        ]

    handle_rst-Phase : (c : Connection T) → Phase V w x r y c → Phase V w x r y (handle_rst c)
    unfolding handle_rst notify teardown Retransmit.clear Receive.clear Receive.available sent
    handle_rst-Phase c p =
        let (at, le, within, seen, q, genuine) = tighten V w x r y c p in
        over (refl, refl, refl, seen, at, le, within, genuine)

    -- A segment that is not a reset. Before the first byte, `x` is 0.
    arrival_at_start :
        (c : Connection T) (seg : TcpSegment) (now : T)
        → Fits (swap V) y seg.seq seg.flags seg.payload
        → Acks (swap V) 0 seg.flags seg.ack
        → Opening V y c
        → Phase V 0 0 0 y (answer syn_sent c seg now).0
    unfolding handle_syn handle_other is_syn is_ack
    arrival_at_start c seg now f acks o = elim (Bool-cases (has_flag seg.flags flag_syn)) [
      | inl e ↦ rw e (elim (Bool-cases (has_flag seg.flags flag_ack)) [
        | inl k ↦
            rw k (open_phase (handle_syn_ack-Open V y c seg now y_low (f.syn_at e) (acks k) o))
        | inr k ↦ rw k (
            answering refl refl refl
              (handle_simultaneous_open-Answering V y c seg now y_low (f.syn_at e) o))
      ])
      | inr e ↦ rw e (opening refl refl refl o)
    ]

    arrival_midway :
        (c : Connection T) (seg : TcpSegment) (now : T)
        → Acks (swap V) 0 seg.flags seg.ack
        → Answering V y c
        → Phase V 0 0 0 y (answer syn_received c seg now).0
    unfolding handle_syn handle_other is_ack
    arrival_midway c seg now acks o = elim (Bool-cases (is_syn seg)) [
      | inl e ↦ rw e (answering refl refl refl (retransmit_oldest-Answering V y c now false o))
      | inr e ↦ rw e (elim (Bool-cases (has_flag seg.flags flag_ack)) [
        | inl k ↦ rw k (open_phase (handle_final_ack-Open V y c seg now (acks k) o))
        | inr k ↦ rw k (answering refl refl refl o)
      ])
    ]

    arrival_afterwards :
        (c : Connection T) (seg : TcpSegment) (now : T)
        → has_flag seg.flags flag_rst ≡ false
        → Fits (swap V) y seg.seq seg.flags seg.payload
        → Acks (swap V) x seg.flags seg.ack
        → Open V w x r y c
        → Phase V w x r y (answer established c seg now).0
    unfolding handle_syn handle_other is_syn is_ack is_fin is_rst
    arrival_afterwards c seg now no_rst f acks o = elim (Bool-cases (has_flag seg.flags flag_syn)) [
      | inl e ↦ rw e (open_phase (reject-Open c seg now o))
      | inr e ↦ rw e (
          open_phase
            (handle_synchronised-Open V w x r y c seg now w_low f.no_fin no_rst (f.piece e) acks o))
    ]

    -- Any genuine segment, in the state that the phase has.
    in_state :
        (s : TcpState) (c : Connection T) (seg : TcpSegment) (src_ip : Option Bytes) (now : T)
        (random : ℕ)
        → c.state ≡ s
        → Phase V w x r y (on_segment_in s c seg src_ip now random).0
        → Phase V w x r y (on_segment_in c.state c seg src_ip now random).0
    in_state s c seg src_ip now random e p =
        subst (λ t. Phase V w x r y (on_segment_in t c seg src_ip now random).0) (sym e) p

    on_segment_in-Phase :
        (c : Connection T) (seg : TcpSegment) (src_ip : Option Bytes) (now : T) (random : ℕ)
        → IsGenuine (swap V) y x seg
        → Phase V w x r y c
        → Phase V w x r y (on_segment_in c.state c seg src_ip now random).0
    unfolding on_segment_in is_rst
    on_segment_in-Phase c seg src_ip now random g (opening a b d o) =
        in_state syn_sent c seg src_ip now random o.0
          (elim (Bool-cases (has_flag seg.flags flag_rst)) [
            | inl k ↦ rw k (handle_rst-Phase c (opening a b d o))
            | inr k ↦
                let (f, acks) = not_reset x y seg g k in
                rw (k, a, b, d)
                  (arrival_at_start c seg now f
                    (subst (λ x. Acks (swap V) x seg.flags seg.ack) b acks) o)
          ])
    on_segment_in-Phase c seg src_ip now random g (answering a b d o) =
        in_state syn_received c seg src_ip now random o.0
          (elim (Bool-cases (has_flag seg.flags flag_rst)) [
            | inl k ↦ rw k (handle_rst-Phase c (answering a b d o))
            | inr k ↦
                let (f, acks) = not_reset x y seg g k in
                rw (k, a, b, d)
                  (arrival_midway c seg now (subst (λ x. Acks (swap V) x seg.flags seg.ack) b acks)
                    o)
          ])
    on_segment_in-Phase c seg src_ip now random g (open_phase o) =
        in_state established c seg src_ip now random o.0
          (elim (Bool-cases (has_flag seg.flags flag_rst)) [
            | inl k ↦ rw k (handle_rst-Phase c (open_phase o))
            | inr k ↦
                let (f, acks) = not_reset x y seg g k in
                rw k (arrival_afterwards c seg now k f acks o)
          ])
    on_segment_in-Phase c seg src_ip now random g (over o) =
        in_state closed c seg src_ip now random o.0 (over (reject-Over c seg now o))

    arrived-Phase :
        (c : Connection T) (now : T) → Phase V w x r y c → Phase V w x r y (arrived c now)
    unfolding arrived
    arrived-Phase c now (opening a b d o) = opening a b d o
    arrived-Phase c now (answering a b d o) = answering a b d o
    arrived-Phase c now (open_phase o) = open_phase o
    arrived-Phase c now (over o) = over o

    -- A genuine segment, at any time, keeps the connection on the streams.
    pub on_segment-Phase :
        (c : Connection T) (seg : TcpSegment) (src_ip : Option Bytes) (now : T) (random : ℕ)
        → IsGenuine (swap V) y x seg
        → Phase V w x r y c
        → Phase V w x r y (on_segment c seg src_ip now random).0
    unfolding on_segment arrived
    on_segment-Phase c seg src_ip now random g p =
        on_segment_in-Phase (arrived c now) seg src_ip now random g (arrived-Phase c now p)
