-- ===== src/Delivery/Outgoing.antt =====
-- What TCPConnection (minitcp/net/tcp/connection.py) sends stays genuine.
use Prim.Native.Nat.{bit_or}
use mini_tcp.Base.{
  ℕ, ◌+◌, ◌≡◌, refl, inl, inr, true, false, not, ◌||◌, Bool, Option, none, some, List, [], ◌∷◌,
  arith, Bytes, length, is_empty, subst, All, All-append, ltb, Bool-cases, Option-cases,
}
use mini_tcp.Time.{TimeOps}
use mini_tcp.Segment.{
  TcpSegment, TcpOptions, has_flag, is_rst, is_ack, flag_fin, flag_syn, flag_ack,
}
use mini_tcp.Retransmit
use mini_tcp.Retransmit.{OutstandingSegment}
use mini_tcp.Connection.{Connection}
use mini_tcp.Connection.Outbound.{
  or_value, segment_of, arm_retransmit_timer, hand_over, track_segment, transmit, send_ack, reject,
  resend, retransmit_oldest,
}
use mini_tcp.Connection.Guards.{sent}
use mini_tcp.Delivery.Genuine.{
  Streams, Fits, Acked, Acks, IsGenuine, FitsEntry, Out, Numbered, at_next,
}

module _ (V : Streams) where
  module _ {T : Type 0} ⦃ops : TimeOps T⦄ where
    hand_over-Out :
        (x n : ℕ) (c : Connection T) (seg : TcpSegment)
        → Out V x n c
        → IsGenuine V x n seg
        → Out V x n (hand_over c seg)
    unfolding hand_over sent
    hand_over-Out x n c seg o g = (o.0, (g, o.1))

    add-Fits :
        (x : ℕ) (q : Retransmit.RetransmitQueue T) (seq flags : ℕ) (payload : Bytes) (now : T)
        → All (FitsEntry V x) q.segments
        → Fits V x seq flags payload
        → All (FitsEntry V x) (Retransmit.add q seq flags payload now).0.segments
    unfolding Retransmit.add
    add-Fits x q seq flags payload now h f =
        elim (Bool-cases (ltb q.capacity (Retransmit.bytes_outstanding q + length payload))) [
          | inl e ↦ rw e h
          | inr e ↦ rw e (All-append (FitsEntry V x) q.segments _ h (f, tt))
        ]

    track-Out :
        (x n : ℕ) (c : Connection T) (seq flags : ℕ) (payload : Bytes) (now : T)
        → Out V x n c
        → Fits V x seq flags payload
        → Out V x n (track_segment c seq flags payload now)
    unfolding track_segment arm_retransmit_timer
    track-Out x n c seq flags payload now o f =
        elim (Bool-cases (has_flag flags (bit_or flag_syn flag_fin) || not (is_empty payload))) [
          | inl e ↦ rw e (add-Fits x c.retx_queue seq flags payload now o.0 f, o.1)
          | inr e ↦ rw e o
        ]

    pub transmit-Out :
        (x n : ℕ) (c : Connection T) (seq flags : ℕ) (payload : Bytes) (now : T) (ack : Option ℕ)
        (options : Option TcpOptions) (track : Bool)
        → Out V x n c
        → Fits V x seq flags payload
        → Acks V n flags (or_value ack c.recv_queue.nxt)
        → Out V x n (transmit c seq flags payload now ack options track)
    unfolding transmit segment_of
    transmit-Out x n c seq flags payload now ack options track o f g = elim (Bool-cases track) [
      | inl e ↦ rw e (track-Out x n (hand_over c seg) seq flags payload now handed f)
      | inr e ↦ rw e handed
    ]
      where
        seg : TcpSegment
        seg = segment_of c seq flags payload ack options

        handed : Out V x n (hand_over c seg)
        handed = hand_over-Out x n c seg o (inr (f, g))

    pub send_ack-Out :
        (x n : ℕ) (c : Connection T) (now : T)
        → Out V x n c
        → Numbered V x n c
        → Out V x n (send_ack c now)
    unfolding send_ack
    send_ack-Out x n c now o h = ground (
      arith,
      transmit-Out x n (record c { delayed_ack_at = none }) c.send_queue.nxt flag_ack [] now
          (some c.recv_queue.nxt) none true o fits (λ _. h.1),
    )
      where
        fits : Fits V x c.send_queue.nxt flag_ack []
        fits = record { no_fin = refl; syn_at = λ e. absurd (cc); piece = λ _. at_next V h.0 }

    pub mark-All :
        (P : OutstandingSegment T → Type 0) (q : Retransmit.RetransmitQueue T) (now : T)
        → ((s : OutstandingSegment T) → P s → P (Retransmit.mark_retransmitted s now))
        → All P q.segments
        → All P (Retransmit.mark_oldest q now).segments
    unfolding Retransmit.mark_oldest
    mark-All P q now f h = settle q.segments h
      where
        settle :
            (ss : List (OutstandingSegment T))
            → All P ss
            → All P (elim ss [ [] ↦ [] | s ∷ ss ↦ Retransmit.mark_retransmitted s now ∷ ss ])
        settle [] h = tt
        settle (s ∷ ss) h = (f s h.0, h.1)

    pub resend-Out :
        (x n : ℕ) (c : Connection T) (s : OutstandingSegment T) (now : T)
        → Out V x n c
        → FitsEntry V x s
        → Acks V n s.flags c.recv_queue.nxt
        → Out V x n (resend c s now)
    unfolding resend
    resend-Out x n c s now o f g =
        transmit-Out x n
          (record c {
            retransmissions = c.retransmissions + 1;
            retx_queue = Retransmit.mark_oldest c.retx_queue now;
          })
          s.seq s.flags s.payload now none none false
          (
            mark-All (FitsEntry V x) c.retx_queue now
                (λ s. unfold Retransmit.mark_retransmitted in λ f. f) o.0,
            o.1,
          )
          f g

    pub oldest-All :
        (P : OutstandingSegment T → Type 0) (q : Retransmit.RetransmitQueue T)
        {s : OutstandingSegment T}
        → All P q.segments
        → Retransmit.oldest q ≡ some s
        → P s
    unfolding Retransmit.oldest
    oldest-All P q {s} h e = settle q.segments h e
      where
        settle :
            (ss : List (OutstandingSegment T))
            → All P ss
            → elim ss [ [] ↦ none | s ∷ ss ↦ some s ] ≡ some s
            → P s
        settle [] h e = absurd (cc)
        settle (r ∷ ss) h e = let same : r ≡ s = cc in subst P same h.0

    pub retransmit_oldest-Out :
        (x n : ℕ) (c : Connection T) (now : T) (fast : Bool)
        → Out V x n c
        → Acked V n c.recv_queue.nxt
        → Out V x n (retransmit_oldest c now fast)
    unfolding retransmit_oldest
    retransmit_oldest-Out x n c now fast o h =
        elim (Option-cases (Retransmit.oldest c.retx_queue)) [
          | inl e ↦ rw (e, retransmit_oldest) o
          | inr (s, e) ↦
              let again =
                resend-Out x n c s now o (oldest-All (FitsEntry V x) c.retx_queue o.0 e) (λ _. h) in
              rw (e, retransmit_oldest) (ground arith)
        ]

    pub reject-Out :
        (x n : ℕ) (c : Connection T) (seg : TcpSegment) (now : T)
        → Out V x n c
        → Out V x n (reject c seg now)
    unfolding reject transmit hand_over track_segment segment_of sent
    reject-Out x n c seg now o = elim (Bool-cases (is_rst seg)) [
      | inl e ↦ rw e o
      | inr e ↦ rw e (elim (Bool-cases (is_ack seg)) [
        | inl k ↦ rw k (o.0, (inl refl, o.1))
        | inr k ↦ rw k (o.0, (inl refl, o.1))
      ])
    ]
