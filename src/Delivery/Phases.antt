-- ===== src/Delivery/Phases.antt =====
-- The phases of a connection (minitcp/net/tcp/connection.py) on two byte streams.
use mini_tcp.Base.{ℕ, ◌≤◌, ◌≡◌, refl, Option, [], arith, All, All-map}
use mini_tcp.State.{closed}
use mini_tcp.Time.{TimeOps}
use mini_tcp.Receive
use mini_tcp.Retransmit
use mini_tcp.Retransmit.{OutstandingSegment, RtoEstimator}
use mini_tcp.Congestion.{RenoCongestion}
use mini_tcp.Connection.{Connection}
use mini_tcp.Connection.Outbound.{teardown}
use mini_tcp.Connection.Guards.{sent}
use mini_tcp.Delivery.Genuine.{Streams, IsGenuine, IsGenuine-le, Out-le}
use mini_tcp.Delivery.Receiving.{Follows-le, Open}
use mini_tcp.Delivery.Fresh.{Opening, Answering}

module _ (V : Streams) where
  -- Nothing waits to be sent again or read, and what was sent is genuine.
  abbrev pub Over : {T : Type 0} → ℕ → ℕ → ℕ → ℕ → Connection T → Type 0
  Over w x r y c =
      (c.state ≡ closed)
      × (c.retx_queue.segments ≡ [])
      × (Receive.available c.recv_queue ≡ 0)
      × (r ≤ y)
      × (at : ℕ) × (x ≤ at)
      × (at ≤ w)
      × All (IsGenuine V at y) (sent c.log)

  -- The application has written `w` bytes and read `r`; the bytes before `x` were sent, and the peer
  -- has sent no bytes beyond `y`.
  pub data Phase {T : Type 0} (w x r y : ℕ) (c : Connection T) : Type 0 where
    opening : w ≡ 0 → x ≡ 0 → r ≡ 0 → Opening V y c → Phase w x r y c
    answering : w ≡ 0 → x ≡ 0 → r ≡ 0 → Answering V y c → Phase w x r y c
    open_phase : Open V w x r y c → Phase w x r y c
    over : Over w x r y c → Phase w x r y c

  module _ {T : Type 0} where
    -- The peer may have sent more.
    pub widen :
        (w x r y z : ℕ) (c : Connection T) → y ≤ z → z ≤ V.limit → Phase w x r y c → Phase w x r z c
    widen w x r y z c h k (opening a b d (e, fin, idle, none_yet, f, o, quiet)) =
        opening a b d (e, fin, idle, none_yet, f, Out-le V 0 0 y z c (omega arith) h o, quiet)
    widen w x r y z c h k (answering a b d (e, fin, none_yet, f, o, t)) = answering a b d (
      e,
      fin,
      none_yet,
      f,
      Out-le V 0 0 y z c (omega arith) h o,
      Follows-le V 0 y z c.recv_queue h k t,
    )
    widen w x r y z c h k (open_phase (e, fin, (u, at, le, queue, total, (a, ack, low), o), t)) =
        open_phase (
          e,
          fin,
          (u, at, le, queue, total, (a, ack, omega arith), Out-le V at at y z c (omega arith) h o),
          Follows-le V r y z c.recv_queue h k t,
        )
    widen w x r y z c h k (over (e, none_left, nothing, seen, at, le, low, o)) = over (
      e,
      none_left,
      nothing,
      omega arith,
      at,
      le,
      low,
      All-map (IsGenuine V at y) (IsGenuine V at z) (IsGenuine-le V (omega arith) h) (sent c.log) o,
    )

    -- All that was sent is genuine up to some byte that is no further than what was written.
    pub tighten :
        (w x r y : ℕ) (c : Connection T)
        → Phase w x r y c
        → (at : ℕ) × (x ≤ at)
          × (at ≤ w)
          × (r ≤ y)
          × Phase w at r y c
          × All (IsGenuine V at y) (sent c.log)
    tighten w x r y c (opening a b d o) =
        let (e, fin, idle, none_yet, f, out, quiet) = o in
        (0, omega arith, omega arith, omega arith, opening a refl d o, out.1)
    tighten w x r y c (answering a b d o) =
        let (e, fin, none_yet, f, out, t) = o in
        (0, omega arith, omega arith, omega arith, answering a refl d o, out.1)
    tighten w x r y c (open_phase (e, fin, (u, at, le, queue, total, ready, o), (h, n, t))) = (
      at,
      le,
      omega (arith, queue.held),
      omega (arith, t.ordered, t.within),
      open_phase (e, fin, (u, at, omega arith, queue, total, ready, o), (h, n, t)),
      o.1,
    )
    tighten w x r y c (over (e, none_left, nothing, seen, at, le, within, o)) =
        (at, le, within, seen, over (e, none_left, nothing, seen, at, omega arith, within, o), o)

  module _ {T : Type 0} ⦃ops : TimeOps T⦄ (w x r y : ℕ) where
    pub teardown-Phase : (c : Connection T) → Phase w x r y c → Phase w x r y (teardown c)
    unfolding teardown Retransmit.clear Receive.clear Receive.available
    teardown-Phase c p =
        let (at, le, within, seen, q, genuine) = tighten w x r y c p in
        over (refl, refl, refl, seen, at, le, within, genuine)

    -- Congestion control and timers, but for the delayed ACK's, are free.
    pub retimed :
        (c : Connection T) (reno : RenoCongestion) (rto : RtoEstimator T)
        (retransmit_at persist_at : Option T) (persist_delay : T)
        → Phase w x r y c
        → Phase w x r y (record c {
          reno = reno;
          rto = rto;
          retransmit_at = retransmit_at;
          persist_at = persist_at;
          persist_delay = persist_delay;
        })
    retimed c reno rto retransmit_at persist_at persist_delay (opening a b d o) = opening a b d o
    retimed c reno rto retransmit_at persist_at persist_delay (answering a b d o) =
        answering a b d o
    retimed c reno rto retransmit_at persist_at persist_delay (open_phase o) = open_phase o
    retimed c reno rto retransmit_at persist_at persist_delay (over o) = over o
