-- ===== src/Delivery/Ticking.antt =====
-- What time does to the phases of a connection (minitcp/net/tcp/connection.py: `on_tick`).
use mini_tcp.Base.{
  either, ℕ, ◌≡◌, refl, sym, ap, ◌∙◌, subst, true, false, none, some, arith, if◌then◌else◌,
  is_empty, Bool-cases, Option-cases, inl, inr, ◌⊎◌, ltb, leb,
}
use mini_tcp.State.{closed, syn_sent, syn_received, established, is_synchronised}
use mini_tcp.Time.{TimeOps, min_time}
use mini_tcp.Send
use mini_tcp.Receive
use mini_tcp.Congestion
use mini_tcp.Retransmit
use mini_tcp.Retransmit.{OutstandingSegment, RetransmitQueue}
use mini_tcp.Connection.{
  Connection, max_retransmits, default_persist_delay, max_persist_delay, on_closed,
}
use mini_tcp.Connection.Outbound.{teardown, notify, send_ack, resend}
use mini_tcp.Connection.Ack.{flush, send_piece}
use mini_tcp.Connection.Timers.{
  on_retransmit_timeout, probe, on_persist_timeout, due, expire_time_wait, on_tick,
}
use mini_tcp.Connection.Guards.{sent}
use mini_tcp.Connection.Frame.{send_piece-Keeps, flush-Keeps, send_ack-Keeps, send_queue-send_ack}
use mini_tcp.Delivery.Genuine.{Streams}
use mini_tcp.Delivery.Outgoing.{send_ack-Out}
use mini_tcp.Delivery.Sending.{send_piece-Sends, flush-Sends}
use mini_tcp.Delivery.Receiving.{Follows, Follows-Acked, Open, kept, send_ack-Open}
use mini_tcp.Delivery.Phases.{Phase, opening, answering, open_phase, over, teardown-Phase, retimed}
use mini_tcp.Delivery.Resending.{resend-Open, resend-Phase}

module _ {T : Type 0} ⦃ops : TimeOps T⦄ where
  flush_idle : (c : Connection T) (now : T) → is_synchronised c.state ≡ false → flush c now ≡ c
  unfolding flush
  flush_idle c now e = rw e refl

  send_ack_idle :
      (c : Connection T) (now : T)
      → c.state ≡ closed
      → send_ack c now ≡ record c { delayed_ack_at = none }
  unfolding send_ack
  send_ack_idle c now e = ground arith

  undue :
      (c d : Connection T) (now : T)
      → c.delayed_ack_at ≡ none
      → (if due c.delayed_ack_at now then d else c) ≡ c
  unfolding due
  undue c d now e = ground arith

  -- Only TIME-WAIT expires.
  expire_none :
      (c : Connection T) (now : T)
      → (c.state ≡ syn_sent)
        ⊎ (c.state ≡ syn_received)
        ⊎ (c.state ≡ established)
        ⊎ (c.state ≡ closed)
      → expire_time_wait c now ≡ c
  unfolding expire_time_wait
  expire_none c now h = ground arith

module _ (V : Streams) where
  module _ {T : Type 0} ⦃ops : TimeOps T⦄ (w x r y : ℕ) where
    notify-Phase : (c : Connection T) → Phase V w x r y c → Phase V w x r y (notify on_closed c)
    unfolding notify sent
    notify-Phase c (opening a b d o) = opening a b d o
    notify-Phase c (answering a b d o) = answering a b d o
    notify-Phase c (open_phase o) = open_phase o
    notify-Phase c (over o) = over o

    on_retransmit_timeout-Phase :
        (c : Connection T) (now : T)
        → Phase V w x r y c
        → Phase V w x r y (on_retransmit_timeout c now)
    unfolding on_retransmit_timeout
    on_retransmit_timeout-Phase c now p = elim (Option-cases (Retransmit.oldest c.retx_queue)) [
      | inl e ↦
          rw (e, on_retransmit_timeout)
            (retimed V w x r y c c.reno c.rto none c.persist_at c.persist_delay p)
      | inr (s, e) ↦
          let slowed = record c {
            reno = Congestion.on_timeout c.reno;
            rto = Retransmit.backoff c.rto;
          } in
          let slowed_ok =
            retimed V w x r y c slowed.reno slowed.rto c.retransmit_at c.persist_at c.persist_delay
              p in
          let sent = resend slowed s now in
          rw (e, on_retransmit_timeout)
            (either (Phase V w x r y) (leb max_retransmits s.retransmits) _ _
              (notify-Phase (teardown c) (teardown-Phase V w x r y c p))
              (retimed V w x r y sent sent.reno sent.rto (some (ops.plus now sent.rto.rto))
                sent.persist_at sent.persist_delay
                (resend-Phase V w x r y slowed s now e slowed_ok)))
    ]

    probe-Open : (c : Connection T) (now : T) → Open V w x r y c → Open V w x r y (probe c now)
    unfolding probe
    probe-Open c now o = elim (Option-cases (Retransmit.oldest c.retx_queue)) [
      | inl e ↦
          let payload = Send.peek c.send_queue c.send_queue.nxt 1 in
          rw (e, probe)
            (either (Open V w x r y) (is_empty payload) c (send_piece c payload now) o (
              kept V w x r y c (send_piece c payload now) (send_piece-Keeps c payload now)
                (send_piece-Sends V w x y c 1 now) o))
      | inr (s, e) ↦ rw (e, probe) (resend-Open V w x r y c s now e o)
    ]

    flush-Phase : (c : Connection T) (now : T) → Phase V w x r y c → Phase V w x r y (flush c now)
    unfolding is_synchronised
    flush-Phase c now (opening a b d o) =
        rw (flush_idle c now (ap is_synchronised o.0)) (opening a b d o)
    flush-Phase c now (answering a b d o) =
        rw (flush_idle c now (ap is_synchronised o.0)) (answering a b d o)
    flush-Phase c now (open_phase o) =
        open_phase
          (kept V w x r y c (flush c now) (flush-Keeps c now) (flush-Sends V w x y c now) o)
    flush-Phase c now (over o) = rw (flush_idle c now (ap is_synchronised o.0)) (over o)

    -- The probe is sent in a synchronised state only.
    probe-Phase :
        (c : Connection T) (now : T)
        → is_synchronised c.state ≡ true
        → Phase V w x r y c
        → Phase V w x r y (probe c now)
    unfolding is_synchronised
    probe-Phase c now e (opening a b d o) = absurd (ground (arith, o.0))
    probe-Phase c now e (answering a b d o) = absurd (ground (arith, o.0))
    probe-Phase c now e (open_phase o) = open_phase (probe-Open c now o)
    probe-Phase c now e (over o) = absurd (ground (arith, o.0))

    on_persist_timeout-Phase :
        (c : Connection T) (now : T)
        → Phase V w x r y c
        → Phase V w x r y (on_persist_timeout c now)
    unfolding on_persist_timeout
    on_persist_timeout-Phase c now p =
        let probed = probe c now in
        let delay = min_time (ops.times probed.persist_delay (ops.literal 2 1)) max_persist_delay in
        let flushed =
          flush-Phase (record c { persist_at = none; persist_delay = default_persist_delay }) now
            (retimed V w x r y c c.reno c.rto c.retransmit_at none default_persist_delay p) in
        either (Phase V w x r y) (ltb 0 c.peer_window) _ _ flushed
          (elim (Bool-cases (is_synchronised c.state)) [
            | inl e ↦ rw e (
                retimed V w x r y probed probed.reno probed.rto probed.retransmit_at
                  (some (ops.plus now delay)) delay (probe-Phase c now e p))
            | inr e ↦ rw e (retimed V w x r y c c.reno c.rto c.retransmit_at none c.persist_delay p)
          ])

    delayed_ack-Phase :
        (c : Connection T) (now : T)
        → Phase V w x r y c
        → Phase V w x r y (if due c.delayed_ack_at now then send_ack c now else c)
    delayed_ack-Phase c now (opening a b d o) =
        rw (undue c (send_ack c now) now o.2) (opening a b d o)
    delayed_ack-Phase c now (answering a b d (st, fin, none_yet, f, o, t)) =
        either (Phase V w x r y) (due c.delayed_ack_at now) (send_ack c now) c
          (let keeps = send_ack-Keeps c now in
            answering a b d (
              keeps.state ∙ st,
              keeps.fin_seq ∙ fin,
              ap Receive.available keeps.recv_queue ∙ none_yet,
              rw (send_queue-send_ack c now, keeps.iss) f,
              send_ack-Out V 0 y c now o (f.2, Follows-Acked V 0 y c.recv_queue t),
              subst (Follows V 0 y) (sym keeps.recv_queue) t,
            ))
          (answering a b d (st, fin, none_yet, f, o, t))
    delayed_ack-Phase c now (open_phase o) =
        either (Phase V w x r y) (due c.delayed_ack_at now) (send_ack c now) c
          (open_phase (send_ack-Open V w x r y c now o)) (open_phase o)
    delayed_ack-Phase c now (over o) =
        either (Phase V w x r y) (due c.delayed_ack_at now) (send_ack c now) c
          (rw (send_ack_idle c now o.0) (over o)) (over o)

    expire_time_wait-Phase :
        (c : Connection T) (now : T) → Phase V w x r y c → Phase V w x r y (expire_time_wait c now)
    expire_time_wait-Phase c now (opening a b d o) =
        rw (expire_none c now (inl o.0)) (opening a b d o)
    expire_time_wait-Phase c now (answering a b d o) =
        rw (expire_none c now (inr (inl o.0))) (answering a b d o)
    expire_time_wait-Phase c now (open_phase o) =
        rw (expire_none c now (inr (inr (inl o.0)))) (open_phase o)
    expire_time_wait-Phase c now (over o) = rw (expire_none c now (inr (inr (inr o.0)))) (over o)

    -- Time keeps the connection on the streams.
    pub on_tick-Phase :
        (c : Connection T) (now : T) → Phase V w x r y c → Phase V w x r y (on_tick c now)
    unfolding on_tick
    on_tick-Phase c now p =
        let acked = if due c.delayed_ack_at now then send_ack c now else c in
        let resent =
          if due acked.retransmit_at now then on_retransmit_timeout acked now else acked in
        let acked_ok = delayed_ack-Phase c now p in
        let resent_ok =
          either (Phase V w x r y) (due acked.retransmit_at now) _ acked
            (on_retransmit_timeout-Phase acked now acked_ok) acked_ok in
        expire_time_wait-Phase _ now (
          either (Phase V w x r y) (due resent.persist_at now) _ resent
            (on_persist_timeout-Phase resent now resent_ok) resent_ok)
