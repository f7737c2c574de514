-- ===== src/Connection/Timers.antt =====
-- What time does to a connection (minitcp/net/tcp/connection.py: `on_tick`, `_on_retransmit_timeout`,
-- `_on_persist_timeout`).
use mini_tcp.Base.{Bool, false, not, Option, none, some, ltb, leb, if◌then◌else◌, is_empty}
use mini_tcp.State.{time_wait, is_synchronised}
use mini_tcp.Time.{TimeOps, min_time, at_least}
use mini_tcp.Send
use mini_tcp.Congestion
use mini_tcp.Retransmit
use mini_tcp.Retransmit.{OutstandingSegment}
use mini_tcp.Connection.{
  Connection, max_retransmits, default_persist_delay, max_persist_delay, on_closed,
}
use mini_tcp.Connection.Outbound.{send_ack, resend, teardown, notify}
use mini_tcp.Connection.Ack.{flush, send_piece}

module _ {T : Type 0} ⦃ops : TimeOps T⦄ where
  unfoldable pub on_retransmit_timeout : Connection T → T → Connection T
  on_retransmit_timeout c now = elim (Retransmit.oldest c.retx_queue) [
    | none ↦ record c { retransmit_at = none }
    | some segment ↦
        let slowed = record c {
          reno = Congestion.on_timeout c.reno;
          rto = Retransmit.backoff c.rto;
        } in
        let sent = resend slowed segment now in
        if leb max_retransmits segment.retransmits
        then notify on_closed (teardown c)
        else record sent { retransmit_at = some (ops.plus now sent.rto.rto) }
  ]

  -- The probe of a peer whose window is shut: the oldest segment, or one byte of new data.
  unfoldable pub probe : Connection T → T → Connection T
  probe c now =
      let payload = Send.peek c.send_queue c.send_queue.nxt 1 in
      elim (Retransmit.oldest c.retx_queue) [
        | some segment ↦ resend c segment now
        | none ↦ if is_empty payload then c else send_piece c payload now
      ]

  unfoldable pub on_persist_timeout : Connection T → T → Connection T
  on_persist_timeout c now =
      let probed = probe c now in
      let delay = min_time (ops.times probed.persist_delay (ops.literal 2 1)) max_persist_delay in
      if ltb 0 c.peer_window
      then flush (record c { persist_at = none; persist_delay = default_persist_delay }) now
      else if not (is_synchronised c.state)
      then record c { persist_at = none }
      else record probed { persist_delay = delay; persist_at = some (ops.plus now delay) }

  -- A timer is due if it is set and its time has come.
  unfoldable pub due : Option T → T → Bool
  due none now = false
  due (some at) now = at_least now at

  unfoldable pub expire_time_wait : Connection T → T → Connection T
  expire_time_wait c now = elim c.state [
    | time_wait ↦ if due c.time_wait_until now then notify on_closed (teardown c) else c
    | _ ↦ c
  ]

  unfoldable pub on_tick : Connection T → T → Connection T
  on_tick c now =
      let acked = if due c.delayed_ack_at now then send_ack c now else c in
      let resent = if due acked.retransmit_at now then on_retransmit_timeout acked now else acked in
      let probed = if due resent.persist_at now then on_persist_timeout resent now else resent in
      expire_time_wait probed now
