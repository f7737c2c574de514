-- ===== src/Connection/Running.antt =====
-- The retransmission timer under each handler and call of TCPConnection
-- (minitcp/net/tcp/connection.py).
use Prim.Native.Nat.{bit_or}
use mini_tcp.Base.{
  ℕ, ◌+◌, refl, true, false, Option, none, some, [], arith, if◌then◌else◌, ◌*◌, ◌^◌, Bytes,
  Option-cases, inl, inr, is_empty,
}
use mini_tcp.Seqno.{seq_add}
use mini_tcp.State.{
  TcpState, closed, listen, syn_sent, syn_received, fin_wait_1, fin_wait_2, closing, last_ack,
}
use mini_tcp.Time.{TimeOps}
use mini_tcp.Segment.{TcpSegment, is_ack, flag_ack, flag_fin, flag_syn}
use mini_tcp.Send
use mini_tcp.Receive
use mini_tcp.Retransmit
use mini_tcp.Connection.{Connection, Config, make, on_data, default_persist_delay}
use mini_tcp.Connection.Outbound.{send_ack, send_fin, resend, notify, transmit, hand_over}
use mini_tcp.Connection.Ack.{process_ack}
use mini_tcp.Connection.Inbound.{
  handle_syn_ack, handle_simultaneous_open, handle_final_ack_of_handshake, handle_data,
  apply_peer_options, syn_options, send_syn_ack, begin_passive_open, maybe_advance_after_ack,
  fin_acked_in, fin_consumed_in, on_segment_in, handle_fin, handle_rst, handle_synchronised,
  handle_syn, handle_other,
}
use mini_tcp.Connection.Timers.{
  on_retransmit_timeout, probe, on_persist_timeout, due, expire_time_wait, on_tick,
}
use mini_tcp.Connection.Application.{open_actively, abort, close}
use mini_tcp.Connection.Armed.{
  Armed, transmit-Armed, send_ack-Armed, resend-Armed, retransmit_oldest-Armed, flush-Armed,
  send_piece-Armed, process_ack-Armed, reject-Armed, enter_time_wait-Armed, teardown-Armed,
}

module _ {T : Type 0} ⦃ops : TimeOps T⦄ where
  handle_data-Armed :
      (c : Connection T) (seg : TcpSegment) (now : T) → Armed c → Armed (handle_data c seg now)
  unfolding handle_data notify
  handle_data-Armed c seg now h =
      let r = Receive.insert c.recv_queue seg.seq seg.payload in
      let taken = record c { recv_queue = r.0 } in
      let told = notify on_data (record taken { bytes_received = taken.bytes_received + r.1 }) in
      ground (arith, send_ack-Armed taken now h, send_ack-Armed told now h)

  fin_acked_in-Armed :
      (s : TcpState) (c : Connection T) (now : T) → Armed c → Armed (fin_acked_in s c now)
  unfolding fin_acked_in notify
  fin_acked_in-Armed closing c now h = enter_time_wait-Armed c now
  fin_acked_in-Armed last_ack c now h = teardown-Armed c
  fin_acked_in-Armed _ c now h = h

  fin_consumed_in-Armed :
      (s : TcpState) (c : Connection T) (now : T) → Armed c → Armed (fin_consumed_in s c now)
  unfolding fin_consumed_in
  fin_consumed_in-Armed fin_wait_1 c now h = ground (arith, enter_time_wait-Armed c now)
  fin_consumed_in-Armed fin_wait_2 c now h = enter_time_wait-Armed c now
  fin_consumed_in-Armed closing c now h = enter_time_wait-Armed c now
  fin_consumed_in-Armed _ c now h = h

  handle_fin-Armed :
      (c : Connection T) (seg : TcpSegment) (now : T) → Armed c → Armed (handle_fin c seg now)
  unfolding handle_fin
  handle_fin-Armed c seg now h =
      let c' = record c { recv_queue = record c.recv_queue { nxt = seq_add c.recv_queue.nxt 1 } } in
      let consumed = send_ack c' now in
      ground (
        arith,
        send_ack-Armed c now h,
        fin_consumed_in-Armed consumed.state consumed now (send_ack-Armed c' now h),
      )

  maybe_advance_after_ack-Armed :
      (c : Connection T) (seg : TcpSegment) (now : T)
      → Armed c
      → Armed (maybe_advance_after_ack c seg now)
  unfolding maybe_advance_after_ack
  maybe_advance_after_ack-Armed c seg now h = ground (arith, fin_acked_in-Armed c.state c now h)

  handle_synchronised-Armed :
      (c : Connection T) (seg : TcpSegment) (now : T)
      → Armed c
      → Armed (handle_synchronised c seg now)
  unfolding handle_synchronised
  handle_synchronised-Armed c seg now h =
      let acked = if is_ack seg then process_ack c seg now else c in
      let advanced = maybe_advance_after_ack acked seg now in
      let stored = if is_empty seg.payload then advanced else handle_data advanced seg now in
      let acked_ok : Armed acked = ground (arith, process_ack-Armed c seg now h) in
      let advanced_ok = maybe_advance_after_ack-Armed acked seg now acked_ok in
      let stored_ok : Armed stored =
        ground (arith, handle_data-Armed advanced seg now advanced_ok) in
      ground (arith, handle_fin-Armed stored seg now stored_ok, send_ack-Armed c now h)

  send_syn_ack-Armed : (c : Connection T) (now : T) → Armed c → Armed (send_syn_ack c now)
  unfolding send_syn_ack
  send_syn_ack-Armed c now h =
      transmit-Armed c c.iss (bit_or flag_syn flag_ack) [] now (some c.recv_queue.nxt)
        (some (syn_options c)) true h

  handle_syn_ack-Armed :
      (c : Connection T) (seg : TcpSegment) (now : T) → Armed c → Armed (handle_syn_ack c seg now)
  unfolding handle_syn_ack apply_peer_options notify
  handle_syn_ack-Armed c seg now h =
      let opened =
        apply_peer_options
          (record c { irs = seg.seq; recv_queue = Receive.make seg.seq c.receive_capacity })
          seg.options in
      let windowed = record opened { peer_window = seg.window * 2 ^ opened.snd_wscale } in
      ground (
        arith,
        reject-Armed c seg now h,
        send_ack-Armed (process_ack windowed seg now) now (process_ack-Armed windowed seg now h),
      )

  handle_simultaneous_open-Armed :
      (c : Connection T) (seg : TcpSegment) (now : T)
      → Armed c
      → Armed (handle_simultaneous_open c seg now)
  unfolding handle_simultaneous_open apply_peer_options
  handle_simultaneous_open-Armed c seg now h = send_syn_ack-Armed _ now h

  handle_syn-Armed :
      (s : TcpState) (c : Connection T) (seg : TcpSegment) (now : T)
      → Armed c
      → Armed (handle_syn s c seg now)
  unfolding handle_syn
  handle_syn-Armed syn_sent c seg now h =
      ground (arith, handle_syn_ack-Armed c seg now h, handle_simultaneous_open-Armed c seg now h)
  handle_syn-Armed syn_received c seg now h = retransmit_oldest-Armed c now false h
  handle_syn-Armed _ c seg now h = reject-Armed c seg now h

  handle_other-Armed :
      (s : TcpState) (c : Connection T) (seg : TcpSegment) (now : T)
      → Armed c
      → Armed (handle_other s c seg now)
  unfolding handle_other handle_final_ack_of_handshake notify
  handle_other-Armed syn_sent c seg now h = h
  handle_other-Armed syn_received c seg now h = ground (arith, process_ack-Armed c seg now h)
  handle_other-Armed _ c seg now h = handle_synchronised-Armed c seg now h

  pub on_segment_in-Armed :
      (s : TcpState) (c : Connection T) (seg : TcpSegment) (src_ip : Option Bytes) (now : T)
      (random : ℕ)
      → Armed c
      → Armed (on_segment_in s c seg src_ip now random).0
  unfolding on_segment_in handle_rst notify
  on_segment_in-Armed closed c seg src_ip now random h = reject-Armed c seg now h
  on_segment_in-Armed listen c seg src_ip now random h =
      ground (arith, teardown-Armed (record c { reset_received = true }))
  on_segment_in-Armed s c seg src_ip now random h = ground (
    arith,
    teardown-Armed (record c { reset_received = true }),
    handle_syn-Armed s c seg now h,
    handle_other-Armed s c seg now h,
  )

  -- The child of a listener starts with its timer running for the SYN-ACK.
  pub child-Armed :
      (seg : TcpSegment) (now : T) (random : ℕ) (config : Config T)
      → Armed (begin_passive_open (make config) seg now random)
  unfolding begin_passive_open apply_peer_options make Retransmit.make_queue
  child-Armed seg now random config = send_syn_ack-Armed _ now refl

  on_retransmit_timeout-Armed :
      (c : Connection T) (now : T) → Armed c → Armed (on_retransmit_timeout c now)
  unfolding on_retransmit_timeout resend transmit hand_over notify Retransmit.mark_oldest
      Retransmit.oldest
  on_retransmit_timeout-Armed c now h = ground (arith, teardown-Armed c)

  on_persist_timeout-Armed :
      (c : Connection T) (now : T) → Armed c → Armed (on_persist_timeout c now)
  unfolding on_persist_timeout probe
  on_persist_timeout-Armed c now h = ground (
    arith,
    probe-Armed,
    flush-Armed (record c { persist_at = none; persist_delay = default_persist_delay }) now h,
  )
    where
      probe-Armed : Armed (probe c now)
      probe-Armed = elim (Option-cases (Retransmit.oldest c.retx_queue)) [
        | inl e ↦
            rw (e, probe)
              (ground (arith, send_piece-Armed c (Send.peek c.send_queue c.send_queue.nxt 1) now h))
        | inr (s, e) ↦ rw (e, probe) (resend-Armed c s now h)
      ]

  expire_time_wait-Armed : (c : Connection T) (now : T) → Armed c → Armed (expire_time_wait c now)
  unfolding expire_time_wait notify
  expire_time_wait-Armed c now h = ground (arith, teardown-Armed c)

  pub on_tick-Armed : (c : Connection T) (now : T) → Armed c → Armed (on_tick c now)
  unfolding on_tick
  on_tick-Armed c now h =
      let acked = if due c.delayed_ack_at now then send_ack c now else c in
      let resent = if due acked.retransmit_at now then on_retransmit_timeout acked now else acked in
      let probed = if due resent.persist_at now then on_persist_timeout resent now else resent in
      let acked_ok : Armed acked = ground (arith, send_ack-Armed c now h) in
      let resent_ok : Armed resent =
        ground (arith, on_retransmit_timeout-Armed acked now acked_ok) in
      let probed_ok : Armed probed =
        ground (arith, on_persist_timeout-Armed resent now resent_ok) in
      expire_time_wait-Armed probed now probed_ok

  pub open_actively-Armed :
      (c : Connection T) (now : T) (random : ℕ) → Armed c → Armed (open_actively c now random)
  unfolding open_actively
  open_actively-Armed c now random h = transmit-Armed _ _ flag_syn [] now none _ true h

  send_fin-Armed : (c : Connection T) (now : T) → Armed c → Armed (send_fin c now)
  unfolding send_fin
  send_fin-Armed c now h = transmit-Armed _ _ (bit_or flag_ack flag_fin) [] now none none true h

  pub abort-Armed : (c : Connection T) (now : T) → Armed (abort c now)
  unfolding abort notify
  abort-Armed c now = teardown-Armed _

  pub close-Armed : (c : Connection T) (now : T) → Armed c → Armed (close c now)
  unfolding close notify
  close-Armed c now h = ground (arith, send_fin-Armed c now h, abort-Armed c now)
