-- ===== src/Connection/Inbound.antt =====
-- What a connection does with a segment that arrives (minitcp/net/tcp/connection.py: `on_segment` and
-- the handlers that it calls).
use Prim.Native.Nat.{bit_or}
use mini_tcp.Base.{
  ℕ, ◌+◌, ◌*◌, ◌^◌, Bool, true, false, not, ◌&&◌, Option, none, some, [], ◌==◌, min, max,
  if◌then◌else◌, Bytes, length, is_empty,
}
use mini_tcp.Seqno.{seq_add, seq_ge, seq_gt, seq_lt}
use mini_tcp.State.{
  TcpState, closed, listen, syn_sent, syn_received, established, fin_wait_1, fin_wait_2, close_wait,
  closing, last_ack, is_synchronised,
}
use mini_tcp.Time.{TimeOps}
use mini_tcp.Segment.{
  TcpSegment, TcpOptions, is_rst, is_syn, is_ack, is_fin, seq_len, seq_end, flag_syn, flag_ack,
}
use mini_tcp.Send
use mini_tcp.Receive
use mini_tcp.Congestion
use mini_tcp.Connection.{
  Connection, Config, make, choose_iss, on_established, on_data, on_closed, on_reset,
}
use mini_tcp.Connection.Outbound.{
  transmit, send_ack, reject, retransmit_oldest, enter_time_wait, teardown, notify,
}
use mini_tcp.Connection.Ack.{process_ack}

-- Whether `ack` covers our FIN, if one was sent.
unfoldable pub fin_acknowledged : Option ℕ → ℕ → Bool
fin_acknowledged none ack = false
fin_acknowledged (some fin) ack = seq_ge ack (seq_add fin 1)

module _ {T : Type 0} ⦃ops : TimeOps T⦄ where
  unfoldable pub apply_peer_options : Connection T → TcpOptions → Connection T
  apply_peer_options c options = record c {
    peer_mss = elim options.mss [ none ↦ c.peer_mss | some mss ↦ max (min mss c.mss) 64 ];
    snd_wscale = elim options.window_scale [ none ↦ c.snd_wscale | some scale ↦ min scale 14 ];
  }

  unfoldable pub syn_options : Connection T → TcpOptions
  syn_options c = record {
    mss = some c.mss;
    window_scale = if c.rcv_wscale == 0 then none else some c.rcv_wscale;
    sack_permitted = true;
    sack_blocks = [];
    timestamp = none;
    timestamp_echo = none;
  }

  unfoldable pub send_syn_ack : Connection T → T → Connection T
  send_syn_ack c now =
      transmit c c.iss (bit_or flag_syn flag_ack) [] now (some c.recv_queue.nxt)
        (some (syn_options c)) true

  unfoldable pub begin_passive_open : Connection T → TcpSegment → T → ℕ → Connection T
  begin_passive_open c seg now random =
      let iss = choose_iss c.iss_override random in
      let opened = record c {
        irs = seg.seq;
        iss = iss;
        send_queue = Send.make iss c.send_capacity;
        recv_queue = Receive.make seg.seq c.receive_capacity;
        reno = Congestion.make c.mss none none;
        peer_window = seg.window;
      } in
      let sent = send_syn_ack (apply_peer_options opened seg.options) now in
      record sent {
        send_queue = record sent.send_queue { nxt = seq_add iss 1 };
        state = syn_received;
      }

  -- The child's configuration: the peer is the segment's sender.
  unfoldable pub child_config : Connection T → TcpSegment → Option Bytes → Config T
  child_config c seg src_ip = record c.config {
    remote_ip = elim src_ip [ none ↦ c.remote_ip | some ip ↦ ip ];
    remote_port = seg.src_port;
    initial_window = none;
  }

  -- The listener stays as it is; the child, if one is made, goes to `on_accept`.
  unfoldable pub handle_segment_in_listen :
      Connection T → TcpSegment → Option Bytes → T → ℕ → Option (Connection T)
  handle_segment_in_listen c seg src_ip now random =
      if is_rst seg
      then none
      else if not (is_syn seg)
      then none
      else some (begin_passive_open (make (child_config c seg src_ip)) seg now random)

  unfoldable pub handle_simultaneous_open : Connection T → TcpSegment → T → Connection T
  handle_simultaneous_open c seg now =
      let opened =
        record (apply_peer_options
          (record c { irs = seg.seq; recv_queue = Receive.make seg.seq c.receive_capacity })
          seg.options) { peer_window = seg.window } in
      record (send_syn_ack opened now) { state = syn_received }

  unfoldable pub handle_syn_ack : Connection T → TcpSegment → T → Connection T
  handle_syn_ack c seg now =
      let opened =
        apply_peer_options
          (record c { irs = seg.seq; recv_queue = Receive.make seg.seq c.receive_capacity })
          seg.options in
      let windowed = record opened { peer_window = seg.window * 2 ^ opened.snd_wscale } in
      let acked = send_ack (process_ack windowed seg now) now in
      if not (seq_ge seg.ack (seq_add c.iss 1))
      then reject c seg now
      else notify on_established (record acked { state = established })

  unfoldable pub handle_final_ack_of_handshake : Connection T → TcpSegment → T → Connection T
  handle_final_ack_of_handshake c seg now =
      if not (seq_ge seg.ack (seq_add c.iss 1))
      then c
      else notify on_established (record (process_ack c seg now) { state = established })

  unfoldable pub handle_data : Connection T → TcpSegment → T → Connection T
  handle_data c seg now =
      let (recv_queue, newly) = Receive.insert c.recv_queue seg.seq seg.payload in
      let taken = record c { recv_queue = recv_queue } in
      let told =
        if newly == 0
        then taken
        else notify on_data (record taken { bytes_received = taken.bytes_received + newly }) in
      let held = record told {
        delayed_ack_at = elim told.delayed_ack_at [
          | none ↦ some (ops.plus now told.delayed_ack_delay)
          | some at ↦ some at
        ];
      } in
      if (newly == 0) && is_empty seg.payload
      then told
      else if told.delayed_ack && not (newly == 0)
      then held
      else send_ack told now

  -- Our FIN is acknowledged in the given state.
  unfoldable pub fin_acked_in : TcpState → Connection T → T → Connection T
  fin_acked_in fin_wait_1 c now = record c { state = fin_wait_2 }
  fin_acked_in closing c now = enter_time_wait c now
  fin_acked_in last_ack c now = notify on_closed (teardown c)
  fin_acked_in _ c now = c

  unfoldable pub maybe_advance_after_ack : Connection T → TcpSegment → T → Connection T
  maybe_advance_after_ack c seg now =
      if is_ack seg && fin_acknowledged c.fin_seq seg.ack then fin_acked_in c.state c now else c

  -- The peer's FIN is consumed in the given state.
  unfoldable pub fin_consumed_in : TcpState → Connection T → T → Connection T
  fin_consumed_in established c now = record c { state = close_wait }
  fin_consumed_in fin_wait_1 c now =
      if fin_acknowledged c.fin_seq c.send_queue.una
      then enter_time_wait c now
      else record c { state = closing }
  fin_consumed_in fin_wait_2 c now = enter_time_wait c now
  fin_consumed_in closing c now = enter_time_wait c now
  fin_consumed_in _ c now = c

  unfoldable pub handle_fin : Connection T → TcpSegment → T → Connection T
  handle_fin c seg now =
      let fin = seq_add seg.seq (length seg.payload) in
      let nxt = c.recv_queue.nxt in
      let consumed =
        send_ack (record c { recv_queue = record c.recv_queue { nxt = seq_add nxt 1 } }) now in
      if seq_gt fin nxt
      then send_ack c now
      else if seq_lt fin nxt
      then send_ack c now
      else fin_consumed_in consumed.state consumed now

  unfoldable pub handle_rst : Connection T → Connection T
  handle_rst c = notify on_closed (notify on_reset (teardown (record c { reset_received = true })))

  unfoldable pub acceptable : Connection T → TcpSegment → Bool
  acceptable c seg =
      let low = c.recv_queue.nxt in
      let high = seq_add low c.recv_queue.capacity in
      if not (is_synchronised c.state)
      then true
      else if c.recv_queue.capacity == 0
      then is_empty seg.payload && (seg.seq == low)
      else if is_empty seg.payload && (seq_len seg == 0)
      then seq_ge seg.seq low && seq_lt seg.seq high
      else seq_lt seg.seq high && seq_gt (seq_end seg) low

  -- A segment for a synchronised connection.
  unfoldable pub handle_synchronised : Connection T → TcpSegment → T → Connection T
  handle_synchronised c seg now =
      let acked = if is_ack seg then process_ack c seg now else c in
      let advanced = maybe_advance_after_ack acked seg now in
      let stored = if is_empty seg.payload then advanced else handle_data advanced seg now in
      let finished = if is_fin seg then handle_fin stored seg now else stored in
      if acceptable c seg then finished else if is_rst seg then c else send_ack c now

  -- A segment with the SYN flag, outside CLOSED and LISTEN.
  unfoldable pub handle_syn : TcpState → Connection T → TcpSegment → T → Connection T
  handle_syn syn_sent c seg now =
      if is_ack seg then handle_syn_ack c seg now else handle_simultaneous_open c seg now
  handle_syn syn_received c seg now = retransmit_oldest c now false
  handle_syn _ c seg now = reject c seg now

  -- A segment without the SYN flag, outside CLOSED and LISTEN.
  unfoldable pub handle_other : TcpState → Connection T → TcpSegment → T → Connection T
  handle_other syn_sent c seg now = c
  handle_other syn_received c seg now =
      if is_ack seg then handle_final_ack_of_handshake c seg now else c
  handle_other _ c seg now = handle_synchronised c seg now

  -- The count and the time of arrival.
  unfoldable pub arrived : Connection T → T → Connection T
  arrived c now = record c { segments_received = c.segments_received + 1; last_activity = now }

  -- A segment in the given state. The second part is the child that a listener makes for
  -- `on_accept`; `random` is used if it does.
  unfoldable pub on_segment_in :
      TcpState
      → Connection T
      → TcpSegment
      → Option Bytes
      → T
      → ℕ
      → Connection T × Option (Connection T)
  on_segment_in closed c seg src_ip now random = (reject c seg now, none)
  on_segment_in listen c seg src_ip now random =
      if is_rst seg
      then (handle_rst c, none)
      else (c, handle_segment_in_listen c seg src_ip now random)
  on_segment_in s c seg src_ip now random =
      if is_rst seg
      then (handle_rst c, none)
      else if is_syn seg
      then (handle_syn s c seg now, none)
      else (handle_other s c seg now, none)

  unfoldable pub on_segment :
      Connection T → TcpSegment → Option Bytes → T → ℕ → Connection T × Option (Connection T)
  on_segment c seg src_ip now random = on_segment_in c.state (arrived c now) seg src_ip now random
