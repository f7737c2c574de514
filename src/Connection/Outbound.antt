-- ===== src/Connection/Outbound.antt =====
-- What a connection sends (minitcp/net/tcp/connection.py: `_transmit`, `_send_ack`, `_send_fin`,
-- `_reject`, `_retransmit_oldest`), and how it is torn down.
use Prim.Native.Nat.{bit_or}
use mini_tcp.Base.{
  ℕ, ◌+◌, ◌/◌, ◌^◌, Bool, true, false, not, ◌||◌, Option, none, some, [], ◌∷◌, min, if◌then◌else◌,
  Bytes, length, is_empty,
}
use mini_tcp.Seqno.{seq_add}
use mini_tcp.State.{closed, listen, time_wait}
use mini_tcp.Time.{TimeOps}
use mini_tcp.Segment.{
  TcpSegment, TcpOptions, no_options, is_rst, is_ack, seq_len, has_flag, flag_fin, flag_syn,
  flag_rst, flag_ack,
}
use mini_tcp.Send
use mini_tcp.Receive
use mini_tcp.Retransmit
use mini_tcp.Retransmit.{OutstandingSegment}
use mini_tcp.Connection.{Connection, Effect, transmitted}

abbrev pub or_value {ℓ} : {A : Type ℓ} → Option A → A → A
or_value none d = d
or_value (some a) d = a

module _ {T : Type 0} ⦃ops : TimeOps T⦄ where
  -- The receive window in units of the scale, at most what 16 bits hold.
  unfoldable pub advertised_window : Connection T → ℕ
  advertised_window c = min (Receive.window c.recv_queue / 2 ^ c.rcv_wscale) 0xFFFF

  unfoldable pub arm_retransmit_timer : Connection T → T → Connection T
  arm_retransmit_timer c now = record c {
    retransmit_at = if is_empty c.retx_queue.segments then none else some (ops.plus now c.rto.rto);
  }

  unfoldable pub segment_of :
      Connection T → ℕ → ℕ → Bytes → Option ℕ → Option TcpOptions → TcpSegment
  segment_of c seq flags payload ack options = record {
    src_port = c.local_port;
    dst_port = c.remote_port;
    seq = seq;
    ack = or_value ack c.recv_queue.nxt;
    flags = flags;
    window = advertised_window c;
    payload = payload;
    options = or_value options no_options;
    urgent_pointer = 0;
    checksum = 0;
  }

  -- The part of `_transmit` that every segment goes through.
  unfoldable pub hand_over : Connection T → TcpSegment → Connection T
  hand_over c segment = record c {
    segments_sent = c.segments_sent + 1;
    bytes_sent = c.bytes_sent + length segment.payload;
    log = transmitted segment c.remote_ip ∷ c.log;
  }

  -- The part of `_transmit` that remembers a segment which takes sequence numbers.
  unfoldable pub track_segment : Connection T → ℕ → ℕ → Bytes → T → Connection T
  track_segment c seq flags payload now =
      if has_flag flags (bit_or flag_syn flag_fin) || not (is_empty payload)
      then arm_retransmit_timer
          (record c { retx_queue = (Retransmit.add c.retx_queue seq flags payload now).0 }) now
      else c

  unfoldable pub transmit :
      Connection T → ℕ → ℕ → Bytes → T → Option ℕ → Option TcpOptions → Bool → Connection T
  transmit c seq flags payload now ack options track =
      let sent = hand_over c (segment_of c seq flags payload ack options) in
      if track then track_segment sent seq flags payload now else sent

  unfoldable pub send_ack : Connection T → T → Connection T
  send_ack c now =
      let c' = record c { delayed_ack_at = none } in
      elim c.state [
        | closed ↦ c'
        | listen ↦ c'
        | _ ↦ transmit c' c.send_queue.nxt flag_ack [] now (some c.recv_queue.nxt) none true
      ]

  unfoldable pub send_fin : Connection T → T → Connection T
  send_fin c now =
      let fin = c.send_queue.nxt in
      let c' =
        transmit (record c { fin_seq = some fin }) fin (bit_or flag_ack flag_fin) [] now none none
          true in
      record c' { send_queue = record c'.send_queue { nxt = seq_add fin 1 } }

  -- Answer a segment that nothing expects with an RST.
  unfoldable pub reject : Connection T → TcpSegment → T → Connection T
  reject c seg now =
      if is_rst seg
      then c
      else if is_ack seg
      then transmit c seg.ack flag_rst [] now none none true
      else transmit c 0 (bit_or flag_rst flag_ack) [] now (some (seq_add seg.seq (seq_len seg)))
          none true

  -- Count a retransmission of the oldest segment, mark it, and send it again.
  unfoldable pub resend : Connection T → OutstandingSegment T → T → Connection T
  resend c segment now =
      transmit
        (record c {
          retransmissions = c.retransmissions + 1;
          retx_queue = Retransmit.mark_oldest c.retx_queue now;
        })
        segment.seq segment.flags segment.payload now none none false

  unfoldable pub retransmit_oldest : Connection T → T → Bool → Connection T
  retransmit_oldest c now fast = elim (Retransmit.oldest c.retx_queue) [
    | none ↦ c
    | some segment ↦
        let c' = resend c segment now in
        if fast then c' else record c' { retransmit_at = some (ops.plus now c'.rto.rto) }
  ]

  unfoldable pub enter_time_wait : Connection T → T → Connection T
  enter_time_wait c now = record c {
    state = time_wait;
    time_wait_until = some (ops.plus now (ops.times (ops.literal 2 1) c.msl));
    retx_queue = Retransmit.clear c.retx_queue;
    retransmit_at = none;
  }

  unfoldable pub teardown : Connection T → Connection T
  teardown c = record c {
    state = closed;
    retx_queue = Retransmit.clear c.retx_queue;
    send_queue = Send.clear c.send_queue;
    recv_queue = Receive.clear c.recv_queue;
    retransmit_at = none;
    delayed_ack_at = none;
    time_wait_until = none;
  }

  unfoldable pub notify : Effect → Connection T → Connection T
  notify effect c = record c { log = effect ∷ c.log }
