-- ===== src/Connection/Application.antt =====
-- What the application asks of a connection (minitcp/net/tcp/connection.py: `listen`, `connect`,
-- `send`, `recv`, `close`, `abort`). `none` is a TCPStateError.
use Prim.Native.Nat.{bit_or}
use mini_tcp.Base.{
  ℕ, Bool, true, false, not, ◌&&◌, Option, none, some, [], ◌==◌, if◌then◌else◌, Bytes, is_empty,
}
use mini_tcp.Seqno.{seq_add}
use mini_tcp.State.{
  TcpState, closed, listen, syn_sent, syn_received, established, fin_wait_1, fin_wait_2, close_wait,
  closing, last_ack, time_wait,
}
use mini_tcp.Time.{TimeOps}
use mini_tcp.Segment.{flag_syn, flag_rst, flag_ack}
use mini_tcp.Send
use mini_tcp.Receive
use mini_tcp.Congestion
use mini_tcp.Connection.{Connection, choose_iss, on_closed}
use mini_tcp.Connection.Outbound.{transmit, send_ack, send_fin, teardown, notify}
use mini_tcp.Connection.Ack.{flush}
use mini_tcp.Connection.Inbound.{syn_options}

unfoldable pub can_send : TcpState → Bool
can_send established = true
can_send close_wait = true
can_send _ = false

unfoldable pub can_receive : TcpState → Bool
can_receive established = true
can_receive fin_wait_1 = true
can_receive fin_wait_2 = true
can_receive _ = false

-- The peer has sent its FIN.
unfoldable pub peer_closed : TcpState → Bool
peer_closed close_wait = true
peer_closed closing = true
peer_closed last_ack = true
peer_closed time_wait = true
peer_closed _ = false

module _ {T : Type 0} ⦃ops : TimeOps T⦄ where
  unfoldable pub start_listening : Connection T → Option (Connection T)
  start_listening c = elim c.state [ closed ↦ some (record c { state = listen }) | _ ↦ none ]

  -- `random` is used if there is no override of the initial sequence number.
  unfoldable pub open_actively : Connection T → T → ℕ → Connection T
  open_actively c now random =
      let iss = choose_iss c.iss_override random in
      let opened = record c {
        iss = iss;
        send_queue = Send.make iss c.send_capacity;
        recv_queue = Receive.make 0 c.receive_capacity;
        reno = Congestion.make c.mss none none;
      } in
      let sent = transmit opened iss flag_syn [] now none (some (syn_options opened)) true in
      record sent {
        send_queue = record sent.send_queue { nxt = seq_add iss 1 };
        state = syn_sent;
        syn_sent_at = some now;
      }

  unfoldable pub connect : Connection T → T → ℕ → Option (Connection T)
  connect c now random = elim c.state [ closed ↦ some (open_actively c now random) | _ ↦ none ]

  -- The number is how many bytes were accepted.
  unfoldable pub send : Connection T → Bytes → T → Option (Connection T × ℕ)
  send c bytes now =
      let (send_queue, written) = Send.write c.send_queue bytes in
      let stored = record c { send_queue = send_queue } in
      if not (can_send c.state)
      then none
      else if is_empty bytes
      then some (c, 0)
      else some (if written == 0 then stored else flush stored now, written)

  unfoldable pub recv : Connection T → ℕ → T → Connection T × Bytes
  recv c max_bytes now =
      let (recv_queue, bytes) = Receive.read c.recv_queue max_bytes in
      let taken = record c { recv_queue = recv_queue } in
      if Receive.available c.recv_queue == 0 then (c, []) else (
        if not (is_empty bytes) && can_receive c.state then send_ack taken now else taken,
        bytes,
      )

  -- Send an RST, unless nothing was sent or heard yet, and forget the connection.
  unfoldable pub abort : Connection T → T → Connection T
  abort c now =
      let reset =
        transmit c c.send_queue.nxt (bit_or flag_rst flag_ack) [] now (some c.recv_queue.nxt) none
          true in
      notify on_closed (teardown (elim c.state [ closed ↦ c | listen ↦ c | _ ↦ reset ]))

  unfoldable pub close : Connection T → T → Connection T
  close c now = elim c.state [
    | established ↦ record (send_fin c now) { state = fin_wait_1 }
    | close_wait ↦ record (send_fin c now) { state = last_ack }
    | syn_sent ↦ abort c now
    | syn_received ↦ abort c now
    | closed ↦ notify on_closed (record c { state = closed })
    | listen ↦ notify on_closed (record c { state = closed })
    | _ ↦ c
  ]
