-- ===== src/Delivery/Handshake.antt =====
-- The handshake of TCPConnection (minitcp/net/tcp/connection.py: `_handle_syn_ack`,
-- `_handle_simultaneous_open`, `_handle_final_ack_of_handshake`) puts both ends at the first byte.
use Prim.Native.Nat.{bit_or}
use mini_tcp.Base.{
  ℕ, ◌+◌, ◌*◌, ◌^◌, ◌≤◌, ◌≡◌, refl, sym, ap, ◌∙◌, subst, Bool, true, none, some, [], arith,
}
use mini_tcp.Seqno.{seq_add, seq_ge}
use mini_tcp.Seqno.Order.{wire}
use mini_tcp.State.{syn_received}
use mini_tcp.Time.{TimeOps}
use mini_tcp.Segment.{TcpSegment, flag_syn, flag_ack}
use mini_tcp.Receive
use mini_tcp.Connection.{Connection}
use mini_tcp.Connection.Outbound.{notify, retransmit_oldest}
use mini_tcp.Connection.Ack.{process_ack}
use mini_tcp.Connection.Inbound.{
  handle_syn_ack, handle_simultaneous_open, handle_final_ack_of_handshake, apply_peer_options,
  syn_options, send_syn_ack,
}
use mini_tcp.Connection.Guards.{sent}
use mini_tcp.Connection.Frame.{
  Keeps-trans, send_ack-Keeps, process_ack-Keeps, transmit-Keeps, send_queue-transmit,
  retransmit_oldest-Keeps,
}
use mini_tcp.Delivery.Genuine.{Streams, Acked, Out}
use mini_tcp.Delivery.Outgoing.{retransmit_oldest-Out}
use mini_tcp.Delivery.Sending.{send_ack-Sends}
use mini_tcp.Delivery.Receiving.{swap, Follows, Follows-Acked, Open}
use mini_tcp.Delivery.Fresh.{
  Fresh, Opening, Answering, of_syn, made, process_ack-Fresh, send_syn_ack-Out,
}

module _ (V : Streams) where
  module _ {T : Type 0} ⦃ops : TimeOps T⦄ (y : ℕ) where
    syn_acked :
        (c : Connection T) (ack : ℕ)
        → c.iss ≡ V.iss
        → ack ≡ wire (V.iss + 1) 0
        → seq_ge ack (seq_add c.iss 1) ≡ true
    unfolding seq_ge seq_add
    syn_acked c ack e k = rw (e, k) (ground arith)

    pub handle_syn_ack-Open :
        (c : Connection T) (seg : TcpSegment) (now : T)
        → y ≤ V.limit
        → seg.seq ≡ V.peer_iss
        → Acked (swap V) 0 seg.ack
        → Opening V y c
        → Open V 0 0 0 y (handle_syn_ack c seg now)
    unfolding handle_syn_ack apply_peer_options notify sent
    handle_syn_ack-Open c seg now low at acks (e, fin, idle, none_yet, f, o, quiet) =
        let opened =
          apply_peer_options
            (record c { irs = seg.seq; recv_queue = Receive.make seg.seq c.receive_capacity })
            seg.options in
        let windowed = record opened { peer_window = seg.window * 2 ^ opened.snd_wscale } in
        let ready = made V y c.receive_capacity seg.seq low at in
        let sends =
          process_ack-Fresh V y windowed seg now f (of_syn V seg.ack acks)
            (Follows-Acked V 0 y windowed.recv_queue ready) o in
        let keeps =
          Keeps-trans (process_ack-Keeps windowed seg now)
            (send_ack-Keeps (process_ack windowed seg now) now) in
        rw (syn_acked c seg.ack f.0 (of_syn V seg.ack acks)) (
          refl,
          keeps.fin_seq ∙ fin,
          send_ack-Sends V 0 0 y (process_ack windowed seg now) now sends,
          subst (Follows V 0 y) (sym keeps.recv_queue) ready,
        )

    pub handle_final_ack-Open :
        (c : Connection T) (seg : TcpSegment) (now : T)
        → Acked (swap V) 0 seg.ack
        → Answering V y c
        → Open V 0 0 0 y (handle_final_ack_of_handshake c seg now)
    unfolding handle_final_ack_of_handshake notify sent
    handle_final_ack-Open c seg now acks (e, fin, none_yet, f, o, t) =
        let keeps = process_ack-Keeps c seg now in
        rw (syn_acked c seg.ack f.0 (of_syn V seg.ack acks)) (
          refl,
          keeps.fin_seq ∙ fin,
          process_ack-Fresh V y c seg now f (of_syn V seg.ack acks)
              (Follows-Acked V 0 y c.recv_queue t) o,
          subst (Follows V 0 y) (sym keeps.recv_queue) t,
        )

    pub send_syn_ack-Answering :
        (c : Connection T) (now : T)
        → c.fin_seq ≡ none
        → Receive.available c.recv_queue ≡ 0
        → Fresh V c
        → Out V 0 y c
        → Follows V 0 y c.recv_queue
        → Answering V y (record (send_syn_ack c now) { state = syn_received })
    unfolding send_syn_ack
    send_syn_ack-Answering c now fin none_yet f o t =
        let queue =
          send_queue-transmit c c.iss (bit_or flag_syn flag_ack) [] now (some c.recv_queue.nxt)
            (some (syn_options c)) true in
        let keeps =
          transmit-Keeps c c.iss (bit_or flag_syn flag_ack) [] now (some c.recv_queue.nxt)
            (some (syn_options c)) true in
        (
          refl,
          keeps.fin_seq ∙ fin,
          ap Receive.available keeps.recv_queue ∙ none_yet,
          (rw (queue, keeps.iss) f),
          send_syn_ack-Out V y c now f.0 (Follows-Acked V 0 y c.recv_queue t) o,
          subst (Follows V 0 y) (sym keeps.recv_queue) t,
        )

    pub handle_simultaneous_open-Answering :
        (c : Connection T) (seg : TcpSegment) (now : T)
        → y ≤ V.limit
        → seg.seq ≡ V.peer_iss
        → Opening V y c
        → Answering V y (handle_simultaneous_open c seg now)
    unfolding handle_simultaneous_open apply_peer_options Receive.available Receive.make
    handle_simultaneous_open-Answering c seg now low at (e, fin, idle, none_yet, f, o, quiet) =
        send_syn_ack-Answering _ now fin refl f o (made V y c.receive_capacity seg.seq low at)

    pub retransmit_oldest-Answering :
        (c : Connection T) (now : T) (fast : Bool)
        → Answering V y c
        → Answering V y (retransmit_oldest c now fast)
    retransmit_oldest-Answering c now fast (e, fin, none_yet, f, o, t) =
        let (keeps, queue) = retransmit_oldest-Keeps c now fast in
        (
          keeps.state ∙ e,
          keeps.fin_seq ∙ fin,
          ap Receive.available keeps.recv_queue ∙ none_yet,
          rw (queue, keeps.iss) f,
          retransmit_oldest-Out V 0 y c now fast o (Follows-Acked V 0 y c.recv_queue t),
          subst (Follows V 0 y) (sym keeps.recv_queue) t,
        )
