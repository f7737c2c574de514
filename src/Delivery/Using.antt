-- ===== src/Delivery/Using.antt =====
-- What the application does to the phases of a connection (minitcp/net/tcp/connection.py: `send`,
-- `recv`, `abort`).
use Prim.Native.Nat.{bit_or}
use mini_tcp.Base.{
  either, ℕ, ◌+◌, ◌≡◌, refl, sym, subst, true, false, not, ◌&&◌, Option, none, ◌⊎◌, some, [], arith,
  if◌then◌else◌, Bytes, length, take, is_empty, All, Bool-cases, inl, inr, ◌==◌,
}
use mini_tcp.Base.Slices.{IsPart}
use mini_tcp.State.{TcpState, closed, listen, syn_sent, syn_received, established}
use mini_tcp.Time.{TimeOps}
use mini_tcp.Segment.{flag_ack, flag_rst}
use mini_tcp.Send
use mini_tcp.Send.{SendQueue}
use mini_tcp.Send.Laws.{write_part}
use mini_tcp.Receive
use mini_tcp.Receive.Reads.{read-Tracks}
use mini_tcp.Retransmit
use mini_tcp.Connection.{Connection}
use mini_tcp.Connection.Outbound.{teardown, notify, transmit, hand_over, track_segment, segment_of}
use mini_tcp.Connection.Ack.{flush}
use mini_tcp.Connection.Application.{send, recv, abort, can_send, can_receive}
use mini_tcp.Connection.Guards.{sent}
use mini_tcp.Connection.Frame.{flush-Keeps}
use mini_tcp.Delivery.Genuine.{Streams, IsGenuine}
use mini_tcp.Delivery.Sending.{Sends, flush-Sends}
use mini_tcp.Delivery.Receiving.{below, Open, kept, send_ack-Open, replaced}
use mini_tcp.Delivery.Phases.{Phase, opening, answering, open_phase, over, tighten}
use mini_tcp.Send.Accepted.{length-write, take_accepted, length_accepted}

-- The connection and the accepted bytes; a TCPStateError changes nothing.
unfoldable pub accept_bytes :
    {T : Type 0} → Connection T → Bytes → Option (Connection T × ℕ) → Connection T × Bytes
accept_bytes c bytes none = (c, [])
accept_bytes c bytes (some (d, count)) = (d, take count bytes)

module _ {T : Type 0} ⦃ops : TimeOps T⦄ where
  send_refused :
      (c : Connection T) (bytes : Bytes) (now : T)
      → can_send c.state ≡ false
      → send c bytes now ≡ none
  unfolding send
  send_refused c bytes now e = rw e refl

  can_send_open : (c : Connection T) → c.state ≡ established → can_send c.state ≡ true
  unfolding can_send
  can_send_open c e = rw e refl

  refuses :
      (c : Connection T)
      → (c.state ≡ syn_sent) ⊎ (c.state ≡ syn_received) ⊎ (c.state ≡ closed)
      → can_send c.state ≡ false
  unfolding can_send
  refuses c h = ground arith

  recv_nothing :
      (c : Connection T) (max_bytes : ℕ) (now : T)
      → Receive.available c.recv_queue ≡ 0
      → recv c max_bytes now ≡ (c, [])
  unfolding recv
  recv_nothing c max_bytes now e = rw e refl

module _ (V : Streams) where
  module _ {T : Type 0} ⦃ops : TimeOps T⦄ (w x r y : ℕ) where
    -- `abort` sends nothing but a reset.
    pub abort-Phase :
        (c : Connection T) (now : T) → Phase V w x r y c → Phase V w x r y (abort c now)
    unfolding abort notify teardown transmit hand_over track_segment segment_of sent
        Retransmit.clear Receive.clear Receive.available
    abort-Phase c now p =
        let (at, le, within, seen, q, genuine) = tighten V w x r y c p in
        over (refl, refl, refl, seen, at, le, within, settle at c.state genuine)
      where
        settle :
            (at : ℕ) (s : TcpState)
            → All (IsGenuine V at y) (sent c.log)
            → All (IsGenuine V at y) (
                sent
                  (elim s as (λ _. Connection T) [
                    | closed ↦ c
                    | listen ↦ c
                    | _ ↦
                        transmit c c.send_queue.nxt
                          (bit_or flag_rst flag_ack)
                          []
                          now
                          (some c.recv_queue.nxt)
                          none
                          true
                  ]).log)
        settle at closed h = h
        settle at listen h = h
        settle at _ h = (inl refl, h)

    -- What `recv` hands out is the next part of the peer's stream.
    recv-Open :
        (c : Connection T) (max_bytes : ℕ) (now : T)
        → Open V w x r y c
        → IsPart V.peer r (recv c max_bytes now).1
          × Open V w x (r + length (recv c max_bytes now).1) y (recv c max_bytes now).0
    unfolding recv
    recv-Open c max_bytes now o =
        let (e, fin, s, (h, n, t)) = o in
        let result = Receive.read c.recv_queue max_bytes in
        let taken = record c { recv_queue = result.0 } in
        let (part, tracks) =
          read-Tracks V.peer (V.peer_iss + 1) y (below V y h) c.recv_queue max_bytes t in
        let r' = r + length result.1 in
        let taken_ok = replaced V w x r y r' c result.0 (h, n, tracks) o in
        elim (Bool-cases (Receive.available c.recv_queue == 0)) [
          | inl k ↦ rw k (refl, subst (λ k. Open V w x k y c) (omega arith) o)
          | inr k ↦ rw k (
            part,
            either (Open V w x r' y) (not (is_empty result.1) && can_receive c.state) _ taken
                (send_ack-Open V w x r' y taken now taken_ok) taken_ok,
          )
        ]

    pub recv-Phase :
        (c : Connection T) (max_bytes : ℕ) (now : T)
        → Phase V w x r y c
        → IsPart V.peer r (recv c max_bytes now).1
          × Phase V w x (r + length (recv c max_bytes now).1) y (recv c max_bytes now).0
    recv-Phase c max_bytes now (opening a b d o) =
        rw (recv_nothing c max_bytes now o.3) (refl, opening a b (omega arith) o)
    recv-Phase c max_bytes now (answering a b d o) =
        rw (recv_nothing c max_bytes now o.2) (refl, answering a b (omega arith) o)
    recv-Phase c max_bytes now (open_phase o) =
        let (part, next) = recv-Open c max_bytes now o in (part, open_phase next)
    recv-Phase c max_bytes now (over o) =
        rw (recv_nothing c max_bytes now o.2)
          (refl, subst (λ k. Phase V w x k y c) (omega arith) (over o))

    stored-Sends :
        (c : Connection T) (bytes : Bytes)
        → Sends V w x y c
        → let (queue, count) = Send.write c.send_queue bytes in
          IsPart V.own w (take count bytes)
          → Sends V (w + count) x y (record c { send_queue = queue })
    stored-Sends c bytes (u, at, le, queue, total, ready, out) part =
        let (held, count) = write_part V.own (V.iss + 1) c.send_queue bytes queue (
          subst (λ d. IsPart V.own (u + length c.send_queue.buf) d)
            (take_accepted c.send_queue bytes)
            (subst (λ p. IsPart V.own p (take (Send.write c.send_queue bytes).1 bytes)) (sym total)
              part)) in
        (u, at, le, held, omega (arith, total, length-write c.send_queue bytes), ready, out)

    send-Open :
        (c : Connection T) (bytes : Bytes) (now : T)
        → Open V w x r y c
        → let (d, part) = accept_bytes c bytes (send c bytes now) in
          IsPart V.own w part → Open V (w + length part) x r y d
    unfolding send accept_bytes
    send-Open c bytes now o =
        let (e, fin, s, t) = o in
        let result = Send.write c.send_queue bytes in
        let stored = record c { send_queue = result.0 } in
        let stored_ok = λ (part : IsPart V.own w (take result.1 bytes)).
          let taken : Open V (w + result.1) x r y stored =
            (e, fin, stored-Sends c bytes s part, t) in
          let flushed =
            kept V (w + result.1) x r y stored (flush stored now) (flush-Keeps stored now)
              (flush-Sends V (w + result.1) x y stored now) taken in
          subst (λ k. Open V (w + k) x r y (if result.1 == 0 then stored else flush stored now))
            (sym (length_accepted c.send_queue bytes))
            (either (Open V (w + result.1) x r y) (result.1 == 0) stored (flush stored now) taken
              flushed) in
        elim (Bool-cases (is_empty bytes)) [
          | inl k ↦ rw (can_send_open c e, k) (λ _. subst (λ w. Open V w x r y c) (omega arith) o)
          | inr k ↦ rw (can_send_open c e, k) stored_ok
        ]

    -- What `send` accepts goes behind what was written before, if it is the next part of the stream.
    pub send-Phase :
        (c : Connection T) (bytes : Bytes) (now : T)
        → Phase V w x r y c
        → let (d, part) = accept_bytes c bytes (send c bytes now) in
          IsPart V.own w part → Phase V (w + length part) x r y d
    unfolding accept_bytes
    send-Phase c bytes now (opening a b d o) =
        rw (send_refused c bytes now (refuses c (inl o.0))) (λ _. opening (omega arith) b d o)
    send-Phase c bytes now (answering a b d o) =
        rw (send_refused c bytes now (refuses c (inr (inl o.0))))
          (λ _. answering (omega arith) b d o)
    send-Phase c bytes now (open_phase o) = λ h. open_phase (send-Open c bytes now o h)
    send-Phase c bytes now (over o) =
        rw (send_refused c bytes now (refuses c (inr (inr o.0))))
          (λ _. subst (λ k. Phase V k x r y c) (omega arith) (over o))
