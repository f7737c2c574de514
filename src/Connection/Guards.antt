-- ===== src/Connection/Guards.antt =====
-- Which segments a connection lets through (minitcp/net/tcp/connection.py: `_acceptable`, and the
-- reset at the head of `on_segment`).
use mini_tcp.Base.{
  ℕ, ◌+◌, ◌<◌, ◌≡◌, refl, true, ◌&&◌, Option, none, List, [], ◌∷◌, arith, if◌then◌else◌, ltb, leb,
  ◌==◌, Bytes, is_empty,
}
use mini_tcp.Seqno.{seq_half}
use mini_tcp.Seqno.Order.{wire, seq_order, seq_add-wire}
use mini_tcp.State.{TcpState, closed, listen, is_synchronised}
use mini_tcp.Time.{TimeOps}
use mini_tcp.Segment.{TcpSegment, is_rst, seq_len, seq_end}
use mini_tcp.Connection.{Connection, Effect, transmitted}
use mini_tcp.Connection.Outbound.{reject, teardown, notify}
use mini_tcp.Connection.Inbound.{handle_rst, acceptable, arrived, on_segment_in, on_segment}

-- The segments that were handed to `transmit`, the newest first.
unfoldable pub sent : List Effect → List TcpSegment
sent [] = []
sent (transmitted seg ip ∷ effects) = seg ∷ sent effects
sent (_ ∷ effects) = sent effects

module _ {T : Type 0} ⦃ops : TimeOps T⦄ where
  reset_in :
      (s : TcpState) (c : Connection T) (seg : TcpSegment) (src_ip : Option Bytes) (now : T)
      (random : ℕ)
      → is_rst seg ≡ true
      → c.state ≡ s
      → let (d, child) = on_segment_in s c seg src_ip now random in
        (d.state ≡ closed) × (sent d.log ≡ sent c.log) × (child ≡ none)
  unfolding on_segment_in handle_rst notify teardown reject sent
  reset_in closed c seg src_ip now random h e = rw h (e, refl, refl)
  reset_in listen c seg src_ip now random h e = rw h (refl, refl, refl)
  reset_in s c seg src_ip now random h e = rw h (refl, refl, refl)

  -- A segment with the RST flag closes a connection in any state; no segment is sent in answer, and
  -- a listener makes no child.
  pub reset_is_final :
      (c : Connection T) (seg : TcpSegment) (src_ip : Option Bytes) (now : T) (random : ℕ)
      → is_rst seg ≡ true
      → let (d, child) = on_segment c seg src_ip now random in
        (d.state ≡ closed) × (sent d.log ≡ sent c.log) × (child ≡ none)
  unfolding on_segment arrived
  reset_is_final c seg src_ip now random h =
      reset_in c.state (arrived c now) seg src_ip now random h refl

  -- In a synchronised state with a receive buffer, for a segment at position `p` while `n` is the next
  -- expected, all ends less than 2 ^ 31 apart: a segment that takes no sequence numbers is accepted
  -- exactly inside the `capacity` positions from `n`, and another exactly if it begins before their
  -- end and ends beyond `n`.
  pub acceptable_lem :
      (c : Connection T) (seg : TcpSegment) (base n p : ℕ)
      → is_synchronised c.state ≡ true
      → 0 < c.recv_queue.capacity
      → c.recv_queue.nxt ≡ wire base n
      → seg.seq ≡ wire base p
      → p + seq_len seg < n + seq_half
      → n + c.recv_queue.capacity < p + seq_half
      → acceptable c seg ≡ (
          if is_empty seg.payload && (seq_len seg == 0)
          then leb n p && ltb p (n + c.recv_queue.capacity)
          else ltb p (n + c.recv_queue.capacity) && ltb n (p + seq_len seg))
  unfolding acceptable seq_end
  acceptable_lem c seg base n p open_state room at_nxt at_seq near far =
      let high = seq_order base p (n + c.recv_queue.capacity) (omega arith) (omega arith) in
      let low = seq_order base p n (omega arith) (omega arith) in
      let end = seq_order base (p + seq_len seg) n (omega arith) (omega arith) in
      ground (
        arith,
        high.0,
        low.3,
        end.2,
        seq_add-wire base n c.recv_queue.capacity,
        seq_add-wire base p (seq_len seg),
      )
