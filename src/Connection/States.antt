-- ===== src/Connection/States.antt =====
-- The state machine that a connection follows, against the diagram of minitcp/net/tcp/state.py.
use mini_tcp.Base.{
  ℕ, ◌≡◌, refl, sym, ◌∙◌, subst, Bool, true, false, Option, arith, ◌+◌, if◌then◌else◌, ◌&&◌, Bytes,
  length, Bool-cases, inl, inr, is_empty,
}
use mini_tcp.State.{
  TcpState, closed, listen, syn_sent, syn_received, established, fin_wait_1, fin_wait_2, close_wait,
  closing, last_ack, time_wait,
}
use mini_tcp.Time.{TimeOps}
use mini_tcp.Segment.{TcpSegment, is_rst, is_syn, is_ack, is_fin}
use mini_tcp.Receive
use mini_tcp.Seqno.{seq_add, seq_gt, seq_lt, seq_ge}
use mini_tcp.Connection.{Connection, on_data}
use mini_tcp.Connection.Outbound.{teardown, enter_time_wait, send_ack, notify}
use mini_tcp.Connection.Ack.{process_ack}
use mini_tcp.Connection.Inbound.{
  handle_syn_ack, handle_simultaneous_open, handle_final_ack_of_handshake, handle_data,
  maybe_advance_after_ack, fin_acked_in, fin_consumed_in, on_segment_in, handle_fin, handle_rst,
  handle_synchronised, handle_syn, handle_other, arrived, on_segment, fin_acknowledged, acceptable,
}
use mini_tcp.Connection.Frame.{
  send_ack-Keeps, retransmit_oldest-Keeps, reject-Keeps, process_ack-Keeps,
}

-- The arrows of the diagram that a segment may take. With the RST flag it leads to CLOSED from every
-- state.
pub data Arrow (rst : Bool) : TcpState → TcpState → Type 0 where
  syn_ack_received : Arrow rst syn_sent established
  syn_received_too : Arrow rst syn_sent syn_received
  handshake_acked : Arrow rst syn_received established
  fin_received : Arrow rst established close_wait
  fin_acked : Arrow rst fin_wait_1 fin_wait_2
  fin_crossed : Arrow rst fin_wait_1 closing
  both_fins : Arrow rst fin_wait_1 time_wait
  last_fin : Arrow rst fin_wait_2 time_wait
  closing_acked : Arrow rst closing time_wait
  all_acked : Arrow rst last_ack closed
  reset : (s : TcpState) → rst ≡ true → Arrow rst s closed

-- Any number of arrows.
pub data Follows (rst : Bool) (s : TcpState) : TcpState → Type 0 where
  here : Follows rst s s
  next : {t u : TcpState} → Follows rst s t → Arrow rst t u → Follows rst s u

Follows-trans :
    {rst : Bool} {s t u : TcpState} → Follows rst s t → Follows rst t u → Follows rst s u
Follows-trans h here = h
Follows-trans h (next k a) = next (Follows-trans h k) a

one : {rst : Bool} {s t : TcpState} → Arrow rst s t → Follows rst s t
one a = next here a

same : {rst : Bool} {s t : TcpState} → t ≡ s → Follows rst s t
same {rst} {s} e = subst (Follows rst s) (sym e) here

from : {rst : Bool} {s t u : TcpState} → t ≡ s → Follows rst t u → Follows rst s u
from {rst} {u = u} e h = subst (λ s. Follows rst s u) e h

module _ {T : Type 0} ⦃ops : TimeOps T⦄ where
  fin_acked_in-Follows :
      {rst : Bool} (s : TcpState) (c : Connection T) (now : T)
      → c.state ≡ s
      → Follows rst s (fin_acked_in s c now).state
  unfolding fin_acked_in enter_time_wait notify teardown
  fin_acked_in-Follows fin_wait_1 c now e = one fin_acked
  fin_acked_in-Follows closing c now e = one closing_acked
  fin_acked_in-Follows last_ack c now e = one all_acked
  fin_acked_in-Follows _ c now e = same e

  fin_consumed_in-Follows :
      {rst : Bool} (s : TcpState) (c : Connection T) (now : T)
      → c.state ≡ s
      → Follows rst s (fin_consumed_in s c now).state
  unfolding fin_consumed_in enter_time_wait
  fin_consumed_in-Follows established c now e = one fin_received
  fin_consumed_in-Follows fin_wait_1 c now e =
      elim (Bool-cases (fin_acknowledged c.fin_seq c.send_queue.una)) [
        | inl acked ↦ rw acked (one both_fins)
        | inr waits ↦ rw waits (one fin_crossed)
      ]
  fin_consumed_in-Follows fin_wait_2 c now e = one last_fin
  fin_consumed_in-Follows closing c now e = one closing_acked
  fin_consumed_in-Follows _ c now e = same e

  handle_data-state :
      (c : Connection T) (seg : TcpSegment) (now : T) → (handle_data c seg now).state ≡ c.state
  unfolding handle_data notify
  handle_data-state c seg now =
      let r = Receive.insert c.recv_queue seg.seq seg.payload in
      let taken = record c { recv_queue = r.0 } in
      let told = notify on_data (record taken { bytes_received = taken.bytes_received + r.1 }) in
      ground (arith, (send_ack-Keeps taken now).state, (send_ack-Keeps told now).state)

  handle_fin-Follows :
      {rst : Bool} (c : Connection T) (seg : TcpSegment) (now : T)
      → Follows rst c.state (handle_fin c seg now).state
  unfolding handle_fin
  handle_fin-Follows c seg now =
      let c' = record c { recv_queue = record c.recv_queue { nxt = seq_add c.recv_queue.nxt 1 } } in
      let consumed = send_ack c' now in
      let waits = same (send_ack-Keeps c now).state in
      let goes =
        from (send_ack-Keeps c' now).state
          (fin_consumed_in-Follows consumed.state consumed now refl) in
      elim (Bool-cases (seq_gt (seq_add seg.seq (length seg.payload)) c.recv_queue.nxt)) [
        | inl e ↦ rw e waits
        | inr e ↦
            rw e
              (elim (Bool-cases (seq_lt (seq_add seg.seq (length seg.payload)) c.recv_queue.nxt)) [
                | inl k ↦ rw k waits
                | inr k ↦ rw k goes
              ])
      ]

  maybe_advance_after_ack-Follows :
      {rst : Bool} (c : Connection T) (seg : TcpSegment) (now : T)
      → Follows rst c.state (maybe_advance_after_ack c seg now).state
  unfolding maybe_advance_after_ack
  maybe_advance_after_ack-Follows c seg now =
      elim (Bool-cases (is_ack seg && fin_acknowledged c.fin_seq seg.ack)) [
        | inl e ↦ rw e (fin_acked_in-Follows c.state c now refl)
        | inr e ↦ rw e here
      ]

  handle_synchronised-Follows :
      {rst : Bool} (c : Connection T) (seg : TcpSegment) (now : T)
      → Follows rst c.state (handle_synchronised c seg now).state
  unfolding handle_synchronised
  handle_synchronised-Follows {rst} c seg now =
      let acked = if is_ack seg then process_ack c seg now else c in
      let advanced = maybe_advance_after_ack acked seg now in
      let stored = if is_empty seg.payload then advanced else handle_data advanced seg now in
      let finished = if is_fin seg then handle_fin stored seg now else stored in
      let ack_same : acked.state ≡ c.state = ground (arith, (process_ack-Keeps c seg now).state) in
      let data_same : stored.state ≡ advanced.state =
        ground (arith, handle_data-state advanced seg now) in
      let fin_moves : Follows rst stored.state finished.state = elim (Bool-cases (is_fin seg)) [
        | inl e ↦ rw e (handle_fin-Follows stored seg now)
        | inr e ↦ rw e here
      ] in
      let moves : Follows rst c.state finished.state = from ack_same (
        Follows-trans (maybe_advance_after_ack-Follows acked seg now) (from data_same fin_moves)) in
      elim (Bool-cases (acceptable c seg)) [
        | inl e ↦ rw e moves
        | inr e ↦ rw e (same (ground (arith, (send_ack-Keeps c now).state)))
      ]

  handle_syn_ack-Follows :
      {rst : Bool} (c : Connection T) (seg : TcpSegment) (now : T)
      → c.state ≡ syn_sent
      → Follows rst syn_sent (handle_syn_ack c seg now).state
  unfolding handle_syn_ack notify
  handle_syn_ack-Follows c seg now e = elim (Bool-cases (seq_ge seg.ack (seq_add c.iss 1))) [
    | inl k ↦ rw k (one syn_ack_received)
    | inr k ↦ rw k (same ((reject-Keeps c seg now).state ∙ e))
  ]

  handle_final_ack-Follows :
      {rst : Bool} (c : Connection T) (seg : TcpSegment) (now : T)
      → c.state ≡ syn_received
      → Follows rst syn_received (handle_final_ack_of_handshake c seg now).state
  unfolding handle_final_ack_of_handshake notify
  handle_final_ack-Follows c seg now e = elim (Bool-cases (seq_ge seg.ack (seq_add c.iss 1))) [
    | inl k ↦ rw k (one handshake_acked)
    | inr k ↦ rw k (same e)
  ]

  handle_syn-Follows :
      {rst : Bool} (s : TcpState) (c : Connection T) (seg : TcpSegment) (now : T)
      → c.state ≡ s
      → Follows rst s (handle_syn s c seg now).state
  unfolding handle_syn handle_simultaneous_open
  handle_syn-Follows syn_sent c seg now e = elim (Bool-cases (is_ack seg)) [
    | inl k ↦ rw k (handle_syn_ack-Follows c seg now e)
    | inr k ↦ rw k (one syn_received_too)
  ]
  handle_syn-Follows syn_received c seg now e =
      same ((retransmit_oldest-Keeps c now false).0.state ∙ e)
  handle_syn-Follows closed c seg now e = same ((reject-Keeps c seg now).state ∙ e)
  handle_syn-Follows listen c seg now e = same ((reject-Keeps c seg now).state ∙ e)
  handle_syn-Follows established c seg now e = same ((reject-Keeps c seg now).state ∙ e)
  handle_syn-Follows fin_wait_1 c seg now e = same ((reject-Keeps c seg now).state ∙ e)
  handle_syn-Follows fin_wait_2 c seg now e = same ((reject-Keeps c seg now).state ∙ e)
  handle_syn-Follows close_wait c seg now e = same ((reject-Keeps c seg now).state ∙ e)
  handle_syn-Follows closing c seg now e = same ((reject-Keeps c seg now).state ∙ e)
  handle_syn-Follows last_ack c seg now e = same ((reject-Keeps c seg now).state ∙ e)
  handle_syn-Follows time_wait c seg now e = same ((reject-Keeps c seg now).state ∙ e)

  handle_other-Follows :
      {rst : Bool} (s : TcpState) (c : Connection T) (seg : TcpSegment) (now : T)
      → c.state ≡ s
      → Follows rst s (handle_other s c seg now).state
  unfolding handle_other
  handle_other-Follows syn_sent c seg now e = same e
  handle_other-Follows syn_received c seg now e = elim (Bool-cases (is_ack seg)) [
    | inl k ↦ rw k (handle_final_ack-Follows c seg now e)
    | inr k ↦ rw k (same e)
  ]
  handle_other-Follows _ c seg now e = from e (handle_synchronised-Follows c seg now)

  on_segment_in-Follows :
      (s : TcpState) (c : Connection T) (seg : TcpSegment) (src_ip : Option Bytes) (now : T)
      (random : ℕ)
      → c.state ≡ s
      → Follows (is_rst seg) s (on_segment_in s c seg src_ip now random).0.state
  unfolding on_segment_in handle_rst notify teardown
  on_segment_in-Follows closed c seg src_ip now random e = same ((reject-Keeps c seg now).state ∙ e)
  on_segment_in-Follows listen c seg src_ip now random e = elim (Bool-cases (is_rst seg)) [
    | inl k ↦ rw k (one (reset listen refl))
    | inr k ↦ rw k (same e)
  ]
  on_segment_in-Follows s c seg src_ip now random e = elim (Bool-cases (is_rst seg)) [
    | inl k ↦ rw k (one (reset s refl))
    | inr k ↦ rw k (elim (Bool-cases (is_syn seg)) [
      | inl m ↦ rw m (handle_syn-Follows s c seg now e)
      | inr m ↦ rw m (handle_other-Follows s c seg now e)
    ])
  ]

  -- Whatever segment arrives, the state moves along arrows of the diagram of TCP's states only, and
  -- CLOSED is reached from a state other than LAST-ACK and CLOSED only by a segment with the RST flag.
  pub on_segment-Follows :
      (c : Connection T) (seg : TcpSegment) (src_ip : Option Bytes) (now : T) (random : ℕ)
      → Follows (is_rst seg) c.state (on_segment c seg src_ip now random).0.state
  unfolding on_segment arrived
  on_segment-Follows c seg src_ip now random =
      on_segment_in-Follows c.state (arrived c now) seg src_ip now random refl
