-- ===== src/Delivery/Receiving.antt =====
-- The data that TCPConnection (minitcp/net/tcp/connection.py: `_handle_data`, `_handle_synchronised`)
-- takes from the other end.
use mini_tcp.Base.{
  either, ℕ, ◌+◌, ◌≤◌, ◌<◌, ◌≡◌, sym, ◌∙◌, subst, true, false, not, ◌&&◌, none, [], ◌∷◌, arith,
  if◌then◌else◌, Bytes, is_empty, ◌==◌, Bool-cases, inl, inr,
}
use mini_tcp.Seqno.{seq_space}
use mini_tcp.Seqno.Order.{wire}
use mini_tcp.State.{established}
use mini_tcp.Time.{TimeOps}
use mini_tcp.Segment.{TcpSegment, is_ack, is_fin, is_rst}
use mini_tcp.Reorder.Entries.{Each, Dict}
use mini_tcp.Receive
use mini_tcp.Receive.{ReceiveQueue}
use mini_tcp.Receive.Stream.{Tracks, Parked, insert-Advances}
use mini_tcp.Connection.{Connection, on_data}
use mini_tcp.Connection.Outbound.{send_ack, notify}
use mini_tcp.Connection.Ack.{process_ack}
use mini_tcp.Connection.Inbound.{
  handle_data, maybe_advance_after_ack, handle_synchronised, acceptable, fin_acknowledged,
}
use mini_tcp.Connection.Guards.{sent}
use mini_tcp.Connection.Frame.{Keeps, send_ack-Keeps, process_ack-Keeps}
use mini_tcp.Delivery.Genuine.{Streams, Acked, Piece}
use mini_tcp.Delivery.Sending.{Sends, send_ack-Sends}
use mini_tcp.Delivery.Acking.{process_ack-Sends}

-- The same streams, as the other end sees them.
abbrev pub swap : Streams → Streams
swap V = record {
  own = V.peer;
  iss = V.peer_iss;
  peer = V.own;
  peer_iss = V.iss;
  limit = V.limit;
  half = V.half;
}

Each-map :
    (P Q : ℕ → Bytes → Type 0)
    → ((k : ℕ) (d : Bytes) → P k d → Q k d)
    → (m : Dict) → Each P m
    → Each Q m
Each-map P Q f [] h = tt
Each-map P Q f ((k, d) ∷ m) h = (f k d h.0, Each-map P Q f m h.1)

pub below : (V : Streams) (y : ℕ) → y ≤ V.limit → y < seq_space
below V y h = omega (arith, V.half)

module _ (V : Streams) where
  -- The receive queue is on the peer's stream, of which `y` bytes have been sent; the application
  -- has read `r` of them.
  abbrev pub Follows : ℕ → ℕ → ReceiveQueue → Type 0
  Follows r y q = (h : y ≤ V.limit) × (n : ℕ) × Tracks V.peer (V.peer_iss + 1) y (below V y h) r n q

  pub Follows-le :
      (r y z : ℕ) (q : ReceiveQueue) → y ≤ z → z ≤ V.limit → Follows r y q → Follows r z q
  Follows-le r y z q h k (low, n, t) = (
    k,
    n,
    record {
      valid = t.valid;
      at_nxt = t.at_nxt;
      unread = t.unread;
      ordered = t.ordered;
      within = omega (arith, t.within);
      parked =
          Each-map (Parked V.peer (V.peer_iss + 1) y (below V y low))
            (Parked V.peer (V.peer_iss + 1) z (below V z k))
            (λ key d (p, at, part, fits). (p, at, part, omega arith)) q.ooo.entries t.parked;
    },
  )

  pub Follows-Acked : (r y : ℕ) (q : ReceiveQueue) → Follows r y q → Acked V y q.nxt
  Follows-Acked r y q (h, n, t) = (n, t.at_nxt, t.within)

  pub insert-Follows :
      (r y : ℕ) (q : ReceiveQueue) (seq : ℕ) (payload : Bytes)
      → Follows r y q
      → Piece (swap V) y seq payload
      → Follows r y (Receive.insert q seq payload).0
  insert-Follows r y q seq payload (h, n, t) (p, at, part, fits) =
      let step =
        insert-Advances V.peer (V.peer_iss + 1) y (below V y h) n q p payload t part fits
          (omega (arith, t.within, V.half)) (omega (arith, t.within, V.half)) in
      (h, n + (Receive.insert q (wire (V.peer_iss + 1) p) payload).1, rw at step.tracks)

  -- An established connection on the two streams.
  abbrev pub Open : {T : Type 0} → ℕ → ℕ → ℕ → ℕ → Connection T → Type 0
  Open w x r y c =
      (c.state ≡ established) × (c.fin_seq ≡ none) × Sends V w x y c × Follows r y c.recv_queue

  module _ {T : Type 0} ⦃ops : TimeOps T⦄ (w x r y : ℕ) where
    -- What sends keeps the connection open.
    pub kept :
        (c d : Connection T)
        → Keeps c d
        → (Sends V w x y c → Sends V w x y d)
        → Open w x r y c
        → Open w x r y d
    kept c d k f (e, fin, s, t) =
        (k.state ∙ e, k.fin_seq ∙ fin, f s, subst (Follows r y) (sym k.recv_queue) t)

    pub send_ack-Open :
        (c : Connection T) (now : T) → Open w x r y c → Open w x r y (send_ack c now)
    send_ack-Open c now =
        kept c (send_ack c now) (send_ack-Keeps c now) (send_ack-Sends V w x y c now)

    -- A new receive queue that is still on the stream may replace the old one.
    pub replaced :
        (r' : ℕ) (c : Connection T) (q : ReceiveQueue)
        → Follows r' y q
        → Open w x r y c
        → Open w x r' y (record c { recv_queue = q })
    replaced r' c q t (e, fin, (u, at, le, queue, total, ready, out), _) =
        (e, fin, (u, at, le, queue, total, Follows-Acked r' y q t, out), t)

    handle_data-Open :
        (c : Connection T) (seg : TcpSegment) (now : T)
        → Piece (swap V) y seg.seq seg.payload
        → Open w x r y c
        → Open w x r y (handle_data c seg now)
    unfolding handle_data notify sent
    handle_data-Open c seg now part o =
        let result = Receive.insert c.recv_queue seg.seq seg.payload in
        let (e, fin, s, t) = o in
        let taken = record c { recv_queue = result.0 } in
        let taken_ok =
          replaced r c result.0 (insert-Follows r y c.recv_queue seg.seq seg.payload t part) o in
        let counted =
          notify on_data (record taken { bytes_received = taken.bytes_received + result.1 }) in
        let told = if result.1 == 0 then taken else counted in
        let told_ok : Open w x r y told =
          either (Open w x r y) (result.1 == 0) taken counted taken_ok taken_ok in
        either (Open w x r y) ((result.1 == 0) && is_empty seg.payload) told _ told_ok (
          either (Open w x r y) (told.delayed_ack && not (result.1 == 0)) _ (send_ack told now)
            told_ok (send_ack-Open told now told_ok))

    advance_none :
        (c : Connection T) (seg : TcpSegment) (now : T)
        → c.fin_seq ≡ none
        → maybe_advance_after_ack c seg now ≡ c
    unfolding maybe_advance_after_ack fin_acknowledged
    advance_none c seg now e = rw e (ground arith)

    -- A genuine segment, other than a reset or a SYN, keeps an established connection on the streams.
    pub handle_synchronised-Open :
        (c : Connection T) (seg : TcpSegment) (now : T)
        → w ≤ V.limit
        → is_fin seg ≡ false
        → is_rst seg ≡ false
        → Piece (swap V) y seg.seq seg.payload
        → (is_ack seg ≡ true → Acked (swap V) x seg.ack)
        → Open w x r y c
        → Open w x r y (handle_synchronised c seg now)
    unfolding handle_synchronised
    handle_synchronised-Open c seg now small no_fin no_rst part acks o =
        let acked = if is_ack seg then process_ack c seg now else c in
        let acked_ok : Open w x r y acked = elim (Bool-cases (is_ack seg)) [
          | inl e ↦ rw e (
              kept c (process_ack c seg now) (process_ack-Keeps c seg now)
                (λ s. process_ack-Sends V w x y c seg now s small (acks e)) o)
          | inr e ↦ rw e o
        ] in
        let finished : Open w x r y
            (if is_empty seg.payload then acked else handle_data acked seg now) =
          elim (Bool-cases (is_empty seg.payload)) [
            | inl e ↦ rw e acked_ok
            | inr e ↦ rw e (handle_data-Open acked seg now part acked_ok)
          ] in
        rw (advance_none acked seg now acked_ok.1, no_fin, no_rst)
          (elim (Bool-cases (acceptable c seg)) [
            | inl e ↦ rw e finished
            | inr e ↦ rw e (send_ack-Open c now o)
          ])
