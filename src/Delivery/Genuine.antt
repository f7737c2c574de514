-- ===== src/Delivery/Genuine.antt =====
-- What a connection (minitcp/net/tcp/connection.py) puts on the wire, against the two byte streams.
use mini_tcp.Base.{
  ℕ, ◌+◌, ◌≤◌, ◌<◌, ◌≡◌, refl, ◌⊎◌, inl, inr, true, false, [], arith, Bytes, length, All, All-map,
}
use mini_tcp.Base.Slices.{IsPart}
use mini_tcp.Seqno.{seq_half}
use mini_tcp.Seqno.Order.{wire}
use mini_tcp.Segment.{TcpSegment, has_flag, flag_fin, flag_syn, flag_rst, flag_ack}
use mini_tcp.Retransmit.{OutstandingSegment}
use mini_tcp.Connection.{Connection}
use mini_tcp.Connection.Guards.{sent}

-- The streams of the two ends, and the initial sequence numbers that their SYNs take: byte 0 has the
-- number after. No stream is longer than `limit`.
pub record Streams : Type 0 where
  pub own : ℕ → ℕ
  pub iss : ℕ
  pub peer : ℕ → ℕ
  pub peer_iss : ℕ
  pub limit : ℕ
  pub half : limit < seq_half

module _ (V : Streams) where
  -- A payload is the piece of the own stream that its number says, before byte `x`.
  abbrev pub Piece : ℕ → ℕ → Bytes → Type 0
  Piece x seq payload =
      (p : ℕ) × (seq ≡ wire (V.iss + 1) p) × IsPart V.own p payload × (p + length payload ≤ x)

  pub record Fits (x seq flags : ℕ) (payload : Bytes) : Type 0 where
    pub no_fin : has_flag flags flag_fin ≡ false
    pub syn_at : has_flag flags flag_syn ≡ true → seq ≡ V.iss
    pub piece : has_flag flags flag_syn ≡ false → Piece x seq payload

  -- An acknowledgement is of bytes of the peer's stream before byte `n`.
  abbrev pub Acked : ℕ → ℕ → Type 0
  Acked n ack = (a : ℕ) × (ack ≡ wire (V.peer_iss + 1) a) × (a ≤ n)

  abbrev pub Acks : ℕ → ℕ → ℕ → Type 0
  Acks n flags ack = has_flag flags flag_ack ≡ true → Acked n ack

  -- A segment that is genuine while the next byte to send is `x` and the next one expected is `n`: a
  -- reset, or one that fits.
  abbrev pub IsGenuine : ℕ → ℕ → TcpSegment → Type 0
  IsGenuine x n seg =
      (has_flag seg.flags flag_rst ≡ true)
      ⊎ (Fits x seg.seq seg.flags seg.payload × Acks n seg.flags seg.ack)

  Piece-le : {x x' seq : ℕ} {payload : Bytes} → x ≤ x' → Piece x seq payload → Piece x' seq payload
  Piece-le h (p, at, part, fits) = (p, at, part, omega arith)

  pub at_next : {x seq : ℕ} → seq ≡ wire (V.iss + 1) x → Piece x seq []
  at_next {x} e = (x, e, refl, omega arith)

  pub Fits-le :
      {x x' seq flags : ℕ} {payload : Bytes}
      → x ≤ x'
      → Fits x seq flags payload
      → Fits x' seq flags payload
  Fits-le h f = record { no_fin = f.no_fin; syn_at = f.syn_at; piece = λ e. Piece-le h (f.piece e) }

  Acks-le : (n n' flags ack : ℕ) → n ≤ n' → Acks n flags ack → Acks n' flags ack
  Acks-le n n' flags ack h f e = let (a, at, least) = f e in (a, at, omega arith)

  pub IsGenuine-le :
      {x x' n n' : ℕ}
      → x ≤ x'
      → n ≤ n'
      → (seg : TcpSegment) → IsGenuine x n seg
      → IsGenuine x' n' seg
  IsGenuine-le h k seg (inl e) = inl e
  IsGenuine-le {n = n} {n'} h k seg (inr (f, g)) =
      inr (Fits-le h f, Acks-le n n' seg.flags seg.ack k g)

  module _ {T : Type 0} where
    abbrev pub FitsEntry : ℕ → OutstandingSegment T → Type 0
    FitsEntry x s = Fits x s.seq s.flags s.payload

    -- All that waits for an acknowledgement fits, and all that was ever sent is genuine.
    abbrev pub Out : ℕ → ℕ → Connection T → Type 0
    Out x n c = All (FitsEntry x) c.retx_queue.segments × All (IsGenuine x n) (sent c.log)

    pub Out-le : (x x' n n' : ℕ) (c : Connection T) → x ≤ x' → n ≤ n' → Out x n c → Out x' n' c
    Out-le x x' n n' c h k o = (
      All-map (FitsEntry x) (FitsEntry x') (λ s. Fits-le h) c.retx_queue.segments o.0,
      All-map (IsGenuine x n) (IsGenuine x' n') (IsGenuine-le h k) (sent c.log) o.1,
    )

    -- Where the two queues stand: the next byte to send is `x`, the next one expected is `n`.
    abbrev pub Numbered : ℕ → ℕ → Connection T → Type 0
    Numbered x n c = (c.send_queue.nxt ≡ wire (V.iss + 1) x) × Acked n c.recv_queue.nxt
