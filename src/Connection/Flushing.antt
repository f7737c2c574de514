-- ===== src/Connection/Flushing.antt =====
-- What `_flush` of minitcp/net/tcp/connection.py sends.
use Prim.Native.Nat.{bit_or}
use mini_tcp.Base.{
  List, leb, ℕ, ◌+◌, ◌-◌, ◌≤◌, ◌<◌, ◌≡◌, refl, true, ◌||◌, none, ◌∷◌, ◌==◌, max, Bytes, length,
}
use mini_tcp.Time.{TimeOps}
use mini_tcp.Seqno.Order.{wire}
use mini_tcp.Segment.{TcpSegment, flag_ack, flag_psh}
use mini_tcp.Send
use mini_tcp.Base.Slices.{IsPart}
use mini_tcp.Send.Laws.{Holds}
use mini_tcp.Connection.{Connection, Effect, transmitted}
use mini_tcp.Connection.Ack.{send_piece}
use mini_tcp.Connection.Frame.{send_queue-transmit}

module _ (S : ℕ → ℕ) (base : ℕ) where
  -- What was handed over between two logs, of which the later one is longer: segments that carry the
  -- stream from position `x` to `y`, each from where the one before ends and with its number.
  pub data Carried : ℕ → ℕ → List Effect → List Effect → Type 0 where
    nothing_more : {x : ℕ} {log : List Effect} → Carried x x log log
    and_segment :
        {x y : ℕ} {log later : List Effect} (segment : TcpSegment) (ip : Bytes)
        → Carried x y log later
        → segment.seq ≡ wire base y
        → 0 < length segment.payload
        → IsPart S y segment.payload
        → Carried x (y + length segment.payload) log (transmitted segment ip ∷ later)

module _ {T : Type 0} ⦃ops : TimeOps T⦄ where
  pub buf_kept :
      (c : Connection T) (payload : Bytes) (now : T)
      → (send_piece c payload now).send_queue.buf ≡ c.send_queue.buf
  unfolding send_piece
  buf_kept c payload now =
      rw
        (send_queue-transmit c c.send_queue.nxt (bit_or flag_ack flag_psh) payload now none none
          true)
        refl

  module _ (S : ℕ → ℕ) (base : ℕ) where
    -- The queue still holds the stream, at a position `next`, and either the window is full or all is
    -- sent.
    pub record Flushed (u x window : ℕ) (log : List Effect) (d : Connection T) : Type 0 where
      pub next : ℕ
      pub holds : Holds S base u next d.send_queue
      pub handed : Carried S base x next log d.log
      pub onward : x ≤ next
      pub within : next - u ≤ max (x - u) window
      pub done : (leb window (next - u) || (u + length d.send_queue.buf - next == 0)) ≡ true
