-- ===== src/Socket/Feeding.antt =====
-- Which bytes a socket's `send` (minitcp/socket.py) gives to the connection, and how many it counts, while other threads use the connection.
use mini_tcp.Base.{
  ℕ, ◌+◌, ◌-◌, ◌≤◌, ◌<◌, ◌≡◌, ◌⊎◌, subst, true, false, none, some, Option, arith, Bytes, length,
  drop, min, Bool-cases, inl, inr, length-drop, pos_part,
}
use mini_tcp.Base.Slices.{IsPart, drop-IsPart}
use mini_tcp.State.{is_closed}
use mini_tcp.Time.{TimeOps}
use mini_tcp.Seqno.{seq_gt, seq_diff}
use mini_tcp.Send
use mini_tcp.Send.{SendQueue}
use mini_tcp.Connection.{Connection}
use mini_tcp.Connection.Application.{can_send}
use mini_tcp.Socket.{Round, Sending, returned, waits, raised}

-- The bytes of a buffer are those of the stream that end at position `w`.
abbrev pub Ends : (ℕ → ℕ) → ℕ → Bytes → Type 0
Ends S w buf = (length buf ≤ w) × IsPart S (w - length buf) buf

module _ (S : ℕ → ℕ) where
  drop-Ends : (w k : ℕ) (buf : Bytes) → k ≤ length buf → Ends S w buf → Ends S w (drop k buf)
  drop-Ends w k buf few h =
      let size = length-drop k buf in
      (
        omega (arith, size, h.0),
        subst (λ p. IsPart S p (drop k buf)) (omega (arith, size, h.0, few))
            (drop-IsPart S (w - length buf) k buf h.1),
      )

  -- An acknowledgement, of whatever number, takes bytes from the front only.
  pub acknowledge-Ends :
      (w ack : ℕ) (q : SendQueue) → Ends S w q.buf → Ends S w (Send.acknowledge q ack).0.buf
  unfolding Send.acknowledge
  acknowledge-Ends w ack q h = elim (Bool-cases (seq_gt ack q.una)) [
    | inl e ↦
        rw e
          (drop-Ends w (min (pos_part (seq_diff ack q.una)) (length q.buf)) q.buf (omega arith) h)
    | inr e ↦ rw e h
  ]

module _ {T : Type 0} ⦃ops : TimeOps T⦄ where
  module _ (S : ℕ → ℕ) where
    -- What comes of handing bytes over once, where the connection can send.
    record Handed (w : ℕ) (c : Connection T) (bytes : Bytes) (r : Connection T × ℕ) : Type 0 where
      ends : Ends S (w + r.1) r.0.send_queue.buf
      few : r.1 ≤ length bytes
      same : r.0.state ≡ c.state

    IsHanded : ℕ → Connection T → Bytes → Option (Connection T × ℕ) → Type 0
    IsHanded w c bytes none = ⊥
    IsHanded w c bytes (some r) = Handed w c bytes r

    -- What other threads may do in a round: they take bytes from the front of the send buffer only, as
    -- acknowledgements do; before the look they may close the connection, but they do not shut down
    -- its sending side alone; and they do not close it while `send` sleeps.
    pub record IsFair (round : Round T) : Type 0 where
      pub before_keeps :
          (w : ℕ) (c : Connection T)
          → Ends S w c.send_queue.buf
          → Ends S w (round.before c).send_queue.buf
      pub during_keeps :
          (w : ℕ) (c : Connection T)
          → Ends S w c.send_queue.buf
          → Ends S w (round.during c).send_queue.buf
      pub before_state :
          (c : Connection T)
          → can_send c.state ≡ true
          → (can_send (round.before c).state ≡ true) ⊎ (is_closed (round.before c).state ≡ true)
      pub during_state :
          (c : Connection T) → can_send c.state ≡ true → can_send (round.during c).state ≡ true

    -- The buffer ends with the bytes that are counted, and the count is that of all bytes or the
    -- connection is closed; while the call waits there are bytes left and the connection is open.
    abbrev pub Feeds : ℕ → Bytes → Sending T → Type 0
    Feeds w bytes (returned d n) =
        Ends S (w + n) d.send_queue.buf
        × ((n ≡ length bytes) ⊎ ((is_closed d.state ≡ true) × (n < length bytes)))
    Feeds w bytes (waits d n) =
        Ends S (w + n) d.send_queue.buf × ((n < length bytes) × (is_closed d.state ≡ false))
    Feeds w bytes raised = ⊥
