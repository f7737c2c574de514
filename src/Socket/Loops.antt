-- ===== src/Socket/Loops.antt =====
-- What the loops of a socket's `send` and `recv` (minitcp/socket.py) return.
use mini_tcp.Base.{
  ℕ, ◌+◌, ◌≤◌, ◌<◌, ◌≡◌, ◌⊎◌, refl, true, false, ◌||◌, some, List, [], ◌∷◌, ltb, arith, Bytes,
  length, drop, is_empty, Bool-cases, Option-cases, inl, inr, ltb→lt, ltb→le, length-drop,
}
use mini_tcp.State.{is_closed}
use mini_tcp.Time.{TimeOps}
use mini_tcp.Send.Accepted.{write_count}
use mini_tcp.Connection.{Connection}
use mini_tcp.Connection.Application.{send, recv, peer_closed}
use mini_tcp.Socket.{
  Round, Sending, returned, waits, raised, send_loop, send_stream, Receiving, got, still_waits,
  recv_loop,
}

module _ {T : Type 0} ⦃ops : TimeOps T⦄ where
  -- A count that is returned is that of all bytes, or the connection is closed and it is less.
  abbrev pub IsWhole : Bytes → Sending T → Type 0
  IsWhole bytes (returned c n) =
      (n ≡ length bytes) ⊎ ((is_closed c.state ≡ true) × (n < length bytes))
  IsWhole bytes (waits c n) = n < length bytes
  IsWhole bytes raised = Unit {0}

  send_at_most :
      (c : Connection T) (bytes : Bytes) (now : T) {r : Connection T × ℕ}
      → send c bytes now ≡ some r
      → r.1 ≤ length bytes
  unfolding send
  send_at_most c bytes now e = ground (arith, write_count c.send_queue bytes)

  send_loop-IsWhole :
      (rounds : List (Round T)) (c : Connection T) (bytes : Bytes) (n : ℕ)
      → n ≤ length bytes
      → IsWhole bytes (send_loop rounds c bytes n)
  unfolding send_loop
  send_loop-IsWhole [] c bytes n h = elim (Bool-cases (ltb n (length bytes))) [
    | inr k ↦ rw k (inl (omega (arith, ltb→le _ _ k, h)))
    | inl k ↦ rw k (elim (Bool-cases (is_closed c.state)) [
      | inl m ↦ rw m (inr (m, ltb→lt _ _ k))
      | inr m ↦ rw m (ltb→lt _ _ k)
    ])
  ]
  send_loop-IsWhole (round ∷ rounds) c bytes n h =
      let seen = round.before c in
      elim (Bool-cases (ltb n (length bytes))) [
        | inr k ↦ rw k (inl (omega (arith, ltb→le _ _ k, h)))
        | inl k ↦ rw k (elim (Bool-cases (is_closed seen.state)) [
          | inl m ↦ rw m (inr (m, ltb→lt _ _ k))
          | inr m ↦ rw m (elim (Option-cases (send (round.during seen) (drop n bytes) round.now)) [
            | inl e ↦ rw e tt
            | inr (r, e) ↦ rw e (
                send_loop-IsWhole rounds r.0 bytes (n + r.1) (
                  omega (
                    arith,
                    send_at_most (round.during seen) (drop n bytes) round.now e,
                    length-drop n bytes,
                    h,
                  )))
          ])
        ])
      ]

  -- Whatever other threads do to the connection while `send` waits, a call that returns gives the
  -- count of all bytes, or the connection is closed and the count is less; a call that still waits
  -- has counted fewer than all bytes.
  pub send_stream-IsWhole :
      (rounds : List (Round T)) (c : Connection T) (bytes : Bytes) (now : T)
      → IsWhole bytes (send_stream rounds c bytes now)
  unfolding send_stream
  send_stream-IsWhole rounds c [] now = inl refl
  send_stream-IsWhole rounds c (b ∷ bytes) now = elim (Option-cases (send c (b ∷ bytes) now)) [
    | inl e ↦ rw e tt
    | inr (r, e) ↦
        rw e (send_loop-IsWhole rounds r.0 (b ∷ bytes) r.1 (send_at_most c (b ∷ bytes) now e))
  ]

  -- `recv` returns no bytes only when the connection is closed or the peer has sent its FIN.
  abbrev pub IsEnd : Receiving T → Type 0
  IsEnd (got c bytes) =
      (is_empty bytes ≡ false) ⊎ ((is_closed c.state || peer_closed c.state) ≡ true)
  IsEnd (still_waits c) = Unit {0}

  pub recv_loop-IsEnd :
      (rounds : List (T × (Connection T → Connection T))) (c : Connection T) (bufsize : ℕ)
      → IsEnd (recv_loop rounds c bufsize)
  unfolding recv_loop
  recv_loop-IsEnd [] c bufsize = tt
  recv_loop-IsEnd ((now, others) ∷ rounds) c bufsize =
      let d = (recv c bufsize now).0 in
      elim (Bool-cases (is_empty (recv c bufsize now).1)) [
        | inr k ↦ rw k (inl k)
        | inl k ↦ rw k (elim (Bool-cases (is_closed d.state || peer_closed d.state)) [
          | inl m ↦ rw m (inr m)
          | inr m ↦ rw m (recv_loop-IsEnd rounds (others d) bufsize)
        ])
      ]
