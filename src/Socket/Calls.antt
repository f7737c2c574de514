-- ===== src/Socket/Calls.antt =====
-- The calls of a socket (minitcp/socket.py) that are made of others: `sendall` and `recv_all` on a stream,
-- and `close`, with `tcp_close` of minitcp/stack.py. What other threads do meanwhile is an argument.
use mini_tcp.Base.{
  ℕ, ◌+◌, ◌≡◌, refl, false, true, not, ◌||◌, Option, none, some, List, [], ◌∷◌, ◌++◌, ltb,
  if◌then◌else◌, Bytes, length, drop, is_empty, Bool-cases, inl, inr, ◌≤◌, ◌<◌, arith, ltb→lt,
  ltb→le, length-drop,
}
use mini_tcp.State.{is_closed}
use mini_tcp.Time.{TimeOps}
use mini_tcp.Connection.{Connection}
use mini_tcp.Connection.Application.{close, peer_closed}
use mini_tcp.Stack.{Stack}
use mini_tcp.Stack.Api.{udp_unbind}
use mini_tcp.Socket.{
  Round, Socket, bind, listen, accept, connect, sendto, recvfrom, stream, datagram, Sending,
  returned, waits, raised, send_stream, Receiving, got, still_waits, recv_loop,
}
use mini_tcp.Socket.Loops.{IsWhole, IsEnd, send_stream-IsWhole, recv_loop-IsEnd}

module _ {T : Type 0} where
  -- The wait of `tcp_close`, as many looks as there is time for.
  unfoldable wait_closed : List (Connection T → Connection T) → Connection T → Connection T
  wait_closed [] c = c
  wait_closed (others ∷ looks) c =
      let rest = wait_closed looks (others c) in if is_closed c.state then c else rest

module _ {T : Type 0} ⦃ops : TimeOps T⦄ where
  unfoldable tcp_close : List (Connection T → Connection T) → Connection T → T → Connection T
  unfolding wait_closed
  tcp_close looks c now = wait_closed looks (close c now)

  -- `close` of a socket with its connection, if it has one: the socket, the stack, and what becomes of
  -- the connection. No call of `tcp_close` raises here.
  unfoldable pub close_socket :
      Socket
      → Stack T
      → Option (Connection T)
      → List (Connection T → Connection T)
      → T
      → Socket × (Stack T × Option (Connection T))
  unfolding tcp_close
  close_socket s stack conn looks now = if s.is_shut then (s, (stack, conn)) else (
    record s { is_shut = true; conn = none; listening = false },
    (
      elim s.kind [
        | stream ↦ stack
        | datagram ↦ elim s.bound_port [ none ↦ stack | some port ↦ udp_unbind stack port ]
      ],
      elim conn [ none ↦ none | some c ↦ some (tcp_close looks c now) ],
    ),
  )

  -- The loop of `sendall`. Each call of `send` has its time and its rounds.
  unfoldable send_rest : List (T × List (Round T)) → Connection T → Bytes → ℕ → Sending T
  send_rest [] c bytes total =
      if not (ltb total (length bytes))
      then returned c total
      else if is_closed c.state
      then raised
      else waits c total
  send_rest ((now, rounds) ∷ calls) c bytes total =
      if not (ltb total (length bytes))
      then returned c total
      else if is_closed c.state
      then raised
      else elim (send_stream rounds c (drop total bytes) now) [
        | raised ↦ raised
        | waits d n ↦ waits d (total + n)
        | returned d n ↦ send_rest calls d bytes (total + n)
      ]

  unfoldable pub send_all :
      List (T × List (Round T)) → List (Round T) → Connection T → Bytes → T → Sending T
  unfolding send_rest
  send_all calls rounds c bytes now = elim (send_stream rounds c bytes now) [
    | raised ↦ raised
    | waits d n ↦ waits d n
    | returned d n ↦ send_rest calls d bytes n
  ]

  -- `recv_all`, with the rounds of each call of `recv` and what was read before.
  unfoldable pub recv_all :
      List (List (T × (Connection T → Connection T))) → Connection T → ℕ → Bytes → Receiving T
  recv_all [] c size out = still_waits c
  recv_all (rounds ∷ calls) c size out = elim (recv_loop rounds c size) [
    | still_waits d ↦ still_waits d
    | got d chunk ↦
        let rest = recv_all calls d size (out ++ chunk) in
        if is_empty chunk then got d out else rest
  ]

  abbrev pub IsSent : Bytes → Sending T → Type 0
  IsSent bytes (returned c n) = n ≡ length bytes
  IsSent bytes (waits c n) = n < length bytes
  IsSent bytes raised = Unit {0}

  -- What follows a call of `send` for the bytes from `total` on.
  resume_with :
      (bytes : Bytes) (total : ℕ) (next : Connection T → ℕ → Sending T)
      → total ≤ length bytes
      → ((d : Connection T) (n : ℕ) → total + n ≤ length bytes → IsSent bytes (next d n))
      → (r : Sending T) → IsWhole (drop total bytes) r
      → IsSent bytes
          (elim r [ raised ↦ raised | waits d n ↦ waits d (total + n) | returned d n ↦ next d n ])
  resume_with bytes total next h k raised w = tt
  resume_with bytes total next h k (waits d n) w = omega (arith, w, h, length-drop total bytes)
  resume_with bytes total next h k (returned d n) (inl w) =
      k d n (omega (arith, w, h, length-drop total bytes))
  resume_with bytes total next h k (returned d n) (inr w) =
      k d n (omega (arith, w.1, h, length-drop total bytes))

  send_rest-IsSent :
      (calls : List (T × List (Round T))) (c : Connection T) (bytes : Bytes) (total : ℕ)
      → total ≤ length bytes
      → IsSent bytes (send_rest calls c bytes total)
  unfolding send_rest
  send_rest-IsSent [] c bytes total h = elim (Bool-cases (ltb total (length bytes))) [
    | inl k ↦
        rw k
          (elim (Bool-cases (is_closed c.state)) [ inl m ↦ rw m tt | inr m ↦ rw m (ltb→lt _ _ k) ])
    | inr k ↦ rw k (omega (arith, ltb→le _ _ k))
  ]
  send_rest-IsSent ((now, rounds) ∷ calls) c bytes total h =
      elim (Bool-cases (ltb total (length bytes))) [
        | inr k ↦ rw k (omega (arith, ltb→le _ _ k))
        | inl k ↦ rw k (elim (Bool-cases (is_closed c.state)) [
          | inl m ↦ rw m tt
          | inr m ↦ rw m (
              resume_with bytes total (λ d n. send_rest calls d bytes (total + n)) h
                (λ d n i. send_rest-IsSent calls d bytes (total + n) i)
                (send_stream rounds c (drop total bytes) now)
                (send_stream-IsWhole rounds c (drop total bytes) now))
        ])
      ]

  -- What follows the first call of `send`.
  first_with :
      (bytes : Bytes) (next : Connection T → ℕ → Sending T)
      → ((d : Connection T) (n : ℕ) → n ≤ length bytes → IsSent bytes (next d n))
      → (r : Sending T) → IsWhole bytes r
      → IsSent bytes (elim r [ raised ↦ raised | waits d n ↦ waits d n | returned d n ↦ next d n ])
  first_with bytes next k raised w = tt
  first_with bytes next k (waits d n) w = w
  first_with bytes next k (returned d n) (inl w) = k d n (omega (arith, w))
  first_with bytes next k (returned d n) (inr w) = k d n (omega (arith, w.1))

  -- Whatever other threads do meanwhile, a call of `sendall` that returns has counted all bytes as
  -- accepted, and one that still waits has counted fewer.
  pub send_all-IsSent :
      (calls : List (T × List (Round T))) (rounds : List (Round T)) (c : Connection T)
      (bytes : Bytes) (now : T)
      → IsSent bytes (send_all calls rounds c bytes now)
  unfolding send_all
  send_all-IsSent calls rounds c bytes now =
      first_with bytes (λ d n. send_rest calls d bytes n)
        (λ d n i. send_rest-IsSent calls d bytes n i) (send_stream rounds c bytes now)
        (send_stream-IsWhole rounds c bytes now)

  -- `recv_all` returns only when the connection is closed or the peer has sent its FIN.
  abbrev pub IsFinished : Receiving T → Type 0
  IsFinished (got c bytes) = (is_closed c.state || peer_closed c.state) ≡ true
  IsFinished (still_waits c) = Unit {0}

  -- What follows a call of `recv`.
  finish_with :
      (out : Bytes) (next : Connection T → Bytes → Receiving T)
      → ((d : Connection T) (chunk : Bytes) → IsFinished (next d chunk))
      → (r : Receiving T) → IsEnd r
      → IsFinished (elim r [
        | still_waits d ↦ still_waits d
        | got d chunk ↦ if is_empty chunk then got d out else next d chunk
      ])
  finish_with out next k (still_waits d) w = tt
  finish_with out next k (got d []) (inl e) = grind arith
  finish_with out next k (got d []) (inr e) = e
  finish_with out next k (got d (b ∷ bytes)) w = k d (b ∷ bytes)

  pub recv_all-IsFinished :
      (calls : List (List (T × (Connection T → Connection T)))) (c : Connection T) (size : ℕ)
      (out : Bytes)
      → IsFinished (recv_all calls c size out)
  unfolding recv_all
  recv_all-IsFinished [] c size out = tt
  recv_all-IsFinished (rounds ∷ calls) c size out =
      finish_with out (λ d chunk. recv_all calls d size (out ++ chunk))
        (λ d chunk. recv_all-IsFinished calls d size (out ++ chunk)) (recv_loop rounds c size)
        (recv_loop-IsEnd rounds c size)

  pub close_socket-is_shut :
      (s : Socket) (stack : Stack T) (conn : Option (Connection T))
      (looks : List (Connection T → Connection T)) (now : T)
      → (close_socket s stack conn looks now).0.is_shut ≡ true
  unfolding close_socket
  close_socket-is_shut s stack conn looks now = elim (Bool-cases s.is_shut) [
    | inl h ↦ rw h refl
    | inr h ↦ rw h refl
  ]

  -- A socket that was closed raises from its calls and changes no stack; closing it again changes
  -- nothing.
  pub is_shut_refuses :
      (t : Socket)
      → t.is_shut ≡ true
      → (stack : Stack T) (now : T) (random port size : ℕ) (host bytes : Bytes)
        (conn : Option (Connection T)) (looks : List (Connection T → Connection T))
      → (bind t stack port ≡ none)
        × ((listen t stack ≡ none)
            × ((accept t stack ≡ none)
                × ((recvfrom t size ≡ none)
                    × ((connect t stack now random host port ≡ (none, stack))
                        × ((sendto t stack now bytes host port ≡ (stack, none))
                            × (close_socket t stack conn looks now ≡ (t, (stack, conn))))))))
  unfolding bind listen accept recvfrom connect sendto close_socket
  is_shut_refuses t h stack now random port size host bytes conn looks =
      rw h (refl, (refl, (refl, (refl, (refl, (refl, refl))))))
