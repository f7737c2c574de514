-- ===== src/Socket.antt =====
-- Sockets (minitcp/socket.py, `socket`): their state, the guards of their calls, and the loops of `send`
-- and `recv` around a connection. What other threads do to the connection while a call waits is an
-- argument, as is the time. The host of an address is given as four bytes.
pub mod Calls
pub mod Feeding
pub mod Loops
use mini_tcp.Base.{
  ℕ, ◌+◌, Bool, true, false, not, ◌&&◌, ◌||◌, Option, none, some, List, [], ◌∷◌, ◌++◌, ltb, leb,
  ◌==◌, if◌then◌else◌, Bytes, length, take, drop, is_empty,
}
use mini_tcp.State.{TcpState, is_closed}
use mini_tcp.Time.{TimeOps}
use mini_tcp.Connection.{Connection}
use mini_tcp.Connection.Application.{send, recv, close, peer_closed}
use mini_tcp.Stack.{Stack, FourTuple}
use mini_tcp.Stack.Api.{udp_bind, tcp_listen, tcp_accept, tcp_connect, udp_send}
use mini_tcp.Segment.{is_some}

pub data Kind : Type 0 where
  stream datagram : Kind

-- A connection is named by its key in the stack's table.
pub record Socket : Type 0 where
  pub kind : Kind
  pub bound_port : Option ℕ
  pub conn : Option FourTuple
  pub listening : Bool
  pub is_shut : Bool
  pub peer : Option (Bytes × ℕ)
  pub udp_queue : List (Bytes × (Bytes × ℕ))

abbrev pub af_inet : ℕ
af_inet = 2

abbrev pub sock_stream : ℕ
sock_stream = 1

abbrev pub sock_dgram : ℕ
sock_dgram = 2

abbrev pub shut_wr : ℕ
shut_wr = 1

abbrev pub shut_rdwr : ℕ
shut_rdwr = 2

unfoldable pub fresh : Kind → Socket
fresh kind = record {
  kind = kind;
  bound_port = none;
  conn = none;
  listening = false;
  is_shut = false;
  peer = none;
  udp_queue = [];
}

-- The constructor; `none` is a ValueError.
unfoldable pub init : ℕ → ℕ → Option Socket
unfolding fresh
init family type =
    if not (family == af_inet)
    then none
    else if type == sock_stream
    then some (fresh stream)
    else if type == sock_dgram
    then some (fresh datagram)
    else none

-- `_bound_port or 0`
abbrev pub port_or_zero : Socket → ℕ
port_or_zero s = elim s.bound_port [ none ↦ 0 | some port ↦ port ]

-- A datagram arrives.
unfoldable pub on_udp : Socket → Bytes → Bytes → ℕ → Socket
on_udp s payload src_ip src_port = record s {
  udp_queue = s.udp_queue ++ (payload, (src_ip, src_port)) ∷ [];
}

-- One look of `recvfrom` into the queue: the oldest datagram, if there is one, cut to the size. The
-- outer `none` is an OSError.
unfoldable pub recvfrom : Socket → ℕ → Option (Socket × Option (Bytes × (Bytes × ℕ)))
recvfrom s bufsize = if s.is_shut then none else elim s.kind [
  | stream ↦ none
  | datagram ↦ elim s.udp_queue [
    | [] ↦ some (s, none)
    | d ∷ later ↦ some (record s { udp_queue = later }, some (take bufsize d.0, d.1))
  ]
]

-- The socket for a child.
unfoldable pub accepted : Socket → FourTuple → Socket
accepted s child = record (fresh s.kind) { conn = some child; bound_port = some child.local_port }

-- What `send` on a stream comes to: it returns a count, it raises, or it still waits.
pub data Sending (T : Type 0) : Type 0 where
  returned waits : Connection T → ℕ → Sending T
  raised : Sending T

-- A round of the loop of `send`: what the other threads do before it looks whether the connection is
-- closed, what they do while it sleeps, and the time after that.
pub record Round (T : Type 0) : Type 0 where
  pub before : Connection T → Connection T
  pub during : Connection T → Connection T
  pub now : T

-- What `recv` on a stream comes to.
pub data Receiving (T : Type 0) : Type 0 where
  got : Connection T → Bytes → Receiving T
  still_waits : Connection T → Receiving T

module _ {T : Type 0} ⦃ops : TimeOps T⦄ where
  -- `none` where a call raises.
  unfoldable pub bind : Socket → Stack T → ℕ → Option (Socket × Stack T)
  bind s stack port =
      if s.is_shut
      then none
      else if not (leb port 65535)
      then none
      else some (
        record s { bound_port = some port },
        elim s.kind [ stream ↦ stack | datagram ↦ udp_bind stack port ],
      )

  unfoldable pub listen : Socket → Stack T → Option (Socket × Stack T)
  listen s stack = if s.is_shut then none else elim s.kind [
    | datagram ↦ none
    | stream ↦ elim s.bound_port [
      | none ↦ none
      | some port ↦ elim (tcp_listen stack port) [
        | none ↦ none
        | some stack' ↦ some (record s { listening = true }, stack')
      ]
    ]
  ]

  -- One look of `accept` into the accept queue: the child's socket and address, if there is one.
  unfoldable pub accept : Socket → Stack T → Option (Stack T × Option (Socket × (Bytes × ℕ)))
  unfolding accepted
  accept s stack =
      if s.is_shut
      then none
      else if not s.listening
      then none
      else elim (tcp_accept stack (port_or_zero s)) [
        | none ↦ none
        | some r ↦ some (
          r.0,
          elim r.1 [
            | none ↦ none
            | some child ↦ some (accepted s child, (child.remote_ip, child.remote_port))
          ],
        )
      ]

  -- `connect` up to the wait for the handshake.
  unfoldable pub connect : Socket → Stack T → T → ℕ → Bytes → ℕ → Option Socket × Stack T
  connect s stack now random host port =
      let r = tcp_connect stack now random host port (port_or_zero s) in
      if s.is_shut then (none, stack) else elim s.kind [
        | datagram ↦ (
          some (record s { peer = some (host, port); bound_port = some (port_or_zero s) }),
          stack,
        )
        | stream ↦ elim r.1 [
          | none ↦ (none, r.0)
          | some key ↦ (some (record s { conn = some key; bound_port = some key.local_port }), r.0)
        ]
      ]

  unfoldable pub sendto : Socket → Stack T → T → Bytes → Bytes → ℕ → Stack T × Option ℕ
  sendto s stack now bytes host port =
      let r = udp_send stack now bytes host port (port_or_zero s) in
      if s.is_shut then (stack, none) else elim s.kind [
        | stream ↦ (stack, none)
        | datagram ↦ elim r.1 [
          | none ↦ (r.0, none)
          | some ok ↦ (r.0, some (if ok then length bytes else 0))
        ]
      ]

  -- Half-close: what becomes of the connection.
  unfoldable pub shutdown : Connection T → ℕ → T → Connection T
  shutdown c how now = if (how == shut_wr) || (how == shut_rdwr) then close c now else c

  -- The loop of `send`. Where no round is left, it waits.
  unfoldable pub send_loop : List (Round T) → Connection T → Bytes → ℕ → Sending T
  send_loop [] c bytes written =
      if not (ltb written (length bytes))
      then returned c written
      else if is_closed c.state
      then returned c written
      else waits c written
  send_loop (round ∷ rounds) c bytes written =
      let seen = round.before c in
      let result = send (round.during seen) (drop written bytes) round.now in
      if not (ltb written (length bytes))
      then returned c written
      else if is_closed seen.state
      then returned seen written
      else elim result [ none ↦ raised | some r ↦ send_loop rounds r.0 bytes (written + r.1) ]

  -- `send` on a connected stream.
  unfoldable pub send_stream : List (Round T) → Connection T → Bytes → T → Sending T
  unfolding send_loop
  send_stream rounds c bytes now =
      if is_empty bytes
      then returned c 0
      else elim (send c bytes now) [ none ↦ raised | some r ↦ send_loop rounds r.0 bytes r.1 ]

  -- The loop of `recv` on a stream, for so many rounds; a time out is the end of the rounds.
  unfoldable pub recv_loop :
      List (T × (Connection T → Connection T)) → Connection T → ℕ → Receiving T
  recv_loop [] c bufsize = still_waits c
  recv_loop ((now, others) ∷ rounds) c bufsize =
      let (d, bytes) = recv c bufsize now in
      let rest = recv_loop rounds (others d) bufsize in
      if not (is_empty bytes)
      then got d bytes
      else if is_closed d.state || peer_closed d.state
      then got d []
      else rest
