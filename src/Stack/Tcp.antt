-- ===== src/Stack/Tcp.antt =====
-- The connections of the stack (minitcp/stack.py: `_transmit_segment`, `_enqueue_accept`, `_forget`,
-- `tick`). What a connection does in one step is run first, and the calls
-- it made are then carried out in their order; a ValueError inside such a call leaves the connection as
-- it is after the step. `none` where a method raises.
use mini_tcp.Base.{
  ℕ, ◌+◌, Bool, true, false, Option, none, some, List, [], ◌∷◌, ◌++◌, ◌==◌, if◌then◌else◌, Bytes,
}
use mini_tcp.Time.{TimeOps}
use mini_tcp.Ipv4.{Ipv4Packet}
use mini_tcp.Segment.{TcpSegment}
use mini_tcp.Segment.Codec
use mini_tcp.Segment.Codec.{proto_tcp}
use mini_tcp.Arp.Cache
use mini_tcp.Connection.{Connection, Effect, transmitted, on_closed}
use mini_tcp.Connection.Inbound.{on_segment}
use mini_tcp.Connection.Timers.{on_tick}
use mini_tcp.Stack.{FourTuple, same_tuple, Registered, Stack, allocate_id}
use mini_tcp.Stack.Outbound.{and_then, given, send_ipv4}

module _ {T : Type 0} where
  -- A datagram of the stack's own.
  unfoldable pub own_packet : Stack T → Bytes → ℕ → Bytes → ℕ → Ipv4Packet
  own_packet s dst protocol payload identification = record {
    src = s.ip;
    dst = dst;
    protocol = protocol;
    payload = payload;
    ttl = 64;
    identification = identification;
    flags = 0;
    fragment_offset = 0;
    dscp = 0;
    options = [];
  }

  unfoldable pub find_connection :
      FourTuple → List (FourTuple × Registered T) → Option (Registered T)
  unfolding same_tuple
  find_connection key [] = none
  find_connection key ((k, r) ∷ m) =
      let rest = find_connection key m in if same_tuple k key then some r else rest

  unfoldable pub set_connection :
      FourTuple → Registered T → List (FourTuple × Registered T) → List (FourTuple × Registered T)
  unfolding same_tuple
  set_connection key new [] = (key, new) ∷ []
  set_connection key new ((k, r) ∷ m) =
      let rest = set_connection key new m in
      if same_tuple k key then (k, new) ∷ m else (k, r) ∷ rest

  unfoldable pub remove_connection :
      FourTuple → List (FourTuple × Registered T) → List (FourTuple × Registered T)
  unfolding same_tuple
  remove_connection key [] = []
  remove_connection key ((k, r) ∷ m) =
      let rest = remove_connection key m in if same_tuple k key then m else (k, r) ∷ rest

  unfoldable pub forget : Stack T → FourTuple → Stack T
  unfolding remove_connection
  forget s key = record s { connections = remove_connection key s.connections }

  unfoldable pub find_listener : ℕ → List (ℕ × Connection T) → Option (Connection T)
  find_listener port [] = none
  find_listener port ((p, c) ∷ m) =
      let rest = find_listener port m in if p == port then some c else rest

  unfoldable pub set_listener : ℕ → Connection T → List (ℕ × Connection T) → List (ℕ × Connection T)
  set_listener port new [] = (port, new) ∷ []
  set_listener port new ((p, c) ∷ m) =
      let rest = set_listener port new m in if p == port then (p, new) ∷ m else (p, c) ∷ rest

  -- A connection whose calls are carried out.
  abbrev pub quiet : Connection T → Connection T
  quiet c = record c { log = [] }

abbrev append_child : FourTuple → ℕ → List (ℕ × List FourTuple) → List (ℕ × List FourTuple)
append_child key port [] = []
append_child key port ((p, queue) ∷ m) =
    let rest = append_child key port m in
    if p == port then (p, queue ++ (key ∷ [])) ∷ m else (p, queue) ∷ rest

module _ {T : Type 0} where
  unfoldable pub child_key : Stack T → Connection T → FourTuple
  child_key s child = record {
    local_ip = s.ip;
    local_port = child.local_port;
    remote_ip = child.remote_ip;
    remote_port = child.remote_port;
  }

  unfoldable pub enqueue_accept : Stack T → ℕ → Connection T → Stack T
  unfolding child_key set_connection
  enqueue_accept s port child =
      let key = child_key s child in
      record s {
        connections =
            set_connection key (record { connection = quiet child; is_child = true }) s.connections;
        accept_queues = append_child key port s.accept_queues;
      }

module _ {T : Type 0} ⦃ops : TimeOps T⦄ where
  unfoldable pub transmit_segment : Stack T → T → TcpSegment → Bytes → Stack T × Option Bool
  unfolding own_packet
  transmit_segment s now segment remote_ip =
      let counted = record s { stats = record s.stats { tcp_out = s.stats.tcp_out + 1 } } in
      given counted (Codec.to_bytes segment (some s.ip) (some remote_ip) true) (λ raw.
        let (ready, id) = allocate_id counted in
        send_ipv4 ready now (own_packet ready remote_ip proto_tcp raw id))

  -- The call that a connection made; the other hooks only wake a waiting caller.
  unfoldable pub carry_out : Stack T → T → FourTuple → Bool → Effect → Stack T × Option (Unit {0})
  unfolding transmit_segment forget
  carry_out s now key forgets (transmitted segment remote_ip) =
      and_then (transmit_segment s now segment remote_ip) (λ s' _. (s', some tt))
  carry_out s now key forgets on_closed = (if forgets then forget s key else s, some tt)
  carry_out s now key forgets _ = (s, some tt)

  -- A log has its newest call first.
  unfoldable pub replay : Stack T → T → FourTuple → Bool → List Effect → Stack T × Option (Unit {0})
  unfolding carry_out
  replay s now key forgets [] = (s, some tt)
  replay s now key forgets (call ∷ older) =
      and_then (replay s now key forgets older) (λ s' _. carry_out s' now key forgets call)

  -- After a step of a connection in the table.
  unfoldable pub settle_connection :
      Stack T → T → FourTuple → Bool → Connection T → Stack T × Option (Unit {0})
  unfolding set_connection replay
  settle_connection s now key is_child c =
      let entry : Registered T = record { connection = quiet c; is_child = is_child } in
      replay (record s { connections = set_connection key entry s.connections }) now key is_child
        c.log

  unfoldable pub deliver :
      Stack T → T → ℕ → FourTuple → Registered T → TcpSegment → Bytes → Stack T × Option (Unit {0})
  unfolding settle_connection
  deliver s now random key r segment src =
      settle_connection s now key r.is_child
        (on_segment (quiet r.connection) segment (some src) now random).0

  -- The child of a listener has sent its answer before it is enqueued.
  unfoldable pub accept_child :
      Stack T → T → ℕ → Option (Connection T) → Stack T × Option (Unit {0})
  unfolding replay enqueue_accept child_key
  accept_child s now port none = (s, some tt)
  accept_child s now port (some child) =
      and_then (replay s now (child_key s child) false child.log)
        (λ s' _. (enqueue_accept s' port child, some tt))

  unfoldable pub deliver_to_listener :
      Stack T → T → ℕ → FourTuple → Connection T → TcpSegment → Bytes → Stack T × Option (Unit {0})
  unfolding set_listener replay accept_child
  deliver_to_listener s now random key listener segment src =
      let (c, child) = on_segment (quiet listener) segment (some src) now random in
      let port = segment.dst_port in
      and_then
        (replay (record s { listeners = set_listener port (quiet c) s.listeners }) now key false
          c.log)
        (λ s' _. accept_child s' now port child)

  -- One connection's timers; an error is counted, and does not stop the others.
  unfoldable pub tick_one : Stack T → T → FourTuple → Registered T → Stack T
  unfolding settle_connection
  tick_one s now key r =
      let (s', out) = settle_connection s now key r.is_child (on_tick (quiet r.connection) now) in
      elim out [
        | none ↦ record s' { stats = record s'.stats { errors = s'.stats.errors + 1 } }
        | some _ ↦ s'
      ]

  unfoldable pub tick_all : Stack T → T → List (FourTuple × Registered T) → Stack T
  unfolding tick_one
  tick_all s now [] = s
  tick_all s now ((key, r) ∷ m) = tick_all (tick_one s now key r) now m

  unfoldable pub tick : Stack T → T → Stack T
  unfolding tick_all
  tick s now =
      let ticked = tick_all s now s.connections in
      record ticked { arp_cache = (Cache.expire ticked.arp_cache now).0 }
