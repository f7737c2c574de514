-- ===== src/Stack/Api.antt =====
-- What the application asks of the stack (minitcp/stack.py: the TCP and the UDP API), up to where a call
-- waits. `none` where a method raises.
use mini_tcp.Base.{
  ℕ, ◌+◌, Bool, true, false, Option, none, some, List, [], ◌∷◌, ◌++◌, ◌==◌, if◌then◌else◌, Bytes,
  replicate,
}
use mini_tcp.Time.{TimeOps}
use mini_tcp.Udp
use mini_tcp.Udp.{UdpSegment, proto_udp}
use mini_tcp.Connection.{Config, make}
use mini_tcp.Connection.Application.{start_listening, connect}
use mini_tcp.Stack.{FourTuple, Stack, allocate_id, allocate_port, has_listener}
use mini_tcp.Stack.Outbound.{and_then, given, send_ipv4}
use mini_tcp.Stack.Tcp.{own_packet, settle_connection}
use mini_tcp.Stack.Inbound.{has_handler}

unfoldable pub find_queue : ℕ → List (ℕ × List FourTuple) → Option (List FourTuple)
find_queue port [] = none
find_queue port ((p, queue) ∷ m) =
    let rest = find_queue port m in if p == port then some queue else rest

unfoldable pub set_queue :
    ℕ → List FourTuple → List (ℕ × List FourTuple) → List (ℕ × List FourTuple)
set_queue port new [] = (port, new) ∷ []
set_queue port new ((p, queue) ∷ m) =
    let rest = set_queue port new m in if p == port then (p, new) ∷ m else (p, queue) ∷ rest

unfoldable pub remove_port : ℕ → List ℕ → List ℕ
remove_port port [] = []
remove_port port (p ∷ ports) =
    let rest = remove_port port ports in if p == port then rest else p ∷ rest

module _ {T : Type 0} where
  -- One look into the queue of `tcp_accept`: the oldest child, if there is one. `none` is the StackError
  -- of a port that does not listen.
  unfoldable pub tcp_accept : Stack T → ℕ → Option (Stack T × Option FourTuple)
  unfolding find_queue set_queue
  tcp_accept s port = elim (find_queue port s.accept_queues) [
    | none ↦ none
    | some queue ↦ elim queue [
      | [] ↦ some (s, none)
      | child ∷ later ↦
          some (record s { accept_queues = set_queue port later s.accept_queues }, some child)
    ]
  ]

  unfoldable pub udp_bind : Stack T → ℕ → Stack T
  udp_bind s port = record s {
    udp_handlers =
        if has_handler port s.udp_handlers then s.udp_handlers else port ∷ s.udp_handlers;
  }

  unfoldable pub udp_unbind : Stack T → ℕ → Stack T
  unfolding remove_port
  udp_unbind s port = record s { udp_handlers = remove_port port s.udp_handlers }

module _ {T : Type 0} ⦃ops : TimeOps T⦄ where
  -- The defaults of the constructor of a connection.
  unfoldable pub default_config : Stack T → ℕ → Bytes → ℕ → Config T
  default_config s local_port remote_ip remote_port = record {
    local_ip = s.ip;
    local_port = local_port;
    remote_ip = remote_ip;
    remote_port = remote_port;
    mss = 1460;
    receive_capacity = s.receive_capacity;
    send_capacity = 0x10_0000;
    rcv_wscale = 0;
    initial_window = none;
    iss_override = none;
    msl = ops.literal 30 1;
    delayed_ack = false;
    delayed_ack_delay = ops.literal 5 100;
  }

  -- `none` is the StackError of a port that is taken.
  unfoldable pub tcp_listen : Stack T → ℕ → Option (Stack T)
  unfolding default_config
  tcp_listen s port =
      let listener = start_listening (make (default_config s port (replicate 4 0) 0)) in
      if has_listener port s.listeners then none else elim listener [
        | none ↦ none
        | some l ↦ some (record s {
          listeners = s.listeners ++ ((port, l) ∷ []);
          accept_queues = set_queue port [] s.accept_queues;
        })
      ]

  -- `tcp_connect` up to the wait for the handshake.
  unfoldable pub begin_connect : Stack T → T → ℕ → Bytes → ℕ → ℕ → Stack T × Option FourTuple
  unfolding default_config settle_connection
  begin_connect s now random remote_ip remote_port local_port =
      let key : FourTuple = record {
        local_ip = s.ip;
        local_port = local_port;
        remote_ip = remote_ip;
        remote_port = remote_port;
      } in
      given s (connect (make (default_config s local_port remote_ip remote_port)) now random)
        (λ c. and_then (settle_connection s now key false c) (λ s' _. (s', some key)))

  -- A port that is zero is chosen by the stack.
  unfoldable pub choose_port : Stack T → ℕ → Stack T × Option ℕ
  choose_port s local_port = if local_port == 0 then allocate_port s else (s, some local_port)

  unfoldable pub tcp_connect : Stack T → T → ℕ → Bytes → ℕ → ℕ → Stack T × Option FourTuple
  unfolding choose_port begin_connect
  tcp_connect s now random remote_ip remote_port local_port =
      and_then (choose_port s local_port)
        (λ s' port. begin_connect s' now random remote_ip remote_port port)

  unfoldable pub udp_send : Stack T → T → Bytes → Bytes → ℕ → ℕ → Stack T × Option Bool
  unfolding choose_port own_packet
  udp_send s now payload remote_ip remote_port local_port =
      and_then (choose_port s local_port) (λ s' port.
        let segment : UdpSegment = record {
          src_port = port;
          dst_port = remote_port;
          payload = payload;
          checksum = 0;
        } in
        let counted = record s' { stats = record s'.stats { udp_out = s'.stats.udp_out + 1 } } in
        given counted (Udp.to_bytes segment (some s'.ip) (some remote_ip) true) (λ raw.
          let (ready, id) = allocate_id counted in
          send_ipv4 ready now (own_packet ready remote_ip proto_udp raw id)))
