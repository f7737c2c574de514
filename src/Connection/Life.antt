-- ===== src/Connection/Life.antt =====
-- The whole life of a connection: any series of calls of TCPConnection's interface
-- (minitcp/net/tcp/connection.py).
use mini_tcp.Base.{ℕ, refl, Option, none, some, List, [], ◌∷◌, arith, Bytes}
use mini_tcp.Time.{TimeOps}
use mini_tcp.Segment.{TcpSegment}
use mini_tcp.Send
use mini_tcp.Receive
use mini_tcp.Retransmit
use mini_tcp.Connection.{Connection, Config, make}
use mini_tcp.Connection.Inbound.{begin_passive_open, arrived, on_segment}
use mini_tcp.Connection.Timers.{on_tick}
use mini_tcp.Connection.Application.{start_listening, connect, send, recv, abort, close}
use mini_tcp.Connection.Armed.{Armed, send_ack-Armed, flush-Armed}
use mini_tcp.Connection.Running.{
  on_segment_in-Armed, open_actively-Armed, abort-Armed, close-Armed, on_tick-Armed, child-Armed,
}

-- A call of the interface, with the time.
pub data Call (T : Type 0) : Type 0 where
  listens : Call T
  connects : T → ℕ → Call T
  receives : TcpSegment → Option Bytes → T → ℕ → Call T
  ticks : T → Call T
  sends : Bytes → T → Call T
  reads : ℕ → T → Call T
  closes aborts : T → Call T

-- A call that raises TCPStateError changes nothing.
abbrev pub or_unchanged {ℓ} : {A : Type ℓ} → A → Option A → A
or_unchanged c none = c
or_unchanged c (some d) = d

-- The connection of `send`'s result.
abbrev pub without_count {ℓ} : {A : Type ℓ} → Option (A × ℕ) → Option A
without_count none = none
without_count (some r) = some r.0

module _ {T : Type 0} ⦃ops : TimeOps T⦄ where
  pub after : Connection T → Call T → Connection T
  after c listens = or_unchanged c (start_listening c)
  after c (connects now random) = or_unchanged c (connect c now random)
  after c (receives seg src_ip now random) = (on_segment c seg src_ip now random).0
  after c (ticks now) = on_tick c now
  after c (sends bytes now) = or_unchanged c (without_count (send c bytes now))
  after c (reads max_bytes now) = (recv c max_bytes now).0
  after c (closes now) = close c now
  after c (aborts now) = abort c now

  pub life : Connection T → List (Call T) → Connection T
  life c [] = c
  life c (call ∷ calls) = life (after c call) calls

  after-Armed : (c : Connection T) (call : Call T) → Armed c → Armed (after c call)
  unfolding after start_listening connect on_segment arrived send recv
  after-Armed c listens h = ground arith
  after-Armed c (connects now random) h = ground (arith, open_actively-Armed c now random h)
  after-Armed c (receives seg src_ip now random) h =
      on_segment_in-Armed c.state (arrived c now) seg src_ip now random h
  after-Armed c (ticks now) h = on_tick-Armed c now h
  after-Armed c (sends bytes now) h =
      let stored = record c { send_queue = (Send.write c.send_queue bytes).0 } in
      ground (arith, flush-Armed stored now h)
  after-Armed c (reads max_bytes now) h =
      let taken = record c { recv_queue = (Receive.read c.recv_queue max_bytes).0 } in
      ground (arith, send_ack-Armed taken now h)
  after-Armed c (closes now) h = close-Armed c now h
  after-Armed c (aborts now) h = abort-Armed c now

  -- Whatever calls are made of a new connection, in whatever order, the retransmission timer is set
  -- exactly while a segment waits for its acknowledgement; and so it is for the connection that a
  -- listener makes for a SYN.
  pub timer_runs :
      (config : Config T) (seg : TcpSegment) (now : T) (random : ℕ) (calls : List (Call T))
      → Armed (life (make config) calls)
        × Armed (life (begin_passive_open (make config) seg now random) calls)
  unfolding make Retransmit.make_queue life
  timer_runs config seg now random calls =
      (goes calls (make config) refl, goes calls _ (child-Armed seg now random config))
    where
      goes : (calls : List (Call T)) (c : Connection T) → Armed c → Armed (life c calls)
      goes [] c h = h
      goes (call ∷ calls) c h = goes calls (after c call) (after-Armed c call h)
