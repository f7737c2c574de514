-- ===== src/Delivery/System.antt =====
-- Two applications that talk over two connections (minitcp/net/tcp/connection.py) and a network that
-- loses, repeats, delays and reorders segments, but alters and invents none: what arrives is
-- any of the segments that the other end has handed to `transmit` so far.
use mini_tcp.Base.{ℕ, ◌+◌, Option, none, some, List, [], ◌∷◌, ◌++◌, Bytes, length, get_elem?}
use mini_tcp.State.{listen}
use mini_tcp.Time.{TimeOps}
use mini_tcp.Segment.{TcpSegment}
use mini_tcp.Connection.{Connection, Config, Effect, make}
use mini_tcp.Connection.Inbound.{on_segment, handle_segment_in_listen}
use mini_tcp.Connection.Timers.{on_tick}
use mini_tcp.Connection.Application.{open_actively, send, recv, abort}
use mini_tcp.Connection.Guards.{sent}
use mini_tcp.Delivery.Using.{accept_bytes}

-- A connection, with all that its application has handed to `send` successfully, and all that it
-- has got from `recv`.
pub record Endpoint (T : Type 0) : Type 0 where
  pub conn : Connection T
  pub written : Bytes
  pub read : Bytes

-- What may happen to an endpoint: the network delivers the segment of the given place among those
-- that the other end has sent, time passes, or the application makes a call.
pub data Event (T : Type 0) : Type 0 where
  delivers : ℕ → Option Bytes → T → ℕ → Event T
  ticks : T → Event T
  writes : Bytes → T → Event T
  reads : ℕ → T → Event T
  aborts : T → Event T

pub record System (T : Type 0) : Type 0 where
  pub left : Endpoint T
  pub right : Endpoint T

pub data Turn (T : Type 0) : Type 0 where
  at_left at_right : Event T → Turn T

module _ {T : Type 0} ⦃ops : TimeOps T⦄ where
  -- A segment arrives, if there is one.
  unfoldable pub take_in : Option TcpSegment → Endpoint T → Option Bytes → T → ℕ → Endpoint T
  take_in none e src_ip now random = e
  take_in (some seg) e src_ip now random = record e {
    conn = (on_segment e.conn seg src_ip now random).0;
  }

  -- `log` is the other end's.
  unfoldable pub act : List Effect → Endpoint T → Event T → Endpoint T
  unfolding take_in
  act log e (delivers i src_ip now random) = take_in (get_elem? (sent log) i) e src_ip now random
  act log e (ticks now) = record e { conn = on_tick e.conn now }
  act log e (writes bytes now) =
      let (conn, accepted) = accept_bytes e.conn bytes (send e.conn bytes now) in
      record e { conn = conn; written = e.written ++ accepted }
  act log e (reads max_bytes now) =
      let (conn, chunk) = recv e.conn max_bytes now in
      record e { conn = conn; read = e.read ++ chunk }
  act log e (aborts now) = record e { conn = abort e.conn now }

  unfoldable pub step : System T → Turn T → System T
  step s (at_left e) = record s { left = act s.right.conn.log s.left e }
  step s (at_right e) = record s { right = act s.left.conn.log s.right e }

  unfoldable pub run : System T → List (Turn T) → System T
  run s [] = s
  run s (turn ∷ turns) = run (step s turn) turns

  abbrev pub endpoint : Connection T → Endpoint T
  endpoint c = record { conn = c; written = []; read = [] }

  -- The child of a listener, if it makes one for the segment.
  unfoldable pub answered_by :
      Connection T → Config T → Option TcpSegment → T → ℕ → Option (System T)
  answered_by c listener none now random = none
  answered_by c listener (some syn) now random =
      elim (handle_segment_in_listen (record (make listener) { state = listen }) syn
        (some c.local_ip) now random) [
          | none ↦ none
          | some child ↦ some (record { left = endpoint c; right = endpoint child })
        ]

  -- The left end connects, and its SYN reaches a listener, whose child is the right end.
  unfoldable pub start : Config T → Config T → T → ℕ → ℕ → Option (System T)
  start config listener now random random' =
      let c = open_actively (make config) now random in
      answered_by c listener (get_elem? (sent c.log) 0) now random'

  -- The whole conversation.
  unfoldable pub converse : Config T → Config T → T → ℕ → ℕ → List (Turn T) → Option (System T)
  converse config listener now random random' turns =
      elim (start config listener now random random') [ none ↦ none | some s ↦ some (run s turns) ]

module _ {T : Type 0} where
  -- The number of bytes that each application tries to send.
  abbrev pub offered : Event T → ℕ
  offered (writes bytes now) = length bytes
  offered _ = 0

  abbrev pub offered_left : List (Turn T) → ℕ
  offered_left [] = 0
  offered_left (at_left e ∷ turns) = offered e + offered_left turns
  offered_left (at_right e ∷ turns) = offered_left turns

  abbrev pub offered_right : List (Turn T) → ℕ
  offered_right [] = 0
  offered_right (at_left e ∷ turns) = offered_right turns
  offered_right (at_right e ∷ turns) = offered e + offered_right turns
