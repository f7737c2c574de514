-- ===== src/Witnesses/Engine.antt =====
-- A connection on concrete calls and segments.
use mini_tcp.Base.{
  ℕ, ◌+◌, ◌≡◌, refl, none, List, [], ◌∷◌, arith, leb, ltb, ◌&&◌, ◌==◌, if◌then◌else◌, is_empty,
}
use mini_tcp.State.{closed, established, is_synchronised}
use mini_tcp.Segment.{TcpSegment, seq_len, is_rst, is_syn, is_fin}
use mini_tcp.Receive
use mini_tcp.Connection.{Connection, make}
use mini_tcp.Connection.Inbound.{acceptable, begin_passive_open, on_segment}
use mini_tcp.Connection.States.{Follows, on_segment-Follows}
use mini_tcp.Connection.Armed.{Armed}
use mini_tcp.Connection.Life.{Call, connects, receives, sends, ticks, closes, life, timer_runs}
use mini_tcp.Send
use mini_tcp.Connection.Guards.{sent, reset_is_final, acceptable_lem}
use mini_tcp.Socket.{Round}
use mini_tcp.Witnesses.{milliseconds, example_config, segment_from_peer}

-- Connect, take the SYN-ACK, send a byte, wait, take its ACK, close.
abbrev one_byte : List (Call ℕ)
one_byte =
    connects 0 0
    ∷ receives (segment_from_peer 7 0 0x12 []) none 10 0
    ∷ sends (65 ∷ []) 20
    ∷ ticks 5000
    ∷ receives (segment_from_peer 8 1 0x10 []) none 5010 0
    ∷ closes 5020
    ∷ []

timer_runs_example :
    Armed (life (make example_config) one_byte)
    × Armed (
        life
          (begin_passive_open (make example_config) (segment_from_peer 7 0 0x02 []) 0 0)
          one_byte)
timer_runs_example = timer_runs example_config (segment_from_peer 7 0 0x02 []) 0 0 one_byte

-- An established connection that expects byte 8 next.
abbrev open_connection : Connection ℕ
open_connection =
    let fresh = make example_config in
    record fresh { state = established; recv_queue = record fresh.recv_queue { nxt = 8 } }

on_segment-Follows_example :
    Follows
      (is_rst (segment_from_peer 8 0 0x11 (65 ∷ [])))
      open_connection.state
      (on_segment open_connection (segment_from_peer 8 0 0x11 (65 ∷ [])) none 10 0).0.state
on_segment-Follows_example =
    on_segment-Follows open_connection (segment_from_peer 8 0 0x11 (65 ∷ [])) none 10 0

reset_is_final_example :
    ((on_segment open_connection (segment_from_peer 8 0 0x04 []) none 10 0).0.state ≡ closed)
    × (sent (on_segment open_connection (segment_from_peer 8 0 0x04 []) none 10 0).0.log
        ≡ sent open_connection.log)
    × ((on_segment open_connection (segment_from_peer 8 0 0x04 []) none 10 0).1 ≡ none)
unfolding is_rst
reset_is_final_example =
    reset_is_final open_connection (segment_from_peer 8 0 0x04 []) none 10 0 refl

-- One byte, one beyond the next that is expected.
abbrev ahead : TcpSegment
ahead = segment_from_peer 9 0 0x10 (65 ∷ [])

acceptable_lem_example : acceptable open_connection ahead ≡ (
    if is_empty ahead.payload && (seq_len ahead == 0)
    then leb 8 9 && ltb 9 (8 + open_connection.recv_queue.capacity)
    else ltb 9 (8 + open_connection.recv_queue.capacity) && ltb 8 (9 + seq_len ahead))
unfolding make Receive.make seq_len is_syn is_fin is_synchronised
acceptable_lem_example =
    acceptable_lem open_connection ahead 0 8 9 refl (omega arith) refl refl (omega arith)
      (omega arith)

-- Two bytes of the stream wait to be sent.
abbrev two_to_send : Send.SendQueue
two_to_send = record { una = 1; nxt = 1; buf = 10 ∷ 11 ∷ []; capacity = 8; bytes_written = 2 }

abbrev sending : Connection ℕ
sending = record open_connection { send_queue = two_to_send }

-- A peer that acknowledges two bytes while `send` waits.
abbrev answers : Connection ℕ → Connection ℕ
answers c = record c { send_queue = (Send.acknowledge c.send_queue 3).0 }

abbrev answered : Round ℕ
answered = record { before = answers; during = λ c. c; now = 40 }
