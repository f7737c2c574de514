-- ===== src/Witnesses/Queues.antt =====
-- The receive, reorder, send and retransmission queues on concrete inputs.
use mini_tcp.Base.{
  ℕ, ◌+◌, ◌-◌, ◌≡◌, refl, false, leb, if◌then◌else◌, List, [], ◌∷◌, arith, length, min, Bytes,
}
use mini_tcp.Base.Slices.{slice}
use mini_tcp.Seqno.Order.{wire}
use mini_tcp.Receive
use mini_tcp.Receive.Reads
use mini_tcp.Receive.Reads.{arrives, reads, reads_in_order}
use mini_tcp.Receive.Stream.{Advances, make-Tracks, insert-Advances}
use mini_tcp.Reorder
use mini_tcp.Reorder.Invariant
use mini_tcp.Send
use mini_tcp.Send.Laws.{Holds, acknowledge-Holds}
use mini_tcp.Retransmit
use mini_tcp.Retransmit.{OutstandingSegment, RetransmitQueue, bytes_outstanding}
use mini_tcp.Retransmit.Queue
use mini_tcp.Retransmit.Queue.{Acknowledged, acknowledge-Acknowledged, capacity_kept}
use mini_tcp.Witnesses.{stream}

abbrev late_then_early : List Reads.Call
late_then_early =
    arrives 3 (13 ∷ 14 ∷ 15 ∷ []) ∷ reads 10 ∷ arrives 0 (10 ∷ 11 ∷ 12 ∷ 13 ∷ []) ∷ reads 5 ∷ []

reads_in_order_example :
    (Reads.run (Receive.make 4294967295 100) late_then_early).1
    ≡ slice stream 0 (length (Reads.run (Receive.make 4294967295 100) late_then_early).1)
reads_in_order_example =
    reads_in_order stream 4294967295 6 100 late_then_early (omega arith)
      ((3, refl, refl, omega arith), ((0, refl, refl, omega arith), tt))

insert-Advances_example :
    Advances stream 4294967296 6
      (omega arith)
      0
      0
      (if leb 0 0 then min (Receive.window (Receive.make 4294967295 100)) (0 + 2 - 0) else 0)
      (Receive.insert (Receive.make 4294967295 100) (wire 4294967296 0) (10 ∷ 11 ∷ []))
insert-Advances_example =
    insert-Advances stream 4294967296 6 (omega arith) 0 (Receive.make 4294967295 100) 0
      (10 ∷ 11 ∷ []) (make-Tracks stream 4294967295 6 100 (omega arith)) refl (omega arith)
      (omega arith) (omega arith)

-- A reorder queue that holds two payloads.
abbrev two_parked : Reorder.ReorderQueue
two_parked =
    Invariant.step (Invariant.step (Reorder.make 10) (Invariant.inserts 5 (1 ∷ 2 ∷ [])))
      (Invariant.inserts 9 (3 ∷ []))

two_parked-IsValid : Invariant.IsValid two_parked
two_parked-IsValid =
    Invariant.step-IsValid _ (Invariant.inserts 9 (3 ∷ []))
      (Invariant.step-IsValid _ (Invariant.inserts 5 (1 ∷ 2 ∷ [])) (Invariant.make-IsValid 10))

step-IsValid_example : Invariant.IsValid (Invariant.step two_parked (Invariant.discards 7))
step-IsValid_example = Invariant.step-IsValid two_parked (Invariant.discards 7) two_parked-IsValid

-- Bytes 3 to 7 of the stream are held, of which the first two are in flight; numbers wrap at byte 4.
abbrev example_send : Send.SendQueue
example_send = record {
  una = 4294967295;
  nxt = 1;
  buf = 13 ∷ 14 ∷ 15 ∷ 16 ∷ 17 ∷ [];
  capacity = 8;
  bytes_written = 8;
}

example_send-Holds : Holds stream 4294967292 3 5 example_send
example_send-Holds = record {
  at_una = refl;
  at_nxt = refl;
  sent = omega arith;
  held = omega arith;
  content = refl;
  fits = omega arith;
  narrow = omega arith;
}

acknowledge-Holds_example :
    Holds stream 4294967292 4 5 (Send.acknowledge example_send (wire 4294967292 4)).0
    × (((Send.acknowledge example_send (wire 4294967292 4)).0.buf ≡ 14 ∷ 15 ∷ 16 ∷ 17 ∷ [])
        × ((Send.acknowledge example_send (wire 4294967292 4)).1 ≡ 1))
acknowledge-Holds_example =
    acknowledge-Holds stream 4294967292 example_send 4 example_send-Holds (omega arith)
      (omega arith)

abbrev outstanding : ℕ → Bytes → OutstandingSegment ℕ
outstanding seq payload = record {
  seq = seq;
  flags = 16;
  payload = payload;
  sent_at = 0;
  retransmits = 0;
  rtt_sampled = false;
}

-- Two segments whose numbers wrap.
abbrev example_queue : RetransmitQueue ℕ
example_queue = record {
  segments = outstanding 4294967294 (1 ∷ 2 ∷ 3 ∷ []) ∷ outstanding 1 (4 ∷ 5 ∷ []) ∷ [];
  capacity = 5;
}

tiles : Queue.Tiles 4294967294 0 5 example_queue.segments
unfolding Retransmit.seq_len
tiles = (refl, (refl, refl))

within : Queue.IsValid example_queue
unfolding Queue.IsValid bytes_outstanding Retransmit.total_bytes
within = omega arith

acknowledge-Acknowledged_example : Acknowledged 4294967294 0 5 4 example_queue.segments (
  (Retransmit.acknowledge example_queue (wire 4294967294 4)).1,
  (Retransmit.acknowledge example_queue (wire 4294967294 4)).0.segments,
)
acknowledge-Acknowledged_example =
    acknowledge-Acknowledged 4294967294 0 5 4 example_queue tiles (omega arith) (omega arith)
      (omega arith)
