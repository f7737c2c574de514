-- ===== src/Witnesses.antt =====
-- Concrete runs of the engine: a clock, a configuration, segments, and what the theorems say of them.
mod Queues
mod Control
mod Engine
mod Formats
mod Packets
mod Fragments
mod Network
mod Conversation
mod Cable
use mini_tcp.Base.{
  ℕ, ◌+◌, ◌-◌, ◌*◌, ◌/◌, ◌≤◌, ◌≡◌, refl, Bool, true, false, Option, none, some, List, [], ◌∷◌,
  arith, leb, max, Bytes,
}
use mini_tcp.Time.{TimeOps, TimeLaws}
use mini_tcp.Segment.{TcpSegment, no_options}
use mini_tcp.Connection.{Config, Connection}

-- Times in milliseconds.
instance abbrev pub milliseconds : TimeOps ℕ
milliseconds = record {
  literal = λ n d. n * 1000 / d;
  plus = λ a b. a + b;
  minus = λ a b. a - b;
  times = λ a b. a * b / 1000;
  divide = λ a b. a * 1000 / b;
  absolute = λ a. a;
  leq = leb;
}

pub milliseconds_laws : TimeLaws ℕ milliseconds
milliseconds_laws = record {
  leq_refl = λ a. ground arith;
  leq_total = λ a b h. ground arith;
  doubling = λ a h. ground arith;
  leq_trans = λ a b c h k. ground arith;
}

-- Byte `n` of the stream that the examples send.
abbrev pub stream : ℕ → ℕ
stream n = n + 10

abbrev pub example_config : Config ℕ
example_config = record {
  local_ip = 10 ∷ 0 ∷ 0 ∷ 1 ∷ [];
  local_port = 1000;
  remote_ip = 10 ∷ 0 ∷ 0 ∷ 2 ∷ [];
  remote_port = 80;
  mss = 1460;
  receive_capacity = 65536;
  send_capacity = 65536;
  rcv_wscale = 0;
  initial_window = none;
  iss_override = some 4294967295;
  msl = 30000;
  delayed_ack = false;
  delayed_ack_delay = 40;
}

-- A segment from the peer.
abbrev pub segment_from_peer : ℕ → ℕ → ℕ → Bytes → TcpSegment
segment_from_peer seq ack flags payload = record {
  src_port = 80;
  dst_port = 1000;
  seq = seq;
  ack = ack;
  flags = flags;
  window = 1000;
  payload = payload;
  options = no_options;
  urgent_pointer = 0;
  checksum = 0;
}
