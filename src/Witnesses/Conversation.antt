-- ===== src/Witnesses/Conversation.antt =====
-- Two applications on a network that repeats and reorders.
use mini_tcp.Base.{ℕ, ◌≡◌, none, some, List, [], ◌∷◌, arith, length, take}
use mini_tcp.Connection.{Config}
use mini_tcp.Delivery.System.{
  System, Turn, at_left, at_right, delivers, ticks, writes, reads, aborts, converse,
}
use mini_tcp.Delivery.EndToEnd.{delivers_in_order}
use mini_tcp.Witnesses.{milliseconds, example_config}

abbrev listener_config : Config ℕ
listener_config = record example_config {
  local_ip = 10 ∷ 0 ∷ 0 ∷ 2 ∷ [];
  local_port = 80;
  remote_port = 0;
  iss_override = some 7;
}

-- The handshake; then two writes, of which the second arrives first and again, and a reply.
abbrev turns : List (Turn ℕ)
turns =
    at_left (delivers 0 none 10 0)
    ∷ at_right (delivers 0 none 20 0)
    ∷ at_left (writes (65 ∷ 66 ∷ []) 30)
    ∷ at_left (writes (67 ∷ []) 40)
    ∷ at_right (delivers 0 none 50 0)
    ∷ at_right (delivers 0 none 60 0)
    ∷ at_right (delivers 1 none 70 0)
    ∷ at_right (reads 100 80)
    ∷ at_right (writes (68 ∷ []) 90)
    ∷ at_left (delivers 0 none 100 0)
    ∷ at_left (ticks 110)
    ∷ at_left (reads 100 120)
    ∷ at_right (aborts 130)
    ∷ []

delivers_in_order_example :
    (s : System ℕ) × (converse example_config listener_config 0 0 0 turns ≡ some s)
    × (s.right.read ≡ take (length s.right.read) s.left.written)
    × (s.left.read ≡ take (length s.left.read) s.right.written)
delivers_in_order_example =
    delivers_in_order example_config listener_config 0 0 0 turns (omega arith) (omega arith)
      (omega arith) (omega arith)
