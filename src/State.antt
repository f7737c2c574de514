-- ===== src/State.antt =====
-- The TCP states (minitcp/net/tcp/state.py).
use mini_tcp.Base.{Bool, true, false}

pub data TcpState : Type 0 where
  closed listen syn_sent syn_received established : TcpState
  fin_wait_1 fin_wait_2 close_wait closing last_ack time_wait : TcpState

unfoldable pub is_closed : TcpState → Bool
is_closed closed = true
is_closed _ = false

unfoldable pub is_synchronised : TcpState → Bool
is_synchronised closed = false
is_synchronised listen = false
is_synchronised syn_sent = false
is_synchronised syn_received = false
is_synchronised _ = true
