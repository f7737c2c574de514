-- ===== src/Connection.antt =====
-- The state of one TCP connection (minitcp/net/tcp/connection.py, `TCPConnection`). Times are a
-- parameter (Time.antt). The calls of `transmit` and of the hooks are recorded in `log`, newest
-- first; a hook that calls back into the connection is not modelled.
pub mod Outbound
pub mod Ack
pub mod Inbound
pub mod Timers
pub mod Application
pub mod Frame
pub mod States
pub mod Armed
pub mod Running
pub mod Life
pub mod Guards
pub mod Flushing
use mini_tcp.Base.{ℕ, ◌%◌, Bool, true, false, Option, none, some, List, [], Bytes}
use mini_tcp.Seqno.{seq_space}
use mini_tcp.State.{TcpState, closed}
use mini_tcp.Time.{TimeOps}
use mini_tcp.Segment.{TcpSegment}
use mini_tcp.Send
use mini_tcp.Send.{SendQueue}
use mini_tcp.Receive
use mini_tcp.Receive.{ReceiveQueue}
use mini_tcp.Congestion
use mini_tcp.Congestion.{RenoCongestion}
use mini_tcp.Retransmit
use mini_tcp.Retransmit.{RtoEstimator, RetransmitQueue}

abbrev pub default_window : ℕ
default_window = 65535

abbrev pub max_retransmits : ℕ
max_retransmits = 15

-- What the constructor is given and nothing changes.
pub record Config (T : Type 0) : Type 0 where
  pub local_ip : Bytes
  pub local_port : ℕ
  pub remote_ip : Bytes
  pub remote_port : ℕ
  pub mss : ℕ
  pub receive_capacity : ℕ
  pub send_capacity : ℕ
  pub rcv_wscale : ℕ
  pub initial_window : Option ℕ
  pub iss_override : Option ℕ
  pub msl : T
  pub delayed_ack : Bool
  pub delayed_ack_delay : T

-- A call that the connection makes: of `transmit`, with the address, or of a hook.
pub data Effect : Type 0 where
  transmitted : TcpSegment → Bytes → Effect
  on_established on_data on_closed on_reset : Effect

pub record Connection (T : Type 0) : Type 0 where
  pub config : Config T
  pub open config use *
  pub state : TcpState
  pub iss : ℕ
  pub irs : ℕ
  pub peer_mss : ℕ
  pub snd_wscale : ℕ
  pub peer_window : ℕ
  pub send_queue : SendQueue
  pub recv_queue : ReceiveQueue
  pub reno : RenoCongestion
  pub rto : RtoEstimator T
  pub retx_queue : RetransmitQueue T
  pub retransmit_at : Option T
  pub delayed_ack_at : Option T
  pub time_wait_until : Option T
  pub fin_seq : Option ℕ
  pub syn_sent_at : Option T
  pub last_activity : T
  pub persist_at : Option T
  pub persist_delay : T
  pub segments_sent : ℕ
  pub segments_received : ℕ
  pub retransmissions : ℕ
  pub bytes_sent : ℕ
  pub bytes_received : ℕ
  pub reset_received : Bool
  pub log : List Effect

module _ {T : Type 0} ⦃ops : TimeOps T⦄ where
  abbrev pub default_persist_delay : T
  default_persist_delay = ops.literal 5 10

  abbrev pub max_persist_delay : T
  max_persist_delay = ops.literal 60 1

  -- The constructor, for a configuration whose capacities and MSS pass the guards of the queues and
  -- of the congestion control.
  unfoldable pub make : Config T → Connection T
  make config = record {
    config = config;
    state = closed;
    iss = 0;
    irs = 0;
    peer_mss = 536;
    snd_wscale = 0;
    peer_window = default_window;
    send_queue = Send.make 0 config.send_capacity;
    recv_queue = Receive.make 0 config.receive_capacity;
    reno = Congestion.make config.mss config.initial_window none;
    rto = Retransmit.make;
    retx_queue = Retransmit.make_queue 0x10_0000;
    retransmit_at = none;
    delayed_ack_at = none;
    time_wait_until = none;
    fin_seq = none;
    syn_sent_at = none;
    last_activity = ops.literal 0 1;
    persist_at = none;
    persist_delay = default_persist_delay;
    segments_sent = 0;
    segments_received = 0;
    retransmissions = 0;
    bytes_sent = 0;
    bytes_received = 0;
    reset_received = false;
    log = [];
  }

-- The override, or 32 random bits, which the runtime supplies.
unfoldable pub choose_iss : Option ℕ → ℕ → ℕ
choose_iss none random = random
choose_iss (some iss) random = iss % seq_space
