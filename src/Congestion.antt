-- ===== src/Congestion.antt =====
-- TCP Reno (minitcp/net/tcp/congestion.py).
pub mod Window
pub mod Recovery
use mini_tcp.Base.{
  ℕ, ◌+◌, ◌-◌, ◌*◌, ◌/◌, ◌^◌, Bool, true, false, ◌&&◌, Option, none, some, ltb, leb, ◌==◌, min, max,
  if◌then◌else◌,
}
use mini_tcp.Seqno.{seq_ge}

pub data Mode : Type 0 where
  slow_start congestion_avoidance fast_recovery : Mode

abbrev pub initial_window_cap : ℕ
initial_window_cap = 14600

abbrev pub max_cwnd : ℕ
max_cwnd = 2 ^ 30

pub record RenoCongestion : Type 0 where
  pub mss : ℕ
  pub cwnd : ℕ
  pub ssthresh : ℕ
  pub state : Mode
  pub duplicate_acks : ℕ
  pub recover : ℕ
  pub timeouts : ℕ
  pub fast_retransmits : ℕ

abbrev pub or_default : Option ℕ → ℕ → ℕ
or_default none d = d
or_default (some n) d = n

-- The fields that the constructor sets, once its guard has passed.
unfoldable pub make : ℕ → Option ℕ → Option ℕ → RenoCongestion
make mss initial_window initial_ssthresh = record {
  mss = mss;
  cwnd = or_default initial_window (min (10 * mss) (max (2 * mss) initial_window_cap));
  ssthresh = or_default initial_ssthresh max_cwnd;
  state = slow_start;
  duplicate_acks = 0;
  recover = 0;
  timeouts = 0;
  fast_retransmits = 0;
}

-- `none` is the ValueError of an MSS that is not positive.
unfoldable pub init : ℕ → Option ℕ → Option ℕ → Option RenoCongestion
unfolding make
init mss initial_window initial_ssthresh =
    if mss == 0 then none else some (make mss initial_window initial_ssthresh)

-- ack_number is not None and seq_ge(ack_number, recover)
abbrev pub reaches : Option ℕ → ℕ → Bool
reaches none recover = false
reaches (some ack) recover = seq_ge ack recover

-- Back to cautious growth.
unfoldable pub leave_recovery : RenoCongestion → RenoCongestion
leave_recovery r = record r {
  cwnd = max r.ssthresh r.mss;
  state = congestion_avoidance;
  duplicate_acks = 0;
}

unfoldable pub grow : RenoCongestion → ℕ → Mode → RenoCongestion
unfolding leave_recovery
grow r bytes_acked slow_start =
    let cwnd = min (r.cwnd + bytes_acked) max_cwnd in
    record r {
      cwnd = cwnd;
      duplicate_acks = 0;
      state = if leb r.ssthresh cwnd then congestion_avoidance else slow_start;
    }
grow r bytes_acked congestion_avoidance =
    let increment = (r.mss * bytes_acked) / max r.cwnd 1 in
    record r { cwnd = min (r.cwnd + max increment 1) max_cwnd; duplicate_acks = 0 }
grow r bytes_acked fast_recovery = record r {
  cwnd = max r.ssthresh (r.cwnd - bytes_acked) + bytes_acked;
}

abbrev pub is_recovery : Mode → Bool
is_recovery slow_start = false
is_recovery congestion_avoidance = false
is_recovery fast_recovery = true

unfoldable pub on_ack : RenoCongestion → ℕ → Option ℕ → RenoCongestion
unfolding grow
on_ack r bytes_acked ack_number =
    if bytes_acked == 0
    then r
    else if is_recovery r.state && reaches ack_number r.recover
    then leave_recovery r
    else grow r bytes_acked r.state

-- The flag asks for a fast retransmit.
unfoldable pub on_duplicate_ack : RenoCongestion → Option ℕ → RenoCongestion × Bool
on_duplicate_ack r ack_number =
    let count = r.duplicate_acks + 1 in
    let half = max (r.cwnd / 2) (2 * r.mss) in
    if is_recovery r.state
    then (record r { cwnd = min (r.cwnd + r.mss) max_cwnd }, false)
    else if count == 3
    then (
      record r {
        duplicate_acks = count;
        ssthresh = half;
        cwnd = half + 3 * r.mss;
        recover = or_default ack_number 0;
        state = fast_recovery;
        fast_retransmits = r.fast_retransmits + 1;
      },
      true,
    )
    else (record r { duplicate_acks = count }, false)

unfoldable pub on_timeout : RenoCongestion → RenoCongestion
on_timeout r = record r {
  ssthresh = max (r.cwnd / 2) (2 * r.mss);
  cwnd = r.mss;
  state = slow_start;
  duplicate_acks = 0;
  timeouts = r.timeouts + 1;
}

unfoldable pub on_partial_ack : RenoCongestion → ℕ → RenoCongestion
unfolding leave_recovery
on_partial_ack r ack_number =
    if is_recovery r.state && seq_ge ack_number r.recover then leave_recovery r else r

unfoldable pub in_recovery : RenoCongestion → Bool
in_recovery r = is_recovery r.state

-- Bytes that may be in flight.
unfoldable pub effective_window : RenoCongestion → ℕ → ℕ
effective_window r receiver_window = max (min r.cwnd receiver_window) r.mss
