-- ===== src/Retransmit.antt =====
-- Retransmission timing (minitcp/net/tcp/retransmit.py): the RTO estimator and the queue of
-- outstanding segments. Times are a parameter (Time.antt).
pub mod Rto
pub mod Queue
use Prim.Native.Nat.{bit_and}
use mini_tcp.Base.{
  ℕ, ◌+◌, ◌-◌, Bool, true, false, not, Option, none, some, List, [], ◌∷◌, ◌++◌, ltb, ◌==◌,
  if◌then◌else◌, Bytes, length,
}
use mini_tcp.Seqno.{seq_add, seq_le}
use mini_tcp.Segment.{has_flag, flag_fin, flag_syn, count_if}
use mini_tcp.Time.{TimeOps, max_time, min_time, clamp}

pub record RtoEstimator (T : Type 0) : Type 0 where
  pub srtt : Option T
  pub rttvar : T
  pub min_rto : T
  pub max_rto : T
  pub rto : T
  pub samples : ℕ

module _ {T : Type 0} ⦃ops : TimeOps T⦄ where
  abbrev pub default_initial_rto : T
  default_initial_rto = ops.literal 1 1

  abbrev pub default_min_rto : T
  default_min_rto = ops.literal 2 10

  abbrev pub default_max_rto : T
  default_max_rto = ops.literal 60 1

  abbrev pub zero_time : T
  zero_time = ops.literal 0 1

  -- `none` is the ValueError of bounds that are not positive or out of order. The variance is only
  -- read once there is an SRTT; until then it is None in the source and 0 here.
  unfoldable pub init : T → T → T → Option (RtoEstimator T)
  init initial min_rto max_rto =
      if ops.leq min_rto zero_time
      then none
      else if not (ops.leq min_rto max_rto)
      then none
      else some (record {
        srtt = none;
        rttvar = zero_time;
        min_rto = min_rto;
        max_rto = max_rto;
        rto = clamp initial min_rto max_rto;
        samples = 0;
      })

  -- The estimator with the default bounds, which pass the guard.
  unfoldable pub make : RtoEstimator T
  make = record {
    srtt = none;
    rttvar = zero_time;
    min_rto = default_min_rto;
    max_rto = default_max_rto;
    rto = clamp default_initial_rto default_min_rto default_max_rto;
    samples = 0;
  }

  -- The variance after a sample.
  abbrev pub next_rttvar : RtoEstimator T → T → T
  next_rttvar e rtt = elim e.srtt [
    | none ↦ ops.divide rtt (ops.literal 2 1)
    | some srtt ↦
        ops.plus (ops.times (ops.literal 75 100) e.rttvar)
          (ops.times (ops.literal 25 100) (ops.absolute (ops.minus srtt rtt)))
  ]

  -- The smoothed round trip time after a sample.
  abbrev pub next_srtt : RtoEstimator T → T → T
  next_srtt e rtt = elim e.srtt [
    | none ↦ rtt
    | some srtt ↦
        ops.plus (ops.times (ops.literal 875 1000) srtt) (ops.times (ops.literal 125 1000) rtt)
  ]

  -- SRTT + 4 * RTTVAR within the bounds.
  abbrev pub timeout_of : RtoEstimator T → T → T → T
  timeout_of e srtt rttvar =
      clamp (ops.plus srtt (ops.times (ops.literal 4 1) rttvar)) e.min_rto e.max_rto

  unfoldable pub sample : RtoEstimator T → T → RtoEstimator T
  sample e rtt =
      let srtt = next_srtt e rtt in
      let rttvar = next_rttvar e rtt in
      if ops.leq rtt zero_time then e else record e {
        srtt = some srtt;
        rttvar = rttvar;
        samples = e.samples + 1;
        rto = timeout_of e srtt rttvar;
      }

  unfoldable pub backoff : RtoEstimator T → RtoEstimator T
  backoff e = record e { rto = min_time (ops.times e.rto (ops.literal 2 1)) e.max_rto }

  unfoldable pub recompute : RtoEstimator T → RtoEstimator T
  recompute e = record e {
    rto = elim e.srtt [
      | none ↦ clamp default_initial_rto e.min_rto e.max_rto
      | some srtt ↦ timeout_of e srtt e.rttvar
    ];
  }

  unfoldable pub reset : RtoEstimator T → RtoEstimator T
  reset e = record e {
    srtt = none;
    rttvar = zero_time;
    rto = clamp default_initial_rto e.min_rto e.max_rto;
    samples = 0;
  }

pub record OutstandingSegment (T : Type 0) : Type 0 where
  pub seq : ℕ
  pub flags : ℕ
  pub payload : Bytes
  pub sent_at : T
  pub retransmits : ℕ
  pub rtt_sampled : Bool

module _ {T : Type 0} where
  unfoldable pub seq_len : OutstandingSegment T → ℕ
  seq_len s =
      length s.payload + count_if (has_flag s.flags flag_syn) + count_if (has_flag s.flags flag_fin)

  unfoldable pub seq_end : OutstandingSegment T → ℕ
  unfolding seq_len
  seq_end s = seq_add s.seq (seq_len s)

pub record RetransmitQueue (T : Type 0) : Type 0 where
  pub segments : List (OutstandingSegment T)
  pub capacity : ℕ

module _ {T : Type 0} where
  unfoldable pub make_queue : ℕ → RetransmitQueue T
  make_queue capacity = record { segments = []; capacity = capacity }

  unfoldable pub total_bytes : List (OutstandingSegment T) → ℕ
  total_bytes [] = 0
  total_bytes (s ∷ ss) = length s.payload + total_bytes ss

  unfoldable pub bytes_outstanding : RetransmitQueue T → ℕ
  unfolding total_bytes
  bytes_outstanding q = total_bytes q.segments

  -- The entry is `none` if the queue is full.
  unfoldable pub add :
      RetransmitQueue T → ℕ → ℕ → Bytes → T → RetransmitQueue T × Option (OutstandingSegment T)
  add q seq flags payload now =
      let entry : OutstandingSegment T = record {
        seq = seq;
        flags = flags;
        payload = payload;
        sent_at = now;
        retransmits = 0;
        rtt_sampled = false;
      } in
      if ltb q.capacity (bytes_outstanding q + length payload)
      then (q, none)
      else (record q { segments = q.segments ++ entry ∷ [] }, some entry)

  -- Those that `ack` covers, and the others, each in their order.
  unfoldable pub split_acked :
      ℕ → List (OutstandingSegment T) → List (OutstandingSegment T) × List (OutstandingSegment T)
  split_acked ack [] = ([], [])
  split_acked ack (s ∷ ss) =
      let (acked, remaining) = split_acked ack ss in
      if seq_le (seq_end s) ack then (s ∷ acked, remaining) else (acked, s ∷ remaining)

  unfoldable pub acknowledge :
      RetransmitQueue T → ℕ → RetransmitQueue T × List (OutstandingSegment T)
  unfolding split_acked
  acknowledge q ack =
      let (acked, remaining) = split_acked ack q.segments in
      (record q { segments = remaining }, acked)

  unfoldable pub oldest : RetransmitQueue T → Option (OutstandingSegment T)
  oldest q = elim q.segments [ [] ↦ none | s ∷ ss ↦ some s ]

  unfoldable pub mark_retransmitted : OutstandingSegment T → T → OutstandingSegment T
  mark_retransmitted s now = record s {
    retransmits = s.retransmits + 1;
    sent_at = now;
    rtt_sampled = true;
  }

  -- The callers mark the oldest entry, which stays in the queue: the source changes it in place.
  unfoldable pub mark_oldest : RetransmitQueue T → T → RetransmitQueue T
  unfolding mark_retransmitted
  mark_oldest q now = record q {
    segments = elim q.segments [ [] ↦ [] | s ∷ ss ↦ mark_retransmitted s now ∷ ss ];
  }

  -- The number is how many segments were discarded.
  unfoldable pub purge_before : RetransmitQueue T → ℕ → RetransmitQueue T × ℕ
  unfolding split_acked
  purge_before q seq =
      let remaining = (split_acked seq q.segments).1 in
      (record q { segments = remaining }, length q.segments - length remaining)

  unfoldable pub clear : RetransmitQueue T → RetransmitQueue T
  clear q = record q { segments = [] }
