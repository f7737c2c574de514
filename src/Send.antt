-- ===== src/Send.antt =====
-- `SendQueue` (minitcp/net/tcp/buffer.py): the outbound bytes that await acknowledgement.
pub mod Laws
pub mod Accepted
use mini_tcp.Base.{
  ℕ, ◌+◌, ◌-◌, Bool, Option, none, some, List, [], ◌++◌, ltb, leb, ◌==◌, ◌||◌, not, if◌then◌else◌,
  Bytes, length, take, drop, min, pos_part, is_negative, is_empty,
}
use mini_tcp.Seqno.{seq_diff, seq_gt, seq_lt}

-- `buf` begins at sequence number `una`.
pub record SendQueue : Type 0 where
  pub una : ℕ
  pub nxt : ℕ
  pub buf : Bytes
  pub capacity : ℕ
  pub bytes_written : ℕ

-- The fields that the constructor sets, once its guard has passed.
unfoldable pub make : ℕ → ℕ → SendQueue
make iss capacity = record {
  una = iss;
  nxt = iss;
  buf = [];
  capacity = capacity;
  bytes_written = 0;
}

-- `none` is the ValueError of a capacity that is not positive.
unfoldable pub init : ℕ → ℕ → Option SendQueue
unfolding make
init iss capacity = if capacity == 0 then none else some (make iss capacity)

-- The number is how many bytes were accepted.
unfoldable pub write : SendQueue → Bytes → SendQueue × ℕ
write q bytes =
    let room = q.capacity - length q.buf in
    let chunk = take room bytes in
    if leb q.capacity (length q.buf) then (q, 0) else (
      record q { buf = q.buf ++ chunk; bytes_written = q.bytes_written + length chunk },
      length chunk,
    )

unfoldable pub peek : SendQueue → ℕ → ℕ → Bytes
peek q seq count =
    let offset = seq_diff seq q.una in
    if is_negative offset || (count == 0) then [] else take count (drop (pos_part offset) q.buf)

-- The number is how far `una` moves; past the guard the difference is positive.
unfoldable pub acknowledge : SendQueue → ℕ → SendQueue × ℕ
acknowledge q ack =
    let count = pos_part (seq_diff ack q.una) in
    let dropped = min count (length q.buf) in
    if not (seq_gt ack q.una) then (q, 0) else (
      record q {
        una = ack;
        nxt = if seq_lt q.nxt ack then ack else q.nxt;
        buf = drop dropped q.buf;
      },
      count,
    )

unfoldable pub rewind : SendQueue → ℕ → SendQueue
rewind q seq = record q { nxt = seq }

unfoldable pub buffered : SendQueue → ℕ
buffered q = length q.buf

-- max(seq_diff(nxt, una), 0)
unfoldable pub in_flight : SendQueue → ℕ
in_flight q = pos_part (seq_diff q.nxt q.una)

unfoldable pub unsent : SendQueue → ℕ
unfolding in_flight
unsent q = length q.buf - in_flight q

unfoldable pub space : SendQueue → ℕ
space q = q.capacity - length q.buf

unfoldable pub clear : SendQueue → SendQueue
clear q = record q { buf = [] }
