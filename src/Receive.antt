-- ===== src/Receive.antt =====
-- `ReceiveQueue` (minitcp/net/tcp/buffer.py): the inbound bytes, those in order and those parked
-- in the reorder queue.
pub mod Window
pub mod Cases
pub mod Stream
pub mod Reads
use mini_tcp.Base.{
  ℕ, zero, suc, ◌+◌, ◌-◌, ◌*◌, Bool, false, ◌&&◌, Option, none, some, List, [], ◌++◌, ltb, leb,
  ◌==◌, if◌then◌else◌, Bytes, length, take, drop, min, ℤ, pos, negsuc, is_empty,
}
use mini_tcp.Seqno.{seq_add, seq_diff, seq_gt}
use mini_tcp.Reorder
use mini_tcp.Reorder.{ReorderQueue}

pub record ReceiveQueue : Type 0 where
  pub nxt : ℕ
  pub buf : Bytes
  pub read_pos : ℕ
  pub ooo : ReorderQueue
  pub capacity : ℕ
  pub bytes_received : ℕ
  pub duplicates : ℕ

-- The fields that the constructor sets, once its guard has passed.
unfoldable pub make : ℕ → ℕ → ReceiveQueue
make irs capacity = record {
  nxt = seq_add irs 1;
  buf = [];
  read_pos = 0;
  ooo = Reorder.make capacity;
  capacity = capacity;
  bytes_received = 0;
  duplicates = 0;
}

-- `none` is the ValueError of a capacity that is not positive.
unfoldable pub init : ℕ → ℕ → Option ReceiveQueue
init irs capacity = if capacity == 0 then none else some (make irs capacity)

unfoldable pub available : ReceiveQueue → ℕ
available q = length q.buf - q.read_pos

unfoldable pub held_out_of_order : ReceiveQueue → ℕ
held_out_of_order q = q.ooo.bytes_buffered

unfoldable pub window : ReceiveQueue → ℕ
window q = q.capacity - (available q + held_out_of_order q)

-- Put a chunk behind the bytes in order.
unfoldable pub deliver : ReceiveQueue → Bytes → ReceiveQueue
deliver q chunk = record q {
  buf = q.buf ++ chunk;
  nxt = seq_add q.nxt (length chunk);
  bytes_received = q.bytes_received + length chunk;
}

-- The loop of `_accept` that pulls parked payloads in: each round takes an entry out of the reorder
-- queue, so its number of entries is enough fuel. The number counts the bytes newly in order.
unfoldable pub drain : ℕ → ReceiveQueue → ℕ → ReceiveQueue × ℕ
drain zero q newly = (q, newly)
drain (suc fuel) q newly = elim (Reorder.take q.ooo q.nxt).1 [
  | none ↦ (q, newly)
  | some chunk ↦
      drain fuel (deliver (record q { ooo = (Reorder.take q.ooo q.nxt).0 }) chunk)
        (newly + length chunk)
]

unfoldable pub accept : ReceiveQueue → Bytes → ReceiveQueue × ℕ
accept q payload =
    let chunk = take (window q) payload in
    if window q == 0
    then (q, 0)
    else drain (suc (length q.ooo.entries)) (deliver q chunk) (length chunk)

-- `payload[overlap:]`; a negative index counts from the end.
unfoldable pub slice_from : ℤ → Bytes → Bytes
slice_from (pos n) payload = drop n payload
slice_from (negsuc n) payload = drop (length payload - suc n) payload

-- overlap >= len(payload)
unfoldable pub covers : ℤ → Bytes → Bool
covers (pos n) payload = leb (length payload) n
covers (negsuc n) payload = false

unfoldable pub trim : ℕ → Bytes → Bytes
trim room payload = if ltb room (length payload) then take room payload else payload

-- A segment ahead of its turn: trimmed to the free window, then parked.
unfoldable pub park : ReceiveQueue → ℕ → Bytes → ReceiveQueue
park q seq payload =
    let trimmed = trim (window q) payload in
    if is_empty trimmed then q else record q { ooo = (Reorder.insert q.ooo seq trimmed).0 }

-- The number is how many bytes are newly in order. The call that the source makes on itself passes
-- `nxt` as the sequence number, so it ends in `accept`, and `accept_tail` is that call.
unfoldable pub accept_tail : ReceiveQueue → Bytes → ReceiveQueue × ℕ
accept_tail q payload = if is_empty payload then (q, 0) else accept q payload

unfoldable pub insert : ReceiveQueue → ℕ → Bytes → ReceiveQueue × ℕ
insert q seq payload =
    let overlap = seq_diff q.nxt seq in
    let seen = record q { duplicates = q.duplicates + 1 } in
    if is_empty payload
    then (q, 0)
    else if seq == q.nxt
    then accept q payload
    else if seq_gt seq q.nxt
    then (park q seq payload, 0)
    else if covers overlap payload
    then (seen, 0)
    else accept_tail seen (slice_from overlap payload)

-- Drop the consumed prefix once it is long.
unfoldable pub compact : ReceiveQueue → ReceiveQueue
compact q =
    if ltb 65536 q.read_pos && ltb (length q.buf) (q.read_pos * 2)
    then record q { buf = drop q.read_pos q.buf; read_pos = 0 }
    else q

unfoldable pub read : ReceiveQueue → ℕ → ReceiveQueue × Bytes
read q max_bytes =
    let end = min (q.read_pos + max_bytes) (length q.buf) in
    let chunk = take (end - q.read_pos) (drop q.read_pos q.buf) in
    if max_bytes == 0 then (q, []) else (compact (record q { read_pos = end }), chunk)

unfoldable pub discard_before : ReceiveQueue → ℕ → ReceiveQueue
discard_before q seq = record q { ooo = (Reorder.discard_before q.ooo seq).0 }

unfoldable pub clear : ReceiveQueue → ReceiveQueue
clear q = record q { buf = []; read_pos = 0; ooo = Reorder.clear q.ooo }
