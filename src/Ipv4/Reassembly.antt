-- ===== src/Ipv4/Reassembly.antt =====
-- Rebuilding datagrams from their fragments (`Reassembler` of minitcp/net/ipv4.py). The dictionary of
-- the sets is an association list; a lock plays no part in it.
use mini_tcp.Base.{
  ℕ, suc, ◌+◌, ◌-◌, ◌*◌, Bool, not, ◌&&◌, Option, none, some, List, [], ◌∷◌, ◌++◌, ltb, ◌==◌,
  if◌then◌else◌, Bytes, length, take, drop, replicate, is_empty, same_bytes, min, max,
}
use mini_tcp.Reorder.Entries.{Dict, put}
use mini_tcp.Segment.{has_flag}
use mini_tcp.Time.{TimeOps}
use mini_tcp.Ipv4.{Ipv4Packet, is_fragmented, flag_mf}

pub record Key : Type 0 where
  pub src : Bytes
  pub dst : Bytes
  pub protocol : ℕ
  pub identification : ℕ

unfoldable pub key_of : Ipv4Packet → Key
key_of p = record {
  src = p.src;
  dst = p.dst;
  protocol = p.protocol;
  identification = p.identification;
}

unfoldable pub same_key : Key → Key → Bool
same_key a b =
    (same_bytes a.src b.src && same_bytes a.dst b.dst)
    && ((a.protocol == b.protocol) && (a.identification == b.identification))

pub record FragmentSet (T : Type 0) : Type 0 where
  pub first_seen : T
  pub total_length : Option ℕ
  pub header : Option Ipv4Packet
  pub pieces : Dict

pub record Reassembler (T : Type 0) : Type 0 where
  pub sets : List (Key × FragmentSet T)
  pub timeout : T
  pub max_pending : ℕ
  pub reassembled : ℕ
  pub dropped : ℕ

-- sorted(pieces.items()): the offsets are distinct, so the payloads never break a tie.
unfoldable pub insert_sorted : ℕ → Bytes → Dict → Dict
insert_sorted k d [] = (k, d) ∷ []
insert_sorted k d ((j, e) ∷ m) =
    if ltb j k then (j, e) ∷ insert_sorted k d m else (k, d) ∷ (j, e) ∷ m

unfoldable pub sorted : Dict → Dict
unfolding insert_sorted
sorted [] = []
sorted ((k, d) ∷ m) = insert_sorted k d (sorted m)

-- How far the pieces reach without a hole.
unfoldable pub reach : ℕ → Dict → Option ℕ
reach cursor [] = some cursor
reach cursor ((offset, bytes) ∷ m) =
    let rest = reach (max cursor (offset + length bytes)) m in
    if ltb cursor offset then none else rest

-- data[: end - offset], where a negative bound counts from the back
unfoldable pub clip : Bytes → ℕ → ℕ → Bytes
clip bytes offset end =
    if ltb end offset then take (length bytes - (offset - end)) bytes else take (end - offset) bytes

-- buffer[offset:end] = data[: end - offset]
unfoldable pub place : ℕ → Bytes → ℕ → Bytes → Bytes
unfolding clip
place total buffer offset bytes =
    let end = min (offset + length bytes) total in
    take offset buffer ++ (clip bytes offset end ++ drop (max offset end) buffer)

unfoldable pub place_all : ℕ → Bytes → Dict → Bytes
unfolding place
place_all total buffer [] = buffer
place_all total buffer ((offset, bytes) ∷ m) = place_all total (place total buffer offset bytes) m

unfoldable pub rebuild : Ipv4Packet → Bytes → Ipv4Packet
rebuild head payload = record {
  src = head.src;
  dst = head.dst;
  protocol = head.protocol;
  payload = payload;
  ttl = head.ttl;
  identification = head.identification;
  flags = 0;
  fragment_offset = 0;
  dscp = head.dscp;
  options = [];
}

module _ {T : Type 0} where
  -- A set without a header is the failing assertion; a set in the table has one.
  unfoldable pub try_complete : FragmentSet T → Option Ipv4Packet
  unfolding sorted reach place_all rebuild
  try_complete entry = elim entry.total_length [
    | none ↦ none
    | some total ↦
        let ordered = sorted entry.pieces in
        let whole = place_all total (replicate total 0) ordered in
        if is_empty entry.pieces then none else elim (reach 0 ordered) [
          | none ↦ none
          | some cursor ↦ elim entry.header [
            | none ↦ none
            | some head ↦ if ltb cursor total then none else some (rebuild head whole)
          ]
        ]
  ]

  unfoldable pub find : Key → List (Key × FragmentSet T) → Option (FragmentSet T)
  unfolding same_key
  find key [] = none
  find key ((k, entry) ∷ sets) =
      let rest = find key sets in if same_key k key then some entry else rest

  unfoldable pub remove : Key → List (Key × FragmentSet T) → List (Key × FragmentSet T)
  unfolding same_key
  remove key [] = []
  remove key ((k, entry) ∷ sets) =
      let rest = remove key sets in if same_key k key then sets else (k, entry) ∷ rest

  unfoldable pub store :
      Key → FragmentSet T → List (Key × FragmentSet T) → List (Key × FragmentSet T)
  unfolding same_key
  store key new [] = (key, new) ∷ []
  store key new ((k, entry) ∷ sets) =
      let rest = store key new sets in if same_key k key then (k, new) ∷ sets else (k, entry) ∷ rest

  unfoldable pub new_set : T → FragmentSet T
  new_set now = record { first_seen = now; total_length = none; header = none; pieces = [] }

  -- What one fragment adds to its set.
  unfoldable pub fill : FragmentSet T → Ipv4Packet → FragmentSet T
  fill entry p =
      let offset = p.fragment_offset * 8 in
      record entry {
        pieces = put offset p.payload entry.pieces;
        header = elim entry.header [ none ↦ some p | some head ↦ some head ];
        total_length =
            if has_flag p.flags flag_mf
            then entry.total_length
            else some (offset + length p.payload);
      }

  -- The set is kept, or its datagram returned.
  unfoldable pub settle :
      Reassembler T → Key → FragmentSet T → Option Ipv4Packet → Reassembler T × Option Ipv4Packet
  unfolding store remove
  settle r key entry none = (record r { sets = store key entry r.sets }, none)
  settle r key entry (some whole) =
      (record r { sets = remove key r.sets; reassembled = r.reassembled + 1 }, some whole)

  unfoldable pub collect :
      Reassembler T → Key → FragmentSet T → Ipv4Packet → Reassembler T × Option Ipv4Packet
  unfolding fill try_complete settle
  collect r key entry p = settle r key (fill entry p) (try_complete (fill entry p))

-- A result, if there is one, in front of the later ones.
abbrev pub note : Option Ipv4Packet → List Ipv4Packet → List Ipv4Packet
note none rest = rest
note (some q) rest = q ∷ rest

module _ {T : Type 0} ⦃ops : TimeOps T⦄ where
  -- now - first_seen > timeout
  abbrev pub is_stale : T → T → FragmentSet T → Bool
  is_stale timeout now entry = not (ops.leq (ops.minus now entry.first_seen) timeout)

  -- The sets that are kept, and how many are not.
  unfoldable pub sweep : T → T → List (Key × FragmentSet T) → List (Key × FragmentSet T) × ℕ
  sweep timeout now [] = ([], 0)
  sweep timeout now ((key, entry) ∷ sets) =
      let (kept, gone) = sweep timeout now sets in
      if is_stale timeout now entry then (kept, suc gone) else ((key, entry) ∷ kept, gone)

  unfoldable pub expire : Reassembler T → T → Reassembler T
  unfolding sweep
  expire r now =
      let (kept, gone) = sweep r.timeout now r.sets in
      record r { sets = kept; dropped = r.dropped + gone }

  -- `add` with the time of the call.
  unfoldable pub add : Reassembler T → T → Ipv4Packet → Reassembler T × Option Ipv4Packet
  unfolding expire key_of find new_set collect is_fragmented
  add r now p =
      let swept = expire r now in
      let key = key_of p in
      if not (is_fragmented p) then (r, some p) else elim (find key swept.sets) [
        | some entry ↦ collect swept key entry p
        | none ↦
            if ltb (length swept.sets) swept.max_pending
            then collect swept key (new_set now) p
            else (record swept { dropped = swept.dropped + 1 }, none)
      ]

  -- Arrivals one after another, each with its time; what is returned, oldest first.
  unfoldable pub add_all : Reassembler T → List (T × Ipv4Packet) → Reassembler T × List Ipv4Packet
  unfolding add
  add_all r [] = (r, [])
  add_all r ((now, p) ∷ arrivals) =
      let (next, out) = add r now p in
      let (last, rest) = add_all next arrivals in (last, note out rest)

module _ {T : Type 0} where
  unfoldable pub pending : Reassembler T → ℕ
  pending r = length r.sets
