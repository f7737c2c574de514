-- ===== src/Segment/Options.antt =====
-- The wire format of TCP options (minitcp/net/tcp/segment.py, `TCPOptions.to_bytes` and `.parse`).
use mini_tcp.Base.{
  ℕ, zero, suc, ◌+◌, ◌-◌, ◌%◌, Bool, true, ◌&&◌, ◌||◌, Option, none, some, List, [], ◌∷◌, ◌++◌, ltb,
  leb, ◌==◌, if◌then◌else◌, Bytes, length, take, drop,
}
use mini_tcp.Seqno.{seq_space}
use mini_tcp.Wire.{pack_16, pack_32, unpack_8, unpack_16, unpack_32}
use mini_tcp.Segment.{TcpOptions, no_options}

-- The bytes of each option; `none` is the ValueError of a value out of range.
unfoldable pub mss_bytes : Option ℕ → Option Bytes
mss_bytes none = some []
mss_bytes (some mss) = if ltb 0 mss && leb mss 65535 then some (2 ∷ 4 ∷ pack_16 mss) else none

unfoldable pub sack_permitted_bytes : Bool → Bytes
sack_permitted_bytes permitted = if permitted then 4 ∷ 2 ∷ [] else []

unfoldable pub scale_bytes : Option ℕ → Option Bytes
scale_bytes none = some []
scale_bytes (some scale) = if leb scale 14 then some (3 ∷ 3 ∷ scale ∷ []) else none

-- `self.timestamp_echo or 0`
abbrev pub or_zero : Option ℕ → ℕ
or_zero none = 0
or_zero (some n) = n

unfoldable pub timestamp_bytes : Option ℕ → Option ℕ → Bytes
timestamp_bytes none echo = []
timestamp_bytes (some timestamp) echo =
    8 ∷ 10 ∷ pack_32 (timestamp % seq_space) ++ pack_32 (or_zero echo % seq_space)

unfoldable pub sack_bytes : List (ℕ × ℕ) → Bytes
sack_bytes [] = []
sack_bytes ((left, right) ∷ blocks) =
    5 ∷ 10 ∷ pack_32 (left % seq_space) ++ (pack_32 (right % seq_space) ++ sack_bytes blocks)

-- What fills `count` bytes.
unfoldable pub padding : ℕ → Bytes
padding count =
    if count == 3
    then 1 ∷ 1 ∷ 1 ∷ []
    else if count == 2
    then 1 ∷ 1 ∷ []
    else if count == 1
    then 0 ∷ []
    else []

-- At most 40 bytes, padded to a multiple of four.
unfoldable pub finish : Bytes → Option Bytes
finish raw = if ltb 40 (length raw) then none else some (raw ++ padding ((4 - length raw % 4) % 4))

-- The options in their order, once the two that can be out of range are packed.
unfoldable pub assemble : TcpOptions → Option Bytes → Option Bytes → Option Bytes
assemble o (some mss) (some scale) = finish (
    mss
    ++ (sack_permitted_bytes o.sack_permitted
        ++ (scale ++ (timestamp_bytes o.timestamp o.timestamp_echo ++ sack_bytes o.sack_blocks))))
assemble o _ _ = none

unfoldable pub to_bytes : TcpOptions → Option Bytes
unfolding assemble
to_bytes o = assemble o (mss_bytes o.mss) (scale_bytes o.window_scale)

-- Every eight bytes are a block; fewer at the end are left out.
unfoldable pub blocks_of : Bytes → List (ℕ × ℕ)
blocks_of (a ∷ b ∷ c ∷ d ∷ e ∷ f ∷ g ∷ h ∷ rest) =
    (unpack_32 (a ∷ b ∷ c ∷ d ∷ []), unpack_32 (e ∷ f ∷ g ∷ h ∷ [])) ∷ blocks_of rest
blocks_of _ = []

-- One option that is understood, with its length; any other is skipped.
unfoldable pub read_option : ℕ → ℕ → Bytes → TcpOptions → TcpOptions
read_option kind size body o =
    if (kind == 2) && (size == 4)
    then record o { mss = some (unpack_16 body) }
    else if (kind == 3) && (size == 3)
    then record o { window_scale = some (unpack_8 body) }
    else if (kind == 4) && (size == 2)
    then record o { sack_permitted = true }
    else if (kind == 8) && (size == 10)
    then record o {
      timestamp = some (unpack_32 body);
      timestamp_echo = some (unpack_32 (drop 4 body));
    }
    else if (kind == 5) && leb 8 (length body)
    then record o { sack_blocks = blocks_of body }
    else o

-- The loop of `parse`, on the bytes from `pos` on. A round takes a byte or more, so the number of bytes
-- is enough fuel.
unfoldable pub parse_loop : ℕ → Bytes → TcpOptions → TcpOptions
parse_loop zero bytes o = o
parse_loop (suc fuel) [] o = o
parse_loop (suc fuel) (kind ∷ []) o = o
parse_loop (suc fuel) (kind ∷ size ∷ more) o =
    let skipped = parse_loop fuel (size ∷ more) o in
    let next =
      parse_loop fuel (drop (size - 2) more) (read_option kind size (take (size - 2) more) o) in
    if kind == 0
    then o
    else if kind == 1
    then skipped
    else if ltb size 2 || ltb (2 + length more) size
    then o
    else next

unfoldable pub parse : Bytes → TcpOptions
parse bytes = parse_loop (length bytes) bytes no_options
