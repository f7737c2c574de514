-- ===== src/Wire/Writer.antt =====
-- The accumulating writer (minitcp/util/byteio.py, `Writer`). `none` is the ValueError of a value that
-- does not fit.
use mini_tcp.Base.{
  ℕ, ◌+◌, ◌^◌, Option, none, some, List, [], ◌∷◌, ◌++◌, ltb, if◌then◌else◌, Bytes, length,
}
use mini_tcp.Wire.{pack_8, pack_16, pack_32}

pub record Writer : Type 0 where
  pub parts : List Bytes

unfoldable pub make : Writer
make = record { parts = [] }

unfoldable pub raw : Writer → Bytes → Writer
raw w bytes = record w { parts = w.parts ++ bytes ∷ [] }

-- `_check`, then the packed value.
unfoldable pub checked : Writer → ℕ → ℕ → Bytes → Option Writer
unfolding raw
checked w value bits packed = if ltb value (2 ^ bits) then some (raw w packed) else none

unfoldable pub u8 : Writer → ℕ → Option Writer
unfolding checked
u8 w value = checked w value 8 (pack_8 value)

unfoldable pub u16 : Writer → ℕ → Option Writer
unfolding checked
u16 w value = checked w value 16 (pack_16 value)

unfoldable pub u32 : Writer → ℕ → Option Writer
unfolding checked
u32 w value = checked w value 32 (pack_32 value)

unfoldable pub join : List Bytes → Bytes
join [] = []
join (part ∷ parts) = part ++ join parts

unfoldable pub bytes : Writer → Bytes
unfolding join
bytes w = join w.parts

unfoldable pub total : List Bytes → ℕ
total [] = 0
total (part ∷ parts) = length part + total parts

-- `__len__`
unfoldable pub size : Writer → ℕ
unfolding total
size w = total w.parts
