-- ===== src/Ipv4/Address.antt =====
-- Netmasks and subnets (minitcp/net/ipv4.py). `none` is the ValueError.
pub mod Masks
use Prim.Native.Nat.{bit_and}
use mini_tcp.Base.{
  ℕ, zero, suc, ◌+◌, ◌-◌, ◌*◌, ◌/◌, ◌%◌, ◌^◌, Bool, true, false, not, ◌&&◌, Option, none, some, [],
  ◌∷◌, ltb, leb, ◌==◌, if◌then◌else◌, Bytes, length,
}
use mini_tcp.Wire.{pack_32, unpack_32}

unfoldable pub mask_value : ℕ → ℕ
mask_value prefix = if prefix == 0 then 0 else bit_and (0xFFFFFFFF * 2 ^ (32 - prefix)) 0xFFFFFFFF

unfoldable pub prefix_to_mask : ℕ → Option Bytes
unfolding mask_value
prefix_to_mask prefix = if leb prefix 32 then some (pack_32 (mask_value prefix)) else none

-- bin(value).count("1"), of a value with at most `fuel` digits
unfoldable pub count_ones : ℕ → ℕ → ℕ
count_ones zero value = 0
count_ones (suc fuel) value = value % 2 + count_ones fuel (value / 2)

unfoldable pub mask_to_prefix : Bytes → Option ℕ
unfolding count_ones mask_value
mask_to_prefix mask =
    let value = unpack_32 mask in
    let prefix = count_ones 32 value in
    if not (length mask == 4)
    then none
    else if not (value == mask_value prefix)
    then none
    else some prefix

-- The loop stops at the first byte that differs; sequences of different lengths are an error only
-- where it gets to the end of one of them.
unfoldable pub same_subnet : Bytes → Bytes → Bytes → Option Bool
same_subnet [] [] [] = some true
same_subnet (x ∷ a) (y ∷ b) (m ∷ mask) =
    let rest = same_subnet a b mask in if bit_and x m == bit_and y m then rest else some false
same_subnet _ _ _ = none
