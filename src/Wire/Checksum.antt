-- ===== src/Wire/Checksum.antt =====
-- The Internet checksum (minitcp/util/checksum.py).
use mini_tcp.Base.{
  ℕ, zero, suc, ◌+◌, ◌-◌, ◌*◌, ◌/◌, ◌%◌, Bool, [], ◌∷◌, ◌++◌, ltb, ◌==◌, if◌then◌else◌, Bytes,
  length, Option, none, some,
}
use mini_tcp.Wire.{pack_8, pack_16}

-- The sum of the 16-bit words; an odd last byte is followed by a zero byte.
unfoldable pub word_sum : Bytes → ℕ
word_sum [] = 0
word_sum (a ∷ []) = a * 256
word_sum (a ∷ b ∷ bs) = a * 256 + b + word_sum bs

-- The loop that folds the carries. A round makes the total smaller, so the total is enough fuel.
unfoldable pub fold : ℕ → ℕ → ℕ
fold zero total = total
fold (suc fuel) total =
    let rest = fold fuel (total % 65536 + total / 65536) in if ltb total 65536 then total else rest

unfoldable pub ones_complement_sum : Bytes → ℕ
ones_complement_sum bytes = fold (word_sum bytes) (word_sum bytes)

-- (~sum) & 0xFFFF
unfoldable pub checksum : Bytes → ℕ
checksum bytes = 65535 - ones_complement_sum bytes % 65536

-- The checksum over the pseudo-header and a segment, the length of which takes 16 bits.
unfoldable pub pseudo_checksum : Bytes → Bytes → ℕ → Bytes → ℕ
pseudo_checksum src dst protocol segment =
    checksum ((src ++ dst ++ pack_8 0 ++ pack_8 protocol ++ pack_16 (length segment)) ++ segment)

-- `none` is the error of the struct module for a segment that is too long.
unfoldable pub transport_checksum : Bytes → Bytes → ℕ → Bytes → Option ℕ
unfolding pseudo_checksum
transport_checksum src dst protocol segment =
    if ltb 65535 (length segment) then none else some (pseudo_checksum src dst protocol segment)

unfoldable pub verify : Bytes → Bool
verify bytes = checksum bytes == 0
