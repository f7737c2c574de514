-- ===== src/Wire/Reader.antt =====
-- The sequential reader (minitcp/util/byteio.py, `Reader`). `none` is the ValueError of truncated data.
use mini_tcp.Base.{ℕ, ◌+◌, ◌-◌, Option, none, some, ltb, if◌then◌else◌, Bytes, length, take, drop}
use mini_tcp.Wire.{unpack_8, unpack_16, unpack_32}

pub record Reader : Type 0 where
  pub contents : Bytes
  pub pos : ℕ

unfoldable pub make : Bytes → Reader
make bytes = record { contents = bytes; pos = 0 }

unfoldable pub remaining : Reader → ℕ
remaining r = length r.contents - r.pos

-- The reader past `count` bytes, with what `decode` makes of the bytes at the position.
unfoldable pub advance {ℓ} : {A : Type ℓ} → Reader → ℕ → (Bytes → A) → Option (Reader × A)
advance r count decode =
    if ltb (length r.contents) (r.pos + count)
    then none
    else some (record r { pos = r.pos + count }, decode (drop r.pos r.contents))

unfoldable pub u8 : Reader → Option (Reader × ℕ)
unfolding advance
u8 r = advance r 1 unpack_8

unfoldable pub u16 : Reader → Option (Reader × ℕ)
unfolding advance
u16 r = advance r 2 unpack_16

unfoldable pub u32 : Reader → Option (Reader × ℕ)
unfolding advance
u32 r = advance r 4 unpack_32

unfoldable pub raw : Reader → ℕ → Option (Reader × Bytes)
unfolding advance
raw r count = advance r count (take count)

unfoldable pub rest : Reader → Reader × Bytes
rest r = (record r { pos = length r.contents }, drop r.pos r.contents)
