-- ===== src/Wire.antt =====
-- Network byte order (the formats of Python's struct module that the engine uses), with the readers
-- and writers of minitcp/util/byteio.py and the checksum of minitcp/util/checksum.py as children.
pub mod Reader
pub mod Writer
pub mod Checksum
pub mod RoundTrip
pub mod Verify
use mini_tcp.Base.{◌≡◌, arith, ℕ, ◌+◌, ◌*◌, ◌/◌, ◌%◌, [], ◌∷◌, Bytes}

-- "!B", "!H" and "!I", of a value that fits.
abbrev pub pack_8 : ℕ → Bytes
pack_8 n = n ∷ []

abbrev pub pack_16 : ℕ → Bytes
pack_16 n = n / 256 ∷ n % 256 ∷ []

abbrev pub pack_32 : ℕ → Bytes
pack_32 n = n / 16777216 ∷ n / 65536 % 256 ∷ n / 256 % 256 ∷ n % 256 ∷ []

-- The numbers that begin a sequence of bytes; a byte that is missing counts as zero, and the callers
-- test the length first.
abbrev pub unpack_8 : Bytes → ℕ
unpack_8 [] = 0
unpack_8 (a ∷ bs) = a

abbrev pub unpack_16 : Bytes → ℕ
unpack_16 (a ∷ b ∷ bs) = a * 256 + b
unpack_16 _ = 0

abbrev pub unpack_32 : Bytes → ℕ
unpack_32 (a ∷ b ∷ c ∷ d ∷ bs) = a * 16777216 + b * 65536 + c * 256 + d
unpack_32 _ = 0

pub join_16 : (n : ℕ) → n / 256 * 256 + n % 256 ≡ n
join_16 n = omega arith

pub join_32 :
    (n : ℕ) → n / 16777216 * 16777216 + n / 65536 % 256 * 65536 + n / 256 % 256 * 256 + n % 256 ≡ n
join_32 n = omega arith
