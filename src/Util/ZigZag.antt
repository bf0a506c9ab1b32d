-- ===== src/Util/ZigZag.antt =====
-- The class ZigZag of util/serializer.h and util/serializer.cpp: signed words coded so that small
-- magnitudes become small unsigned words. A word of `w + 1` bits is its bit pattern, below
-- 2 ^ (w + 1). The 16-bit versions work on promoted `int` values and cut the result to 16 bits,
-- which gives the same low bits.
pub mod Laws
use lo_netfw.Base.{ℕ, suc, ◌-◌, ◌*◌, ◌/◌, ◌%◌, ◌^◌, bit_and, bit_xor, ltb, if◌then◌else◌}

-- `n >> (sizeof(n) * 8 - 1)`, an arithmetic shift: the sign bit in every place.
abbrev sign_fill : ℕ → ℕ → ℕ
sign_fill w n = if ltb n (2 ^ w) then 0 else 2 ^ suc w - 1

-- `-b` for a bit `b`, as a word.
abbrev negate_bit : ℕ → ℕ → ℕ
negate_bit w b = (2 ^ suc w - b) % 2 ^ suc w

-- `(n << 1) ^ (n >> (sizeof(n) * 8 - 1))`
unfoldable pub encode : ℕ → ℕ → ℕ
encode w n = bit_xor (n * 2 % 2 ^ suc w) (sign_fill w n)

-- `(n >> 1) ^ -(n & 1)`
unfoldable pub decode : ℕ → ℕ → ℕ
decode w n = bit_xor (n / 2) (negate_bit w (bit_and n 1))

unfoldable pub encode16 : ℕ → ℕ
encode16 n = encode 15 n

unfoldable pub decode16 : ℕ → ℕ
decode16 n = decode 15 n

unfoldable pub encode32 : ℕ → ℕ
encode32 n = encode 31 n

unfoldable pub decode32 : ℕ → ℕ
decode32 n = decode 31 n

unfoldable pub encode64 : ℕ → ℕ
encode64 n = encode 63 n

unfoldable pub decode64 : ℕ → ℕ
decode64 n = decode 63 n
