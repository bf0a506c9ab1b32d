-- ===== src/Util/Endian.antt =====
-- util/endian.h: byte order. A word of `k` bytes is a number below 256 ^ k. The order of the host
-- (LON_ENDIAN) is fixed when the program is built, so it is an argument here.
pub mod Laws
use lo_netfw.Base.{ℕ, zero, suc, ◌+◌, ◌*◌, ◌/◌, ◌%◌, List, [], ◌∷◌, Bool, true, false}
use mathlib.Core.List.{reverse}

pub data Endian : Type 0 where
  little : Endian
  big : Endian

-- The bytes of a word, lowest first.
unfoldable pub to_bytes : ℕ → ℕ → List ℕ
to_bytes zero v = []
to_bytes (suc k) v = (v % 256) ∷ to_bytes k (v / 256)

unfoldable pub of_bytes : List ℕ → ℕ
of_bytes [] = 0
of_bytes (b ∷ bs) = b + 256 * of_bytes bs

-- `byteswap` at a type of `k` bytes: `bswap_16`, `bswap_32` and `bswap_64` reverse the bytes.
unfoldable pub byteswap : ℕ → ℕ → ℕ
unfolding to_bytes of_bytes
byteswap k v = of_bytes (reverse (to_bytes k v))

-- What a word of `k` bytes is in the memory of a host, as `memcpy` reads and writes it.
unfoldable pub memory : Endian → ℕ → ℕ → List ℕ
memory little k v = to_bytes k v
memory big k v = reverse (to_bytes k v)

unfoldable pub of_memory : Endian → List ℕ → ℕ
of_memory little bs = of_bytes bs
of_memory big bs = of_bytes (reverse bs)

-- `x == y` on the LON_..._ENDIAN constants.
abbrev pub same_endian : Endian → Endian → Bool
same_endian little little = true
same_endian big big = true
same_endian _ _ = false

unfoldable pub byteswap_to_big_endian : Endian → ℕ → ℕ → ℕ
byteswap_to_big_endian little k v = byteswap k v
byteswap_to_big_endian big k v = v

unfoldable pub byteswap_to_little_endian : Endian → ℕ → ℕ → ℕ
byteswap_to_little_endian little k v = v
byteswap_to_little_endian big k v = byteswap k v
