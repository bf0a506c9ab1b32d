-- ===== src/Util/Varint.antt =====
-- The class Varint of util/serializer.h and util/serializer.cpp: seven bits to a byte, lowest group
-- first, the top bit set on every byte but the last.
pub mod Laws
use lo_netfw.Base.{
  ℕ, suc, ◌+◌, ◌/◌, ◌<◌, ◌^◌, bit_and, bit_or, arith, List, [], ◌∷◌, Option, none, some, ltb,
  length, set, if◌then◌else◌,
}
use lo_netfw.Base.Order.{lt_wf}
use mathlib.Core.Logic.{dite}
use mathlib.Core.WellFounded.{Acc}
use native.Mathlib.Decide.{dec_lt}

-- What a call gives: -1 for a null pointer; the buffer and the count of bytes written to it; or a
-- write past the end of the buffer, which is undefined.
pub data Encoded : Type 0 where
  null_buffer : Encoded
  written : List ℕ → ℕ → Encoded
  overrun : Encoded

-- `buf[cnt] = byte`, and then what follows.
abbrev store : List ℕ → ℕ → ℕ → (List ℕ → Encoded) → Encoded
store buf cnt byte next = if ltb cnt (length buf) then next (set buf cnt byte) else overrun

pub shift_shrinks : (n : ℕ) → 127 < n → n / 128 < n
shift_shrinks n h = omega arith

-- `while (n > 0b01111111) { ... }`, and the byte after it. `cnt` counts at most ten bytes.
unfoldable pub encode_loop : List ℕ → ℕ → (n : ℕ) → Acc ◌<◌ n → Encoded
unfolding dec_lt
encode_loop buf cnt n (Acc.intro _ smaller) =
    dite (dec_lt 127 n)
      (λ more.
        store buf cnt (bit_or (bit_and n 127) 128)
          (λ buf'. encode_loop buf' (cnt + 1) (n / 128) (smaller (n / 128) (shift_shrinks n more))))
      (λ _. store buf cnt n (λ buf'. written buf' (cnt + 1)))

unfoldable pub encode : Option (List ℕ) → ℕ → Encoded
unfolding encode_loop lt_wf
encode none n = null_buffer
encode (some buf) n = encode_loop buf 0 n (lt_wf.apply n)

unfoldable pub encode16 : Option (List ℕ) → ℕ → Encoded
encode16 buf n = encode buf n

unfoldable pub encode32 : Option (List ℕ) → ℕ → Encoded
encode32 buf n = encode buf n

unfoldable pub encode64 : Option (List ℕ) → ℕ → Encoded
encode64 buf n = encode buf n
