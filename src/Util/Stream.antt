-- ===== src/Util/Stream.antt =====
-- The class Stream of util/stream.cpp: the loops of readF and writeF over the abstract read and write
-- of a stream, whose state has the type `S`. Each round of a loop moves a byte at least, so as many
-- rounds as there are bytes are given; the result is none when they do not do.
pub mod Whole
mod Tests
use lo_netfw.Base.{ℕ, zero, suc, ◌-◌, List, [], ◌∷◌, ◌++◌, Option, none, some, length, drop}
use lo_netfw.Base.Int.{ℤ, pos, negsuc}

-- `read(void *, size_t)` gives bytes, `write(const void *, size_t)` takes them, and the two on a
-- ByteArray, which is part of the state, are given the number that is left.
pub record Stream (S : Type 0) : Type 0 where
  pub read : ℕ → S → ℤ × List ℕ × S
  pub write : List ℕ → S → ℤ × S
  pub read_array : ℕ → S → ℤ × S
  pub write_array : ℕ → S → ℤ × S

module _ {S : Type 0} (stream : Stream S) where
  abbrev pub after_write : (ℕ → S → Option (ℤ × S)) → ℤ × S → Option (ℤ × S)
  after_write go (negsuc n, s) = some (negsuc n, s)
  after_write go (pos zero, s) = some (pos zero, s)
  after_write go (pos (suc n), s) = go (suc n) s

  abbrev pub write_loop : ℕ → ℕ → List ℕ → S → Option (ℤ × S)
  write_loop len rounds [] s = some (pos len, s)
  write_loop len zero (x ∷ more) s = none
  write_loop len (suc rounds) (x ∷ more) s =
      after_write (λ n s'. write_loop len rounds (drop n (x ∷ more)) s') (stream.write (x ∷ more) s)

  -- Stream::writeF of bytes
  unfoldable pub write_f : List ℕ → S → Option (ℤ × S)
  write_f buf s = write_loop (length buf) (length buf) buf s

  abbrev pub after_read :
      List ℕ → (ℕ → List ℕ → S → Option (ℤ × List ℕ × S)) → ℤ × List ℕ × S → Option (ℤ × List ℕ × S)
  after_read got go (negsuc n, bytes, s) = some (negsuc n, got, s)
  after_read got go (pos zero, bytes, s) = some (pos zero, got, s)
  after_read got go (pos (suc n), bytes, s) = go (suc n) (got ++ bytes) s

  -- `got` stands in front of `buf + offset`.
  abbrev pub read_loop : ℕ → ℕ → ℕ → List ℕ → S → Option (ℤ × List ℕ × S)
  read_loop len rounds zero got s = some (pos len, got, s)
  read_loop len zero (suc left) got s = none
  read_loop len (suc rounds) (suc left) got s =
      after_read got (λ n got' s'. read_loop len rounds (suc left - n) got' s')
        (stream.read (suc left) s)

  -- Stream::readF of bytes: the result, and what the buffer then holds.
  unfoldable pub read_f : ℕ → S → Option (ℤ × List ℕ × S)
  read_f len s = read_loop len len len [] s

  abbrev pub array_loop : (ℕ → S → ℤ × S) → ℕ → ℕ → ℕ → S → Option (ℤ × S)
  array_loop step len rounds zero s = some (pos len, s)
  array_loop step len zero (suc left) s = none
  array_loop step len (suc rounds) (suc left) s =
      after_write (λ n s'. array_loop step len rounds (suc left - n) s') (step (suc left) s)

  -- Stream::readF and Stream::writeF of a ByteArray
  unfoldable pub read_array_f : ℕ → S → Option (ℤ × S)
  read_array_f len s = array_loop stream.read_array len len len s

  unfoldable pub write_array_f : ℕ → S → Option (ℤ × S)
  write_array_f len s = array_loop stream.write_array len len len s
