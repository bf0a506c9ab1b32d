-- ===== src/Util/ByteArray/Messages.antt =====
-- Round trips of the compressed integers and of the strings with a length in front.
use lo_netfw.Base.{ℕ, ◌%◌, ◌^◌, ◌<◌, ◌≡◌, refl, ap, ◌∙◌, arith, List, ◌++◌, length}
use lo_netfw.Util.Endian.{Endian, memory}
use lo_netfw.Util.ZigZag.{encode32, decode32, encode64, decode64}
use lo_netfw.Util.ZigZag.Laws.{decode-encode, encode-lt}
use lo_netfw.Util.Varint.Laws.{groups}
use lo_netfw.Util.ByteArray.Defs.{ByteArray, ok, bind, ◌>>=◌, ◌>>◌, M, pure, CeilFloat, write}
use lo_netfw.Util.ByteArray.Access.{set_position, read}
use lo_netfw.Util.ByteArray.Invariant.{IsValid}
use lo_netfw.Util.ByteArray.Typed.{
  write_uint32, write_uint64, write_int32, write_int64, read_uint32, read_uint64, read_int32,
  read_int64, write_string_vint, read_string_vint, write_string_f_int16, read_string_f_int16,
  write_f_uint16, read_f_uint16,
}
use lo_netfw.Util.ByteArray.Codec.{
  Parses, write-Emits, read-Parses, >>=-Parses, >>-Emits, Parses-Emits,
}
use lo_netfw.Util.ByteArray.Words.{write_word-Emits, read_word-Parses}
use lo_netfw.Util.ByteArray.Groups.{
  write_uint32-Emits, write_uint64-Emits, read_uint32-Parses, read_uint64-Parses,
}
use native.Mathlib.Nat.{mod-eq_of_lt}

-- Written with `op` at the position and read with `next` from there, `a` comes back and the array
-- stays valid.
abbrev pub ComesBack : {A : Type 0} → ByteArray → M (Unit {0}) → M A → A → Type 0
ComesBack s op next a =
    (t : ByteArray) × ((op >> set_position s.position >> next) s ≡ ok a t) × IsValid t

mapped-Parses :
    {A B : Type 0} (e : Endian) (op : M A) (f : A → B) (bytes : List ℕ) (a : A) (b : B)
    → f a ≡ b
    → Parses e op bytes a
    → Parses e (op >>= λ x. pure (f x)) bytes b
mapped-Parses e op f bytes a b h parses s valid order room holds =
    let (t, p, c) = parses s valid order room holds in
    (t, ap (λ o. bind o (λ x. pure (f x))) p ∙ ap (λ y. ok y t) h, c)

module _ (fl : CeilFloat) (s : ByteArray) (valid : IsValid s) (node : s.node_size < 2 ^ 24) where
  -- For a valid array with nodes below 2^24 bytes, a compressed 32-bit integer that is written and
  -- read from where it was written comes back, and the array stays valid.
  read_uint32-write_uint32 : (v : ℕ) → v < 2 ^ 32 → ComesBack s (write_uint32 fl v) read_uint32 v
  read_uint32-write_uint32 v h =
      Parses-Emits s.ba_endian (write_uint32 fl v) read_uint32 (groups 4 v) v
        (write_uint32-Emits fl s.ba_endian v h) (read_uint32-Parses s.ba_endian v h) s valid refl
        node

  -- For a valid array with nodes below 2^24 bytes, a compressed 64-bit integer that is written and
  -- read from where it was written comes back, and the array stays valid.
  pub read_uint64-write_uint64 :
      (v : ℕ) → v < 2 ^ 64 → ComesBack s (write_uint64 fl v) read_uint64 v
  read_uint64-write_uint64 v h =
      Parses-Emits s.ba_endian (write_uint64 fl v) read_uint64 (groups 9 v) v
        (write_uint64-Emits fl s.ba_endian v h) (read_uint64-Parses s.ba_endian v h) s valid refl
        node

  -- For a valid array with nodes below 2^24 bytes, a compressed signed 32-bit integer that is
  -- written and read from where it was written comes back, and the array stays valid.
  read_int32-write_int32 : (v : ℕ) → v < 2 ^ 32 → ComesBack s (write_int32 fl v) read_int32 v
  unfolding write_int32 read_int32 encode32 decode32
  read_int32-write_int32 v h =
      let small : encode32 v < 2 ^ 32 = encode-lt 31 v h in
      Parses-Emits s.ba_endian (write_uint32 fl (encode32 v)) read_int32 (groups 4 (encode32 v)) v
        (write_uint32-Emits fl s.ba_endian (encode32 v) small)
        (mapped-Parses s.ba_endian read_uint32 decode32 (groups 4 (encode32 v)) (encode32 v) v
          (decode-encode 31 v h) (read_uint32-Parses s.ba_endian (encode32 v) small))
        s valid refl node

  -- For a valid array with nodes below 2^24 bytes, a compressed signed 64-bit integer that is
  -- written and read from where it was written comes back, and the array stays valid.
  read_int64-write_int64 : (v : ℕ) → v < 2 ^ 64 → ComesBack s (write_int64 fl v) read_int64 v
  unfolding write_int64 read_int64 encode64 decode64
  read_int64-write_int64 v h =
      let small : encode64 v < 2 ^ 64 = encode-lt 63 v h in
      Parses-Emits s.ba_endian (write_uint64 fl (encode64 v)) read_int64 (groups 9 (encode64 v)) v
        (write_uint64-Emits fl s.ba_endian (encode64 v) small)
        (mapped-Parses s.ba_endian read_uint64 decode64 (groups 9 (encode64 v)) (encode64 v) v
          (decode-encode 63 v h) (read_uint64-Parses s.ba_endian (encode64 v) small))
        s valid refl node

  -- For a valid array with nodes below 2^24 bytes, a string of less than 2^24 bytes that is
  -- written with a compressed length in front and read from where it was written comes back, and
  -- the array stays valid.
  read_string_vint-write_string_vint :
      (text : List ℕ)
      → length text < 2 ^ 24
      → ComesBack s (write_string_vint fl text) read_string_vint text
  unfolding write_string_vint read_string_vint
  read_string_vint-write_string_vint text h =
      Parses-Emits s.ba_endian (write_string_vint fl text) read_string_vint
        (groups 9 (length text) ++ text) text
        (>>-Emits s.ba_endian (write_uint64 fl (length text)) (write fl text)
          (groups 9 (length text)) text
          (write_uint64-Emits fl s.ba_endian (length text) (omega arith))
          (write-Emits fl s.ba_endian text h))
        (>>=-Parses s.ba_endian read_uint64 read (groups 9 (length text)) text (length text) text
          (read_uint64-Parses s.ba_endian (length text) (omega arith))
          (read-Parses s.ba_endian text))
        s valid refl node

  -- For a valid array with nodes below 2^24 bytes, a string of less than 2^16 bytes that is
  -- written with a 16-bit length in front by a host of one byte order is read back from there by a
  -- host of any, and the array stays valid.
  read_string_f_int16-write_string_f_int16 :
      (writer reader : Endian) (text : List ℕ)
      → length text < 2 ^ 16
      → ComesBack s (write_string_f_int16 fl writer text) (read_string_f_int16 reader) text
  unfolding write_string_f_int16 read_string_f_int16 write_f_uint16 read_f_uint16
  read_string_f_int16-write_string_f_int16 writer reader text h =
      Parses-Emits s.ba_endian (write_string_f_int16 fl writer text) (read_string_f_int16 reader)
        (memory s.ba_endian 2 (length text % 2 ^ 16) ++ text) text
        (>>-Emits s.ba_endian (write_f_uint16 fl writer (length text % 2 ^ 16)) (write fl text)
          (memory s.ba_endian 2 (length text % 2 ^ 16)) text
          (write_word-Emits fl writer s.ba_endian 2 (length text % 2 ^ 16) (omega arith))
          (write-Emits fl s.ba_endian text (omega arith)))
        (>>=-Parses s.ba_endian (read_f_uint16 reader) read
          (memory s.ba_endian 2 (length text % 2 ^ 16)) text (length text % 2 ^ 16) text
          (read_word-Parses reader s.ba_endian 2 (length text % 2 ^ 16) (omega arith))
          (rw (mod-eq_of_lt {n = length text} {m = 2 ^ 16} h) (read-Parses s.ba_endian text)))
        s valid refl node
