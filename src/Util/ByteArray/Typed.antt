-- ===== src/Util/ByteArray/Typed.antt =====
-- The typed reads and writes of class ByteArray, for a host of byte order `host`. An integer of any
-- sign is its bit pattern, and a `std::string` the list of its bytes.
use lo_netfw.Base.{
  ℕ, zero, suc, ◌+◌, ◌*◌, ◌%◌, ◌^◌, bit_and, bit_or, List, [], ◌∷◌, some, length, take, get_or,
  replicate, ltb, if◌then◌else◌,
}
use lo_netfw.Util.Endian.{Endian, memory, of_memory}
use lo_netfw.Util.Endian.Laws.{in_order}
use lo_netfw.Util.ZigZag
use lo_netfw.Util.Varint
use lo_netfw.Util.Varint.{Encoded, null_buffer, written, overrun}
use lo_netfw.Util.ByteArray.Defs.{
  ok, fault, unfinished, M, pure, bind, ◌>>=◌, ◌>>◌, CeilFloat, write,
}
use lo_netfw.Util.ByteArray.Access.{read}

-- `data = (m_ba_endian == LON_ENDIAN) ? data : util::byteswap(data); write(&data, sizeof(data));`
unfoldable pub write_word : CeilFloat → Endian → ℕ → ℕ → M (Unit {0})
write_word fl host k v s = write fl (memory host k (in_order s.ba_endian host k v)) s

-- `read(&data, sizeof(data)); return (m_ba_endian == LON_ENDIAN) ? data : util::byteswap(data);`
unfoldable pub read_word : Endian → ℕ → M ℕ
read_word host k s =
    bind (read k s) (λ bytes t. ok (in_order t.ba_endian host k (of_memory host bytes)) t)

module _ (fl : CeilFloat) where
  unfoldable pub write_f_int8 : ℕ → M (Unit {0})
  write_f_int8 v = write fl (v ∷ [])

  unfoldable pub write_f_uint8 : ℕ → M (Unit {0})
  write_f_uint8 v = write fl (v ∷ [])

  -- `write(buf, len)` of what the encoder put into its buffer.
  abbrev pub write_encoded : Encoded → M (Unit {0})
  write_encoded null_buffer s = fault
  write_encoded (written buf len) s = write fl (take len buf) s
  write_encoded overrun s = fault

  -- `uint8_t buf[5]`: what it holds at first is never written out.
  unfoldable pub write_uint32 : ℕ → M (Unit {0})
  write_uint32 v = write_encoded (Varint.encode32 (some (replicate 5 0)) v)

  unfoldable pub write_int32 : ℕ → M (Unit {0})
  write_int32 v = write_uint32 (ZigZag.encode32 v)

  unfoldable pub write_uint64 : ℕ → M (Unit {0})
  write_uint64 v = write_encoded (Varint.encode64 (some (replicate 10 0)) v)

  unfoldable pub write_int64 : ℕ → M (Unit {0})
  write_int64 v = write_uint64 (ZigZag.encode64 v)

  unfoldable pub write_string_vint : List ℕ → M (Unit {0})
  write_string_vint text = write_uint64 (length text) >> write fl text

  unfoldable pub write_string : List ℕ → M (Unit {0})
  write_string text = write fl text

module _ (fl : CeilFloat) (host : Endian) where
  unfoldable pub write_f_int16 : ℕ → M (Unit {0})
  write_f_int16 = write_word fl host 2

  unfoldable pub write_f_uint16 : ℕ → M (Unit {0})
  write_f_uint16 = write_word fl host 2

  unfoldable pub write_f_int32 : ℕ → M (Unit {0})
  write_f_int32 = write_word fl host 4

  unfoldable pub write_f_uint32 : ℕ → M (Unit {0})
  write_f_uint32 = write_word fl host 4

  unfoldable pub write_f_int64 : ℕ → M (Unit {0})
  write_f_int64 = write_word fl host 8

  unfoldable pub write_f_uint64 : ℕ → M (Unit {0})
  write_f_uint64 = write_word fl host 8

  -- The size is cut to the width of its field.
  unfoldable pub write_string_f_int16 : List ℕ → M (Unit {0})
  write_string_f_int16 text = write_f_uint16 (length text % 2 ^ 16) >> write fl text

  unfoldable pub write_string_f_int32 : List ℕ → M (Unit {0})
  write_string_f_int32 text = write_f_uint32 (length text % 2 ^ 32) >> write fl text

  unfoldable pub write_string_f_int64 : List ℕ → M (Unit {0})
  write_string_f_int64 text = write_f_uint64 (length text) >> write fl text

-- One byte, whatever the byte order.
unfoldable pub read_f_uint8 : M ℕ
read_f_uint8 = read 1 >>= λ bytes. pure (get_or bytes 0 0)

unfoldable pub read_f_int8 : M ℕ
read_f_int8 = read 1 >>= λ bytes. pure (get_or bytes 0 0)

-- One round of the loop of readUInt32 and readUInt64 for the byte `tmp`; `next` is the next round.
abbrev pub group_step : ℕ → ℕ → ℕ → (ℕ → M ℕ) → ℕ → M ℕ
group_step w cnt acc next tmp s =
    let rest = next (bit_or acc (bit_and tmp 127 * 2 ^ cnt % 2 ^ w)) s in
    if ltb tmp 128 then ok (bit_or acc (tmp * 2 ^ cnt % 2 ^ w)) s else rest

-- The loop, for a result of `w` bits. `cnt` goes up by 7 while it is below `w`, so eleven rounds are
-- enough for 64 bits.
unfoldable pub read_groups : ℕ → ℕ → ℕ → ℕ → M ℕ
unfolding read_f_uint8
read_groups zero w cnt acc s = unfinished
read_groups (suc fuel) w cnt acc s =
    let more = bind (read_f_uint8 s) (group_step w cnt acc (read_groups fuel w (cnt + 7))) in
    if ltb cnt w then more else ok acc s

unfoldable pub read_uint32 : M ℕ
unfolding read_groups
read_uint32 = read_groups 11 32 0 0

unfoldable pub read_int32 : M ℕ
read_int32 = read_uint32 >>= λ v. pure (ZigZag.decode32 v)

unfoldable pub read_uint64 : M ℕ
unfolding read_groups
read_uint64 = read_groups 11 64 0 0

unfoldable pub read_int64 : M ℕ
read_int64 = read_uint64 >>= λ v. pure (ZigZag.decode64 v)

module _ (host : Endian) where
  unfoldable pub read_f_int16 : M ℕ
  read_f_int16 = read_word host 2

  unfoldable pub read_f_uint16 : M ℕ
  read_f_uint16 = read_word host 2

  unfoldable pub read_f_int32 : M ℕ
  read_f_int32 = read_word host 4

  unfoldable pub read_f_uint32 : M ℕ
  read_f_uint32 = read_word host 4

  unfoldable pub read_f_int64 : M ℕ
  read_f_int64 = read_word host 8

  unfoldable pub read_f_uint64 : M ℕ
  read_f_uint64 = read_word host 8

  unfoldable pub read_string_f_int16 : M (List ℕ)
  read_string_f_int16 = read_f_uint16 >>= read

  unfoldable pub read_string_f_int32 : M (List ℕ)
  read_string_f_int32 = read_f_uint32 >>= read

  unfoldable pub read_string_f_int64 : M (List ℕ)
  read_string_f_int64 = read_f_uint64 >>= read

unfoldable pub read_string_vint : M (List ℕ)
read_string_vint = read_uint64 >>= read
