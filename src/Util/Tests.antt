-- ===== src/Util/Tests.antt =====
-- Runs of the theorems about util/ on one small array: three nodes of four bytes, ten bytes of data,
-- and the position in the middle of the second node.
use lo_netfw.Base.{ℕ, ◌+◌, ◌-◌, ◌*◌, ◌/◌, ◌≡◌, refl, arith, List, [], ◌∷◌}
use lo_netfw.Util.Endian.{little, big, memory, of_memory}
use lo_netfw.Util.Endian.Laws.{in_order, in_order-of_memory}
use lo_netfw.Util.ByteArray.Defs.{ByteArray, CeilFloat, ok, thrown, ◌>>◌, write}
use lo_netfw.Util.ByteArray.Access.{read, set_position}
use lo_netfw.Util.ByteArray.Cells.{byte, slice}
use lo_netfw.Util.ByteArray.Invariant.{IsValid}
use lo_netfw.Util.ByteArray.Write.{Stored, write-Stored}
use lo_netfw.Util.ByteArray.Reading.{Consumed, read-slice}
use lo_netfw.Util.ByteArray.Seek.{set_position_outside}
use lo_netfw.Util.ByteArray.RoundTrip.{read-write}
use lo_netfw.Util.ByteArray.Typed.{write_uint64, read_uint64}
use lo_netfw.Util.ByteArray.Messages.{ComesBack, read_uint64-write_uint64}

abbrev ceil_exact : CeilFloat
ceil_exact = record {
  ceil_quot = λ size node. (size + node - 1) / node;
  exact = λ size node h pos small. refl;
}

abbrev array : ByteArray
array = record {
  node_size = 4;
  mem = λ i j. i * 4 + j + 100;
  count = 3;
  cur = 1;
  total_size = 12;
  data_size = 10;
  position = 6;
  ba_endian = big;
}

array-IsValid : IsValid array
array-IsValid = omega arith

abbrev text : List ℕ
text = 1 ∷ 2 ∷ 3 ∷ 4 ∷ 5 ∷ 6 ∷ 7 ∷ []

write-Stored_example :
    (t : ByteArray) × (write ceil_exact text array ≡ ok tt t) × Stored array text t
write-Stored_example = write-Stored ceil_exact text array array-IsValid (omega arith) (omega arith)

read-slice_example :
    (t : ByteArray) × (read 4 array ≡ ok (slice (byte array) 6 4) t) × Consumed array 4 t
read-slice_example = read-slice 4 array array-IsValid (omega arith)

set_position_outside_example : set_position 13 array ≡ thrown array
set_position_outside_example = set_position_outside 13 array (omega arith)

read-write_example :
    (t : ByteArray) × ((write ceil_exact text >> set_position 6 >> read 7) array ≡ ok text t)
    × IsValid t
read-write_example = read-write ceil_exact text array array-IsValid (omega arith) (omega arith)

read_uint64-write_uint64_example : ComesBack array (write_uint64 ceil_exact 70000) read_uint64 70000
read_uint64-write_uint64_example =
    read_uint64-write_uint64 ceil_exact array array-IsValid (omega arith) 70000 (omega arith)

in_order-of_memory_example : in_order big little 4 (of_memory little (memory big 4 70000)) ≡ 70000
in_order-of_memory_example = in_order-of_memory big little 4 70000 (omega arith)
