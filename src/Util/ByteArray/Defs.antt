-- ===== src/Util/ByteArray/Defs.antt =====
-- State of a ByteArray, and the operations that move raw bytes. The chain of nodes from `m_root` is
-- numbered from 0; every node holds `node_size` bytes. `mem i j` is byte `j` of node `i`; bytes that
-- were never written, and those of nodes yet to be allocated, hold any values. `cur` is the number
-- of the node of `m_cur`, and `cur = count` stands for a null pointer, which is what `next` of the
-- last node is. A `size_t` counts bytes that are allocated, so sums stay in range; a difference
-- that may be negative wraps (`sub64`).
use lo_netfw.Base.{
  ℕ, zero, suc, ◌+◌, ◌-◌, ◌/◌, ◌%◌, ◌<◌, ◌^◌, ◌≡◌, ◌&&◌, List, [], ◌∷◌, length, take, drop, get_or,
  ltb, leb, ◌==◌, sub64, if◌then◌else◌,
}
use lo_netfw.Util.Endian.{Endian, big}

pub record ByteArray : Type 0 where
  pub node_size : ℕ
  pub mem : ℕ → ℕ → ℕ
  pub count : ℕ
  pub cur : ℕ
  pub total_size : ℕ
  pub data_size : ℕ
  pub position : ℕ
  pub ba_endian : Endian

-- A call returns, throws `std::runtime_error` and leaves a state behind, or does what is undefined:
-- a null pointer followed, or a remainder by 0. `unfinished` is no C++ outcome: fuel ran out.
pub data Outcome (A : Type 0) : Type 0 where
  ok : A → ByteArray → Outcome A
  thrown : ByteArray → Outcome A
  fault : Outcome A
  unfinished : Outcome A

abbrev pub M : Type 0 → Type 0
M A = ByteArray → Outcome A

abbrev pub pure : {A : Type 0} → A → M A
pure a s = ok a s

abbrev pub bind : {A B : Type 0} → Outcome A → (A → M B) → Outcome B
bind (ok a s) f = f a s
bind (thrown s) f = thrown s
bind fault f = fault
bind unfinished f = unfinished

infixl 5 ◌>>=◌ ◌>>◌
abbrev pub ◌>>=◌ : {A B : Type 0} → M A → (A → M B) → M B
◌>>=◌ m f s = bind (m s) f

abbrev pub ◌>>◌ : {B : Type 0} → M (Unit {0}) → M B → M B
m >> k = m >>= λ _. k

-- `ceil(size * 1.0f / node_size)`: single precision, so it is a parameter. A quotient of two numbers
-- below 2 ^ 24 is never rounded up to the next whole number nor down to one.
pub record CeilFloat : Type 0 where
  pub ceil_quot : ℕ → ℕ → ℕ
  pub exact :
      (size node : ℕ)
      → size < 2 ^ 24
      → 0 < node
      → node < 2 ^ 24
      → ceil_quot size node ≡ (size + node - 1) / node

-- ByteArray::ByteArray, over any contents of fresh memory.
unfoldable pub create : (ℕ → ℕ → ℕ) → ℕ → ByteArray
create mem node_size = record {
  node_size = node_size;
  mem = mem;
  count = 1;
  cur = 0;
  total_size = node_size;
  data_size = 0;
  position = 0;
  ba_endian = big;
}

-- ByteArray::clear
unfoldable pub clear : M (Unit {0})
clear s =
    ok tt (record s { position = 0; data_size = 0; total_size = s.node_size; count = 1; cur = 0 })

unfoldable pub get_remain_size : ByteArray → ℕ
get_remain_size s = sub64 s.total_size s.position

unfoldable pub get_read_size : ByteArray → ℕ
get_read_size s = sub64 s.data_size s.position

-- The loop of addTotalSize: one more node at the end of the chain each round.
unfoldable pub add_nodes : ℕ → ByteArray → ByteArray
add_nodes zero s = s
add_nodes (suc n) s =
    add_nodes n (record s { count = s.count + 1; total_size = s.total_size + s.node_size })

-- ByteArray::addTotalSize. With no node added `new_node_first` is null.
unfoldable pub add_total_size : CeilFloat → ℕ → ByteArray → ByteArray
unfolding get_remain_size add_nodes
add_total_size fl size s =
    let old_remain = get_remain_size s in
    let more = fl.ceil_quot (size - old_remain) s.node_size in
    let grown = add_nodes more s in
    if size == 0
    then s
    else if leb size old_remain
    then s
    else if old_remain == 0
    then record grown { cur = s.count }
    else grown

-- `memcpy(node->data + at, bytes, ...)`
abbrev pub fill : (ℕ → ℕ → ℕ) → ℕ → ℕ → List ℕ → ℕ → ℕ → ℕ
fill mem node at bytes i j =
    if i == node && (leb at j && ltb j (at + length bytes))
    then get_or bytes (j - at) 0
    else mem i j

-- `memcpy(..., node->data + at, k)`
unfoldable pub fetch : (ℕ → ℕ → ℕ) → ℕ → ℕ → ℕ → List ℕ
fetch mem node at zero = []
fetch mem node at (suc k) = mem node at ∷ fetch mem node (at + 1) k

-- `m_cur = m_cur->next` when the node has been used up to its end.
abbrev pub advance : ByteArray → ℕ → ℕ
advance s end = if s.node_size == end then s.cur + 1 else s.cur

-- The state after the last copy of the loop of write, and after a copy that fills a node.
abbrev pub after_last : ByteArray → ℕ → List ℕ → ByteArray
after_last s node_pos bytes = record s {
  mem = fill s.mem s.cur node_pos bytes;
  cur = advance s (node_pos + length bytes);
  position = s.position + length bytes;
}

abbrev pub after_part : ByteArray → ℕ → ℕ → List ℕ → ByteArray
after_part s node_pos node_remain bytes = record s {
  mem = fill s.mem s.cur node_pos (take node_remain bytes);
  cur = s.cur + 1;
  position = s.position + node_remain;
}

-- The loop of ByteArray::write. `bytes` is the part of the buffer from `buf_pos` on.
unfoldable pub write_loop : ℕ → ℕ → ℕ → List ℕ → M (Unit {0})
write_loop zero node_pos node_remain [] s = ok tt s
write_loop zero node_pos node_remain (b ∷ bs) s = unfinished
write_loop (suc fuel) node_pos node_remain [] s = ok tt s
write_loop (suc fuel) node_pos node_remain (b ∷ bs) s =
    let bytes = b ∷ bs in
    let rest =
      write_loop fuel 0 s.node_size (drop node_remain bytes)
        (after_part s node_pos node_remain bytes) in
    if leb (length bytes) node_remain
    then ok tt (after_last s node_pos bytes)
    else if leb s.count (s.cur + 1)
    then fault
    else rest

-- `if (m_position > m_data_size) m_data_size = m_position;`
abbrev pub cover : ByteArray → ByteArray
cover s = if ltb s.data_size s.position then record s { data_size = s.position } else s

-- What stands before the loops of write and read: the remainder and `m_cur->size`.
abbrev pub at_node : {A : Type 0} → (ℕ → ℕ → M A) → M A
at_node go s =
    let node_pos = s.position % s.node_size in
    let rest = go node_pos (s.node_size - node_pos) s in
    if s.node_size == 0 then fault else if leb s.count s.cur then fault else rest

unfoldable pub write : CeilFloat → List ℕ → M (Unit {0})
unfolding add_total_size write_loop
write fl [] s = ok tt s
write fl (b ∷ bs) s =
    let bytes = b ∷ bs in
    bind
      (at_node (λ node_pos node_remain. write_loop (length bytes) node_pos node_remain bytes)
        (add_total_size fl (length bytes) s))
      (λ _ s'. ok tt (cover s'))
