-- ===== src/Util/ByteArray/Access.antt =====
-- The rest of class ByteArray that does not depend on the type of the data: reading, moving the
-- position, the sizes and the lists of buffers for scattered input and output.
use lo_netfw.Base.{
  ℕ, zero, suc, ◌+◌, ◌-◌, ◌/◌, ◌%◌, Bool, true, false, List, [], ◌∷◌, ◌++◌, ltb, leb, ◌==◌, sub64,
  if◌then◌else◌,
}
use lo_netfw.Util.Endian.{big, little}
use lo_netfw.Util.ByteArray.Defs.{
  ByteArray, Outcome, ok, thrown, fault, unfinished, M, bind, CeilFloat, fetch, advance, at_node,
  get_read_size, add_total_size,
}

-- The loop of ByteArray::read: the bytes that are copied to the caller's buffer.
unfoldable pub read_loop : ℕ → ℕ → ℕ → ℕ → M (List ℕ)
read_loop fuel node_pos node_remain zero s = ok [] s
read_loop zero node_pos node_remain (suc n) s = unfinished
read_loop (suc fuel) node_pos node_remain (suc n) s =
    let size = suc n in
    let taken = record s { cur = advance s (node_pos + size); position = s.position + size } in
    let part = record s { cur = s.cur + 1; position = s.position + node_remain } in
    let rest =
      bind (read_loop fuel 0 s.node_size (size - node_remain) part)
        (λ bytes. ok (fetch s.mem s.cur node_pos node_remain ++ bytes)) in
    if leb size node_remain
    then ok (fetch s.mem s.cur node_pos size) taken
    else if leb s.count (s.cur + 1)
    then fault
    else rest

-- ByteArray::read(void *, size_t)
unfoldable pub read : ℕ → M (List ℕ)
unfolding get_read_size read_loop
read zero s = ok [] s
read (suc n) s =
    let go = at_node (λ node_pos node_remain. read_loop (suc n) node_pos node_remain (suc n)) s in
    if ltb (get_read_size s) (suc n) then thrown s else go

-- What a `const` call gives: its state is thrown away.
abbrev pub keep_state : {A : Type 0} → ByteArray → Outcome A → Outcome A
keep_state s (ok a t) = ok a s
keep_state s (thrown t) = thrown s
keep_state s fault = fault
keep_state s unfinished = unfinished

-- ByteArray::read(void *, size_t, size_t) const. It starts in the node of `m_cur`, at the place that
-- `position` has in its own node.
unfoldable pub read_at : ℕ → ℕ → M (List ℕ)
unfolding read_loop
read_at zero position s = ok [] s
read_at (suc n) position s =
    let go = keep_state s (
      at_node (λ node_pos node_remain. read_loop (suc n) node_pos node_remain (suc n))
        (record s { position = position })) in
    if ltb (sub64 s.data_size position) (suc n) then thrown s else go

-- The loop of ByteArray::setPosition, and the step to the next node after it.
unfoldable pub seek_loop : ℕ → ℕ → ℕ → ByteArray → Outcome (Unit {0})
seek_loop zero node pos s = unfinished
seek_loop (suc fuel) node pos s =
    let rest = seek_loop fuel (node + 1) (pos - s.node_size) s in
    let there = if pos == s.node_size then node + 1 else node in
    if ltb s.node_size pos
    then if leb s.count (node + 1) then fault else rest
    else ok tt (record s { cur = there })

-- ByteArray::setPosition
unfoldable pub set_position : ℕ → M (Unit {0})
unfolding seek_loop
set_position pos s =
    let moved = record s {
      position = pos;
      data_size = if ltb s.data_size pos then pos else s.data_size;
    } in
    let go = seek_loop s.count 0 pos moved in if ltb s.total_size pos then thrown s else go

-- ByteArray::count
unfoldable pub node_count : ByteArray → ℕ
node_count s = s.data_size / s.node_size + (if ltb 0 (s.data_size % s.node_size) then 1 else 0)

-- ByteArray::toString
unfoldable pub to_string : M (List ℕ)
unfolding read_at get_read_size
to_string s = read_at (get_read_size s) s.position s

-- ByteArray::isLittleEndian and ByteArray::setLittleEndian
unfoldable pub is_little_endian : ByteArray → Bool
is_little_endian s = elim s.ba_endian [ little ↦ true | big ↦ false ]

unfoldable pub set_little_endian : Bool → ByteArray → ByteArray
set_little_endian is_little s = record s { ba_endian = if is_little then little else big }

-- An `iovec` points into a node.
pub record Iovec : Type 0 where
  pub node : ℕ
  pub base : ℕ
  pub len : ℕ

abbrev pub iovec : ℕ → ℕ → ℕ → Iovec
iovec node base len = record { node = node; base = base; len = len }

-- The loop that the three functions below share; `none` there is a null pointer that is followed.
unfoldable pub buffers_loop : ℕ → ℕ → ℕ → ℕ → ℕ → M (List Iovec)
buffers_loop fuel node node_pos node_remain zero s = ok [] s
buffers_loop zero node node_pos node_remain (suc n) s = unfinished
buffers_loop (suc fuel) node node_pos node_remain (suc n) s =
    let len = suc n in
    let rest =
      bind (buffers_loop fuel (node + 1) 0 s.node_size (len - node_remain) s)
        (λ bufs. ok (iovec node node_pos node_remain ∷ bufs)) in
    if leb len node_remain
    then ok (iovec node node_pos len ∷ []) s
    else if leb s.count (node + 1)
    then fault
    else rest

-- The three calls add to the caller's vector; here they return what they add.
unfoldable pub get_read_buffers : ℕ → M (List Iovec)
unfolding buffers_loop
get_read_buffers len s =
    let left = sub64 s.data_size s.position in
    let len' = if ltb left len then left else len in
    let go =
      at_node (λ node_pos node_remain. buffers_loop len' s.cur node_pos node_remain len') s in
    if len' == 0 then ok [] s else go

-- The version with a position of its own walks to its node from `m_root`, but takes the size of a
-- node from `m_cur`.
unfoldable pub get_read_buffers_at : ℕ → ℕ → M (List Iovec)
unfolding buffers_loop
get_read_buffers_at len position s =
    let left = sub64 s.data_size position in
    let len' = if ltb left len then left else len in
    let node = position / s.node_size in
    let go = keep_state s (
      at_node (λ node_pos node_remain. buffers_loop len' node node_pos node_remain len')
        (record s { position = position })) in
    if len' == 0 then ok [] s else if leb s.count node then fault else go

unfoldable pub get_write_buffers : CeilFloat → ℕ → M (List Iovec)
unfolding buffers_loop
get_write_buffers fl len s =
    let grown = add_total_size fl len s in
    let go =
      at_node (λ node_pos node_remain. buffers_loop len grown.cur node_pos node_remain len) grown in
    if len == 0 then ok [] s else go
