-- ===== src/Util/ByteArray/Seek.antt =====
-- ByteArray::setPosition, and what is read back after a write.
use lo_netfw.Base.{
  ℕ, zero, suc, ◌+◌, ◌-◌, ◌*◌, ◌≤◌, ◌<◌, ◌≡◌, refl, ap, arith, max, ltb, ◌==◌, if◌then◌else◌,
  Bool-cases, inl, inr, ltb→lt, ltb→le, lt→leb, lt→ltb, le→ltb, ==_iff, ◌≢◌,
}
use lo_netfw.Util.ByteArray.Defs.{ByteArray, Outcome, ok, thrown}
use lo_netfw.Util.ByteArray.Access.{seek_loop, set_position}
use lo_netfw.Util.ByteArray.Cells.{row_lt}
use lo_netfw.Util.ByteArray.Invariant.{IsValid}

-- The loop ends at the node that holds byte `from`, which is `pos` bytes behind node `node`.
abbrev Seeks : ByteArray → ℕ → Outcome (Unit {0}) → Type 0
Seeks s from o =
    (cur : ℕ) × (o ≡ ok tt (record s { cur = cur }))
    × (cur * s.node_size ≤ from)
    × (from < cur * s.node_size + s.node_size)

seek_loop-Seeks :
    (fuel node pos : ℕ) (s : ByteArray)
    → 0 < s.node_size
    → s.count ≡ node + fuel
    → 1 ≤ fuel
    → node * s.node_size + pos ≤ s.count * s.node_size
    → Seeks s (node * s.node_size + pos) (seek_loop fuel node pos s)
unfolding seek_loop
seek_loop-Seeks zero node pos s npos left some_node room = absurd (omega arith)
seek_loop-Seeks (suc fuel) node pos s npos left some_node room =
    elim (Bool-cases (ltb s.node_size pos)) [
      | inl far ↦
          let beyond : s.node_size < pos = ltb→lt s.node_size pos far in
          let next : node + 1 < s.count = row_lt (node + 1) s.count s.node_size (omega arith) in
          let (cur, e, lo, hi) =
            seek_loop-Seeks fuel (node + 1) (pos - s.node_size) s npos (omega arith) (omega arith)
              (omega arith) in
          (cur, rw (far, lt→leb s.count (node + 1) next) e, omega arith, omega arith)
      | inr near ↦ elim (Bool-cases (pos == s.node_size)) [
        | inl full ↦
            let e : pos ≡ s.node_size = (==_iff pos s.node_size).0 full in
            (node + 1, rw (near, full) refl, omega arith, omega arith)
        | inr less ↦
            let e : pos ≢ s.node_size = λ e. cc (less, (==_iff pos s.node_size).1 e) in
            let le : pos ≤ s.node_size = ltb→le s.node_size pos near in
            (node, rw (near, less) refl, omega arith, omega arith)
      ]
    ]

-- The effect of setPosition.
pub record Moved (s : ByteArray) (pos : ℕ) (t : ByteArray) : Type 0 where
  pub valid : IsValid t
  pub same : t ≡ record s { position = pos; data_size = max s.data_size pos; cur = t.cur }

-- For a valid array, setPosition to a place up to the total size returns, the array stays valid
-- with m_cur at the node of the new position, and the data size covers it.
pub set_position-Moved :
    (pos : ℕ) (s : ByteArray)
    → IsValid s
    → pos ≤ s.total_size
    → (t : ByteArray) × (set_position pos s ≡ ok tt t) × Moved s pos t
unfolding set_position
set_position-Moved pos s v room =
    let (cur, e, lo, hi) =
      seek_loop-Seeks s.count 0 pos moved v.node_pos (omega arith) v.some_node
        (omega (arith, v.total)) in
    (
      record moved { cur = cur },
      rw (le→ltb s.total_size pos room) e,
      record {
        valid = omega (arith, v.node_pos, v.some_node, v.total, v.data_fits, size);
        same = ap (λ d. record s { position = pos; data_size = d; cur = cur }) size;
      },
    )
  where
    moved : ByteArray
    moved = record s {
      position = pos;
      data_size = if ltb s.data_size pos then pos else s.data_size;
    }

    size : (if ltb s.data_size pos then pos else s.data_size) ≡ max s.data_size pos
    size = ground arith

-- Outside it throws, and the array is as it was.
pub set_position_outside :
    (pos : ℕ) (s : ByteArray) → s.total_size < pos → set_position pos s ≡ thrown s
unfolding set_position
set_position_outside pos s h = rw (lt→ltb s.total_size pos h)
