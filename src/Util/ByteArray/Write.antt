-- ===== src/Util/ByteArray/Write.antt =====
-- ByteArray::write as a whole.
use lo_netfw.Base.{
  ℕ, ◌+◌, ◌-◌, ◌*◌, ◌%◌, ◌^◌, ◌≤◌, ◌<◌, ◌≡◌, refl, sym, ap, ◌∙◌, fun_ext, arith, false, List, [],
  ◌∷◌, length, max, ltb, ◌==◌, Bool-cases, inl, inr, lt→leb, ltb→lt, ltb→le,
}
use lo_netfw.Util.ByteArray.Defs.{
  ByteArray, ok, M, at_node, cover, CeilFloat, add_total_size, write_loop, write,
}
use lo_netfw.Util.ByteArray.Cells.{byte, patched, row_lt}
use lo_netfw.Util.ByteArray.Invariant.{IsValid}
use lo_netfw.Util.ByteArray.Growth.{Roomy, add_total_size-Roomy}
use lo_netfw.Util.ByteArray.Writing.{Wrote, Writes, write_loop-Writes}
use native.Mathlib.Nat.{div-add-mod', mod-lt, div-eq_of_lt-le}

-- The node of the position is that of `m_cur`.
pub offset_eq :
    (s : ByteArray) → IsValid s → s.cur * s.node_size + s.position % s.node_size ≡ s.position
offset_eq s v =
    ap (λ c. c * s.node_size + s.position % s.node_size)
      (sym (div-eq_of_lt-le s.node_size v.cur_from (omega (arith, v.cur_to))))
    ∙ div-add-mod' s.position s.node_size

-- Where `m_cur` is no null pointer, the loop starts in the node of `m_cur`.
pub at_node_enters :
    {A : Type 0} (go : ℕ → ℕ → M A) (s : ByteArray)
    → 0 < s.node_size
    → s.cur < s.count
    → at_node go s ≡ go (s.position % s.node_size) (s.node_size - s.position % s.node_size) s
at_node_enters go s pos h = rw (nonzero, lt→leb s.count s.cur h)
  where
    nonzero : (s.node_size == 0) ≡ false
    nonzero = ground arith

-- The effect of a write: `t` holds `bytes` from the old position on, the old bytes elsewhere, and
-- stands behind what was written.
pub record Stored (s : ByteArray) (bytes : List ℕ) (t : ByteArray) : Type 0 where
  pub valid : IsValid t
  pub same_node_size : t.node_size ≡ s.node_size
  pub same_endian : t.ba_endian ≡ s.ba_endian
  pub moved : t.position ≡ s.position + length bytes
  pub covered : t.data_size ≡ max s.data_size t.position
  pub bytes_at : (p : ℕ) → byte t p ≡ patched (byte s) s.position bytes p

loop-Writes :
    (bytes : List ℕ) (g : ByteArray)
    → IsValid g
    → 1 ≤ length bytes
    → g.position + length bytes ≤ g.count * g.node_size
    → Writes g bytes (at_node (λ at k. write_loop (length bytes) at k bytes) g)
loop-Writes bytes g v some_byte room =
    rw (at_node_enters (λ at k. write_loop (length bytes) at k bytes) g v.node_pos inside) (
      write_loop-Writes (length bytes) at (g.node_size - at) bytes g v.node_pos (offset_eq g v)
        below (omega arith) room (omega arith) some_byte)
  where
    at : ℕ
    at = g.position % g.node_size

    below : at < g.node_size
    below = mod-lt g.position v.node_pos

    inside : g.cur < g.count
    inside = row_lt g.cur g.count g.node_size (omega (arith, v.cur_from))

module _ (s g t : ByteArray) (bytes : List ℕ) where
  covered-Stored :
      Roomy s (length bytes) g
      → Wrote g bytes t
      → (n : ℕ) → n ≡ max s.data_size t.position
      → Stored s bytes (record t { data_size = n })
  covered-Stored r w n e = record {
    valid = omega (arith, scale, width);
    same_node_size = w.same_node_size ∙ r.same_node_size;
    same_endian = w.same_endian ∙ r.same_endian;
    moved = omega (arith, w.moved, r.same_position);
    covered = e;
    bytes_at = λ p.
        w.bytes_at p
        ∙ ap (λ a. patched (byte g) a bytes p) r.same_position
        ∙ ap (λ f. patched f s.position bytes p) (fun_ext r.same_bytes);
  }
    where
      scale : t.cur * t.node_size ≡ t.cur * g.node_size
      scale = ap (λ (k : ℕ). t.cur * k) w.same_node_size

      width : t.count * t.node_size ≡ g.count * g.node_size
      width = cc (w.same_count, w.same_node_size)

  cover-Stored : Roomy s (length bytes) g → Wrote g bytes t → Stored s bytes (cover t)
  cover-Stored r w = elim (Bool-cases (ltb t.data_size t.position)) [
    | inl beyond ↦ rw beyond (
        covered-Stored r w t.position
          (omega (arith, ltb→lt t.data_size t.position beyond, w.same_data_size, r.same_data_size)))
    | inr within ↦ rw within (
        covered-Stored r w t.data_size
          (omega (arith, ltb→le t.data_size t.position within, w.same_data_size, r.same_data_size)))
  ]

-- For a valid array, data and nodes below 2^24 bytes, write returns; the array stays valid, holds
-- the bytes at the old position, no other byte changes, the position stands behind them and the
-- data size covers it.
pub write-Stored :
    (fl : CeilFloat) (bytes : List ℕ) (s : ByteArray)
    → IsValid s
    → length bytes < 2 ^ 24
    → s.node_size < 2 ^ 24
    → (t : ByteArray) × (write fl bytes s ≡ ok tt t) × Stored s bytes t
unfolding write
write-Stored fl [] s v h small = (
  s,
  refl,
  record {
    valid = v;
    same_node_size = refl;
    same_endian = refl;
    moved = omega arith;
    covered = omega (arith, v.in_data);
    bytes_at = λ p. ground arith;
  },
)
write-Stored fl (b ∷ bs) s v h small =
    let r = add_total_size-Roomy fl (length (b ∷ bs)) s v h small in
    let (t, e, w) =
      loop-Writes (b ∷ bs) (add_total_size fl (length (b ∷ bs)) s) r.valid (omega arith) r.room in
    (cover t, rw e, cover-Stored s (add_total_size fl (length (b ∷ bs)) s) t (b ∷ bs) r w)
