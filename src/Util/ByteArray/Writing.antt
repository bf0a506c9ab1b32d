-- ===== src/Util/ByteArray/Writing.antt =====
-- ByteArray::write lays the bytes over the array at the position.
use lo_netfw.Base.{
  ℕ, zero, suc, ◌+◌, ◌-◌, ◌*◌, ◌≤◌, ◌<◌, ◌≡◌, refl, ap, ◌∙◌, fun_ext, arith, List, [], ◌∷◌, length,
  take, drop, leb, ◌==◌, length-take, length-drop, Bool-cases, inl, inr, leb→le, leb→lt, lt→leb,
  ◌≢◌, ==_iff,
}
use lo_netfw.Util.ByteArray.Defs.{
  ByteArray, Outcome, ok, write_loop, advance, after_last, after_part,
}
use lo_netfw.Util.ByteArray.Cells.{byte, view-fill, patched, patched_twice, row_lt}

-- What `t` is after the loop has written `bytes` in `s`.
pub record Wrote (s : ByteArray) (bytes : List ℕ) (t : ByteArray) : Type 0 where
  pub same_node_size : t.node_size ≡ s.node_size
  pub same_count : t.count ≡ s.count
  pub same_total : t.total_size ≡ s.total_size
  pub same_data_size : t.data_size ≡ s.data_size
  pub same_endian : t.ba_endian ≡ s.ba_endian
  pub moved : t.position ≡ s.position + length bytes
  pub cur_from : t.cur * s.node_size ≤ t.position
  pub cur_to : t.position < t.cur * s.node_size + s.node_size
  pub bytes_at : (p : ℕ) → byte t p ≡ patched (byte s) s.position bytes p

abbrev pub Writes : ByteArray → List ℕ → Outcome (Unit {0}) → Type 0
Writes s bytes o = (t : ByteArray) × (o ≡ ok tt t) × Wrote s bytes t

-- The step of `m_cur` at the end of a copy keeps it at the position.
pub advance_bounds :
    (s : ByteArray) (at k p : ℕ)
    → 0 < s.node_size
    → s.cur * s.node_size + at + k ≡ p
    → at + k ≤ s.node_size
    → (advance s (at + k) * s.node_size ≤ p) × (p < advance s (at + k) * s.node_size + s.node_size)
advance_bounds s at k p pos here fits = elim (Bool-cases (s.node_size == at + k)) [
  | inl full ↦ let e : s.node_size ≡ at + k = (==_iff _ _).0 full in rw full (omega arith)
  | inr less ↦
      let e : s.node_size ≢ at + k = λ e. cc (less, (==_iff s.node_size (at + k)).1 e) in
      rw less (omega arith)
]

module _ (s : ByteArray) (at : ℕ) (bytes : List ℕ) where
  after_last-Wrote :
      0 < s.node_size
      → s.cur * s.node_size + at ≡ s.position
      → at + length bytes ≤ s.node_size
      → Wrote s bytes (after_last s at bytes)
  after_last-Wrote pos here fits = record {
    same_node_size = refl;
    same_count = refl;
    same_total = refl;
    same_data_size = refl;
    same_endian = refl;
    moved = refl;
    cur_from = bounds.0;
    cur_to = bounds.1;
    bytes_at = λ p.
        view-fill s.node_size pos s.mem s.cur at bytes p fits
        ∙ ap (λ a. patched (byte s) a bytes p) here;
  }
    where
      end : ℕ
      end = s.position + length bytes

      bounds :
          (advance s (at + length bytes) * s.node_size ≤ end)
          × (end < advance s (at + length bytes) * s.node_size + s.node_size)
      bounds = advance_bounds s at (length bytes) end pos (omega arith) fits

  after_part-then :
      (k : ℕ) (t : ByteArray)
      → 0 < s.node_size
      → s.cur * s.node_size + at ≡ s.position
      → at + k ≡ s.node_size
      → k ≤ length bytes
      → Wrote (after_part s at k bytes) (drop k bytes) t
      → Wrote s bytes t
  after_part-then k t pos here room long w = record {
    same_node_size = w.same_node_size;
    same_count = w.same_count;
    same_total = w.same_total;
    same_data_size = w.same_data_size;
    same_endian = w.same_endian;
    moved = omega (arith, w.moved, length-drop k bytes);
    cur_from = w.cur_from;
    cur_to = w.cur_to;
    bytes_at = λ p.
        w.bytes_at p
        ∙ ap (λ f. patched f (s.position + k) (drop k bytes) p) (fun_ext laid)
        ∙ patched_twice (byte s) s.position k bytes p long;
  }
    where
      laid :
          (q : ℕ) → byte (after_part s at k bytes) q ≡ patched (byte s) s.position (take k bytes) q
      laid q =
          view-fill s.node_size pos s.mem s.cur at (take k bytes) q
            (omega (arith, length-take k bytes long))
          ∙ ap (λ a. patched (byte s) a (take k bytes) q) here

-- With room in the chain and a round for each byte the loop ends and has written the bytes.
pub write_loop-Writes :
    (fuel at k : ℕ) (bytes : List ℕ) (s : ByteArray)
    → 0 < s.node_size
    → s.cur * s.node_size + at ≡ s.position
    → at < s.node_size
    → at + k ≡ s.node_size
    → s.position + length bytes ≤ s.count * s.node_size
    → length bytes ≤ fuel
    → 1 ≤ length bytes
    → Writes s bytes (write_loop fuel at k bytes s)
unfolding write_loop
write_loop-Writes fuel at k [] s pos here inside room space enough some_byte = absurd (omega arith)
write_loop-Writes zero at k (b ∷ bs) s pos here inside room space enough some_byte =
    absurd (omega arith)
write_loop-Writes (suc fuel) at k (b ∷ bs) s pos here inside room space enough some_byte =
    elim (Bool-cases (leb (length (b ∷ bs)) k)) [
      | inl all ↦ (
        after_last s at (b ∷ bs),
        rw all,
        after_last-Wrote s at (b ∷ bs) pos here (omega (arith, leb→le (length (b ∷ bs)) k all)),
      )
      | inr more ↦
          let long : k < length (b ∷ bs) = leb→lt (length (b ∷ bs)) k more in
          let left : length (drop k (b ∷ bs)) ≡ length (b ∷ bs) - k = length-drop k (b ∷ bs) in
          let next : s.cur + 1 < s.count = row_lt (s.cur + 1) s.count s.node_size (omega arith) in
          let (t, e, w) =
            write_loop-Writes fuel 0 s.node_size (drop k (b ∷ bs)) (after_part s at k (b ∷ bs)) pos
              (omega arith) pos (omega arith) (omega arith) (omega arith) (omega arith) in
          (
            t,
            rw (more, lt→leb s.count (s.cur + 1) next) e,
            after_part-then s at (b ∷ bs) k t pos here room (omega arith) w,
          )
    ]
