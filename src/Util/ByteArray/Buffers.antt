-- ===== src/Util/ByteArray/Buffers.antt =====
-- The lists of buffers that a ByteArray gives out for scattered input and output.
use lo_netfw.Base.{
  ℕ, zero, suc, ◌+◌, ◌-◌, ◌*◌, ◌%◌, ◌^◌, ◌≤◌, ◌<◌, ◌≡◌, refl, sym, ap, ◌∙◌, arith, List, [], ◌∷◌,
  ◌++◌, All, min, ltb, leb, ◌==◌, if◌then◌else◌, Bool-cases, inl, inr, leb→le, leb→lt, lt→leb,
  le→leb, false,
}
use lo_netfw.Util.ByteArray.Defs.{
  ByteArray, Outcome, ok, bind, at_node, fetch, CeilFloat, add_total_size,
}
use lo_netfw.Util.ByteArray.Access.{Iovec, iovec, buffers_loop, get_read_buffers, get_write_buffers}
use lo_netfw.Util.ByteArray.Cells.{byte, slice, fetch-slice, slice-append, row_lt}
use lo_netfw.Util.ByteArray.Invariant.{IsValid}
use lo_netfw.Util.ByteArray.Growth.{Roomy, add_total_size-Roomy}
use lo_netfw.Util.ByteArray.Write.{offset_eq, at_node_enters}
use mathlib.Core.Path.{ap₂, subst}
use mathlib.Core.List.{append-nil}
use native.Mathlib.Nat.{mod-lt}

-- The bytes that the buffers point at, one after the other.
abbrev pub gather : (ℕ → ℕ → ℕ) → List Iovec → List ℕ
gather mem [] = []
gather mem (v ∷ vs) = fetch mem v.node v.base v.len ++ gather mem vs

-- The buffers cover the `n` places from `from` on, one after the other.
abbrev pub Consecutive : ℕ → ℕ → ℕ → List Iovec → Type 0
Consecutive node_size from n [] = n ≡ 0
Consecutive node_size from n (v ∷ vs) =
    (v.node * node_size + v.base ≡ from)
    × (v.len ≤ n)
    × Consecutive node_size (from + v.len) (n - v.len) vs

-- A buffer lies inside a node of the chain, and is not empty.
abbrev pub Inside : ByteArray → Iovec → Type 0
Inside s v = (v.node < s.count) × (v.base + v.len ≤ s.node_size) × (1 ≤ v.len)

-- The outcome: buffers that lie inside the nodes, one behind the other, and hold just the `n` bytes
-- from `from` on.
abbrev pub Buffers : ByteArray → ℕ → ℕ → Outcome (List Iovec) → Type 0
Buffers s from n o =
    (bufs : List Iovec) × (o ≡ ok bufs s)
    × (gather s.mem bufs ≡ slice (byte s) from n)
    × All (Inside s) bufs
    × Consecutive s.node_size from n bufs

last_buffer :
    (s : ByteArray) (node at n : ℕ)
    → 0 < s.node_size
    → node < s.count
    → at + n ≤ s.node_size
    → 1 ≤ n
    → Buffers s (node * s.node_size + at) n (ok (iovec node at n ∷ []) s)
last_buffer s node at n pos inside fits some_byte = (
  iovec node at n ∷ [],
  refl,
  append-nil (fetch s.mem node at n) ∙ fetch-slice s.node_size pos s.mem node at n fits,
  ((inside, fits, some_byte), tt),
  (refl, omega arith, omega arith),
)

next_buffer :
    (s : ByteArray) (node at k n : ℕ) (o : Outcome (List Iovec))
    → 0 < s.node_size
    → node < s.count
    → at + k ≡ s.node_size
    → 1 ≤ k
    → k ≤ n
    → Buffers s ((node + 1) * s.node_size + 0) (n - k) o
    → Buffers s (node * s.node_size + at) n (bind o (λ bufs. ok (iovec node at k ∷ bufs)))
next_buffer s node at k n o pos inside room some_byte long (bufs, e, g, i, c) = (
  iovec node at k ∷ bufs,
  ap (λ r. bind r (λ bufs'. ok (iovec node at k ∷ bufs'))) e,
  ap₂ ◌++◌ (fetch-slice s.node_size pos s.mem node at k (omega arith))
        (g ∙ ap (λ a. slice (byte s) a (n - k)) (omega arith))
      ∙ sym (slice-append (byte s) (node * s.node_size + at) k n long),
  ((inside, omega arith, some_byte), i),
  (refl, long, subst (λ a. Consecutive s.node_size a (n - k) bufs) (omega arith) c),
)

buffers_loop-Buffers :
    (fuel node at k n : ℕ) (s : ByteArray)
    → 0 < s.node_size
    → at < s.node_size
    → at + k ≡ s.node_size
    → node * s.node_size + at + n ≤ s.count * s.node_size
    → n ≤ fuel
    → 1 ≤ n
    → Buffers s (node * s.node_size + at) n (buffers_loop fuel node at k n s)
unfolding buffers_loop
buffers_loop-Buffers fuel node at k zero s pos inside room space enough some_byte =
    absurd (omega arith)
buffers_loop-Buffers zero node at k (suc n) s pos inside room space enough some_byte =
    absurd (omega arith)
buffers_loop-Buffers (suc fuel) node at k (suc n) s pos inside room space enough some_byte =
    let here : node < s.count = row_lt node s.count s.node_size (omega arith) in
    elim (Bool-cases (leb (suc n) k)) [
      | inl all ↦
          rw all
            (last_buffer s node at (suc n) pos here (omega (arith, leb→le (suc n) k all)) some_byte)
      | inr more ↦
          let long : k < suc n = leb→lt (suc n) k more in
          let next : node + 1 < s.count = row_lt (node + 1) s.count s.node_size (omega arith) in
          rw (more, lt→leb s.count (node + 1) next)
            (next_buffer s node at k (suc n) _ pos here room (omega arith) (omega arith) (
              buffers_loop-Buffers fuel (node + 1) 0 s.node_size (suc n - k) s pos pos (omega arith)
                (omega arith) (omega arith) (omega arith)))
    ]

at_node-Buffers :
    (n : ℕ) (s : ByteArray)
    → IsValid s
    → 1 ≤ n
    → s.position + n ≤ s.count * s.node_size
    → Buffers s s.position n (at_node (λ at k. buffers_loop n s.cur at k n) s)
at_node-Buffers n s v some_byte room =
    rw
      (at_node_enters (λ at k. buffers_loop n s.cur at k n) s v.node_pos
        (row_lt s.cur s.count s.node_size (omega (arith, v.cur_from))))
      (rw (offset_eq s v) at (
        buffers_loop-Buffers n s.cur (s.position % s.node_size)
          (s.node_size - s.position % s.node_size) n s v.node_pos (mod-lt s.position v.node_pos)
          (omega (arith, mod-lt s.position v.node_pos)) (omega (arith, offset_eq s v)) (omega arith)
          some_byte))

suc-ne-zero : (m : ℕ) → (suc m == 0) ≡ false
suc-ne-zero m = ground arith

-- For a valid array, getReadBuffers gives buffers that hold just the bytes that are left, len of
-- them at most, each non-empty and inside a node of the chain, and changes nothing.
pub get_read_buffers-Buffers :
    (len : ℕ) (s : ByteArray)
    → IsValid s
    → Buffers s s.position (min len (s.data_size - s.position)) (get_read_buffers len s)
unfolding get_read_buffers
get_read_buffers-Buffers len s v =
    rw (le→leb s.position s.data_size v.in_data, cut) (go n (omega arith))
  where
    n : ℕ
    n = min len (s.data_size - s.position)

    cut : (if ltb (s.data_size - s.position) len then s.data_size - s.position else len) ≡ n
    cut = ground arith

    go :
        (m : ℕ)
        → m ≤ s.data_size - s.position
        → Buffers s s.position m
            (if m == 0 then ok [] s else at_node (λ at k. buffers_loop m s.cur at k m) s)
    go zero h = ([], refl, refl, tt, refl)
    go (suc m) h =
        rw (suc-ne-zero m) (
          at_node-Buffers (suc m) s v (omega arith)
            (omega (arith, v.in_data, v.data_fits, v.total)))

-- For a valid array, len and nodes below 2^24 bytes, getWriteBuffers makes room as addTotalSize
-- does and gives buffers for just the len bytes from the position on, each non-empty and inside a
-- node of the grown chain.
pub get_write_buffers-Buffers :
    (fl : CeilFloat) (len : ℕ) (s : ByteArray)
    → IsValid s
    → len < 2 ^ 24
    → s.node_size < 2 ^ 24
    → Roomy s len (add_total_size fl len s)
      × Buffers
          (add_total_size fl len s)
          (add_total_size fl len s).position
          len
          (get_write_buffers fl len s)
unfolding get_write_buffers
get_write_buffers-Buffers fl zero s v h small =
    unfold add_total_size in (add_total_size-Roomy fl 0 s v h small, ([], refl, refl, tt, refl))
get_write_buffers-Buffers fl (suc len) s v h small =
    let r : Roomy s (suc len) (add_total_size fl (suc len) s) =
      add_total_size-Roomy fl (suc len) s v h small in
    (
      r,
      rw (suc-ne-zero len)
          (at_node-Buffers (suc len) (add_total_size fl (suc len) s) r.valid (omega arith) r.room),
    )
