-- ===== src/Util/ByteArray/Reading.antt =====
-- ByteArray::read gives the bytes at the position, or throws and changes nothing.
use lo_netfw.Base.{
  ℕ, zero, suc, ◌+◌, ◌-◌, ◌*◌, ◌%◌, ◌≤◌, ◌<◌, ◌≡◌, refl, sym, ap, ◌∙◌, arith, List, ◌++◌, leb,
  Bool-cases, inl, inr, leb→le, leb→lt, lt→leb, lt→ltb, le→ltb, le→leb,
}
use lo_netfw.Util.ByteArray.Defs.{ByteArray, Outcome, ok, thrown, bind, at_node, advance, fetch}
use lo_netfw.Util.ByteArray.Access.{read_loop, read, read_at, to_string, keep_state}
use lo_netfw.Util.ByteArray.Cells.{byte, slice, fetch-slice, slice-append, row_lt}
use lo_netfw.Util.ByteArray.Invariant.{IsValid}
use lo_netfw.Util.ByteArray.Growth.{read_size}
use lo_netfw.Util.ByteArray.Writing.{advance_bounds}
use lo_netfw.Util.ByteArray.Write.{offset_eq, at_node_enters}
use mathlib.Core.Path.{ap₂}
use native.Mathlib.Nat.{mod-lt}

-- `s` after `n` bytes, with `m_cur` at `cur`.
abbrev pub passed : ByteArray → ℕ → ℕ → ByteArray
passed s n cur = record s { cur = cur; position = s.position + n }

-- The outcome of a read of `n` bytes that starts at byte `from`.
abbrev pub Reads : ByteArray → ℕ → ℕ → Outcome (List ℕ) → Type 0
Reads s from n o =
    (cur : ℕ) × (o ≡ ok (slice (byte s) from n) (passed s n cur))
    × (cur * s.node_size ≤ from + n)
    × (from + n < cur * s.node_size + s.node_size)

read_last :
    (s : ByteArray) (from at n : ℕ)
    → 0 < s.node_size
    → s.cur * s.node_size + at ≡ from
    → at + n ≤ s.node_size
    → Reads s from n (ok (fetch s.mem s.cur at n) (passed s n (advance s (at + n))))
read_last s from at n pos here fits =
    let (lo, hi) = advance_bounds s at n (from + n) pos (omega arith) fits in
    (
      advance s (at + n),
      ap (λ bs. ok bs (passed s n (advance s (at + n))))
          (fetch-slice s.node_size pos s.mem s.cur at n fits ∙ ap (λ a. slice (byte s) a n) here),
      lo,
      hi,
    )

-- The loop goes on from the next node, and what it read before stands in front.
read_more :
    (s : ByteArray) (from at k n : ℕ) (o : Outcome (List ℕ))
    → 0 < s.node_size
    → s.cur * s.node_size + at ≡ from
    → at + k ≡ s.node_size
    → k ≤ n
    → Reads (passed s k (s.cur + 1)) (from + k) (n - k) o
    → Reads s from n (bind o (λ bytes. ok (fetch s.mem s.cur at k ++ bytes)))
read_more s from at k n o pos here room long (cur, e, lo, hi) = (
  cur,
  ap (λ r. bind r (λ bytes. ok (fetch s.mem s.cur at k ++ bytes))) e
      ∙ ap₂ ok
          (ap (λ bs. bs ++ slice (byte s) (from + k) (n - k))
              (fetch-slice s.node_size pos s.mem s.cur at k (omega arith)
                ∙ ap (λ a. slice (byte s) a k) here)
            ∙ sym (slice-append (byte s) from k n long))
          (ap (λ p. record s { cur = cur; position = p }) (omega arith)),
  omega arith,
  omega arith,
)

read_loop-Reads :
    (fuel from at k n : ℕ) (s : ByteArray)
    → 0 < s.node_size
    → s.cur * s.node_size + at ≡ from
    → at < s.node_size
    → at + k ≡ s.node_size
    → from + n ≤ s.count * s.node_size
    → n ≤ fuel
    → 1 ≤ n
    → Reads s from n (read_loop fuel at k n s)
unfolding read_loop
read_loop-Reads fuel from at k zero s pos here inside room space enough some_byte =
    absurd (omega arith)
read_loop-Reads zero from at k (suc n) s pos here inside room space enough some_byte =
    absurd (omega arith)
read_loop-Reads (suc fuel) from at k (suc n) s pos here inside room space enough some_byte =
    elim (Bool-cases (leb (suc n) k)) [
      | inl all ↦
          rw all (read_last s from at (suc n) pos here (omega (arith, leb→le (suc n) k all)))
      | inr more ↦
          let long : k < suc n = leb→lt (suc n) k more in
          let next : s.cur + 1 < s.count = row_lt (s.cur + 1) s.count s.node_size (omega arith) in
          rw (more, lt→leb s.count (s.cur + 1) next)
            (read_more s from at k (suc n) _ pos here room (omega arith) (
              read_loop-Reads fuel (from + k) 0 s.node_size (suc n - k) (passed s k (s.cur + 1)) pos
                (omega arith) pos (omega arith) (omega arith) (omega arith) (omega arith)))
    ]

at_node-Reads :
    (n : ℕ) (s : ByteArray)
    → IsValid s
    → 1 ≤ n
    → s.position + n ≤ s.total_size
    → Reads s s.position n (at_node (λ at k. read_loop n at k n) s)
at_node-Reads n s v some_byte room =
    rw (at_node_enters (λ at k. read_loop n at k n) s v.node_pos inside) (
      read_loop-Reads n s.position at (s.node_size - at) n s v.node_pos (offset_eq s v) below
        (omega arith) (omega (arith, v.total)) (omega arith) some_byte)
  where
    at : ℕ
    at = s.position % s.node_size

    below : at < s.node_size
    below = mod-lt s.position v.node_pos

    inside : s.cur < s.count
    inside = row_lt s.cur s.count s.node_size (omega (arith, v.cur_from, v.total))

-- The state after a read of `n` bytes: only the position and `m_cur` have moved.
pub record Consumed (s : ByteArray) (n : ℕ) (t : ByteArray) : Type 0 where
  pub valid : IsValid t
  pub same : t ≡ passed s n t.cur

passed-Consumed :
    (s : ByteArray) (n cur : ℕ)
    → IsValid s
    → s.position + n ≤ s.data_size
    → cur * s.node_size ≤ s.position + n
    → s.position + n < cur * s.node_size + s.node_size
    → Consumed s n (passed s n cur)
passed-Consumed s n cur v room lo hi = record { valid = omega arith; same = refl }

-- For a valid array, a read of at most as many bytes as are left gives the bytes from the position
-- on and moves behind them; the array stays valid and nothing else in it changes.
pub read-slice :
    (n : ℕ) (s : ByteArray)
    → IsValid s
    → s.position + n ≤ s.data_size
    → (t : ByteArray) × (read n s ≡ ok (slice (byte s) s.position n) t) × Consumed s n t
unfolding read
read-slice zero s v room =
    (s, refl, record { valid = v; same = ap (λ p. record s { position = p }) (omega arith) })
read-slice (suc n) s v room =
    let (cur, e, lo, hi) = at_node-Reads (suc n) s v (omega arith) (omega (arith, v.data_fits)) in
    (
      passed s (suc n) cur,
      rw (read_size s v, le→ltb (s.data_size - s.position) (suc n) (omega arith)) e,
      passed-Consumed s (suc n) cur v room lo hi,
    )

-- A read of more bytes than are left in a valid array throws, and the array is as it was.
read_short :
    (n : ℕ) (s : ByteArray) → IsValid s → s.data_size < s.position + n → read n s ≡ thrown s
unfolding read
read_short zero s v short = absurd (omega (arith, v.in_data))
read_short (suc n) s v short =
    rw (read_size s v, lt→ltb (s.data_size - s.position) (suc n) (omega (arith, v.in_data)))

-- In a valid array whose m_cur is no null pointer, a non-empty read with a position of its own
-- that fits gives the bytes from the node of m_cur on, at the offset that the position has in its
-- own node, and changes nothing.
read_at-slice :
    (n q : ℕ) (s : ByteArray)
    → IsValid s
    → 1 ≤ n
    → s.cur < s.count
    → q + n ≤ s.data_size
    → s.cur * s.node_size + q % s.node_size + n ≤ s.total_size
    → read_at n q s ≡ ok (slice (byte s) (s.cur * s.node_size + q % s.node_size) n) s
unfolding read_at
read_at-slice zero q s v some_byte inside room space = absurd (omega arith)
read_at-slice (suc n) q s v some_byte inside room space =
    rw (le→leb q s.data_size (omega arith), le→ltb (s.data_size - q) (suc n) (omega arith))
      (ap (keep_state s) (
        at_node_enters (λ at k. read_loop (suc n) at k (suc n)) (record s { position = q })
          v.node_pos inside
        ∙ r.1))
  where
    at : ℕ
    at = q % s.node_size

    below : at < s.node_size
    below = mod-lt q v.node_pos

    r :
        Reads
          (record s { position = q })
          (s.cur * s.node_size + at)
          (suc n)
          (read_loop (suc n) at (s.node_size - at) (suc n) (record s { position = q }))
    r =
        read_loop-Reads (suc n) (s.cur * s.node_size + at) at (s.node_size - at) (suc n)
          (record s { position = q }) v.node_pos refl below (omega arith) (omega (arith, v.total))
          (omega arith) (omega arith)

-- toString of a valid array gives the bytes that are left, and changes nothing.
to_string-slice :
    (s : ByteArray)
    → IsValid s
    → to_string s ≡ ok (slice (byte s) s.position (s.data_size - s.position)) s
unfolding to_string
to_string-slice s v = rw (read_size s v) (go (s.data_size - s.position) (omega (arith, v.in_data)))
  where
    go :
        (n : ℕ)
        → s.position + n ≤ s.data_size
        → read_at n s.position s ≡ ok (slice (byte s) s.position n) s
    go zero e = unfold read_at in refl
    go (suc n) e =
        read_at-slice (suc n) s.position s v (omega arith)
          (row_lt s.cur s.count s.node_size (omega (arith, v.cur_from, v.data_fits, v.total))) e
          (omega (arith, offset_eq s v, v.data_fits))
        ∙ ap (λ a. ok (slice (byte s) a (suc n)) s) (offset_eq s v)
