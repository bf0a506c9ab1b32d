-- ===== src/Util/ByteArray/Growth.antt =====
-- ByteArray::addTotalSize makes room for the bytes to come and changes no byte.
use lo_netfw.Base.{
  ℕ, zero, suc, ◌+◌, ◌-◌, ◌*◌, ◌^◌, ◌≤◌, ◌<◌, ◌≡◌, refl, ◌∙◌, arith, leb, ◌==◌, Bool-cases, inl,
  inr, leb→le, leb→lt, le→leb, ==_iff,
}
use lo_netfw.Util.ByteArray.Defs.{
  ByteArray, CeilFloat, get_remain_size, get_read_size, add_nodes, add_total_size,
}
use lo_netfw.Util.ByteArray.Invariant.{IsValid}
use lo_netfw.Util.ByteArray.Cells.{byte}
use mathlib.Core.Path.{ap₂}
use native.Mathlib.Nat.{lt-div-mul-add}

-- `n` nodes more, and `m_cur` at `cur`.
abbrev pub longer : ℕ → ℕ → ByteArray → ByteArray
longer n cur s = record s {
  count = s.count + n;
  total_size = s.total_size + n * s.node_size;
  cur = cur;
}

add_nodes-longer : (n : ℕ) (s : ByteArray) → add_nodes n s ≡ longer n s.cur s
unfolding add_nodes
add_nodes-longer zero s =
    ap₂ (λ c t. record s { count = c; total_size = t }) (omega arith) (omega arith)
add_nodes-longer (suc n) s =
    add_nodes-longer n (record s { count = s.count + 1; total_size = s.total_size + s.node_size })
    ∙ ap₂ (λ c t. record s { count = c; total_size = t }) (omega arith) (omega arith)

remain_size : (s : ByteArray) → IsValid s → get_remain_size s ≡ s.total_size - s.position
unfolding get_remain_size
remain_size s v = rw (le→leb s.position s.total_size (omega arith))

pub read_size : (s : ByteArray) → IsValid s → get_read_size s ≡ s.data_size - s.position
unfolding get_read_size
read_size s v = rw (le→leb s.position s.data_size (omega arith))

-- What the array is when there is room for `size` bytes from the position on.
pub record Roomy (s : ByteArray) (size : ℕ) (t : ByteArray) : Type 0 where
  pub valid : IsValid t
  pub room : t.position + size ≤ t.count * t.node_size
  pub same_node_size : t.node_size ≡ s.node_size
  pub same_position : t.position ≡ s.position
  pub same_data_size : t.data_size ≡ s.data_size
  pub same_endian : t.ba_endian ≡ s.ba_endian
  pub same_bytes : (p : ℕ) → byte t p ≡ byte s p

longer-Roomy :
    (s : ByteArray) (size n cur : ℕ)
    → IsValid s
    → s.position + size ≤ s.total_size + n * s.node_size
    → cur * s.node_size ≤ s.position
    → s.position < cur * s.node_size + s.node_size
    → Roomy s size (longer n cur s)
longer-Roomy s size n cur v h from to = record {
  valid = omega arith;
  room = omega arith;
  same_node_size = refl;
  same_position = refl;
  same_data_size = refl;
  same_endian = refl;
  same_bytes = λ p. refl;
}

enough_nodes :
    (fl : CeilFloat) (more node : ℕ)
    → more < 2 ^ 24
    → 0 < node
    → node < 2 ^ 24
    → more ≤ fl.ceil_quot more node * node
enough_nodes fl more node h pos small =
    rw (fl.exact more node h pos small)
      (omega (arith, lt-div-mul-add {a = more + node - 1} {b = node} pos))

-- For a valid array, with sizes below 2^24, addTotalSize leaves room for the bytes asked for,
-- keeps the array valid and changes neither the bytes nor the position nor the data size.
pub add_total_size-Roomy :
    (fl : CeilFloat) (size : ℕ) (s : ByteArray)
    → IsValid s
    → size < 2 ^ 24
    → s.node_size < 2 ^ 24
    → Roomy s size (add_total_size fl size s)
unfolding add_total_size
add_total_size-Roomy fl size s v h small = elim (Bool-cases (size == 0)) [
  | inl none ↦ rw none (same (omega (arith, (==_iff size 0).0 none)))
  | inr some ↦ elim (Bool-cases (leb size old)) [
    | inl enough ↦ rw (some, enough) (same (omega (arith, leb→le size old enough, remain)))
    | inr less ↦ elim (Bool-cases (old == 0)) [
      | inl full ↦
          rw (some, less, full, add_nodes-longer more s)
            (longer-Roomy s size more s.count v (space (leb→lt size old less))
              (omega (arith, (==_iff old 0).0 full, remain))
              (omega (arith, (==_iff old 0).0 full, remain)))
      | inr partial ↦
          rw (some, less, partial, add_nodes-longer more s)
            (longer-Roomy s size more s.cur v (space (leb→lt size old less)) v.cur_from v.cur_to)
    ]
  ]
]
  where
    old : ℕ
    old = get_remain_size s

    more : ℕ
    more = fl.ceil_quot (size - old) s.node_size

    remain : old ≡ s.total_size - s.position
    remain = remain_size s v

    space : old < size → s.position + size ≤ s.total_size + more * s.node_size
    space lt =
        omega
          (arith, remain, enough_nodes fl (size - old) s.node_size (omega arith) v.node_pos small)

    same : s.position + size ≤ s.total_size → Roomy s size s
    same fits = record {
      valid = v;
      room = omega arith;
      same_node_size = refl;
      same_position = refl;
      same_data_size = refl;
      same_endian = refl;
      same_bytes = λ p. refl;
    }
