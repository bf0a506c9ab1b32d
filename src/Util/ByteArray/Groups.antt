-- ===== src/Util/ByteArray/Groups.antt =====
-- Integers of variable length: the bytes they go out as, and what is read from these.
use lo_netfw.Base.{
  ℕ, zero, suc, ◌+◌, ◌*◌, ◌/◌, ◌%◌, ◌^◌, ◌≤◌, ◌<◌, bit_or, ◌≡◌, ap, ◌∙◌, arith, List, [], ◌∷◌,
  length-replicate, replicate, some, ltb, Bool-cases, inl, inr, lt→ltb, ltb→le, le→ltb,
}
use lo_netfw.Base.Bits.{bit_and_mask, bit_or_fields}
use lo_netfw.Util.Endian.{Endian}
use lo_netfw.Util.Varint.{encode, encode32, encode64}
use lo_netfw.Util.Varint.Laws.{groups, encode-groups, length-groups}
use lo_netfw.Util.ByteArray.Defs.{ByteArray, ok, M, CeilFloat, write}
use lo_netfw.Util.ByteArray.Typed.{
  group_step, write_encoded, write_uint32, write_uint64, read_f_uint8, read_groups, read_uint32,
  read_uint64,
}
use lo_netfw.Util.ByteArray.Codec.{Emits, Parses, write-Emits, >>=-Parses, take-append}
use lo_netfw.Util.ByteArray.Words.{read_f_uint8-Parses}
use mathlib.Core.Path.{subst}
use native.Mathlib.Nat.{pow-suc, div-add-mod, mod-eq_of_lt}
use native.Mathlib.Numerals.{towards_suc}

write_encoded-Emits :
    (fl : CeilFloat) (e : Endian) (k n v : ℕ)
    → v < 128 ^ suc k
    → suc k ≤ n
    → k < 100
    → Emits e (write_encoded fl (encode (some (replicate n 0)) v)) (groups k v)
write_encoded-Emits fl e k n v h room small s valid order node =
    let (t, p, w) =
      write-Emits fl e (groups k v) (omega (arith, length-groups k v)) s valid order node in
    (
      t,
      ap (λ o. write_encoded fl o s)
            (encode-groups k v (replicate n 0) h (omega (arith, length-replicate {A = ℕ} n 0)))
          ∙ ap (λ b. write fl b s) (take-append (groups k v) _)
          ∙ p,
      w,
    )

pub write_uint32-Emits :
    (fl : CeilFloat) (e : Endian) (v : ℕ) → v < 2 ^ 32 → Emits e (write_uint32 fl v) (groups 4 v)
unfolding write_uint32 encode32
write_uint32-Emits fl e v h =
    write_encoded-Emits fl e 4 5 v (omega arith) (omega arith) (omega arith)

pub write_uint64-Emits :
    (fl : CeilFloat) (e : Endian) (v : ℕ) → v < 2 ^ 64 → Emits e (write_uint64 fl v) (groups 9 v)
unfolding write_uint64 encode64
write_uint64-Emits fl e v h =
    write_encoded-Emits fl e 9 10 v (omega arith) (omega arith) (omega arith)

ok-Parses :
    {A : Type 0} (e : Endian) (op : M A) (v : A)
    → ((s : ByteArray) → op s ≡ ok v s)
    → Parses e op [] v
ok-Parses e op v h s valid order room holds =
    (s, h s, record { valid = valid; same = ap (λ p. record s { position = p }) (omega arith) })

shift_seven : (c : ℕ) → 2 ^ (c + 7) ≡ 128 * 2 ^ c
shift_seven c = simp towards_suc (omega arith)

below_next : (a r p : ℕ) → a < p → r < 128 → a + r * p < 128 * p
below_next a r p h k = grind arith

shift_mono : (a b p : ℕ) → a ≤ b → a * p ≤ b * p
shift_mono a b p h = grind arith

-- `acc | (r << cnt)`, cut to `w` bits, where nothing overlaps and nothing is lost.
add_group :
    (w cnt acc r : ℕ)
    → acc < 2 ^ cnt
    → acc + r * 2 ^ cnt < 2 ^ w
    → bit_or acc (r * 2 ^ cnt % 2 ^ w) ≡ acc + r * 2 ^ cnt
add_group w cnt acc r h fits =
    ap (bit_or acc) (mod-eq_of_lt {n = r * 2 ^ cnt} {m = 2 ^ w} (omega arith))
    ∙ bit_or_fields cnt acc r h

module _ (e : Endian) (w : ℕ) where
  -- The step for the last byte, and for one with the top bit set.
  last_step :
      (cnt acc b : ℕ) (next : ℕ → M ℕ)
      → b < 128
      → acc < 2 ^ cnt
      → acc + b * 2 ^ cnt < 2 ^ w
      → Parses e (group_step w cnt acc next b) [] (acc + b * 2 ^ cnt)
  last_step cnt acc b next small h fits =
      ok-Parses e (group_step w cnt acc next b) (acc + b * 2 ^ cnt)
        λ s. rw (lt→ltb b 128 small) (ap (λ v. ok v s) (add_group w cnt acc b h fits))

  inner_step :
      (cnt acc g : ℕ) (next : ℕ → M ℕ) (s : ByteArray)
      → g < 128
      → acc < 2 ^ cnt
      → acc + g * 2 ^ cnt < 2 ^ w
      → group_step w cnt acc next (g + 128) s ≡ next (acc + g * 2 ^ cnt) s
  inner_step cnt acc g next s small h fits = rw (le→ltb (g + 128) 128 (omega arith)) (
      ap (λ r. next (bit_or acc (r * 2 ^ cnt % 2 ^ w)) s) (bit_and_mask 7 (g + 128) ∙ omega arith)
      ∙ ap (λ v. next v s) (add_group w cnt acc g h fits))

  inner_step-Parses :
      (cnt acc g total : ℕ) (next : ℕ → M ℕ) (rest : List ℕ)
      → g < 128
      → acc < 2 ^ cnt
      → acc + g * 2 ^ cnt < 2 ^ w
      → Parses e (next (acc + g * 2 ^ cnt)) rest total
      → Parses e (group_step w cnt acc next (g + 128)) rest total
  inner_step-Parses cnt acc g total next rest small h fits parses s valid order room holds =
      let (t, p, c) = parses s valid order room holds in
      (t, inner_step cnt acc g next s small h fits ∙ p, c)

  split_value :
      (cnt acc v : ℕ) → acc + v % 128 * 2 ^ cnt + v / 128 * 2 ^ (cnt + 7) ≡ acc + v * 2 ^ cnt
  split_value cnt acc v = omega (
    arith,
    ap (λ (t : ℕ). t * 2 ^ cnt) (div-add-mod v 128),
    ap (λ (t : ℕ). v / 128 * t) (shift_seven cnt),
  )

  -- The loop reads the groups of `v` and adds them to what it has, shifted by `cnt`.
  read_groups-Parses :
      (k fuel cnt acc v : ℕ)
      → v < 128 ^ suc k
      → suc k ≤ fuel
      → cnt + 7 * k < w
      → acc < 2 ^ cnt
      → acc + v * 2 ^ cnt < 2 ^ w
      → Parses e (read_groups fuel w cnt acc) (groups k v) (acc + v * 2 ^ cnt)
  unfolding read_groups groups
  read_groups-Parses k zero cnt acc v h enough wide low fits = absurd (omega arith)
  read_groups-Parses zero (suc fuel) cnt acc v h enough wide low fits =
      rw (lt→ltb cnt w (omega arith)) (
        >>=-Parses e read_f_uint8 (group_step w cnt acc (read_groups fuel w (cnt + 7))) (v ∷ []) []
          v (acc + v * 2 ^ cnt) (read_f_uint8-Parses e v)
          (last_step cnt acc v (read_groups fuel w (cnt + 7)) (omega arith) low fits))
  read_groups-Parses (suc k) (suc fuel) cnt acc v h enough wide low fits =
      elim (Bool-cases (ltb 127 v)) [
        | inl more ↦
            rw (more, lt→ltb cnt w (omega arith))
              (>>=-Parses e read_f_uint8 (group_step w cnt acc (read_groups fuel w (cnt + 7)))
                ((v % 128 + 128) ∷ []) (groups k (v / 128)) (v % 128 + 128) (acc + v * 2 ^ cnt)
                (read_f_uint8-Parses e (v % 128 + 128))
                (inner_step-Parses cnt acc (v % 128) (acc + v * 2 ^ cnt)
                  (read_groups fuel w (cnt + 7)) (groups k (v / 128)) (omega arith) low
                  (omega (arith, whole))
                  (subst (Parses e (read_groups fuel w (cnt + 7) acc') (groups k (v / 128))) whole (
                    read_groups-Parses k fuel (cnt + 7) acc' (v / 128)
                      (omega (arith, pow-suc 128 (suc k))) (omega arith) (omega arith)
                      (omega (arith, shift_seven cnt, below_next acc (v % 128) (2 ^ cnt) low))
                      (omega (arith, whole))))))
        | inr last ↦
            rw (last, lt→ltb cnt w (omega arith))
              (>>=-Parses e read_f_uint8 (group_step w cnt acc (read_groups fuel w (cnt + 7)))
                (v ∷ []) [] v (acc + v * 2 ^ cnt) (read_f_uint8-Parses e v)
                (last_step cnt acc v (read_groups fuel w (cnt + 7))
                  (omega (arith, ltb→le 127 v last)) low fits))
      ]
    where
      acc' : ℕ
      acc' = acc + v % 128 * 2 ^ cnt

      whole : acc' + v / 128 * 2 ^ (cnt + 7) ≡ acc + v * 2 ^ cnt
      whole = split_value cnt acc v

module _ (e : Endian) (v : ℕ) where
  pub read_uint32-Parses : v < 2 ^ 32 → Parses e read_uint32 (groups 4 v) v
  unfolding read_uint32
  read_uint32-Parses h = subst (Parses e (read_groups 11 32 0 0) (groups 4 v)) (omega arith) (
      read_groups-Parses e 32 4 11 0 0 v (omega arith) (omega arith) (omega arith) (omega arith)
        (omega arith))

  pub read_uint64-Parses : v < 2 ^ 64 → Parses e read_uint64 (groups 9 v) v
  unfolding read_uint64
  read_uint64-Parses h = subst (Parses e (read_groups 11 64 0 0) (groups 9 v)) (omega arith) (
      read_groups-Parses e 64 9 11 0 0 v (omega arith) (omega arith) (omega arith) (omega arith)
        (omega arith))
