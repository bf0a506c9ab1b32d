-- ===== src/Util/Varint/Laws.antt =====
-- What the encoder writes, in plain arithmetic, and how long it is.
use lo_netfw.Base.{
  ℕ, zero, suc, ◌+◌, ◌/◌, ◌%◌, ◌^◌, ◌≤◌, ◌<◌, bit_and, bit_or, ◌≡◌, refl, sym, ap, ◌∙◌, arith, List,
  [], ◌∷◌, ◌++◌, some, ltb, length, set, drop, length-append, lt→ltb, ltb→le, ltb→lt, Bool-cases,
  inl, inr, if◌then◌else◌,
}
use lo_netfw.Base.Bits.{bit_and_mask, bit_or_fields}
use lo_netfw.Base.Order.{lt_wf}
use lo_netfw.Util.Varint.{Encoded, written, store, encode_loop, encode, shift_shrinks}
use mathlib.Core.Path.{ap₂}
use mathlib.Core.Logic.{dif_pos, dif_neg}
use mathlib.Core.List.{append_assoc}
use mathlib.Core.WellFounded.{Acc}
use native.Mathlib.Decide.{dec_lt}
use native.Mathlib.Bridge.{le_prop}
use native.Mathlib.Nat.{pow-suc, zero-add}

-- The groups of seven bits of a number below 128 ^ (k + 1), lowest first; all but the last carry
-- the top bit.
unfoldable pub groups : ℕ → ℕ → List ℕ
groups zero n = n ∷ []
groups (suc k) n =
    let rest = groups k (n / 128) in if ltb 127 n then (n % 128 + 128) ∷ rest else n ∷ []

pub length-groups : (k n : ℕ) → (1 ≤ length (groups k n)) × (length (groups k n) ≤ suc k)
unfolding groups
length-groups zero n = omega arith
length-groups (suc k) n = ground (arith, length-groups k (n / 128))

marked_group : (n : ℕ) → bit_or (bit_and n 127) 128 ≡ n % 128 + 128
marked_group n =
    ap (λ t. bit_or t 128) (bit_and_mask 7 n) ∙ bit_or_fields 7 (n % 128) 1 (omega arith)

module _ (front : List ℕ) (x : ℕ) (rest : List ℕ) (b : ℕ) where
  set-append : set (front ++ x ∷ rest) (length front) b ≡ front ++ b ∷ rest
  set-append = go front
    where
      go : (f : List ℕ) → set (f ++ x ∷ rest) (length f) b ≡ f ++ b ∷ rest
      go [] = refl
      go (y ∷ ys) = ap (◌∷◌ y) (go ys)

  store-append :
      (next : List ℕ → Encoded)
      → store (front ++ x ∷ rest) (length front) b next ≡ next ((front ++ b ∷ []) ++ rest)
  store-append next = rw (lt→ltb (length front) (length (front ++ x ∷ rest)) inside) (ap next split)
    where
      inside : length front < length (front ++ x ∷ rest)
      inside = omega (arith, length-append front (x ∷ rest))

      split : set (front ++ x ∷ rest) (length front) b ≡ (front ++ b ∷ []) ++ rest
      split = set-append ∙ sym (append_assoc front (b ∷ []) rest)

last_group :
    (front rest : List ℕ) (n : ℕ) (w : Acc ◌<◌ n)
    → n ≤ 127
    → 1 ≤ length rest
    → encode_loop (front ++ rest) (length front) n w
      ≡ written (front ++ (n ∷ drop 1 rest)) (length front + 1)
unfolding encode_loop
last_group front [] n w h r = absurd (omega arith)
last_group front (x ∷ rest) n (Acc.intro _ smaller) h r =
    dif_neg (dec_lt 127 n) (omega arith) _ _
    ∙ store-append front x rest n (λ buf'. written buf' (length front + 1))
    ∙ ap (λ buf'. written buf' (length front + 1)) (append_assoc front (n ∷ []) rest)

inner_group :
    (front rest : List ℕ) (x n : ℕ) (smaller : (m : ℕ) → m < n → Acc ◌<◌ m) (h : 127 < n)
    → encode_loop (front ++ x ∷ rest) (length front) n (Acc.intro n smaller)
      ≡ encode_loop
          ((front ++ (n % 128 + 128) ∷ []) ++ rest)
          (length front + 1)
          (n / 128)
          (smaller (n / 128) (shift_shrinks n h))
unfolding encode_loop
inner_group front rest x n smaller h =
    dif_pos (dec_lt 127 n) le_prop h _ _
    ∙ store-append front x rest (bit_or (bit_and n 127) 128)
        (λ b. encode_loop b (length front + 1) (n / 128) (smaller (n / 128) (shift_shrinks n h)))
    ∙ ap
        (λ b.
          encode_loop ((front ++ b ∷ []) ++ rest) (length front + 1) (n / 128)
            (smaller (n / 128) (shift_shrinks n h)))
        (marked_group n)

encode_loop-groups :
    (k : ℕ) (front rest : List ℕ) (n : ℕ) (w : Acc ◌<◌ n)
    → n < 128 ^ suc k
    → suc k ≤ length rest
    → encode_loop (front ++ rest) (length front) n w
      ≡ written
          (front ++ (groups k n ++ drop (length (groups k n)) rest))
          (length front + length (groups k n))
unfolding groups
encode_loop-groups zero front rest n w h r = last_group front rest n w (omega arith) r
encode_loop-groups (suc k) front [] n w h r = absurd (omega arith)
encode_loop-groups (suc k) front (x ∷ rest) n (Acc.intro _ smaller) h r =
    elim (Bool-cases (ltb 127 n)) [
      | inl more ↦
          let lt : 127 < n = ltb→lt 127 n more in
          let head : List ℕ = (n % 128 + 128) ∷ [] in
          rw more (
            inner_group front rest x n smaller lt
            ∙ ap
                (λ c.
                  encode_loop ((front ++ head) ++ rest) c (n / 128)
                    (smaller (n / 128) (shift_shrinks n lt)))
                (sym (length-append front head))
            ∙ encode_loop-groups k (front ++ head) rest (n / 128)
                (smaller (n / 128) (shift_shrinks n lt)) (omega (arith, pow-suc 128 (suc k)))
                (omega arith)
            ∙ ap₂ written (append_assoc front head _) (omega (arith, length-append front head)))
      | inr done ↦ rw done (last_group front (x ∷ rest) n _ (ltb→le 127 n done) (omega arith))
    ]

-- For a number below 128^(k+1) and a buffer of k+1 bytes at least, the encoder returns the buffer
-- with the groups of seven bits in front, lowest first, the top bit on all but the last, and their
-- count.
pub encode-groups :
    (k n : ℕ) (buf : List ℕ)
    → n < 128 ^ suc k
    → suc k ≤ length buf
    → encode (some buf) n
      ≡ written (groups k n ++ drop (length (groups k n)) buf) (length (groups k n))
unfolding encode
encode-groups k n buf h r =
    encode_loop-groups k [] buf n (lt_wf.apply n) h r
    ∙ ap (written (groups k n ++ drop (length (groups k n)) buf)) (zero-add (length (groups k n)))
