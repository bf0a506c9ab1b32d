-- ===== src/Net/Address/Ipv6/Prefix.antt =====
-- The last address of a network, as a number of 128 bits.
use lo_netfw.Base.{
  ℕ, zero, suc, ◌+◌, ◌-◌, ◌*◌, ◌^◌, ◌/◌, ◌%◌, ◌<◌, ◌≤◌, ◌≡◌, refl, sym, ap, ◌∙◌, arith, List, [],
  ◌∷◌, Option, none, some, length, All, bit_or,
}
use lo_netfw.Base.Bits.{bit_or_ones}
use lo_netfw.Util.Endian.Laws.{IsByte}
use lo_netfw.Net.Address.Ipv6.{with_front, set_byte, fill_from, filled_from, create_mask}
use native.Mathlib.Nat.{
  pow-zero, pow-suc, one-le-pow, pow-le-pow_right, mul-le-mul_right, div-add-mod', mod-lt,
}

-- Bytes as a number, the first one highest.
abbrev pub value : List ℕ → ℕ
value [] = 0
value (b ∷ bs) = b * 256 ^ length bs + value bs

scaled : (b c x : ℕ) → b ≤ c → b * x ≤ c * x
scaled b c x h = mul-le-mul_right x h

value-lt : (bs : List ℕ) → All IsByte bs → value bs < 256 ^ length bs
value-lt [] v = omega arith
value-lt (b ∷ bs) (v, vs) =
    omega
      (arith, value-lt bs vs, pow-suc 256 (length bs), scaled b 255 (256 ^ length bs) (omega arith))

length-fill_from : (i : ℕ) (bs : List ℕ) → length (fill_from i bs) ≡ length bs
length-fill_from i [] = refl
length-fill_from zero (b ∷ bs) = ap suc (length-fill_from zero bs)
length-fill_from (suc i) (b ∷ bs) = ap suc (length-fill_from i bs)

ones : (bs : List ℕ) → value (fill_from 0 bs) ≡ 256 ^ length bs - 1
ones [] = refl
ones (b ∷ bs) = omega (
  arith,
  ones bs,
  ap (λ n. 255 * 256 ^ n) (length-fill_from 0 bs),
  pow-suc 256 (length bs),
  one-le-pow (length bs) 256 (omega arith),
)

-- `last` is the greatest of the `k` numbers that have the front of `v`.
abbrev pub IsLast : ℕ → ℕ → ℕ → Type 0
IsLast k v last = (q : ℕ) × (s : ℕ) × (v ≡ q * k + s) × (s < k) × (last ≡ q * k + (k - 1))

pow_add : (a m n : ℕ) → a ^ (m + n) ≡ a ^ m * a ^ n
pow_add a zero n =
    let e : zero + n ≡ n = omega arith in
    ap (λ k. a ^ k) e ∙ omega (arith, ap (λ (t : ℕ). t * a ^ n) (pow-zero a))
pow_add a (suc m) n =
    let e : suc m + n ≡ suc (m + n) = omega arith in
    ap (λ k. a ^ k) e
    ∙ pow-suc a (m + n)
    ∙ ap (λ (t : ℕ). t * a) (pow_add a m n)
    ∙ omega (arith, ap (λ (t : ℕ). t * a ^ n) (pow-suc a m))

-- The number of bytes behind one.
abbrev pub after : ℕ → List ℕ → ℕ
after i [] = 0
after zero (b ∷ bs) = length bs
after (suc i) (b ∷ bs) = after i bs

-- The number of addresses with the same first `8 * i + r` bits.
abbrev pub hosts : ℕ → ℕ → List ℕ → ℕ
hosts i r bs = 2 ^ (8 - r) * 256 ^ after i bs

byte_parts : (r : ℕ) → r < 8 → 2 ^ r * 2 ^ (8 - r) ≡ 256
byte_parts r h =
    let e : r + (8 - r) ≡ 8 = omega arith in sym (pow_add 2 r (8 - r)) ∙ ap (λ (k : ℕ). 2 ^ k) e

divides :
    (i r : ℕ) (bs : List ℕ) → r < 8 → i < length bs → (m : ℕ) × (256 ^ length bs ≡ m * hosts i r bs)
divides i r [] h l = absurd (omega arith)
divides zero r (b ∷ bs) h l = (
  2 ^ r,
  pow-suc 256 (length bs) ∙ omega (arith, ap (λ (t : ℕ). t * 256 ^ length bs) (byte_parts r h)),
)
divides (suc i) r (b ∷ bs) h l =
    let (m, e) = divides i r bs h (omega arith) in
    (256 * m, pow-suc 256 (length bs) ∙ omega (arith, e))

module _ (q s p x l v : ℕ) where
  first_split : x ≡ q * p + s → x * l + v ≡ q * (p * l) + (s * l + v)
  first_split h = omega (arith, ap (λ (t : ℕ). t * l) h)

  first_low : s < p → v < l → s * l + v < p * l
  first_low h k = omega (arith, scaled (suc s) p l h)

first_last :
    (q p x l : ℕ)
    → 1 ≤ p
    → 1 ≤ l
    → x ≡ q * p + (p - 1)
    → x * l + (l - 1) ≡ q * (p * l) + (p * l - 1)
first_last q zero x l j k h = absurd (omega arith)
first_last q (suc p) x l j k h =
    let e : x ≡ q * suc p + p = omega (arith, h) in omega (arith, ap (λ (t : ℕ). t * l) e)

next_filled :
    (i b : ℕ) (o : Option (List ℕ))
    → filled_from (suc i) (with_front b o) ≡ with_front b (filled_from i o)
next_filled i b none = refl
next_filled i b (some bs) = refl

mask_on :
    (b r : ℕ)
    → r < 8
    → (q : ℕ) × (s : ℕ) × (b ≡ q * 2 ^ (8 - r) + s)
      × (s < 2 ^ (8 - r))
      × (bit_or b (create_mask r) ≡ q * 2 ^ (8 - r) + (2 ^ (8 - r) - 1))
unfolding create_mask
mask_on b r h =
    let size : 1 ≤ 2 ^ (8 - r) = one-le-pow (8 - r) 2 (omega arith) in
    let split : b ≡ b / 2 ^ (8 - r) * 2 ^ (8 - r) + b % 2 ^ (8 - r) =
      sym (div-add-mod' b (2 ^ (8 - r))) in
    let low : b % 2 ^ (8 - r) < 2 ^ (8 - r) = mod-lt b size in
    let fits : 2 ^ (8 - r) ≤ 2 ^ 8 = pow-le-pow_right (omega arith) {j = 8} (omega arith) in
    (
      b / 2 ^ (8 - r),
      b % 2 ^ (8 - r),
      split,
      low,
      ap (bit_or b) (omega arith)
          ∙ ap (λ t. bit_or t (2 ^ (8 - r) - 1)) split
          ∙ bit_or_ones (8 - r) (b / 2 ^ (8 - r)) (b % 2 ^ (8 - r)) low,
    )

pub set_byte-IsLast :
    (i r : ℕ) (bs : List ℕ)
    → r < 8
    → All IsByte bs
    → i < length bs
    → (out : List ℕ) × (filled_from (suc i) (set_byte i (λ b. bit_or b (create_mask r)) bs)
        ≡ some out)
      × (length out ≡ length bs)
      × (IsLast (hosts i r bs) (value bs) (value out))
set_byte-IsLast i r [] h v l = absurd (omega arith)
set_byte-IsLast zero r (b ∷ bs) h (v, vs) l =
    let (q, s, split, low, on) = mask_on b r h in
    let some_host : 1 ≤ 256 ^ length bs = one-le-pow (length bs) 256 (omega arith) in
    (
      bit_or b (create_mask r) ∷ fill_from 0 bs,
      refl,
      ap suc (length-fill_from 0 bs),
      (
        q,
        s * 256 ^ length bs + value bs,
        first_split q s (2 ^ (8 - r)) b (256 ^ length bs) (value bs) split,
        first_low q s (2 ^ (8 - r)) b (256 ^ length bs) (value bs) low (value-lt bs vs),
        ap (λ n. bit_or b (create_mask r) * 256 ^ n + value (fill_from 0 bs))
              (length-fill_from 0 bs)
            ∙ ap (λ t. bit_or b (create_mask r) * 256 ^ length bs + t) (ones bs)
            ∙ first_last q (2 ^ (8 - r)) (bit_or b (create_mask r)) (256 ^ length bs)
                (one-le-pow (8 - r) 2 (omega arith)) some_host on,
      ),
    )
set_byte-IsLast (suc i) r (b ∷ bs) h (v, vs) l =
    let (out, e, same, (q, s, split, low, last)) = set_byte-IsLast i r bs h vs (omega arith) in
    let (m, whole) = divides i r bs h (omega arith) in
    (
      b ∷ out,
      next_filled (suc i) b _ ∙ ap (with_front b) e,
      ap suc same,
      (
        b * m + q,
        s,
        omega (arith, split, ap (λ (t : ℕ). b * t) whole),
        low,
        ap (λ n. b * 256 ^ n + value out) same
            ∙ omega (arith, last, low, ap (λ (t : ℕ). b * t) whole),
      ),
    )

after_lem : (i : ℕ) (bs : List ℕ) → i < length bs → after i bs ≡ length bs - 1 - i
after_lem i [] l = absurd (omega arith)
after_lem zero (b ∷ bs) l = omega arith
after_lem (suc i) (b ∷ bs) l = after_lem i bs (omega arith) ∙ omega arith

pub pow_bytes : (k : ℕ) → 256 ^ k ≡ 2 ^ (8 * k)
pow_bytes zero = refl
pow_bytes (suc k) =
    let e : 8 + 8 * k ≡ 8 * suc k = omega arith in
    pow-suc 256 k ∙ omega (arith, pow_bytes k, pow_add 2 8 (8 * k)) ∙ ap (λ (t : ℕ). 2 ^ t) e

pub hosts_lem :
    (p : ℕ) (bs : List ℕ) → p < 128 → length bs ≡ 16 → hosts (p / 8) (p % 8) bs ≡ 2 ^ (128 - p)
hosts_lem p bs l e =
    let at : after (p / 8) bs ≡ 15 - p / 8 =
      after_lem (p / 8) bs (omega arith) ∙ omega (arith, e) in
    let sum : 8 - p % 8 + 8 * (15 - p / 8) ≡ 128 - p = omega arith in
    ap (λ k. 2 ^ (8 - p % 8) * 256 ^ k) at
    ∙ ap (λ (t : ℕ). 2 ^ (8 - p % 8) * t) (pow_bytes (15 - p / 8))
    ∙ sym (pow_add 2 (8 - p % 8) (8 * (15 - p / 8)))
    ∙ ap (λ (t : ℕ). 2 ^ t) sum
