-- ===== src/Net/Address/Ipv6/Mask.antt =====
-- The mask of a network, as a number of 128 bits, and accesses behind the array.
use lo_netfw.Base.{
  ℕ, zero, suc, ◌+◌, ◌-◌, ◌*◌, ◌^◌, ◌%◌, ◌<◌, ◌≤◌, ◌≡◌, refl, ap, ◌∙◌, arith, List, [], ◌∷◌, Option,
  none, some, length, length-replicate, replicate, bit_xor,
}
use lo_netfw.Base.Bits.{bit_xor_ones}
use lo_netfw.Net.Address.Ipv6.{with_front, set_byte, filled_to, create_mask}
use lo_netfw.Net.Address.Ipv6.Prefix.{value, hosts}
use native.Mathlib.Nat.{pow-suc, one-le-pow, pow-le-pow_right}

mask_off : (r : ℕ) → r < 8 → bit_xor (create_mask r) 255 + 2 ^ (8 - r) ≡ 256
unfolding create_mask
mask_off r h =
    let fits : 2 ^ (8 - r) ≤ 2 ^ 8 = pow-le-pow_right (omega arith) {j = 8} (omega arith) in
    let size : 1 ≤ 2 ^ (8 - r) = one-le-pow (8 - r) 2 (omega arith) in
    let e : (2 ^ (8 - r) - 1) % 2 ^ 8 ≡ 2 ^ (8 - r) - 1 = omega arith in
    omega (arith, bit_xor_ones 8 ((2 ^ (8 - r) - 1) % 2 ^ 8) (omega arith), e)

next_filled_to :
    (i b : ℕ) (o : Option (List ℕ))
    → filled_to (suc i) (with_front b o) ≡ with_front 255 (filled_to i o)
next_filled_to i b none = refl
next_filled_to i b (some bs) = refl

pub set_byte-out : (i : ℕ) (f : ℕ → ℕ) (bs : List ℕ) → length bs ≤ i → set_byte i f bs ≡ none
set_byte-out i f [] h = refl
set_byte-out zero f (b ∷ bs) h = absurd (omega arith)
set_byte-out (suc i) f (b ∷ bs) h = ap (with_front b) (set_byte-out i f bs (omega arith))

zeros : (n : ℕ) → value (replicate n 0) ≡ 0
zeros zero = refl
zeros (suc n) = omega (arith, zeros n)

pub front_ones :
    (i r n : ℕ)
    → r < 8
    → i < n
    → (out : List ℕ) × (filled_to i (set_byte i (λ b. bit_xor (create_mask r) 255) (replicate n 0))
        ≡ some out)
      × (length out ≡ n)
      × (value out + hosts i r (replicate n 0) ≡ 256 ^ n)
front_ones i r zero h l = absurd (omega arith)
front_ones zero r (suc n) h l = (
  bit_xor (create_mask r) 255 ∷ replicate n 0,
  refl,
  ap suc (length-replicate n 0),
  ap (λ k. bit_xor (create_mask r) 255 * 256 ^ k + value (replicate n 0) + 2 ^ (8 - r) * 256 ^ k)
        (length-replicate n 0)
      ∙ omega (arith, zeros n, pow-suc 256 n, ap (λ (t : ℕ). t * 256 ^ n) (mask_off r h)),
)
front_ones (suc i) r (suc n) h l =
    let (out, e, same, sum) = front_ones i r n h (omega arith) in
    (
      255 ∷ out,
      next_filled_to i 0 _ ∙ ap (with_front 255) e,
      ap suc same,
      ap (λ k. 255 * 256 ^ k + value out + hosts i r (replicate n 0)) same
          ∙ omega (arith, sum, pow-suc 256 n),
    )
