-- ===== src/Util/ZigZag/Laws.antt =====
-- What the ZigZag code means, and that its two directions undo each other.
use lo_netfw.Base.{
  ℕ, zero, suc, ◌+◌, ◌-◌, ◌*◌, ◌/◌, ◌%◌, ◌^◌, ◌≤◌, ◌<◌, bit_xor, ◌≡◌, ap, ◌∙◌, arith, ltb, inl, inr,
  Bool-cases, lt→ltb, le→ltb, ltb→lt, ltb→le, ◌==◌, if◌then◌else◌,
}
use mathlib.Core.Path.{subst}
use lo_netfw.Base.Bits.{bit_and_mask, bit_xor_ones, bit_xor_zero}
use lo_netfw.Base.Int.{ℤ, pos, negsuc, signed}
use lo_netfw.Util.ZigZag.{encode, decode}
use native.Mathlib.Nat.{pow-suc, one-le-pow, mul_comm, mod-eq_of_lt, mod-eq-sub-mod, mod_self}

-- The code of an integer: 0, -1, 1, -2, 2, ... become 0, 1, 2, 3, 4, ...
abbrev pub code : ℤ → ℕ
code (pos k) = 2 * k
code (negsuc k) = 2 * k + 1

-- The word that stands for an integer.
abbrev pub word : ℕ → ℤ → ℕ
word w (pos k) = k
word w (negsuc k) = 2 ^ suc w - 1 - k

shift_pos : (h n : ℕ) → n < h → n * 2 % (2 * h) ≡ 2 * n
shift_pos h n p = mod-eq_of_lt {n = n * 2} {m = 2 * h} (omega arith) ∙ omega arith

shift_neg : (h n : ℕ) → h ≤ n → n < 2 * h → n * 2 % (2 * h) ≡ 2 * (n - h)
shift_neg h n p q =
    mod-eq-sub-mod {n = n * 2} {m = 2 * h} (omega arith)
    ∙ mod-eq_of_lt {n = n * 2 - 2 * h} {m = 2 * h} (omega arith)
    ∙ omega arith

encode_pos : (w n : ℕ) → n < 2 ^ w → encode w n ≡ 2 * n
unfolding encode
encode_pos w n h =
    rw (lt→ltb n (2 ^ w) h, pow-suc 2 w, mul_comm (2 ^ w) 2, shift_pos (2 ^ w) n h)
      (bit_xor_zero (suc w) (2 * n) (omega (arith, pow-suc 2 w)))

encode_neg : (w n : ℕ) → 2 ^ w ≤ n → n < 2 ^ suc w → encode w n ≡ 2 * (2 ^ w - 1 - (n - 2 ^ w)) + 1
unfolding encode
encode_neg w n p q = rw (le→ltb n (2 ^ w) p) (
    ap (λ t. bit_xor (n * 2 % t) (2 ^ suc w - 1)) twice
    ∙ ap (λ t. bit_xor t (2 ^ suc w - 1)) (shift_neg (2 ^ w) n p (omega (arith, pow-suc 2 w)))
    ∙ bit_xor_ones (suc w) (2 * (n - 2 ^ w)) (omega (arith, pow-suc 2 w))
    ∙ omega (arith, pow-suc 2 w))
  where
    twice : 2 ^ suc w ≡ 2 * 2 ^ w
    twice = omega (arith, pow-suc 2 w)

-- At every width, encode sends a word to the zig-zag code of the signed integer it stands for.
encode-code : (w n : ℕ) → n < 2 ^ suc w → encode w n ≡ code (signed w n)
encode-code w n h = elim (Bool-cases (ltb n (2 ^ w))) [
  | inl low ↦ rw low (encode_pos w n (ltb→lt n (2 ^ w) low))
  | inr high ↦ rw high (encode_neg w n (ltb→le n (2 ^ w) high) h)
]

word_bits : (w b : ℕ) → b < 2 → (2 ^ suc w - b) % 2 ^ suc w ≡ (2 ^ suc w - 1) * b
word_bits w zero h =
    ap (λ (t : ℕ). t % 2 ^ suc w) (omega arith) ∙ mod_self (2 ^ suc w) ∙ omega arith
word_bits w (suc zero) h =
    mod-eq_of_lt {n = 2 ^ suc w - 1} {m = 2 ^ suc w} (omega (arith, one-le-pow (suc w) 2))
    ∙ omega arith
word_bits w (suc (suc b)) h = absurd (omega arith)

decode_parts : (w n : ℕ) → decode w n ≡ bit_xor (n / 2) ((2 ^ suc w - 1) * (n % 2))
unfolding decode
decode_parts w n =
    ap (λ (t : ℕ). bit_xor (n / 2) ((2 ^ suc w - t) % 2 ^ suc w)) (bit_and_mask 1 n)
    ∙ ap (bit_xor (n / 2)) (word_bits w (n % 2) (omega arith))

-- `decode` sends the code of an integer to the word that stands for it.
decode-code : (w : ℕ) (z : ℤ) → code z < 2 ^ suc w → decode w (code z) ≡ word w z
decode-code w (pos k) h =
    decode_parts w (2 * k)
    ∙ ap (bit_xor (2 * k / 2)) (ap (λ (t : ℕ). (2 ^ suc w - 1) * t) even ∙ omega arith)
    ∙ bit_xor_zero (suc w) (2 * k / 2) (omega arith)
    ∙ omega arith
  where
    even : 2 * k % 2 ≡ 0
    even = omega arith
decode-code w (negsuc k) h =
    decode_parts w (2 * k + 1)
    ∙ ap (bit_xor ((2 * k + 1) / 2)) (ap (λ (t : ℕ). (2 ^ suc w - 1) * t) odd ∙ omega arith)
    ∙ bit_xor_ones (suc w) ((2 * k + 1) / 2) (omega arith)
    ∙ omega arith
  where
    odd : (2 * k + 1) % 2 ≡ 1
    odd = omega arith

code-lt : (w n : ℕ) → n < 2 ^ suc w → code (signed w n) < 2 ^ suc w
code-lt w n h = ground (arith, pow-suc 2 w)

word-signed : (w n : ℕ) → n < 2 ^ suc w → word w (signed w n) ≡ n
word-signed w n h = ground (arith, pow-suc 2 w)

-- At every width, decoding the code of a word gives the word.
pub decode-encode : (w n : ℕ) → n < 2 ^ suc w → decode w (encode w n) ≡ n
decode-encode w n h =
    ap (decode w) (encode-code w n h)
    ∙ decode-code w (signed w n) (code-lt w n h)
    ∙ word-signed w n h

-- Every word is the code of some integer.
uncode : ℕ → ℤ
uncode n = if n % 2 == 0 then pos (n / 2) else negsuc (n / 2)

code-uncode : (n : ℕ) → code (uncode n) ≡ n
unfolding uncode
code-uncode n = ground arith

signed-word : (w : ℕ) (z : ℤ) → code z < 2 ^ suc w → signed w (word w z) ≡ z
signed-word w (pos k) h = ground (arith, pow-suc 2 w)
signed-word w (negsuc k) h = ground (arith, pow-suc 2 w)

word-lt : (w : ℕ) (z : ℤ) → code z < 2 ^ suc w → word w z < 2 ^ suc w
word-lt w (pos k) h = omega arith
word-lt w (negsuc k) h = omega arith

encode-decode-code : (w : ℕ) (z : ℤ) → code z < 2 ^ suc w → encode w (decode w (code z)) ≡ code z
encode-decode-code w z fits =
    ap (encode w) (decode-code w z fits)
    ∙ encode-code w (word w z) (word-lt w z fits)
    ∙ ap code (signed-word w z fits)

-- At every width, encoding the word that a code stands for gives the code.
encode-decode : (w n : ℕ) → n < 2 ^ suc w → encode w (decode w n) ≡ n
encode-decode w n h =
    subst (λ m. encode w (decode w m) ≡ m) (code-uncode n)
      (encode-decode-code w (uncode n) (omega (arith, code-uncode n)))

pub encode-lt : (w n : ℕ) → n < 2 ^ suc w → encode w n < 2 ^ suc w
encode-lt w n h = rw (encode-code w n h) (code-lt w n h)
