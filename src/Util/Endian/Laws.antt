-- ===== src/Util/Endian/Laws.antt =====
-- Byte swapping and memory images.
use lo_netfw.Base.{
  ℕ, zero, suc, ◌/◌, ◌^◌, ◌<◌, ◌≡◌, refl, sym, ap, ◌∙◌, arith, List, [], ◌∷◌, ◌++◌, length,
  length-append, All, if◌then◌else◌,
}
use lo_netfw.Util.Endian.{
  Endian, little, big, to_bytes, of_bytes, byteswap, memory, of_memory, same_endian,
}
use mathlib.Core.Path.{ap₂, subst}
use mathlib.Core.List.{reverse, reverse-reverse, reverse-cons}
use native.Mathlib.Nat.{pow-suc}

abbrev pub IsByte : ℕ → Type 0
IsByte b = b < 256

to_bytes-of_bytes : (bs : List ℕ) → All IsByte bs → to_bytes (length bs) (of_bytes bs) ≡ bs
unfolding to_bytes of_bytes
to_bytes-of_bytes [] h = refl
to_bytes-of_bytes (b ∷ bs) h =
    ap₂ ◌∷◌ (omega arith) (ap (to_bytes (length bs)) (omega arith) ∙ to_bytes-of_bytes bs h.1)

of_bytes-to_bytes : (k v : ℕ) → v < 256 ^ k → of_bytes (to_bytes k v) ≡ v
unfolding to_bytes of_bytes
of_bytes-to_bytes zero v h = omega arith
of_bytes-to_bytes (suc k) v h =
    omega (arith, pow-suc 256 k, of_bytes-to_bytes k (v / 256) (omega (arith, pow-suc 256 k)))

length-to_bytes : (k v : ℕ) → length (to_bytes k v) ≡ k
unfolding to_bytes
length-to_bytes zero v = refl
length-to_bytes (suc k) v = ap suc (length-to_bytes k (v / 256))

to_bytes-IsByte : (k v : ℕ) → All IsByte (to_bytes k v)
unfolding to_bytes
to_bytes-IsByte zero v = tt
to_bytes-IsByte (suc k) v = (omega arith, to_bytes-IsByte k (v / 256))

length-reverse {ℓ} : {A : Type ℓ} (xs : List A) → length (reverse xs) ≡ length xs
length-reverse [] = refl
length-reverse (x ∷ xs) =
    ap length (reverse-cons x xs)
    ∙ length-append (reverse xs) (x ∷ [])
    ∙ omega (arith, length-reverse xs)

All-append {ℓ κ} :
    {A : Type ℓ} (P : A → Type κ) (xs ys : List A) → All P xs → All P ys → All P (xs ++ ys)
All-append P [] ys hx hy = hy
All-append P (x ∷ xs) ys hx hy = (hx.0, All-append P xs ys hx.1 hy)

All-reverse {ℓ κ} : {A : Type ℓ} (P : A → Type κ) (xs : List A) → All P xs → All P (reverse xs)
All-reverse P [] h = h
All-reverse P (x ∷ xs) h =
    rw (reverse-cons x xs) (All-append P (reverse xs) (x ∷ []) (All-reverse P xs h.1) (h.0, tt))

-- Swapping the bytes of a word reverses them.
to_bytes-byteswap : (k v : ℕ) → to_bytes k (byteswap k v) ≡ reverse (to_bytes k v)
unfolding byteswap
to_bytes-byteswap k v =
    subst (λ n. to_bytes n (of_bytes (reverse (to_bytes k v))) ≡ reverse (to_bytes k v))
      (length-reverse (to_bytes k v) ∙ length-to_bytes k v)
      (to_bytes-of_bytes (reverse (to_bytes k v)) (All-reverse IsByte _ (to_bytes-IsByte k v)))

-- Swapping the bytes of a word of k bytes twice gives the word.
byteswap-byteswap : (k v : ℕ) → v < 256 ^ k → byteswap k (byteswap k v) ≡ v
byteswap-byteswap k v h =
    unfold byteswap in
    ap (λ bs. of_bytes (reverse bs)) (to_bytes-byteswap k v)
    ∙ ap of_bytes (reverse-reverse (to_bytes k v))
    ∙ of_bytes-to_bytes k v h

of_bytes-lt : (bs : List ℕ) → All IsByte bs → of_bytes bs < 256 ^ length bs
unfolding of_bytes
of_bytes-lt [] h = omega arith
of_bytes-lt (b ∷ bs) h = omega (arith, pow-suc 256 (length bs), of_bytes-lt bs h.1)

-- A swapped word fits as many bytes.
byteswap-lt : (k v : ℕ) → byteswap k v < 256 ^ k
unfolding byteswap
byteswap-lt k v =
    subst (λ n. of_bytes (reverse (to_bytes k v)) < 256 ^ n)
      (length-reverse (to_bytes k v) ∙ length-to_bytes k v)
      (of_bytes-lt (reverse (to_bytes k v)) (All-reverse IsByte _ (to_bytes-IsByte k v)))

-- The value that the host stores for `v` when the order `e` is asked for.
abbrev pub in_order : Endian → Endian → ℕ → ℕ → ℕ
in_order e host k v = if same_endian e host then v else byteswap k v

-- A word that a host stores after the swap that the order asked for needs lies in its memory as
-- the bytes in that order.
pub memory-in_order :
    (e host : Endian) (k v : ℕ) → memory host k (in_order e host k v) ≡ memory e k v
unfolding memory
memory-in_order little little k v = refl
memory-in_order little big k v = ap reverse (to_bytes-byteswap k v) ∙ reverse-reverse (to_bytes k v)
memory-in_order big little k v = to_bytes-byteswap k v
memory-in_order big big k v = refl

pub length-memory : (e : Endian) (k v : ℕ) → length (memory e k v) ≡ k
unfolding memory
length-memory little k v = length-to_bytes k v
length-memory big k v = length-reverse (to_bytes k v) ∙ length-to_bytes k v

memory-IsByte : (e : Endian) (k v : ℕ) → All IsByte (memory e k v)
unfolding memory
memory-IsByte little k v = to_bytes-IsByte k v
memory-IsByte big k v = All-reverse IsByte _ (to_bytes-IsByte k v)

of_memory-memory : (e : Endian) (k v : ℕ) → v < 256 ^ k → of_memory e (memory e k v) ≡ v
unfolding memory of_memory
of_memory-memory little k v h = of_bytes-to_bytes k v h
of_memory-memory big k v h = ap of_bytes (reverse-reverse (to_bytes k v)) ∙ of_bytes-to_bytes k v h

in_order-lt : (e host : Endian) (k v : ℕ) → v < 256 ^ k → in_order e host k v < 256 ^ k
in_order-lt little little k v h = h
in_order-lt little big k v h = byteswap-lt k v
in_order-lt big little k v h = byteswap-lt k v
in_order-lt big big k v h = h

in_order_twice :
    (e host : Endian) (k v : ℕ) → v < 256 ^ k → in_order e host k (in_order e host k v) ≡ v
in_order_twice little little k v h = refl
in_order_twice little big k v h = byteswap-byteswap k v h
in_order_twice big little k v h = byteswap-byteswap k v h
in_order_twice big big k v h = refl

-- What the host reads from memory in the order `e`, swapped when the orders differ, is the word.
pub in_order-of_memory :
    (e host : Endian) (k v : ℕ)
    → v < 256 ^ k
    → in_order e host k (of_memory host (memory e k v)) ≡ v
in_order-of_memory e host k v h =
    ap (λ bs. in_order e host k (of_memory host bs)) (sym (memory-in_order e host k v))
    ∙ ap (in_order e host k) (of_memory-memory host k _ (in_order-lt e host k v h))
    ∙ in_order_twice e host k v h
