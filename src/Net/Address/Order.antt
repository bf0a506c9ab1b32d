-- ===== src/Net/Address/Order.antt =====
-- The order of addresses.
use mathlib.Core.Path.{ap₂, subst}
use lo_netfw.Base.{
  ℕ, zero, suc, min, length, ◌≡◌, ◌≢◌, refl, sym, ap, ◌∙◌, arith, Bool, true, false, List, [], ◌∷◌,
  and_parts, Bool-cases, inl, inr, if_true, if_false, ltb, ltb→lt, ltb→le, le→ltb, lt→ltb, ◌==◌,
  ==_iff, ◌&&◌, if◌then◌else◌, ◌↔◌, ◌<◌, ◌⊎◌,
}
use lo_netfw.Util.Text.{less}
use lo_netfw.Util.Text.Cases.{less_irreflexive, less_total}
use lo_netfw.Net.Address.{Compared, memcmp, or_shorter, is_same, less_than, equals}

or_shorter-if :
    (c d : Bool) (rest : Compared) (shorter : Bool)
    → or_shorter (if c then Compared.below else if d then Compared.above else rest) shorter
      ≡ (if c then true else if d then false else or_shorter rest shorter)
or_shorter-if true d rest shorter = refl
or_shorter-if false true rest shorter = refl
or_shorter-if false false rest shorter = refl

ltb-suc : (m n : ℕ) → ltb (suc m) (suc n) ≡ ltb m n
ltb-suc m n = ground arith

memcmp-less :
    (n : ℕ) (a b : List ℕ)
    → n ≡ min (length a) (length b)
    → or_shorter (memcmp n a b) (ltb (length a) (length b)) ≡ less a b
memcmp-less zero [] [] h = refl
memcmp-less zero [] (y ∷ ys) h = lt→ltb 0 (suc (length ys)) (omega arith)
memcmp-less zero (x ∷ xs) [] h = le→ltb (suc (length xs)) 0 (omega arith)
memcmp-less zero (x ∷ xs) (y ∷ ys) h = absurd (omega arith)
memcmp-less (suc n) [] b h = absurd (omega arith)
memcmp-less (suc n) (x ∷ xs) [] h = absurd (omega arith)
memcmp-less (suc n) (x ∷ xs) (y ∷ ys) h =
    or_shorter-if (ltb x y) (ltb y x) (memcmp n xs ys) (ltb (suc (length xs)) (suc (length ys)))
    ∙ ap (λ r. if ltb x y then true else if ltb y x then false else r)
        (ap (or_shorter (memcmp n xs ys)) (ltb-suc (length xs) (length ys))
          ∙ memcmp-less n xs ys (omega arith))

-- Address::operator< is the order of the texts of bytes: the first byte that differs decides, and
-- an address comes before every longer one that it begins.
less_than-less : (a b : List ℕ) → less_than a b ≡ less a b
unfolding less_than
less_than-less a b = memcmp-less (min (length a) (length b)) a b refl

is_same-if :
    (c d : Bool) (rest : Compared)
    → is_same (if c then Compared.below else if d then Compared.above else rest) ≡ true
    → (c ≡ false) × ((d ≡ false) × (is_same rest ≡ true))
is_same-if true d rest h = absurd (cc h)
is_same-if false true rest h = absurd (cc h)
is_same-if false false rest h = (refl, (refl, h))

memcmp-same : (a b : List ℕ) → length a ≡ length b → is_same (memcmp (length a) a b) ≡ true → a ≡ b
memcmp-same [] [] l h = refl
memcmp-same [] (y ∷ ys) l h = absurd (omega arith)
memcmp-same (x ∷ xs) [] l h = absurd (omega arith)
memcmp-same (x ∷ xs) (y ∷ ys) l h =
    let (e, (f, rest)) = is_same-if (ltb x y) (ltb y x) (memcmp (length xs) xs ys) h in
    let same : x ≡ y = omega (arith, ltb→le x y e, ltb→le y x f) in
    let more : xs ≡ ys = memcmp-same xs ys (omega arith) rest in ap₂ (λ c t. c ∷ t) same more

memcmp_refl : (a : List ℕ) → is_same (memcmp (length a) a a) ≡ true
memcmp_refl [] = refl
memcmp_refl (x ∷ xs) =
    let same : ltb x x ≡ false = le→ltb x x (omega arith) in
    ap is_same (if_false _ _ _ same ∙ if_false _ _ _ same) ∙ memcmp_refl xs

-- Address::operator== holds of two addresses exactly when they have the same bytes.
equals-same : (a b : List ℕ) → (equals a b ≡ true) ↔ (a ≡ b)
unfolding equals
equals-same a b = (
  λ h. let (l, m) = and_parts _ _ h in memcmp-same a b ((==_iff (length a) (length b)).0 l) m,
  λ e.
      subst (λ b. ((length a == length b) && is_same (memcmp (length a) a b)) ≡ true) e
        (ap (λ c. c && is_same (memcmp (length a) a a)) ((==_iff (length a) (length a)).1 refl)
          ∙ memcmp_refl a),
)

less-cons :
    (x y : ℕ) (xs ys : List ℕ)
    → less (x ∷ xs) (y ∷ ys) ≡ true
    → (x < y) ⊎ ((x ≡ y) × (less xs ys ≡ true))
less-cons x y xs ys h = elim (Bool-cases (ltb x y)) [
  | inl e ↦ inl (ltb→lt x y e)
  | inr e ↦ elim (Bool-cases (ltb y x)) [
    | inl f ↦ absurd (cc (sym (if_false _ _ _ e ∙ if_true _ _ _ f) ∙ h))
    | inr f ↦
        inr
          (omega (arith, ltb→le x y e, ltb→le y x f), sym (if_false _ _ _ e ∙ if_false _ _ _ f) ∙ h)
  ]
]

less_first : (x y : ℕ) (xs ys : List ℕ) → x < y → less (x ∷ xs) (y ∷ ys) ≡ true
less_first x y xs ys h = if_true _ _ _ (lt→ltb x y h)

less_later : (x y : ℕ) (xs ys : List ℕ) → x ≡ y → less xs ys ≡ true → less (x ∷ xs) (y ∷ ys) ≡ true
less_later x y xs ys e h =
    if_false _ _ _ (le→ltb x y (omega arith)) ∙ if_false _ _ _ (le→ltb y x (omega arith)) ∙ h

less_trans : (a b c : List ℕ) → less a b ≡ true → less b c ≡ true → less a c ≡ true
less_trans [] [] c h g = g
less_trans (x ∷ xs) [] c h g = absurd (cc h)
less_trans [] (y ∷ ys) [] h g = g
less_trans [] (y ∷ ys) (z ∷ zs) h g = refl
less_trans (x ∷ xs) (y ∷ ys) [] h g = g
less_trans (x ∷ xs) (y ∷ ys) (z ∷ zs) h g = elim (less-cons x y xs ys h) [
  | inl p ↦ elim (less-cons y z ys zs g) [
    | inl q ↦ less_first x z xs zs (omega arith)
    | inr (e, q) ↦ less_first x z xs zs (omega arith)
  ]
  | inr (e, p) ↦ elim (less-cons y z ys zs g) [
    | inl q ↦ less_first x z xs zs (omega arith)
    | inr (f, q) ↦ less_later x z xs zs (e ∙ f) (less_trans xs ys zs p q)
  ]
]

less_asym : (a b : List ℕ) → less a b ≡ true → less b a ≡ false
less_asym a b h = elim (Bool-cases (less b a)) [
  | inl g ↦ absurd (cc (less_trans a b a h g, less_irreflexive a))
  | inr g ↦ g
]

-- Which of two addresses comes first, with what all three tests then say.
pub data Ordered (a b : List ℕ) : Type 0 where
  before : less_than a b ≡ true → less_than b a ≡ false → equals a b ≡ false → Ordered a b
  even : a ≡ b → less_than a b ≡ false → less_than b a ≡ false → equals a b ≡ true → Ordered a b
  behind : less_than a b ≡ false → less_than b a ≡ true → equals a b ≡ false → Ordered a b

less_apart : (a b : List ℕ) → less a b ≡ true → a ≢ b
less_apart a b h e = absurd (cc (ap (less a) e, less_irreflexive a, h))

unequal : (a b : List ℕ) → a ≢ b → equals a b ≡ false
unequal a b h = elim (Bool-cases (equals a b)) [
  | inl e ↦ absurd (h ((equals-same a b).0 e))
  | inr e ↦ e
]

-- Of two addresses exactly one comes first, for Address::operator<, or they have the same bytes;
-- Address::operator== holds in just that last case.
pub less_than-Ordered : (a b : List ℕ) → Ordered a b
less_than-Ordered a b = elim (Bool-cases (less a b)) [
  | inl h ↦
      Ordered.before (less_than-less a b ∙ h) (less_than-less b a ∙ less_asym a b h)
        (unequal a b (less_apart a b h))
  | inr h ↦ elim (Bool-cases (less b a)) [
    | inl g ↦
        Ordered.behind (less_than-less a b ∙ h) (less_than-less b a ∙ g)
          (unequal a b (λ e. less_apart b a g (sym e)))
    | inr g ↦
        let same = less_total a b h g in
        Ordered.even same (less_than-less a b ∙ h) (less_than-less b a ∙ g)
          ((equals-same a b).1 same)
  ]
]

-- Address::operator< is transitive.
less_than_trans :
    (a b c : List ℕ) → less_than a b ≡ true → less_than b c ≡ true → less_than a c ≡ true
less_than_trans a b c h g =
    less_than-less a c
    ∙ less_trans a b c (sym (less_than-less a b) ∙ h) (sym (less_than-less b c) ∙ g)
