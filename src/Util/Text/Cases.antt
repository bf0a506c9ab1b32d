-- ===== src/Util/Text/Cases.antt =====
-- Upper and lower case, and the order of names that does not see it.
use lo_netfw.Base.{
  ℕ, ◌≡◌, ◌↔◌, refl, sym, ap, ◌∙◌, arith, false, [], ◌∷◌, Bool-cases, inl, inr, if_true, if_false,
  ltb, ltb→le, le→ltb,
}
use lo_netfw.Util.Text.{
  Text, to_lower_char, to_upper_char, to_lower, to_upper, less, insensitive_less,
}
use mathlib.Core.Path.{ap₂}

lower_lower : (ch : ℕ) → to_lower_char (to_lower_char ch) ≡ to_lower_char ch
unfolding to_lower_char
lower_lower ch = grind arith

lower_upper : (ch : ℕ) → to_lower_char (to_upper_char ch) ≡ to_lower_char ch
unfolding to_lower_char to_upper_char
lower_upper ch = grind arith

-- Lower case forgets the case and nothing more is lost by a second pass.
to_lower-to_upper :
    (str : Text)
    → (to_lower (to_upper str) ≡ to_lower str) × (to_lower (to_lower str) ≡ to_lower str)
unfolding to_lower to_upper
to_lower-to_upper [] = (refl, refl)
to_lower-to_upper (ch ∷ more) =
    let (up, low) = to_lower-to_upper more in
    (ap₂ (λ c t. c ∷ t) (lower_upper ch) up, ap₂ (λ c t. c ∷ t) (lower_lower ch) low)

pub less_irreflexive : (a : Text) → less a a ≡ false
less_irreflexive [] = refl
less_irreflexive (x ∷ xs) =
    let same : ltb x x ≡ false = le→ltb x x (omega arith) in
    if_false _ _ _ same ∙ if_false _ _ _ same ∙ less_irreflexive xs

pub less_total : (a b : Text) → less a b ≡ false → less b a ≡ false → a ≡ b
less_total [] [] h g = refl
less_total [] (y ∷ ys) h g = absurd (cc h)
less_total (x ∷ xs) [] h g = absurd (cc g)
less_total (x ∷ xs) (y ∷ ys) h g = elim (Bool-cases (ltb x y)) [
  | inl e ↦ absurd (cc (sym (if_true _ _ _ e) ∙ h))
  | inr e ↦ elim (Bool-cases (ltb y x)) [
    | inl f ↦ absurd (cc (sym (if_true _ _ _ f) ∙ g))
    | inr f ↦
        let same : x ≡ y = omega (arith, ltb→le x y e, ltb→le y x f) in
        let rest : xs ≡ ys =
          less_total xs ys (sym (if_false _ _ _ e ∙ if_false _ _ _ f) ∙ h)
            (sym (if_false _ _ _ f ∙ if_false _ _ _ e) ∙ g) in
        ap₂ (λ c t. c ∷ t) same rest
  ]
]

-- InsensitiveStringCompare puts neither of two names before the other exactly when they are the
-- same in lower case, so that a map with this order takes them for one key.
insensitive_less-same :
    (a b : Text)
    → ((insensitive_less a b ≡ false) × (insensitive_less b a ≡ false)) ↔ (to_lower a ≡ to_lower b)
unfolding insensitive_less
insensitive_less-same a b = (
  λ h. less_total (to_lower a) (to_lower b) h.0 h.1,
  λ e. (
    ap (less (to_lower a)) (sym e) ∙ less_irreflexive (to_lower a),
    ap (less (to_lower b)) e ∙ less_irreflexive (to_lower b),
  ),
)
