-- ===== src/Util/Text/Dict.antt =====
-- `std::map` with texts as keys, as a list of its entries, and `==` of std::string.
use lo_netfw.Base.{
  ◌≡◌, ◌≢◌, ◌↔◌, refl, sym, ap, ◌∙◌, Bool, true, false, List, [], ◌∷◌, Option, none, some, ◌&&◌,
  ◌==◌, ==_iff, and_parts, if◌then◌else◌, if_true, if_false, Bool-cases, inl, inr,
}
use lo_netfw.Util.Text.{Text}
use mathlib.Core.Path.{ap₂}

abbrev pub same_text : Text → Text → Bool
same_text [] [] = true
same_text [] (b ∷ bs) = false
same_text (a ∷ xs) [] = false
same_text (a ∷ xs) (b ∷ bs) = (a == b) && same_text xs bs

same_text_refl : (a : Text) → same_text a a ≡ true
same_text_refl [] = refl
same_text_refl (x ∷ xs) = ap (λ b. b && same_text xs xs) ((==_iff x x).1 refl) ∙ same_text_refl xs

pub same_text-eq : (a b : Text) → same_text a b ≡ true → a ≡ b
same_text-eq [] [] h = refl
same_text-eq [] (b ∷ bs) h = absurd (cc h)
same_text-eq (a ∷ xs) [] h = absurd (cc h)
same_text-eq (a ∷ xs) (b ∷ bs) h =
    let (e, f) = and_parts (a == b) (same_text xs bs) h in
    ap₂ ◌∷◌ ((==_iff a b).0 e) (same_text-eq xs bs f)

pub same_text_iff : (a b : Text) → (same_text a b ≡ true) ↔ (a ≡ b)
same_text_iff a b = (same_text-eq a b, λ e. ap (same_text a) (sym e) ∙ same_text_refl a)

module _ {ℓ} {V : Type ℓ} where
  abbrev pub lookup : Text → List (Text × V) → Option V
  lookup name [] = none
  lookup name ((key, p) ∷ more) = if same_text key name then some p else lookup name more

  abbrev pub insert : Text → V → List (Text × V) → List (Text × V)
  insert name p [] = (name, p) ∷ []
  insert name p ((key, q) ∷ more) =
      if same_text key name then (key, p) ∷ more else (key, q) ∷ insert name p more

  abbrev pub erase : Text → List (Text × V) → List (Text × V)
  erase name [] = []
  erase name ((key, q) ∷ more) = if same_text key name then more else (key, q) ∷ erase name more

  pub lookup-insert_self :
      (name : Text) (p : V) (ls : List (Text × V)) → lookup name (insert name p ls) ≡ some p
  lookup-insert_self name p [] = if_true _ _ _ ((same_text_iff name name).1 refl)
  lookup-insert_self name p ((key, q) ∷ more) = elim (Bool-cases (same_text key name)) [
    | inl e ↦ rw e (if_true _ _ _ e)
    | inr e ↦ rw e (if_false _ _ _ e ∙ lookup-insert_self name p more)
  ]

  pub lookup-insert_ne :
      (name other : Text) (p : V) (ls : List (Text × V))
      → other ≢ name
      → lookup other (insert name p ls) ≡ lookup other ls
  lookup-insert_ne name other p [] h = elim (Bool-cases (same_text name other)) [
    | inl e ↦ absurd (h (sym ((same_text_iff name other).0 e)))
    | inr e ↦ if_false _ _ _ e
  ]
  lookup-insert_ne name other p ((key, q) ∷ more) h = elim (Bool-cases (same_text key name)) [
    | inl e ↦ rw e (elim (Bool-cases (same_text key other)) [
      | inl f ↦ absurd (h (sym ((same_text_iff key other).0 f) ∙ (same_text_iff key name).0 e))
      | inr f ↦ if_false _ _ _ f ∙ sym (if_false _ _ _ f)
    ])
    | inr e ↦
        rw e (
          ap (λ o. if same_text key other then some q else o)
            (lookup-insert_ne name other p more h))
  ]

  pub lookup-insert :
      (name other : Text) (p : V) (ls : List (Text × V))
      → lookup other (insert name p ls) ≡ (if same_text name other then some p else lookup other ls)
  lookup-insert name other p ls = elim (Bool-cases (same_text name other)) [
    | inl e ↦
        ap (λ k. lookup k (insert name p ls)) (sym ((same_text_iff name other).0 e))
        ∙ lookup-insert_self name p ls
        ∙ sym (if_true _ _ _ e)
    | inr e ↦
        lookup-insert_ne name other p ls
          (λ h. absurd (cc ((same_text_iff name other).1 (sym h), e)))
        ∙ sym (if_false _ _ _ e)
  ]
