-- ===== src/Util/Text/Trim.antt =====
-- trim.
use lo_netfw.Base.{
  ℕ, ◌≡◌, refl, sym, ap, ◌∙◌, Bool, true, false, not, ◌&&◌, [], ◌∷◌, ◌++◌, All, Bool-cases, inl,
  inr, if_true, if_false,
}
use lo_netfw.Util.Text.{Text, is_space, is_none, trim_start, trim_end, trim}
use lo_netfw.Util.Text.Pieces.{both}

abbrev no_text : Text
no_text = []

abbrev IsSpace : ℕ → Type 0
IsSpace ch = is_space ch ≡ true

-- A text that neither starts nor ends with a space.
abbrev pub starts_clean : Text → Bool
starts_clean [] = true
starts_clean (ch ∷ more) = not (is_space ch)

abbrev pub ends_clean : Text → Bool
ends_clean [] = true
ends_clean (ch ∷ []) = not (is_space ch)
ends_clean (ch ∷ next ∷ more) = ends_clean (next ∷ more)

-- `t` is `str` without the spaces around it.
pub record Trims (str t : Text) : Type 0 where
  pub front : Text
  pub back : Text
  pub whole : str ≡ front ++ (t ++ back)
  pub spaces_front : All IsSpace front
  pub spaces_back : All IsSpace back
  pub starts : starts_clean t ≡ true
  pub ends : ends_clean t ≡ true

-- What trim_start takes off.
front_of :
    (str : Text)
    → (front : Text) × (str ≡ front ++ trim_start str)
      × All IsSpace front
      × (starts_clean (trim_start str) ≡ true)
front_of [] = ([], refl, tt, refl)
front_of (ch ∷ more) = elim (Bool-cases (is_space ch)) [
  | inl e ↦
      let (front, whole, spaces, clean) = front_of more in
      (
        ch ∷ front,
        ap (λ t. ch ∷ t) whole ∙ ap (λ t. ch ∷ (front ++ t)) (sym (if_true _ _ _ e)),
        (e, spaces),
        ap starts_clean (if_true _ _ _ e) ∙ clean,
      )
  | inr e ↦ ([], sym (if_false _ _ _ e), tt, ap starts_clean (if_false _ _ _ e) ∙ ap not e)
]

none_empty : (t : Text) → is_none t ≡ true → t ≡ []
none_empty [] h = refl
none_empty (x ∷ t) h = absurd (cc h)

ends_more :
    (ch : ℕ) (t : Text)
    → (is_none t && is_space ch) ≡ false
    → ends_clean t ≡ true
    → ends_clean (ch ∷ t) ≡ true
ends_more ch [] h e = ap not h
ends_more ch (x ∷ t) h e = e

-- What trim_end takes off.
back_of :
    (str : Text)
    → (back : Text) × (str ≡ trim_end str ++ back)
      × All IsSpace back
      × (ends_clean (trim_end str) ≡ true)
back_of [] = ([], refl, tt, refl)
back_of (ch ∷ more) =
    let (back, whole, spaces, clean) = back_of more in
    elim (Bool-cases (is_none (trim_end more) && is_space ch)) [
      | inl e ↦
          let (empty, space) = both (is_none (trim_end more)) (is_space ch) e in
          (
            ch ∷ back,
            ap (λ t. ch ∷ t) (whole ∙ ap (λ t. t ++ back) (none_empty (trim_end more) empty))
                ∙ sym (ap (λ t. t ++ ch ∷ back) (if_true _ no_text (ch ∷ trim_end more) e)),
            (space, spaces),
            ap ends_clean (if_true _ _ _ e),
          )
      | inr e ↦ (
        back,
        ap (λ t. ch ∷ t) whole ∙ sym (ap (λ t. t ++ back) (if_false _ _ _ e)),
        spaces,
        ap ends_clean (if_false _ _ _ e) ∙ ends_more ch (trim_end more) e clean,
      )
    ]

starts-trim_end : (str : Text) → starts_clean str ≡ true → starts_clean (trim_end str) ≡ true
starts-trim_end [] h = refl
starts-trim_end (ch ∷ more) h = elim (Bool-cases (is_none (trim_end more) && is_space ch)) [
  | inl e ↦ ap starts_clean (if_true _ _ _ e)
  | inr e ↦ ap starts_clean (if_false _ _ _ e) ∙ h
]

-- Trim takes spaces alone off a text, in front and behind, and what is left neither starts nor
-- ends with a space.
trim-Trims : (str : Text) → Trims str (trim str)
unfolding trim
trim-Trims str =
    let (front, whole, spaces, clean) = front_of str in
    let (back, rest, spaces', clean') = back_of (trim_start str) in
    record {
      front = front;
      back = back;
      whole = whole ∙ ap (λ t. front ++ t) rest;
      spaces_front = spaces;
      spaces_back = spaces';
      starts = starts-trim_end (trim_start str) clean;
      ends = clean';
    }
