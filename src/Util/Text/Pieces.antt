-- ===== src/Util/Text/Pieces.antt =====
-- split.
use lo_netfw.Base.{
  ℕ, zero, suc, ◌-◌, ◌≡◌, refl, sym, ap, ◌∙◌, arith, Bool, true, false, ◌&&◌, ◌||◌, List, [], ◌∷◌,
  ◌++◌, some, All, length, drop, Bool-cases, inl, inr, if_true, if_false, ◌==◌, ==_iff,
}
use lo_netfw.Util.Text.{Text, is_prefix, split_from, split}
use mathlib.Core.List.{append_assoc}
use mathlib.Core.Path.{subst}

-- The tokens, each with the delimiter in front.
abbrev after_each : Text → List Text → Text
after_each delimiter [] = []
after_each delimiter (t ∷ ts) = delimiter ++ (t ++ after_each delimiter ts)

-- The tokens with the delimiter between them.
abbrev pub join : Text → List Text → Text
join delimiter [] = []
join delimiter (t ∷ ts) = t ++ after_each delimiter ts

pub both : (a b : Bool) → (a && b) ≡ true → (a ≡ true) × (b ≡ true)
both true b h = (refl, h)
both false b h = absurd (cc h)

prefix_drop : (d str : Text) → is_prefix d str ≡ true → d ++ drop (length d) str ≡ str
prefix_drop [] str h = refl
prefix_drop (x ∷ d) [] h = absurd (cc h)
prefix_drop (x ∷ d) (ch ∷ more) h =
    let (same, rest) = both (x == ch) (is_prefix d more) h in
    ap (λ c. c ∷ (d ++ drop (length d) more)) ((==_iff x ch).0 same)
    ∙ ap (λ t. ch ∷ t) (prefix_drop d more rest)

module _ (x : ℕ) (d : Text) where
  abbrev delimiter : Text
  delimiter = x ∷ d

  found :
      (more : Text) (ch : ℕ)
      → is_prefix delimiter (ch ∷ more) ≡ true
      → delimiter ++ drop (length delimiter - 1) more ≡ ch ∷ more
  found more ch e =
      let one_less : suc (length d) - 1 ≡ length d = omega arith in
      ap (λ n. delimiter ++ drop n more) one_less ∙ prefix_drop delimiter (ch ∷ more) e

  split_from-after :
      (skip : ℕ) (token str : Text)
      → after_each delimiter (split_from delimiter skip token str)
        ≡ delimiter ++ (token ++ drop skip str)
  split_from-after zero token [] = refl
  split_from-after (suc skip) token [] = refl
  split_from-after (suc skip) token (ch ∷ more) = split_from-after skip token more
  split_from-after zero token (ch ∷ more) = elim (Bool-cases (is_prefix delimiter (ch ∷ more))) [
    | inl e ↦
        ap (after_each delimiter) (if_true _ _ _ e)
        ∙ ap (λ t. delimiter ++ (token ++ t))
            (split_from-after (length delimiter - 1) [] more ∙ found more ch e)
    | inr e ↦
        ap (after_each delimiter) (if_false _ _ _ e)
        ∙ split_from-after zero (token ++ ch ∷ []) more
        ∙ ap (λ t. delimiter ++ t) (append_assoc token (ch ∷ []) more)
  ]

drop_front : (front back : Text) → drop (length front) (front ++ back) ≡ back
drop_front [] back = refl
drop_front (x ∷ front) back = drop_front front back

join_after :
    (d : Text) (t : Text) (ts : List Text)
    → drop (length d) (after_each d (t ∷ ts)) ≡ join d (t ∷ ts)
join_after d t ts = drop_front d (t ++ after_each d ts)

abbrev no_text : Text
no_text = []

drop_none : (n : ℕ) → drop n no_text ≡ no_text
drop_none zero = refl
drop_none (suc n) = refl

-- The text of a list of tokens that is not empty.
join-drop : (d : Text) (ts : List Text) → drop (length d) (after_each d ts) ≡ join d ts
join-drop d [] = drop_none (length d)
join-drop d (t ∷ ts) = join_after d t ts

-- Whether a text stands somewhere in another.
abbrev pub occurs : Text → Text → Bool
occurs d [] = is_prefix d []
occurs d (ch ∷ more) = is_prefix d (ch ∷ more) || occurs d more

abbrev pub Lacks : Text → Text → Type 0
Lacks d t = occurs d t ≡ false

-- The delimiter does not start in a token that stands in front of a text.
abbrev Clear : Text → Text → Text → Type 0
Clear d [] str = Unit
Clear d (ch ∷ token) str = (is_prefix d (ch ∷ (token ++ str)) ≡ false) × Clear d token str

prefix_more : (d t str : Text) → is_prefix d t ≡ true → is_prefix d (t ++ str) ≡ true
prefix_more [] t str h = refl
prefix_more (x ∷ d) [] str h = absurd (cc h)
prefix_more (x ∷ d) (ch ∷ t) str h =
    let (same, rest) = both (x == ch) (is_prefix d t) h in
    ap (λ b. b && is_prefix d (t ++ str)) same ∙ prefix_more d t str rest

module _ (x : ℕ) (d : Text) where
  Clear-Lacks : (token str : Text) → Clear (x ∷ d) token str → Lacks (x ∷ d) token
  Clear-Lacks [] str h = refl
  Clear-Lacks (ch ∷ token) str h = elim (Bool-cases (is_prefix (x ∷ d) (ch ∷ token))) [
    | inl e ↦ absurd (cc (sym (prefix_more (x ∷ d) (ch ∷ token) str e) ∙ h.0))
    | inr e ↦ ap (λ b. b || occurs (x ∷ d) token) e ∙ Clear-Lacks token str h.1
  ]

  Clear-more :
      (token : Text) (ch : ℕ) (str : Text)
      → Clear (x ∷ d) token (ch ∷ str)
      → is_prefix (x ∷ d) (ch ∷ str) ≡ false
      → Clear (x ∷ d) (token ++ ch ∷ []) str
  Clear-more [] ch str h e = (e, tt)
  Clear-more (c ∷ token) ch str h e = (
    ap (λ t. is_prefix (x ∷ d) (c ∷ t)) (append_assoc token (ch ∷ []) str) ∙ h.0,
    Clear-more token ch str h.1 e,
  )

  split_from-Lacks :
      (skip : ℕ) (token str : Text)
      → Clear (x ∷ d) token (drop skip str)
      → All (Lacks (x ∷ d)) (split_from (x ∷ d) skip token str)
  split_from-Lacks zero token [] h = (Clear-Lacks token [] h, tt)
  split_from-Lacks (suc skip) token [] h = (Clear-Lacks token [] h, tt)
  split_from-Lacks (suc skip) token (ch ∷ more) h = split_from-Lacks skip token more h
  split_from-Lacks zero token (ch ∷ more) h = elim (Bool-cases (is_prefix (x ∷ d) (ch ∷ more))) [
    | inl e ↦
        subst (All (Lacks (x ∷ d))) (sym (if_true _ _ _ e))
          (Clear-Lacks token (ch ∷ more) h, split_from-Lacks (suc (length d) - 1) [] more tt)
    | inr e ↦
        subst (All (Lacks (x ∷ d))) (sym (if_false _ _ _ e))
          (split_from-Lacks zero (token ++ ch ∷ []) more (Clear-more token ch more h e))
  ]

-- For every text and every delimiter that is not empty, split returns, its tokens with the
-- delimiter between them are the text, and the delimiter occurs in no token.
pub join-split :
    (str : Text) (x : ℕ) (d : Text)
    → (tokens : List Text) × (split str (x ∷ d) ≡ some tokens)
      × (join (x ∷ d) tokens ≡ str)
      × All (Lacks (x ∷ d)) tokens
unfolding split
join-split str x d = (
  split_from (x ∷ d) zero [] str,
  refl,
  sym (join-drop (x ∷ d) (split_from (x ∷ d) zero [] str))
      ∙ ap (drop (length (x ∷ d))) (split_from-after x d zero [] str)
      ∙ drop_front (x ∷ d) str,
  split_from-Lacks x d zero [] str tt,
)
