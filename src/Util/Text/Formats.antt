-- ===== src/Util/Text/Formats.antt =====
-- formatParser takes a format apart and loses nothing.
use lo_netfw.Base.{
  ℕ, ◌≡◌, refl, sym, ap, Bool, true, false, List, [], ◌∷◌, ◌++◌, Option, none, some, ◌==◌, ==_iff,
  if◌then◌else◌,
}
use lo_netfw.Util.Text.{
  Text, Piece, literal, directive, date, Mode, between, in_text, behind_percent, behind_d, in_date,
  then_piece, parse_from, format_parser,
}
use mathlib.Core.Path.{subst}
use mathlib.Core.List.{append_assoc}

-- The text that a part of the format stands for in it.
abbrev pub written : Piece → Text
written (literal t) = t
written (directive ch) = 37 ∷ ch ∷ []
written (date t) = 37 ∷ 100 ∷ 123 ∷ t ++ 125 ∷ []

abbrev pub all_written : List Piece → Text
all_written [] = []
all_written (p ∷ ps) = written p ++ all_written ps

-- What the parser has read of the part it is in.
abbrev read_so_far : Mode → Text
read_so_far between = []
read_so_far (in_text t) = t
read_so_far behind_percent = 37 ∷ []
read_so_far behind_d = 37 ∷ 100 ∷ []
read_so_far (in_date t) = 37 ∷ 100 ∷ 123 ∷ t

abbrev pub Writes : Text → Option (List Piece) → Type 0
Writes str none = Unit
Writes str (some ps) = all_written ps ≡ str

then-Writes :
    (p : Piece) (str : Text) (o : Option (List Piece))
    → Writes str o
    → Writes (written p ++ str) (then_piece p o)
then-Writes p str none h = tt
then-Writes p str (some ps) h = ap (λ t. written p ++ t) h

if-Writes :
    (b : Bool) (str : Text) (x y : Option (List Piece))
    → (b ≡ true → Writes str x)
    → (b ≡ false → Writes str y)
    → Writes str (if b then x else y)
if-Writes true str x y g h = g refl
if-Writes false str x y g h = h refl

-- A character that was compared with `k`.
known :
    (front : Text) (ch k : ℕ) (more : Text) (o : Option (List Piece))
    → Writes (front ++ k ∷ more) o
    → (ch == k) ≡ true
    → Writes (front ++ ch ∷ more) o
known front ch k more o h e = subst (λ c. Writes (front ++ c ∷ more) o) (sym ((==_iff ch k).0 e)) h

appended :
    (front : Text) (ch : ℕ) (more : Text) (o : Option (List Piece))
    → Writes ((front ++ ch ∷ []) ++ more) o
    → Writes (front ++ ch ∷ more) o
appended front ch more o h = subst (λ t. Writes t o) (append_assoc front (ch ∷ []) more) h

parse_from-Writes : (m : Mode) (str : Text) → Writes (read_so_far m ++ str) (parse_from m str)
parse_from-Writes between [] = refl
parse_from-Writes (in_text t) [] = refl
parse_from-Writes behind_percent [] = refl
parse_from-Writes behind_d [] = refl
parse_from-Writes (in_date t) [] = tt
parse_from-Writes between (ch ∷ more) =
    if-Writes (ch == 37) (ch ∷ more) _ _
      (known [] ch 37 more _ (parse_from-Writes behind_percent more))
      (λ _. parse_from-Writes (in_text (ch ∷ [])) more)
parse_from-Writes (in_text t) (ch ∷ more) =
    if-Writes (ch == 37) (t ++ ch ∷ more) _ _
      (known t ch 37 more _
        (then-Writes (literal t) (37 ∷ more) _ (parse_from-Writes behind_percent more)))
      (λ _. appended t ch more _ (parse_from-Writes (in_text (t ++ ch ∷ [])) more))
parse_from-Writes behind_percent (ch ∷ more) =
    if-Writes (ch == 37) (37 ∷ ch ∷ more) _ _
      (known (37 ∷ []) ch 37 more _
        (then-Writes (literal (37 ∷ [])) (37 ∷ more) _ (parse_from-Writes behind_percent more)))
      (λ _.
        if-Writes (ch == 100) (37 ∷ ch ∷ more) _ _
          (known (37 ∷ []) ch 100 more _ (parse_from-Writes behind_d more))
          (λ _. then-Writes (directive ch) more _ (parse_from-Writes between more)))
parse_from-Writes behind_d (ch ∷ more) =
    if-Writes (ch == 123) (37 ∷ 100 ∷ ch ∷ more) _ _
      (known (37 ∷ 100 ∷ []) ch 123 more _ (parse_from-Writes (in_date []) more))
      (λ _.
        if-Writes (ch == 37) (37 ∷ 100 ∷ ch ∷ more) _ _
          (known (37 ∷ 100 ∷ []) ch 37 more _
            (then-Writes (directive 100) (37 ∷ more) _ (parse_from-Writes behind_percent more)))
          (λ _.
            then-Writes (directive 100) (ch ∷ more) _ (parse_from-Writes (in_text (ch ∷ [])) more)))
parse_from-Writes (in_date t) (ch ∷ more) =
    let front : Text = 37 ∷ 100 ∷ 123 ∷ t in
    if-Writes (ch == 125) (front ++ ch ∷ more) _ _
      (λ e.
        known front ch 125 more _
          (subst (λ str. Writes str (then_piece (date t) (parse_from between more)))
            (append_assoc front (125 ∷ []) more)
            (then-Writes (date t) more _ (parse_from-Writes between more)))
          e)
      (λ _. appended front ch more _ (parse_from-Writes (in_date (t ++ ch ∷ [])) more))

-- When formatParser returns, the parts it made, written one behind the other, are the format:
-- nothing is lost or added, a doubled percent sign included.
pub format_parser-written :
    (str : Text) (ps : List Piece) → format_parser str ≡ some ps → all_written ps ≡ str
unfolding format_parser
format_parser-written str ps e = subst (Writes str) e (parse_from-Writes between str)
