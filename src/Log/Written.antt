-- ===== src/Log/Written.antt =====
-- What a LogFormatter prints, by the parts that its pattern is written with.
use lo_netfw.Base.{
  ℕ, ◌≡◌, refl, sym, ap, ◌∙◌, Bool, true, false, List, [], ◌∷◌, ◌++◌, map, Option, some, ◌==◌,
  ==_iff, if◌then◌else◌, if_false, All,
}
use lo_netfw.Util.Text.{
  Text, Piece, literal, directive, date, Mode, between, in_text, behind_percent, behind_d, in_date,
  then_piece, parse_from, format_parser,
}
use lo_netfw.Util.Text.Formats.{all_written}
use lo_netfw.Log.{
  Level, LogEvent, LogFormatter, DateTime, item_of, item_text, items_text, formatter_of, create,
  format,
}
use mathlib.Core.List.{append_assoc, append-nil}

-- No character is such a one.
abbrev pub Lacks : ℕ → Text → Type 0
Lacks ch str = All (λ x. (x == ch) ≡ false) str

-- What stands before a part of a pattern: nothing that matters to it, a text, or `%d`.
pub data Before : Type 0 where
  anything : Before
  a_text : Text → Before
  a_date_letter : Before

abbrev pub IsText : Text → Type 0
IsText [] = ⊥
IsText (ch ∷ str) = Lacks 37 (ch ∷ str)

abbrev pub OpensNoDate : Text → Type 0
OpensNoDate [] = Unit
OpensNoDate (ch ∷ str) = (ch == 123) ≡ false

abbrev pub before_next : ℕ → Before
before_next ch = if ch == 100 then a_date_letter else anything

abbrev pub FitsText : Before → Text → Type 0
FitsText anything str = IsText str
FitsText (a_text t) str = ⊥
FitsText a_date_letter str = IsText str × OpensNoDate str

-- The parts can stand there: no text is empty, has a `%` or follows another text, none that begins
-- with `{` follows `%d`, no directive is `%`, no date has a `}`.
abbrev pub Fits : Before → List Piece → Type 0
Fits b [] = Unit
Fits b (literal str ∷ ps) = FitsText b str × Fits (a_text str) ps
Fits b (directive ch ∷ ps) = ((ch == 37) ≡ false) × Fits (before_next ch) ps
Fits b (date str ∷ ps) = Lacks 125 str × Fits anything ps

-- The parser there, and what it gives first.
abbrev mode : Before → Mode
mode anything = between
mode (a_text t) = in_text t
mode a_date_letter = behind_d

abbrev closing : Before → Option (List Piece) → Option (List Piece)
closing anything o = o
closing (a_text t) o = then_piece (literal t) o
closing a_date_letter o = then_piece (directive 100) o

run_text :
    (acc str more : Text)
    → Lacks 37 str
    → parse_from (in_text acc) (str ++ more) ≡ parse_from (in_text (acc ++ str)) more
run_text acc [] more h = ap (λ t. parse_from (in_text t) more) (sym (append-nil acc))
run_text acc (ch ∷ str) more (h, hs) =
    if_false _ _ _ h
    ∙ run_text (acc ++ ch ∷ []) str more hs
    ∙ ap (λ t. parse_from (in_text t) more) (append_assoc acc (ch ∷ []) str)

run_date :
    (acc str more : Text)
    → Lacks 125 str
    → parse_from (in_date acc) (str ++ 125 ∷ more)
      ≡ then_piece (date (acc ++ str)) (parse_from between more)
run_date acc [] more h =
    ap (λ t. then_piece (date t) (parse_from between more)) (sym (append-nil acc))
run_date acc (ch ∷ str) more (h, hs) =
    if_false _ _ _ h
    ∙ run_date (acc ++ ch ∷ []) str more hs
    ∙ ap (λ t. then_piece (date t) (parse_from between more)) (append_assoc acc (ch ∷ []) str)

-- A `%` ends what stands before it.
enter :
    (b : Before) (more : Text)
    → parse_from (mode b) (37 ∷ more) ≡ closing b (parse_from behind_percent more)
enter anything more = refl
enter (a_text t) more = refl
enter a_date_letter more = refl

behind_directive :
    (ch : ℕ) (more : Text)
    → (ch == 37) ≡ false
    → parse_from behind_percent (ch ∷ more) ≡ (
        if ch == 100
        then parse_from behind_d more
        else then_piece (directive ch) (parse_from between more))
behind_directive ch more h = if_false _ _ _ h

after_directive :
    (c : Bool) (ch : ℕ) (ps : List Piece)
    → (c ≡ true → ch ≡ 100)
    → let b = if c then a_date_letter else anything in
      parse_from (mode b) (all_written ps) ≡ closing b (some ps)
      → (if c
          then parse_from behind_d (all_written ps)
          else then_piece (directive ch) (parse_from between (all_written ps)))
        ≡ some (directive ch ∷ ps)
after_directive true ch ps e ih = ih ∙ ap (λ k. some (directive k ∷ ps)) (sym (e refl))
after_directive false ch ps e ih = ap (then_piece (directive ch)) ih

parse_from-all_written :
    (b : Before) (ps : List Piece)
    → Fits b ps
    → parse_from (mode b) (all_written ps) ≡ closing b (some ps)
parse_from-all_written anything [] h = refl
parse_from-all_written (a_text t) [] h = refl
parse_from-all_written a_date_letter [] h = refl
parse_from-all_written anything (literal [] ∷ ps) h = absurd h.0
parse_from-all_written anything (literal (ch ∷ str) ∷ ps) (h, hs) =
    if_false _ _ _ h.0
    ∙ run_text (ch ∷ []) str (all_written ps) h.1
    ∙ parse_from-all_written (a_text (ch ∷ str)) ps hs
parse_from-all_written (a_text t) (literal str ∷ ps) h = absurd h.0
parse_from-all_written a_date_letter (literal [] ∷ ps) h = absurd h.0.0
parse_from-all_written a_date_letter (literal (ch ∷ str) ∷ ps) ((h, o), hs) =
    if_false _ _ _ o
    ∙ if_false _ _ _ h.0
    ∙ ap (then_piece (directive 100)) (
        run_text (ch ∷ []) str (all_written ps) h.1
        ∙ parse_from-all_written (a_text (ch ∷ str)) ps hs)
parse_from-all_written b (directive ch ∷ ps) (h, hs) =
    enter b (ch ∷ all_written ps)
    ∙ ap (closing b) (
        behind_directive ch (all_written ps) h
        ∙ after_directive (ch == 100) ch ps (==_iff ch 100).0
            (parse_from-all_written (before_next ch) ps hs))
parse_from-all_written b (date str ∷ ps) (h, hs) =
    ap (λ t. parse_from (mode b) (37 ∷ 100 ∷ 123 ∷ t))
      (append_assoc str (125 ∷ []) (all_written ps))
    ∙ enter b (100 ∷ 123 ∷ str ++ 125 ∷ all_written ps)
    ∙ ap (closing b) (
        run_date [] str (all_written ps) h
        ∙ ap (then_piece (date str)) (parse_from-all_written anything ps hs))

-- formatParser of a written pattern gives the parts that it was written with.
format_parser-all_written :
    (ps : List Piece) → Fits anything ps → format_parser (all_written ps) ≡ some ps
unfolding format_parser
format_parser-all_written ps h = parse_from-all_written anything ps h

-- What a part prints.
abbrev pub piece_text : DateTime → Piece → Text → Level → LogEvent → Text
piece_text dt p name level e = item_text dt (item_of p) name level e

abbrev pub pieces_text : DateTime → List Piece → Text → Level → LogEvent → Text
pieces_text dt [] name level e = []
pieces_text dt (p ∷ ps) name level e =
    piece_text dt p name level e ++ pieces_text dt ps name level e

items_text-map :
    (dt : DateTime) (ps : List Piece) (name : Text) (level : Level) (e : LogEvent)
    → items_text dt (map item_of ps) name level e ≡ pieces_text dt ps name level e
items_text-map dt [] name level e = refl
items_text-map dt (p ∷ ps) name level e =
    ap (◌++◌ (piece_text dt p name level e)) (items_text-map dt ps name level e)

-- For a pattern that is written from parts, where no text is empty, has a % or follows another
-- text, none that begins with { follows %d, no directive is % and no date has a }, the constructor
-- of LogFormatter returns, and format prints, one after the other, what the parts print.
pub format-written :
    (dt : DateTime) (ps : List Piece) (name : Text) (level : Level) (e : LogEvent)
    → Fits anything ps
    → (f : LogFormatter) × (create (all_written ps) ≡ some f)
      × (format dt f name level e ≡ pieces_text dt ps name level e)
unfolding create format
format-written dt ps name level e h = (
  record { items = map item_of ps; pattern_text = all_written ps },
  ap (formatter_of (all_written ps)) (format_parser-all_written ps h),
  items_text-map dt ps name level e,
)
