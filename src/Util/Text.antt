-- ===== src/Util/Text.antt =====
-- The functions on text of util/util.cpp. A text is the list of its bytes; `char` is signed, so the
-- bytes from 128 on are below every letter and no function changes them.
pub mod Cases
pub mod Pieces
pub mod Trim
pub mod Formats
pub mod Dict
mod Tests
use lo_netfw.Base.{
  ℕ, zero, suc, ◌+◌, ◌-◌, Bool, true, false, not, ◌&&◌, ◌||◌, List, [], ◌∷◌, ◌++◌, map, Option,
  none, some, length, ltb, leb, ◌==◌, if◌then◌else◌,
}

abbrev pub Text : Type 0
Text = List ℕ

-- toLower and toUpper of a character and of a text
unfoldable pub to_lower_char : ℕ → ℕ
to_lower_char ch = if leb 65 ch && leb ch 90 then ch + 32 else ch

unfoldable pub to_upper_char : ℕ → ℕ
to_upper_char ch = if leb 97 ch && leb ch 122 then ch - 32 else ch

unfoldable pub to_lower : Text → Text
unfolding to_lower_char
to_lower str = map to_lower_char str

unfoldable pub to_upper : Text → Text
unfolding to_upper_char
to_upper str = map to_upper_char str

-- `<` of std::string
abbrev pub less : Text → Text → Bool
less [] [] = false
less [] (b ∷ bs) = true
less (a ∷ xs) [] = false
less (a ∷ xs) (b ∷ bs) =
    let rest = less xs bs in if ltb a b then true else if ltb b a then false else rest

-- InsensitiveStringCompare
unfoldable pub insensitive_less : Text → Text → Bool
unfolding to_lower
insensitive_less lhs rhs = less (to_lower lhs) (to_lower rhs)

-- A letter, a digit, `_` or `.`
abbrev pub is_name_char : ℕ → Bool
is_name_char ch =
    (leb 97 ch && leb ch 122)
    || ((leb 65 ch && leb ch 90) || ((leb 48 ch && leb ch 57) || ((ch == 95) || (ch == 46))))

-- isValidParamName
unfoldable pub is_valid_param_name : Text → Bool
is_valid_param_name [] = true
is_valid_param_name (ch ∷ more) = is_name_char ch && is_valid_param_name more

-- std::isspace in the locale "C"
abbrev pub is_space : ℕ → Bool
is_space ch = (leb 9 ch && leb ch 13) || (ch == 32)

-- The two loops of trim, and trim
abbrev pub trim_start : Text → Text
trim_start [] = []
trim_start (ch ∷ more) = let rest = trim_start more in if is_space ch then rest else ch ∷ more

abbrev pub is_none : Text → Bool
is_none [] = true
is_none (ch ∷ more) = false

abbrev pub trim_end : Text → Text
trim_end [] = []
trim_end (ch ∷ more) =
    let rest = trim_end more in if is_none rest && is_space ch then [] else ch ∷ rest

unfoldable pub trim : Text → Text
trim str = trim_end (trim_start str)

-- Whether the delimiter stands at the front.
abbrev pub is_prefix : Text → Text → Bool
is_prefix [] str = true
is_prefix (d ∷ ds) [] = false
is_prefix (d ∷ ds) (ch ∷ more) = (d == ch) && is_prefix ds more

-- The loop of split: `skip` characters belong to the delimiter that was found, `token` has come before.
abbrev pub split_from : Text → ℕ → Text → Text → List Text
split_from delimiter skip token [] = token ∷ []
split_from delimiter (suc skip) token (ch ∷ more) = split_from delimiter skip token more
split_from delimiter zero token (ch ∷ more) =
    let found = split_from delimiter (length delimiter - 1) [] more in
    let further = split_from delimiter zero (token ++ ch ∷ []) more in
    if is_prefix delimiter (ch ∷ more) then token ∷ found else further

-- split; with an empty delimiter its loop does not end.
unfoldable pub split : Text → Text → Option (List Text)
split s [] = none
split s (d ∷ ds) = some (split_from (d ∷ ds) zero [] s)

-- What formatParser makes of a part of the format: a text (0), a directive (1), a format of dates (2).
pub data Piece : Type 0 where
  literal : Text → Piece
  directive : ℕ → Piece
  date : Text → Piece

-- Where formatParser stands: between parts, in a text, behind `%`, behind `%d`, behind `%d{`.
pub data Mode : Type 0 where
  between : Mode
  in_text : Text → Mode
  behind_percent : Mode
  behind_d : Mode
  in_date : Text → Mode

abbrev pub then_piece : Piece → Option (List Piece) → Option (List Piece)
then_piece p none = none
then_piece p (some ps) = some (p ∷ ps)

-- formatParser from a place on; `none` where it throws.
abbrev pub parse_from : Mode → Text → Option (List Piece)
parse_from between [] = some []
parse_from (in_text t) [] = some (literal t ∷ [])
parse_from behind_percent [] = some (literal (37 ∷ []) ∷ [])
parse_from behind_d [] = some (directive 100 ∷ [])
parse_from (in_date t) [] = none
parse_from between (ch ∷ more) =
    let percent = parse_from behind_percent more in
    let text = parse_from (in_text (ch ∷ [])) more in if ch == 37 then percent else text
parse_from (in_text t) (ch ∷ more) =
    let percent = parse_from behind_percent more in
    let text = parse_from (in_text (t ++ ch ∷ [])) more in
    if ch == 37 then then_piece (literal t) percent else text
parse_from behind_percent (ch ∷ more) =
    let percent = parse_from behind_percent more in
    let d = parse_from behind_d more in
    let rest = parse_from between more in
    if ch == 37
    then then_piece (literal (37 ∷ [])) percent
    else if ch == 100
    then d
    else then_piece (directive ch) rest
parse_from behind_d (ch ∷ more) =
    let dates = parse_from (in_date []) more in
    let percent = parse_from behind_percent more in
    let text = parse_from (in_text (ch ∷ [])) more in
    if ch == 123
    then dates
    else if ch == 37
    then then_piece (directive 100) percent
    else then_piece (directive 100) text
parse_from (in_date t) (ch ∷ more) =
    let rest = parse_from between more in
    let further = parse_from (in_date (t ++ ch ∷ [])) more in
    if ch == 125 then then_piece (date t) rest else further

-- formatParser
unfoldable pub format_parser : Text → Option (List Piece)
format_parser str = parse_from between str
