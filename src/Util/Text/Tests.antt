-- ===== src/Util/Text/Tests.antt =====
-- Runs of the theorems about text on short texts.
use lo_netfw.Base.{◌≡◌, refl, List, [], ◌∷◌, some, All}
use lo_netfw.Util.Text.{Text, split, Piece, literal, directive, date, format_parser}
use lo_netfw.Util.Text.Pieces.{join, Lacks, join-split}
use lo_netfw.Util.Text.Formats.{all_written, format_parser-written}

-- "a,,b"
abbrev commas : Text
commas = 97 ∷ 44 ∷ 44 ∷ 98 ∷ []

join-split_example :
    (tokens : List Text) × (split commas (44 ∷ []) ≡ some tokens)
    × (join (44 ∷ []) tokens ≡ commas)
    × All (Lacks (44 ∷ [])) tokens
join-split_example = join-split commas 44 []

-- " a b "
abbrev padded : Text
padded = 32 ∷ 97 ∷ 32 ∷ 98 ∷ 32 ∷ []

-- "x%m%d{%Y}%%"
abbrev format : Text
format = 120 ∷ 37 ∷ 109 ∷ 37 ∷ 100 ∷ 123 ∷ 37 ∷ 89 ∷ 125 ∷ 37 ∷ 37 ∷ []

-- A doubled percent sign gives two texts.
abbrev parts : List Piece
parts =
    literal (120 ∷ [])
    ∷ directive 109
    ∷ date (37 ∷ 89 ∷ [])
    ∷ literal (37 ∷ [])
    ∷ literal (37 ∷ [])
    ∷ []

format_parser-written_example : all_written parts ≡ format
unfolding format_parser
format_parser-written_example = format_parser-written format parts refl
