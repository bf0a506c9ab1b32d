-- ===== src/Log.antt =====
-- The levels, items and formatter of log/loglevel.cpp, log/logformatitem.cpp, log/logevent.cpp and
-- log/logformatter.cpp. A text is the list of its bytes; strftime is an argument.
pub mod Levels
pub mod Written
pub mod Logger
pub mod Manager
mod Tests
use lo_netfw.Base.{
  ℕ, zero, suc, ◌+◌, ◌/◌, ◌%◌, Bool, true, false, ◌&&◌, List, [], ◌∷◌, ◌++◌, map, Option, none,
  some, ltb, ◌==◌, if◌then◌else◌,
}
use lo_netfw.Util.Text.Dict.{same_text}
use lo_netfw.Util.Text.{Text, Piece, literal, directive, date, to_upper, format_parser}

pub data Level : Type 0 where
  unknown : Level
  debug : Level
  info : Level
  warn : Level
  error : Level
  fatal : Level

-- The number of a level.
abbrev pub rank : Level → ℕ
rank unknown = 0
rank debug = 1
rank info = 2
rank warn = 3
rank error = 4
rank fatal = 5

-- LogLevel::getLevelName: "UNKNOWN", "DEBUG", "INFO", "WARN", "ERROR" and "FATAL".
abbrev pub get_level_name : Level → Text
get_level_name unknown = 85 ∷ 78 ∷ 75 ∷ 78 ∷ 79 ∷ 87 ∷ 78 ∷ []
get_level_name debug = 68 ∷ 69 ∷ 66 ∷ 85 ∷ 71 ∷ []
get_level_name info = 73 ∷ 78 ∷ 70 ∷ 79 ∷ []
get_level_name warn = 87 ∷ 65 ∷ 82 ∷ 78 ∷ []
get_level_name error = 69 ∷ 82 ∷ 82 ∷ 79 ∷ 82 ∷ []
get_level_name fatal = 70 ∷ 65 ∷ 84 ∷ 65 ∷ 76 ∷ []

abbrev pub level_named : Text → Level
level_named name =
    if same_text name (get_level_name debug)
    then debug
    else if same_text name (get_level_name info)
    then info
    else if same_text name (get_level_name warn)
    then warn
    else if same_text name (get_level_name error)
    then error
    else if same_text name (get_level_name fatal)
    then fatal
    else unknown

-- LogLevel::getLevelByName
unfoldable pub get_level_by_name : Text → Level
unfolding to_upper
get_level_by_name name = level_named (to_upper name)

pub record LogEvent : Type 0 where
  pub level : Level
  pub file : Text
  pub line : ℕ
  pub elapse : ℕ
  pub thread_id : ℕ
  pub fiber_id : ℕ
  pub time : ℕ
  pub message : Text
  pub thread_name : Text

-- A class for each item.
pub data LogFormatItem : Type 0 where
  level_item : LogFormatItem
  filename_item : LogFormatItem
  line_item : LogFormatItem
  name_item : LogFormatItem
  elapse_item : LogFormatItem
  thread_id_item : LogFormatItem
  fiber_id_item : LogFormatItem
  date_time_item : Text → LogFormatItem
  message_item : LogFormatItem
  thread_name_item : LogFormatItem
  new_line_item : LogFormatItem
  string_item : Text → LogFormatItem
  tab_item : LogFormatItem

-- The decimal digits that a stream writes for a number; n rounds are enough.
abbrev pub digits_from : ℕ → ℕ → Text
digits_from zero n = (48 + n) ∷ []
digits_from (suc fuel) n =
    let rest = digits_from fuel (n / 10) ++ (48 + n % 10) ∷ [] in
    if ltb n 10 then (48 + n) ∷ [] else rest

unfoldable pub decimal : ℕ → Text
decimal n = digits_from n n

-- util::getDateTime of a time and a format
abbrev pub DateTime : Type 0
DateTime = ℕ → Text → Text

abbrev pub date_text : DateTime → ℕ → Text → Text
date_text date_time time [] = decimal time
date_text date_time time (ch ∷ format) = date_time time (ch ∷ format)

-- The methods `format` of the items.
abbrev pub item_text : DateTime → LogFormatItem → Text → Level → LogEvent → Text
item_text dt level_item name level e = get_level_name level
item_text dt filename_item name level e = e.file
item_text dt line_item name level e = decimal e.line
item_text dt name_item name level e = name
item_text dt elapse_item name level e = e.message
item_text dt thread_id_item name level e = decimal e.thread_id
item_text dt fiber_id_item name level e = decimal e.fiber_id
item_text dt (date_time_item format) name level e = date_text dt e.time format
item_text dt message_item name level e = e.message
item_text dt thread_name_item name level e = e.thread_name
item_text dt new_line_item name level e = 10 ∷ []
item_text dt (string_item str) name level e = str
item_text dt tab_item name level e = 9 ∷ []

-- "%Y-%m-%d %H:%M:%S"
abbrev pub default_date : Text
default_date =
    37 ∷ 89 ∷ 45 ∷ 37 ∷ 109 ∷ 45 ∷ 37 ∷ 100 ∷ 32 ∷ 37 ∷ 72 ∷ 58 ∷ 37 ∷ 77 ∷ 58 ∷ 37 ∷ 83 ∷ []

-- m_item_factory, with m, p, r, c, t, l, d, f, F, N, n and T.
abbrev pub item_factory : List (ℕ × LogFormatItem)
item_factory =
    (109, message_item)
    ∷ (112, level_item)
    ∷ (114, elapse_item)
    ∷ (99, name_item)
    ∷ (116, thread_id_item)
    ∷ (108, line_item)
    ∷ (100, date_time_item default_date)
    ∷ (102, filename_item)
    ∷ (70, fiber_id_item)
    ∷ (78, thread_name_item)
    ∷ (110, new_line_item)
    ∷ (84, tab_item)
    ∷ []

-- "<unknown format:%" and ">"
abbrev pub unknown_format : ℕ → Text
unknown_format ch =
    60 ∷ 117 ∷ 110 ∷ 107 ∷ 110 ∷ 111 ∷ 119 ∷ 110 ∷ 32 ∷ 102 ∷ 111 ∷ 114 ∷ 109 ∷ 97 ∷ 116 ∷ 58 ∷ 37
    ∷ ch ∷ 62 ∷ []

abbrev pub found_item : ℕ → List (ℕ × LogFormatItem) → LogFormatItem
found_item ch [] = string_item (unknown_format ch)
found_item ch ((key, item) ∷ more) = if key == ch then item else found_item ch more

-- What the constructor makes of an entry of formatParser.
abbrev pub item_of : Piece → LogFormatItem
item_of (literal str) = string_item str
item_of (directive ch) = found_item ch item_factory
item_of (date format) = date_time_item format

pub record LogFormatter : Type 0 where
  pub items : List LogFormatItem
  pub pattern_text : Text

abbrev pub formatter_of : Text → Option (List Piece) → Option LogFormatter
formatter_of str none = none
formatter_of str (some ps) = some (record { items = map item_of ps; pattern_text = str })

-- LogFormatter::LogFormatter; `none` where it throws.
unfoldable pub create : Text → Option LogFormatter
unfolding format_parser
create str = formatter_of str (format_parser str)

-- LogFormatter::format
abbrev pub items_text : DateTime → List LogFormatItem → Text → Level → LogEvent → Text
items_text dt [] name level e = []
items_text dt (item ∷ items) name level e =
    item_text dt item name level e ++ items_text dt items name level e

unfoldable pub format : DateTime → LogFormatter → Text → Level → LogEvent → Text
unfolding decimal
format dt f name level e = items_text dt f.items name level e

-- LogFormatter::setFormat, which leaves the items.
unfoldable pub set_format : Text → LogFormatter → LogFormatter
set_format str f = record f { pattern_text = str }
