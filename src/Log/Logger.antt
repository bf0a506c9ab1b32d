-- ===== src/Log/Logger.antt =====
-- Appenders and loggers: log/logappender.cpp and the class Logger of log/logger.cpp. An appender is an
-- object that loggers share, so a logger holds its address, and the objects stand in a list. What is
-- written is a list of outputs; opening files and YAML are left out.
pub mod Handed
use lo_netfw.Base.{
  ℕ, ◌+◌, Bool, true, false, List, [], ◌∷◌, ◌++◌, Option, none, some, length, get_elem?, set, ltb,
  ◌==◌, if◌then◌else◌,
}
use lo_netfw.Util.Text.{Text}
use lo_netfw.Log.{
  Level, unknown, debug, info, warn, error, fatal, rank, get_level_by_name, LogEvent, LogFormatter,
  DateTime, decimal, create, format,
}

-- A StdoutLogAppender, or a FileLogAppender with its file.
pub data Target : Type 0 where
  stdout : Target
  file : Text → Target

pub record LogAppender : Type 0 where
  pub target : Target
  pub level : Level
  pub formatter : Option LogFormatter

-- LogAppender::LogAppender
abbrev pub appender : Target → Level → LogAppender
appender target level = record { target = target; level = level; formatter = none }

-- util::getColorStr with a number of a colour, and the number for a level; 0 is the default colour.
abbrev pub get_color_str : Text → ℕ → Text
get_color_str str color =
    if ltb color 1
    then str
    else (27 ∷ 91 ∷ decimal (29 + color) ++ 109 ∷ []) ++ (str ++ 27 ∷ 91 ∷ 48 ∷ 109 ∷ [])

abbrev pub color_of : Level → ℕ
color_of info = 3
color_of warn = 4
color_of error = 2
color_of fatal = 6
color_of debug = 0
color_of unknown = 0

pub record Output : Type 0 where
  pub target : Target
  pub text : Text

abbrev pub shown : Target → Level → Text → Text
shown stdout level str = get_color_str str (color_of level)
shown (file name) level str = str

-- StdoutLogAppender::log and FileLogAppender::log; `none` where a null pointer is followed.
abbrev pub formatted :
    DateTime → Target → Text → Level → LogEvent → Option LogFormatter → Option (List Output)
formatted dt target name level e none = none
formatted dt target name level e (some f) =
    some (record { target = target; text = shown target level (format dt f name level e) } ∷ [])

unfoldable pub append : DateTime → LogAppender → Text → Level → LogEvent → Option (List Output)
unfolding format decimal
append dt a name level e =
    if ltb (rank level) (rank a.level)
    then some []
    else formatted dt a.target name level e a.formatter

-- The appenders by their addresses.
abbrev pub Appenders : Type 0
Appenders = List LogAppender

pub record Logger : Type 0 where
  pub name : Text
  pub level : Level
  pub appenders : List ℕ
  pub formatter : Option LogFormatter

-- "%d{%Y-%m-%d %H:%M:%S}%T%t%T%N%T%F%T[%p]%T[%c]%T%f:%l%T%m%n"
abbrev pub default_format : Text
default_format =
    37 ∷ 100 ∷ 123 ∷ 37 ∷ 89 ∷ 45 ∷ 37 ∷ 109 ∷ 45 ∷ 37 ∷ 100 ∷ 32 ∷ 37 ∷ 72 ∷ 58 ∷ 37 ∷ 77 ∷ 58 ∷ 37
    ∷ 83 ∷ 125 ∷ 37 ∷ 84 ∷ 37 ∷ 116 ∷ 37 ∷ 84 ∷ 37 ∷ 78 ∷ 37 ∷ 84 ∷ 37 ∷ 70 ∷ 37 ∷ 84 ∷ 91 ∷ 37
    ∷ 112 ∷ 93 ∷ 37 ∷ 84 ∷ 91 ∷ 37 ∷ 99 ∷ 93 ∷ 37 ∷ 84 ∷ 37 ∷ 102 ∷ 58 ∷ 37 ∷ 108 ∷ 37 ∷ 84 ∷ 37
    ∷ 109 ∷ 37 ∷ 110 ∷ []

-- Logger::Logger
unfoldable pub logger : Text → Level → Logger
unfolding create
logger name level = record {
  name = name;
  level = level;
  appenders = [];
  formatter = create default_format;
}

-- Logger::log
abbrev pub both : Option (List Output) → Option (List Output) → Option (List Output)
both none o = none
both (some xs) none = none
both (some xs) (some ys) = some (xs ++ ys)

abbrev pub append_at :
    DateTime → Text → Level → LogEvent → Option LogAppender → Option (List Output)
append_at dt name level e none = none
append_at dt name level e (some a) = append dt a name level e

abbrev pub append_all :
    DateTime → Appenders → Text → Level → LogEvent → List ℕ → Option (List Output)
append_all dt heap name level e [] = some []
append_all dt heap name level e (p ∷ ps) =
    both (append_at dt name level e (get_elem? heap p)) (append_all dt heap name level e ps)

unfoldable pub log : DateTime → Appenders → Level → LogEvent → Logger → Option (List Output)
unfolding append
log dt heap level e l =
    if ltb (rank level) (rank l.level)
    then some []
    else append_all dt heap l.name level e l.appenders

-- Logger::addAppender of the appender at an address.
abbrev pub or_else : Option LogFormatter → Option LogFormatter → Option LogFormatter
or_else none f = f
or_else (some g) f = some g

abbrev pub with_formatter : Option LogFormatter → LogAppender → LogAppender
with_formatter f a = record a { formatter = or_else a.formatter f }

abbrev pub prepared : Appenders → ℕ → Option LogFormatter → Option LogAppender → Appenders
prepared heap p f none = heap
prepared heap p f (some a) = set heap p (with_formatter f a)

unfoldable pub add_appender : ℕ → Appenders → Logger → Appenders × Logger
add_appender p heap l =
    (prepared heap p l.formatter (get_elem? heap p), record l { appenders = l.appenders ++ p ∷ [] })

-- Logger::delAppender: the first entry goes.
abbrev pub del_first : ℕ → List ℕ → List ℕ
del_first p [] = []
del_first p (q ∷ qs) = if q == p then qs else q ∷ del_first p qs

unfoldable pub del_appender : ℕ → Logger → Logger
del_appender p l = record l { appenders = del_first p l.appenders }

unfoldable pub clear_appenders : Logger → Logger
clear_appenders l = record l { appenders = [] }

-- The two Logger::setLevel.
unfoldable pub set_level : Level → Logger → Logger
set_level level l = record l { level = level }

unfoldable pub set_level_name : Text → Logger → Logger
unfolding get_level_by_name
set_level_name name l = record l { level = get_level_by_name name }
