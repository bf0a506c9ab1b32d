-- ===== src/Log/Tests.antt =====
-- Runs of the theorems about levels, formatters, loggers and their manager.
use lo_netfw.Base.{◌≡◌, ◌≢◌, refl, arith, false, List, [], ◌∷◌, some}
use lo_netfw.Util.Text.{Text, Piece, literal, directive, date}
use lo_netfw.Util.Text.Formats.{all_written}
use lo_netfw.Log.{
  unknown, debug, info, warn, get_level_by_name, LogEvent, LogFormatter, create, format, DateTime,
}
use lo_netfw.Log.Written.{pieces_text, format-written}
use lo_netfw.Log.Logger.{appender, stdout, file, Appenders, logger, add_appender, log}
use lo_netfw.Log.Logger.Handed.{add_call, act_all, Writes, log-Handed}
use lo_netfw.Log.Manager.{LoggerManager, stuck, get_logger}
use lo_netfw.Log.Manager.Gets.{get_logger-Gets}

-- "Warn"
abbrev written_warn : Text
written_warn = 87 ∷ 97 ∷ 114 ∷ 110 ∷ []

warn-ne-unknown : warn ≢ unknown
warn-ne-unknown e = cc e

warn_found : get_level_by_name written_warn ≡ warn
unfolding get_level_by_name
warn_found = refl

abbrev event : LogEvent
event = record {
  level = info;
  file = 97 ∷ [];
  line = 120;
  elapse = 5;
  thread_id = 1;
  fiber_id = 2;
  time = 0;
  message = 104 ∷ 105 ∷ [];
  thread_name = [];
}

abbrev no_date : DateTime
no_date time str = str

-- "[%p]%T%l%q%d{%H}%m"
abbrev parts : List Piece
parts =
    literal (91 ∷ [])
    ∷ directive 112
    ∷ literal (93 ∷ [])
    ∷ directive 84
    ∷ directive 108
    ∷ directive 113
    ∷ date (37 ∷ 72 ∷ [])
    ∷ directive 109
    ∷ []

format-written_example :
    (f : LogFormatter) × (create (all_written parts) ≡ some f)
    × (format no_date f [] info event ≡ pieces_text no_date parts [] info event)
format-written_example = format-written no_date parts [] info event (ground arith)

-- An appender for every level, and one for a file from WARN on.
abbrev two : Appenders
two = appender stdout debug ∷ appender (file (102 ∷ [])) warn ∷ []

log-Handed_example :
    let (heap, l) = act_all (add_call 1 ∷ add_call 0 ∷ []) two (logger [] debug) in
    Writes (stdout ∷ []) (log no_date heap info event l)
unfolding add_appender logger
log-Handed_example =
    log-Handed no_date [] debug info event two (add_call 1 ∷ add_call 0 ∷ [])
      (omega arith, (omega arith, tt))

abbrev started : LoggerManager
started = record {
  loggers = (97 ∷ [], 0) ∷ [];
  logger_root = 0;
  heap = [];
  appenders = [];
  locked = false;
}

get_logger-Gets_example : get_logger (98 ∷ []) false started ≡ stuck
get_logger-Gets_example = get_logger-Gets (98 ∷ []) false started refl
