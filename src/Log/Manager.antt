-- ===== src/Log/Manager.antt =====
-- The class LoggerManager of log/logger.cpp, the one of LON_LOG_MANAGER. Loggers are objects at
-- addresses, those that the manager makes stand in its lists; the map is a list. `locked` tells
-- whether the calling thread holds the spin lock of the manager, which does not let it in twice.
-- Loggers that are null pointers, and YAML, are left out.
pub mod Gets
use lo_netfw.Base.{
  ℕ, Bool, true, false, List, [], ◌∷◌, ◌++◌, Option, none, some, length, if◌then◌else◌,
}
use lo_netfw.Util.Text.{Text}
use lo_netfw.Util.Text.Dict.{lookup, insert, erase}
use lo_netfw.Log.{Level, debug, LogFormatter, create}
use lo_netfw.Log.Logger.{Appenders, appender, stdout, Logger, logger, add_appender}

pub record LoggerManager : Type 0 where
  pub loggers : List (Text × ℕ)
  pub logger_root : ℕ
  pub heap : List Logger
  pub appenders : Appenders
  pub locked : Bool

-- A call returns, or waits for a lock that its own thread holds.
pub data Outcome (A : Type 0) : Type 0 where
  returned : A → LoggerManager → Outcome A
  stuck : Outcome A

-- `MutexType::Lock lock(m_mutex);`, and the return behind it.
abbrev pub with_lock : {A : Type 0} → LoggerManager → (LoggerManager → Outcome A) → Outcome A
with_lock m f = if m.locked then stuck else f (record m { locked = true })

abbrev pub leave : {A : Type 0} → A → LoggerManager → Outcome A
leave a m = returned a (record m { locked = false })

-- A new logger with a StdoutLogAppender for level DEBUG, at the next address.
abbrev pub with_logger : Text → LoggerManager → LoggerManager
with_logger name m =
    let (appenders', l) =
      add_appender (length m.appenders) (m.appenders ++ appender stdout debug ∷ [])
        (logger name debug) in
    record m {
      loggers = insert name (length m.heap) m.loggers;
      heap = m.heap ++ l ∷ [];
      appenders = appenders';
    }

-- "root"
abbrev pub root_name : Text
root_name = 114 ∷ 111 ∷ 111 ∷ 116 ∷ []

-- LoggerManager::LoggerManager for a null pointer
unfoldable pub manager : LoggerManager
unfolding add_appender logger
manager =
    with_logger root_name
      (record { loggers = []; logger_root = 0; heap = []; appenders = []; locked = false })

-- LoggerManager::getRoot
abbrev pub root_or : LoggerManager → Option ℕ → Outcome ℕ
root_or m none = leave m.logger_root m
root_or m (some p) = leave p m

unfoldable pub get_root : LoggerManager → Outcome ℕ
get_root m = with_lock m (λ m'. root_or m' (lookup root_name m'.loggers))

-- LoggerManager::setLogger and LoggerManager::delLogger
unfoldable pub set_logger : Text → ℕ → LoggerManager → Outcome (Unit {0})
set_logger name p m =
    with_lock m (λ m'. leave tt (record m' { loggers = insert name p m'.loggers }))

unfoldable pub del_logger : Text → LoggerManager → Outcome (Unit {0})
del_logger name m = with_lock m (λ m'. leave tt (record m' { loggers = erase name m'.loggers }))

-- The warning of getLogger, through LON_LOG_ROOT, and the null pointer behind it.
abbrev pub warned : Outcome ℕ → Outcome (Option ℕ)
warned (returned p m) = leave none m
warned stuck = stuck

-- LoggerManager::getLogger
abbrev pub logger_or : Text → Bool → LoggerManager → Option ℕ → Outcome (Option ℕ)
logger_or name auto_create m (some p) = leave (some p) m
logger_or name true m none = leave (some (length m.heap)) (with_logger name m)
logger_or name false m none = warned (get_root m)

unfoldable pub get_logger : Text → Bool → LoggerManager → Outcome (Option ℕ)
unfolding add_appender logger get_root
get_logger name auto_create m =
    with_lock m (λ m'. logger_or name auto_create m' (lookup name m'.loggers))
