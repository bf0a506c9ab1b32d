-- ===== src/Log/Manager/Gets.antt =====
-- When LoggerManager::getLogger returns, and what.
use lo_netfw.Base.{
  ℕ, ◌≡◌, refl, sym, ap, ◌∙◌, Bool, true, false, List, [], ◌∷◌, ◌++◌, Option, none, some, length,
  get_elem?, if◌then◌else◌, if_false,
}
use lo_netfw.Util.Text.{Text}
use lo_netfw.Util.Text.Dict.{lookup, lookup-insert_self, lookup-insert, same_text}
use lo_netfw.Log.{same_text, debug}
use lo_netfw.Log.Logger.{Logger}
use lo_netfw.Log.Manager.{
  LoggerManager, Outcome, returned, stuck, with_logger, logger_or, get_logger,
}

last_elem : (xs : List Logger) (l : Logger) → get_elem? (xs ++ l ∷ []) (length xs) ≡ some l
last_elem [] l = refl
last_elem (x ∷ xs) l = last_elem xs l

-- The manager after it made a logger: free, with a logger of that name and level DEBUG with one
-- appender, which further calls give too, and the other names as before.
pub record Made (name : Text) (m : LoggerManager) (p : ℕ) (t : LoggerManager) : Type 0 where
  pub free : t.locked ≡ false
  pub made : Logger
  pub there : get_elem? t.heap p ≡ some made
  pub named : made.name ≡ name
  pub levelled : made.level ≡ debug
  pub appends : made.appenders ≡ length m.appenders ∷ []
  pub again : (auto_create : Bool) → get_logger name auto_create t ≡ returned (some p) t
  pub names :
      (other : Text)
      → lookup other t.loggers ≡ (if same_text name other then some p else lookup other m.loggers)

-- What getLogger gives for a name that is known, or not.
abbrev pub Gets : Text → Bool → LoggerManager → Option ℕ → Outcome (Option ℕ) → Type 0
Gets name auto_create m (some p) o = o ≡ returned (some p) m
Gets name true m none o =
    (p : ℕ) × (t : LoggerManager) × (o ≡ returned (some p) t) × Made name m p t
Gets name false m none o = o ≡ stuck

known :
    (name : Text) (auto_create : Bool) (m : LoggerManager) (p : ℕ)
    → m.locked ≡ false
    → lookup name m.loggers ≡ some p
    → get_logger name auto_create m ≡ returned (some p) m
unfolding get_logger
known name auto_create m p free e =
    if_false _ _ _ free
    ∙ ap (logger_or name auto_create (record m { locked = true })) e
    ∙ ap (λ b. returned (some p) (record m { locked = b })) (sym free)

-- While its thread does not hold the lock of the manager: getLogger gives the logger of a name
-- that is known and changes nothing; with auto_create it makes one for any other name, of level
-- DEBUG with one appender, which later calls give too, and leaves the other names as they were;
-- and without, for a name that is not known, it waits for ever for the lock that it holds itself.
pub get_logger-Gets :
    (name : Text) (auto_create : Bool) (m : LoggerManager)
    → m.locked ≡ false
    → Gets name auto_create m (lookup name m.loggers) (get_logger name auto_create m)
unfolding get_logger
get_logger-Gets name auto_create m free = go auto_create (lookup name m.loggers)
  where
    held : LoggerManager
    held = record m { locked = true }

    made : LoggerManager
    made = record (with_logger name held) { locked = false }

    go :
        (a : Bool) (o : Option ℕ)
        → Gets name a m o (if m.locked then stuck else logger_or name a held o)
    go a (some p) =
        if_false _ _ _ free ∙ ap (λ b. returned (some p) (record m { locked = b })) (sym free)
    go false none = if_false _ _ _ free
    go true none = (
      length m.heap,
      made,
      if_false _ _ _ free,
      record {
        free = refl;
        made = _;
        there = last_elem m.heap _;
        named = refl;
        levelled = refl;
        appends = refl;
        again = λ b.
            known name b made (length m.heap) refl
              (lookup-insert_self name (length m.heap) m.loggers);
        names = λ other. lookup-insert name other (length m.heap) m.loggers;
      },
    )
