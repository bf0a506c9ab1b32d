-- ===== src/Scheduler/Run/Returns.antt =====
-- What the fibers of a thread with a scheduler's fiber do to its loop: turns come back, and resets
-- return, unless an exception leaves them.
use lo_netfw.Base.{
  ℕ, ◌≡◌, sym, ap, Bool, true, false, Option, none, some, Bool-cases, inl, inr, if_true,
  if◌then◌else◌,
}
use lo_netfw.Fiber.{
  Locals, Outcome, returned, thrown, switched, null_access, double_free, is_exec, Ends, Stack, null,
  block, dangling, reset, reset_stack, is_refused, create, swap_in_from,
}
use lo_netfw.Fiber.Turns.{Leaves, in_fiber, gives_back, turn, turn-Back}
use lo_netfw.Scheduler.Run.{Runner, Program, load_cb}
use mathlib.Core.Path.{subst}

abbrev pub Comes : Outcome → Type 0
Comes (switched p q l) = Unit
Comes (thrown l) = Unit
Comes (returned l) = ⊥
Comes null_access = ⊥
Comes double_free = ⊥

abbrev pub IsCalled : Outcome → Type 0
IsCalled (returned l) = Unit
IsCalled (thrown l) = Unit
IsCalled (switched p q l) = ⊥
IsCalled null_access = ⊥
IsCalled double_free = ⊥

from_scheduler :
    (ends : Ends) (leaves : Leaves) (p q : ℕ) (l : Locals) → Comes (turn ends leaves p (some q) l)
unfolding turn swap_in_from
from_scheduler ends leaves p q l = elim (Bool-cases (is_exec (l.heap p).state)) [
  | inl e ↦
      subst Comes (sym (ap (in_fiber (gives_back ends leaves p (some q))) (if_true _ _ _ e))) tt
  | inr e ↦ let (l', back, _) = turn-Back p q l ends leaves e in subst Comes (sym back) tt
]

pub turn-Comes :
    (ends : Ends) (leaves : Leaves) (p q : ℕ) (o : Option ℕ) (l : Locals)
    → o ≡ some q
    → Comes (turn ends leaves p o l)
turn-Comes ends leaves p q o l e =
    subst (λ x. Comes (turn ends leaves p x l)) (sym e) (from_scheduler ends leaves p q l)

pub reset-IsCalled : (p : ℕ) (cb : Option ℕ) (l : Locals) → IsCalled (reset true p cb l)
unfolding reset
reset-IsCalled p cb l = by_stack (l.heap p).stack
  where
    refused : (b : Bool) (x : Locals) → IsCalled (if b then thrown l else returned x)
    refused true x = tt
    refused false x = tt

    by_stack : (s : Stack) → IsCalled (reset_stack true p cb s l)
    by_stack null = tt
    by_stack block = refused (is_refused (l.heap p).state) _
    by_stack dangling = refused (is_refused (l.heap p).state) _

pub load_cb-IsCalled :
    (program : Program) (f : ℕ) (r : Runner) (o : Option ℕ) → IsCalled (load_cb program f r o)
unfolding create
load_cb-IsCalled program f r none = tt
load_cb-IsCalled program f r (some p) = reset-IsCalled p (some f) r.locals
