-- ===== src/Scheduler/Tests.antt =====
-- Runs of the theorems about the timers on a manager with three timers, two of them for one time.
use lo_netfw.Base.{ℕ, ◌≡◌, refl, true, false, [], ◌∷◌, some, none, ◌==◌, if◌then◌else◌}
use lo_netfw.Scheduler.Timer.Defs.{Timer, Manager, plain, ok, is_set, add_timer, cancel}
use lo_netfw.Scheduler.Timer.Invariant.{IsValid}
use lo_netfw.Scheduler.Timer.Runs.{initial, start, one_more, step_add, Run, Run-IsValid, cancel-Run}

abbrev unused : Timer
unused = record { cb = none; is_loop = false; ms = 0; next = 0 }

abbrev heap : ℕ → Timer
heap p =
    if p == 3
    then record { cb = some (plain 1); is_loop = false; ms = 40; next = 100 }
    else if p == 7
    then record { cb = some (plain 2); is_loop = true; ms = 60; next = 100 }
    else if p == 5
    then record { cb = some (plain 3); is_loop = false; ms = 90; next = 250 }
    else unused

abbrev manager : Manager
manager = record { heap = heap; timers = 3 ∷ 7 ∷ 5 ∷ []; notified = false; previous_time = 80 }

abbrev added : Manager
added = (add_timer 10 4 30 (some (plain 6)) false (initial 10 (λ p. unused))).1

one_added : Run (initial 10 (λ p. unused)) added
one_added =
    one_more _ _ _ (start _)
      (step_add 10 4 30 (some (plain 6)) false (initial 10 (λ p. unused)) (unfold initial in refl))

Run-IsValid_example : IsValid added
Run-IsValid_example = Run-IsValid 10 (λ p. unused) (λ p. refl) added one_added

cancel-Run_example :
    (n : Manager) × (cancel 4 added ≡ ok (is_set (added.heap 4).cb) n) × (cancel 4 n ≡ ok false n)
cancel-Run_example = cancel-Run 10 (λ p. unused) (λ p. refl) added one_added 4
