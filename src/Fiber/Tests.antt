-- ===== src/Fiber/Tests.antt =====
-- Runs of the theorems about fibers on a thread whose main fiber is 0 and that has a fiber 1.
use lo_netfw.Base.{◌≡◌, refl, true, false, some, none, ◌==◌, if◌then◌else◌}
use lo_netfw.Fiber.{init, exec, hold, null, block, Fiber, Locals, switched, Ends, cb_returns}
use lo_netfw.Fiber.Turns.{by_end, state_after, turn, Back, turn-Back}

abbrev main_one : Fiber
main_one = record { id = 0; stack_size = 0; state = exec; stack = null; cb = none }

abbrev start : Locals
start = record {
  heap = λ p.
      if p == 1
      then record { id = 1; stack_size = 1024; state = init; stack = block; cb = some 7 }
      else main_one;
  cur_fiber = some 0;
  main_fiber = some 0;
  schedule_fiber = none;
  fiber_id = 1;
  fiber_count = 2;
}

abbrev all_return : Ends
all_return f = true

abbrev all_throw : Ends
all_throw f = false

-- The fiber has given control back by a yield.
abbrev waiting : Locals
waiting = record start {
  heap = λ p.
      if p == 1
      then record { id = 1; stack_size = 1024; state = hold; stack = block; cb = some 7 }
      else main_one;
}

turn-Back_example :
    (l' : Locals) × (turn all_return by_end 1 (some 0) start ≡ switched 1 0 l')
    × Back 1 0 (state_after (cb_returns all_return (start.heap 1).cb) by_end) start l'
turn-Back_example = turn-Back 1 0 start all_return by_end refl
