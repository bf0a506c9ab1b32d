-- ===== src/Scheduler/Run/Tests.antt =====
-- Runs of the theorems about the tasks and the loop of run, on thread 5 with three callbacks, one of
-- them for thread 6.
use lo_netfw.Base.{
  ℕ, ◌+◌, ◌≡◌, refl, arith, Bool, true, false, List, [], ◌∷◌, ◌++◌, some, none, length, ◌==◌,
  if◌then◌else◌,
}
use lo_netfw.Fiber.{init, exec, null, block, Fiber}
use lo_netfw.Fiber.Turns.{by_end}
use lo_netfw.Scheduler.Tasks.{Task, cb_task, pick}
use lo_netfw.Scheduler.Tasks.Queue.{LeavesOthers, queue_of, dequeue, seen, pick-dequeue}
use lo_netfw.Scheduler.Run.{Runner, Program, next, finished, raised, state_of, stopping, round, run}
use lo_netfw.Scheduler.Run.Drain.{callbacks, IsFinishing, IsSettled, Worked, drain-Worked}
use lo_netfw.Scheduler.Run.Stop.{IsIdle, round-raised}
use lo_netfw.Scheduler.Run.Balance.{Leaves, round-Leaves}
use lo_netfw.Scheduler.Control.{Threads, stop}
use lo_netfw.Scheduler.Control.Stopping.{Stops, stop-Stops, run-stop}

abbrev mine : List Task
mine = cb_task (some 10) none ∷ cb_task (some 11) (some 5) ∷ []

abbrev mixed : List Task
mixed = cb_task (some 12) (some 6) ∷ mine

-- The fibers: the idle fiber 2, and the main fiber of the thread.
abbrev fibers : ℕ → Fiber
fibers p =
    if p == 2
    then record { id = 1; stack_size = 1024; state = init; stack = block; cb = some 0 }
    else record { id = 0; stack_size = 0; state = exec; stack = null; cb = none }

abbrev runner : List Task → Runner
runner ts = record {
  tasks = ts;
  active = 0;
  idle = 0;
  is_stopping = true;
  auto_stop = true;
  thread = 5;
  scheduler_fiber = some 0;
  stack_size = 1024;
  locals = record {
    heap = fibers;
    cur_fiber = some 0;
    main_fiber = some 0;
    schedule_fiber = none;
    fiber_id = 1;
    fiber_count = 2;
  };
  cb_fiber = none;
  idle_fiber = 2;
  notified = 0;
  entered = [];
}

abbrev program : Bool → Program
program ok = record {
  ends = λ f. ok;
  leaves = λ r p. by_end;
  adds = λ r p. [];
  fresh = λ r. r.idle_fiber + 1;
}

program-IsFinishing : IsFinishing (program true)
program-IsFinishing = record {
  returns = λ f. refl;
  quiet = λ r p. (refl, refl);
  apart = λ r e. omega (arith, e);
}

mine-IsSettled : IsSettled 0 (runner mine)
mine-IsSettled = record {
  scheduler = refl;
  ready = λ p e. absurd (cc e);
  apart = λ p e. absurd (cc e);
  calls = ((10, none, refl), ((11, some 5, refl), tt));
}

mixed-IsSettled : IsSettled 0 (runner mixed)
mixed-IsSettled = record {
  scheduler = refl;
  ready = λ p e. absurd (cc e);
  apart = λ p e. absurd (cc e);
  calls = ((12, some 6, refl), mine-IsSettled.calls);
}

runner-IsIdle : IsIdle (runner mine)
runner-IsIdle = record { rests = refl; lives = refl; cb = (0, refl) }

pick-dequeue_example :
    (seen 5 (pick (state_of (runner mixed)) 5 mixed)
      ≡ dequeue (state_of (runner mixed)) (queue_of 5 mixed))
    × LeavesOthers mixed (pick (state_of (runner mixed)) 5 mixed)
pick-dequeue_example = pick-dequeue (state_of (runner mixed)) 5 mixed (refl, (refl, (refl, tt)))

drain-Worked_example :
    (r' : Runner) × (run (program true) (length mine) (runner mixed) ≡ next r')
    × Worked 0 mine (runner mixed) r'
    × (queue_of 5 r'.tasks ≡ [])
drain-Worked_example =
    drain-Worked (program true) program-IsFinishing 0 mine (runner mixed) mixed-IsSettled refl

round-raised_example : round (program false) (runner mine) ≡ raised
round-raised_example =
    round-raised (program false) 0 (runner mine) mine-IsSettled.ready refl (λ r p. (refl, refl)) 10
      none (cb_task (some 11) (some 5) ∷ []) refl refl refl

round-Leaves_example : Leaves 0 0 (round (program false) (runner mixed))
round-Leaves_example = round-Leaves (program false) 0 (runner mixed) refl (refl, (refl, (refl, tt)))

-- The threads of a scheduler that uses the caller's thread 5 alone.
abbrev threads : Threads
threads = record {
  threads_count = 0;
  threads = [];
  threads_id = 5 ∷ [];
  root_thread = some 5;
  root_fiber = some init;
}

abbrev told : Runner
told = record (runner mine) { is_stopping = true; auto_stop = true; notified = 1 }

stop-Stops_example : Stops threads true (runner mine) (stop true threads (runner mine))
stop-Stops_example = stop-Stops threads true (runner mine) (omega arith)

run-stop_example :
    (r'' : Runner) × (run (program true) (length (queue_of 5 mine) + 2) told ≡ finished r'')
    × (r''.tasks ≡ [])
    × (r''.entered ≡ [] ++ callbacks (queue_of 5 mine))
unfolding stop stopping
run-stop_example =
    run-stop (program true) program-IsFinishing 0 (runner mine) mine-IsSettled runner-IsIdle refl
      refl threads true refl true [] (record threads { threads = [] }) told refl
