-- ===== src/Scheduler/Run.antt =====
-- The loop of Scheduler::run on one thread, with Scheduler::idle and Scheduler::stopping, of
-- scheduler/scheduler.cpp. A `Runner` is what the loop keeps and what of the scheduler it reads. What
-- the code of fibers does between swapIn and the swap back is an argument: how it gives control back,
-- whether its callback returns, and which tasks it schedules. A pointer that is dropped frees nothing
-- here; `fresh` is the address that a new fiber gets. The numbers of active and idle threads are at
-- most that of the threads, so going up they do not wrap. `entered` and `notified` are not in the
-- code: they record the callbacks that a turn was given to, and the calls of notify.
pub mod Calls
pub mod Drain
pub mod Stop
pub mod Returns
pub mod Balance
mod Tests
use lo_netfw.Base.{
  ℕ, zero, suc, ◌+◌, Bool, true, false, not, ◌&&◌, ◌||◌, List, [], ◌∷◌, ◌++◌, Option, none, some,
  ◌==◌, sub64, if◌then◌else◌,
}
use lo_netfw.Fiber.{
  State, hold, ready, is_term, is_error, Fiber, Locals, Outcome, returned, thrown, switched,
  null_access, double_free, put_state, is_set, Ends, create, reset, set_state,
}
use lo_netfw.Fiber.Turns.{Leaves, by_ready, by_hold, by_end, turn}
use lo_netfw.Scheduler.Tasks.{
  Task, no_task, fiber_task, is_none, Scheduled, m_schedule, schedule_from, Picked, picked, nothing,
  assertion, pick,
}

pub record Runner : Type 0 where
  pub tasks : List Task
  pub active : ℕ
  pub idle : ℕ
  pub is_stopping : Bool
  pub auto_stop : Bool
  pub thread : ℕ
  pub scheduler_fiber : Option ℕ
  pub stack_size : ℕ
  pub locals : Locals
  pub cb_fiber : Option ℕ
  pub idle_fiber : ℕ
  pub notified : ℕ
  pub entered : List ℕ

-- What the code in fibers does in the state at the start of a turn.
pub record Program : Type 0 where
  pub ends : Ends
  pub leaves : Runner → ℕ → Leaves
  pub adds : Runner → ℕ → List Task
  pub fresh : Runner → ℕ

-- One round goes on to the next, leaves the loop, lets an exception out, fails an assertion, or follows
-- a null pointer, frees a stack twice or does not come back from a fiber.
pub data Round : Type 0 where
  next : Runner → Round
  finished : Runner → Round
  raised : Round
  asserted : Round
  faulted : Round

abbrev pub state_of : Runner → ℕ → State
state_of r p = (r.locals.heap p).state

-- `if (should_notify) notify();`
abbrev pub notify_if : Bool → Runner → Runner
notify_if b r = record r { notified = if b then r.notified + 1 else r.notified }

abbrev pub take_tasks : Scheduled → Runner → Runner
take_tasks s r = notify_if s.notifies (record r { tasks = s.tasks })

-- Scheduler::schedule
unfoldable pub schedule : Task → Runner → Runner
schedule t r = take_tasks (m_schedule t r.tasks) r

-- The tasks that the code in a fiber schedules, one after the other.
abbrev pub schedule_each : List Task → Runner → Runner
schedule_each [] r = r
schedule_each (t ∷ ts) r = schedule_each ts (schedule t r)

-- Scheduler::stopping
unfoldable pub stopping : Runner → Bool
stopping r = r.is_stopping && (r.auto_stop && (is_none r.tasks && (r.active == 0)))

-- What a turn leaves, for what follows it.
abbrev pub after_turn : (Locals → Round) → Outcome → Round
after_turn go (switched p q l) = go l
after_turn go (returned l) = faulted
after_turn go (thrown l) = raised
after_turn go null_access = faulted
after_turn go double_free = faulted

abbrev pub after_call : (Locals → Round) → Outcome → Round
after_call go (returned l) = go l
after_call go (thrown l) = raised
after_call go (switched p q l) = faulted
after_call go null_access = faulted
after_call go double_free = faulted

-- The state TERM or ERROR.
abbrev pub is_over : State → Bool
is_over s = is_term s || is_error s

abbrev pub is_ready : State → Bool
is_ready ready = true
is_ready _ = false

-- What follows `swapIn` in every branch: the tasks of the fiber are there, and the thread is no
-- longer active.
abbrev pub came_back : List Task → Locals → Runner → Runner
came_back added l r =
    let r' = schedule_each added (record r { locals = l }) in
    record r' { active = sub64 r'.active 1 }

abbrev pub settle_fiber : ℕ → Runner → Round
settle_fiber p r =
    if is_ready (state_of r p)
    then next (schedule (fiber_task (some p) none) r)
    else if is_over (state_of r p)
    then next r
    else next (record r { locals = set_state p hold r.locals })

-- The branch of `run` for a task that is a fiber.
abbrev pub fiber_turn : Program → ℕ → Runner → Round
fiber_turn program p r =
    after_turn (λ l. settle_fiber p (came_back (program.adds r p) l r))
      (turn program.ends (program.leaves r p) p r.scheduler_fiber r.locals)

abbrev pub settle_cb : ℕ → Runner → Round
settle_cb p r =
    if is_ready (state_of r p)
    then next (record (schedule (fiber_task (some p) none) r) { cb_fiber = none })
    else if is_over (state_of r p)
    then after_call (λ l. next (record r { locals = l })) (reset true p none r.locals)
    else next (record r { locals = set_state p hold r.locals; cb_fiber = none })

abbrev pub cb_turn : Program → ℕ → Runner → Round
cb_turn program p r =
    after_turn (λ l. settle_cb p (came_back (program.adds r p) l r))
      (turn program.ends (program.leaves r p) p r.scheduler_fiber r.locals)

-- `cb_fiber` is made for the callback, or made anew.
abbrev pub load_cb : Program → ℕ → Runner → Option ℕ → Outcome
load_cb program f r none = create true (program.fresh r) (some f) r.stack_size r.locals
load_cb program f r (some p) = reset true p (some f) r.locals

abbrev pub cb_address : Program → Runner → Option ℕ → ℕ
cb_address program r none = program.fresh r
cb_address program r (some p) = p

-- The branch of `run` for a task that is a callback.
abbrev pub call_cb : Program → ℕ → Runner → Round
call_cb program f r =
    let p = cb_address program r r.cb_fiber in
    after_call
      (λ l.
        cb_turn program p
          (record r { locals = l; cb_fiber = some p; entered = r.entered ++ f ∷ [] }))
      (load_cb program f r r.cb_fiber)

-- `task.fiber && its state is neither TERM nor ERROR`
abbrev pub goes_on : Runner → Option ℕ → Bool
goes_on r none = false
goes_on r (some p) = not (is_over (state_of r p))

abbrev pub run_cb : Program → Option ℕ → Runner → Round
run_cb program none r = next (record r { active = sub64 r.active 1 })
run_cb program (some f) r = call_cb program f r

abbrev pub run_fiber : Program → Task → Option ℕ → Runner → Round
run_fiber program t none r = run_cb program t.cb r
run_fiber program t (some p) r =
    if goes_on r (some p) then fiber_turn program p r else run_cb program t.cb r

-- Scheduler::idle, up to its next yield or its end.
abbrev pub idle_leaves : Runner → Leaves
idle_leaves r = if stopping r then by_end else by_hold

abbrev pub settle_idle : ℕ → Runner → Round
settle_idle p r =
    if is_over (state_of r p)
    then next r
    else next (record r { locals = set_state p hold r.locals })

-- The branch of `run` without a task.
unfoldable pub idle_turn : Runner → Round
unfolding stopping
idle_turn r =
    let r' = record r { idle = r.idle + 1 } in
    if is_term (state_of r r.idle_fiber)
    then finished r
    else after_turn
        (λ l. settle_idle r.idle_fiber (record r' { locals = l; idle = sub64 r'.idle 1 }))
        (turn (λ _. true) (idle_leaves r') r.idle_fiber r.scheduler_fiber r.locals)

abbrev pub go_picked : Program → Runner → Picked → Round
go_picked program r (picked n t ts) =
    run_fiber program t t.fiber (notify_if n (record r { tasks = ts; active = r.active + 1 }))
go_picked program r (nothing n) = idle_turn (notify_if n r)
go_picked program r assertion = asserted

-- One round of the loop of Scheduler::run.
unfoldable pub round : Program → Runner → Round
round program r = go_picked program r (pick (state_of r) r.thread r.tasks)

abbrev pub go_round : (Runner → Round) → Round → Round
go_round go (next r) = go r
go_round go (finished r) = finished r
go_round go raised = raised
go_round go asserted = asserted
go_round go faulted = faulted

-- The loop of Scheduler::run, cut off after as many rounds; `next` tells that it has not ended.
unfoldable pub run : Program → ℕ → Runner → Round
run program zero r = next r
run program (suc n) r = go_round (run program n) (round program r)
