-- ===== src/Scheduler/Tasks.antt =====
-- The tasks of scheduler/scheduler.h and scheduler/scheduler.cpp: how they are scheduled, and which
-- one a thread takes. A callback, a fiber and a thread are numbers; `none` is a null pointer, and for
-- `thread_id` it is -1. The calls run under the lock of the scheduler, one after the other.
pub mod Pick
pub mod Queue
use lo_netfw.Base.{
  ℕ, Bool, true, false, not, ◌&&◌, ◌||◌, List, [], ◌∷◌, ◌++◌, Option, none, some, ◌==◌,
  if◌then◌else◌,
}
use lo_netfw.Fiber.{State, is_exec, is_set}

-- Scheduler::Task
pub record Task : Type 0 where
  pub cb : Option ℕ
  pub fiber : Option ℕ
  pub thread_id : Option ℕ

-- Task::Task(), Task::reset
abbrev pub no_task : Task
no_task = record { cb = none; fiber = none; thread_id = none }

-- Task::Task(f, t) for a fiber and for a callback, by value or swapped out of the caller's hand.
abbrev pub fiber_task : Option ℕ → Option ℕ → Task
fiber_task f t = record { cb = none; fiber = f; thread_id = t }

abbrev pub cb_task : Option ℕ → Option ℕ → Task
cb_task f t = record { cb = f; fiber = none; thread_id = t }

-- `task.cb || task.fiber`
abbrev pub has_work : Task → Bool
has_work t = is_set t.cb || is_set t.fiber

abbrev pub is_none {ℓ} : {A : Type ℓ} → List A → Bool
is_none [] = true
is_none (x ∷ xs) = false

-- Whether `notify` is called, and the tasks.
pub record Scheduled : Type 0 where
  pub notifies : Bool
  pub tasks : List Task

-- Scheduler::mSchedule, and with it `schedule` of one task.
unfoldable pub m_schedule : Task → List Task → Scheduled
m_schedule t ts = record { notifies = is_none ts; tasks = if has_work t then ts ++ t ∷ [] else ts }

abbrev pub also_notify : Bool → Scheduled → Scheduled
also_notify b s = record s { notifies = s.notifies || b }

-- The loop of `schedule` of a range.
abbrev pub schedule_from : Bool → List Task → List Task → Scheduled
schedule_from b [] ts = record { notifies = b; tasks = ts }
schedule_from b (t ∷ more) ts =
    let s = m_schedule t ts in schedule_from (s.notifies || b) more s.tasks

-- `schedule` of a range of tasks.
unfoldable pub schedule_all : List Task → List Task → Scheduled
schedule_all more ts = schedule_from false more ts

-- `it->thread_id != -1 && it->thread_id != util::getThreadId()`
abbrev pub is_elsewhere : ℕ → Option ℕ → Bool
is_elsewhere thread none = false
is_elsewhere thread (some t) = not (t == thread)

abbrev pub is_running : (ℕ → State) → Option ℕ → Bool
is_running state_of none = false
is_running state_of (some f) = is_exec (state_of f)

-- What the search of `run` finds: whether it notifies, and the task with the tasks that stay.
pub data Picked : Type 0 where
  picked : Bool → Task → List Task → Picked
  nothing : Bool → Picked
  assertion : Picked

abbrev pub passed : Bool → Task → Picked → Picked
passed b t (picked n t' ts) = picked (b || n) t' (t ∷ ts)
passed b t (nothing n) = nothing (b || n)
passed b t assertion = assertion

-- The search of Scheduler::run for a task of the thread.
unfoldable pub pick : (ℕ → State) → ℕ → List Task → Picked
pick state_of thread [] = nothing false
pick state_of thread (t ∷ ts) =
    let rest = pick state_of thread ts in
    if is_elsewhere thread t.thread_id
    then passed true t rest
    else if not (has_work t)
    then assertion
    else if is_running state_of t.fiber
    then passed false t rest
    else picked false t ts
