-- ===== src/Scheduler/Control.antt =====
-- Scheduler::Scheduler, start and stop of scheduler/scheduler.cpp. `Threads` is what they keep of the
-- threads and of `m_root_fiber`; the flags, the tasks and the counts are in the Runner of the loop.
-- A thread is its identifier; the threads themselves are the platform's.
pub mod Stopping
use lo_netfw.Base.{
  ℕ, zero, suc, ◌+◌, ◌-◌, Bool, true, false, not, ◌&&◌, ◌||◌, List, [], ◌∷◌, ◌++◌, Option, none,
  some, ◌==◌, if◌then◌else◌,
}
use lo_netfw.Fiber.{State, init, is_term, is_init, is_set}
use lo_netfw.Scheduler.Run.{Runner, stopping}

pub record Threads : Type 0 where
  pub threads_count : ℕ
  pub threads : List ℕ
  pub threads_id : List ℕ
  pub root_thread : Option ℕ
  pub root_fiber : Option State

-- The constructor, on the thread `caller`; none where an assertion fails. `has_current` tells whether
-- the thread has a scheduler.
unfoldable pub create : ℕ → Bool → ℕ → Bool → Option Threads
create zero use_caller caller has_current = none
create (suc n) false caller has_current = some (record {
  threads_count = suc n;
  threads = [];
  threads_id = [];
  root_thread = none;
  root_fiber = none;
})
create (suc n) true caller has_current =
    if has_current
    then none
    else some (record {
      threads_count = n;
      threads = [];
      threads_id = caller ∷ [];
      root_thread = some caller;
      root_fiber = some init;
    })

-- The identifiers of the threads that start makes.
abbrev pub made : (ℕ → ℕ) → ℕ → List ℕ
made id_of zero = []
made id_of (suc n) = made id_of n ++ id_of n ∷ []

abbrev pub is_none {ℓ} : {A : Type ℓ} → List A → Bool
is_none [] = true
is_none (x ∷ xs) = false

-- What start leaves; none where an assertion fails.
unfoldable pub start : (ℕ → ℕ) → Threads → Runner → Option (Threads × Runner)
start id_of t r =
    let ids = made id_of t.threads_count in
    if not r.is_stopping
    then some (t, r)
    else if not (is_none t.threads)
    then none
    else some (
      record t { threads = ids; threads_id = t.threads_id ++ ids },
      record r { is_stopping = false },
    )

-- What stop does: it returns at once, or an assertion fails, or it enters the root fiber or not and
-- then joins the threads.
pub data Stopped : Type 0 where
  at_once : Runner → Stopped
  assertion : Stopped
  joins : Bool → List ℕ → Threads → Runner → Stopped

-- `m_root_fiber && m_threads_count == 0 &&` its state is TERM or INIT
abbrev pub root_waits : ℕ → Option State → Bool
root_waits threads_count none = false
root_waits threads_count (some s) = (threads_count == 0) && (is_term s || is_init s)

-- The calls of notify.
abbrev pub notify_all : Threads → Runner → Runner
notify_all t r = record r {
  notified = r.notified + t.threads_count + (if is_set t.root_fiber then 1 else 0);
}

-- stop from its assertions on; `is_current` tells whether this is the scheduler of the thread.
abbrev pub wind_down : Bool → Threads → Runner → Stopped
wind_down is_current t r =
    let r' = notify_all t (record r { is_stopping = true }) in
    if is_set t.root_thread && not is_current
    then assertion
    else if not (is_set t.root_thread) && is_current
    then assertion
    else joins (is_set t.root_fiber && not (stopping r')) t.threads (record t { threads = [] }) r'

-- Scheduler::stop
unfoldable pub stop : Bool → Threads → Runner → Stopped
stop is_current t r =
    let auto = record r { auto_stop = true } in
    let both = record r { auto_stop = true; is_stopping = true } in
    if root_waits t.threads_count t.root_fiber
    then (if stopping both then at_once both else wind_down is_current t both)
    else wind_down is_current t auto
