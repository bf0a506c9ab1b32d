-- ===== src/Scheduler/Io/Defs.antt =====
-- State of an IOScheduler and the calls that register and take back events. A set of events is two
-- Booleans, for the bits READ and WRITE. A scheduler, a fiber and a callback are numbers, `none` a
-- null pointer. The calls hold the lock of the context, so they run one after the other; what
-- `epoll_ctl` answers (true for 0) is an argument, a function of the operation, the descriptor and the
-- events. A descriptor is not negative. The count of waiting events is at most two for each context
-- in memory, so going up it does not wrap.
use lo_netfw.Base.{
  ℕ, ◌+◌, ◌-◌, ◌*◌, ◌/◌, Bool, true, false, not, ◌&&◌, ◌||◌, List, [], ◌∷◌, ◌++◌, Option, none,
  some, length, get_elem?, set, take, replicate, ltb, sub64, if◌then◌else◌,
}

-- IOScheduler::Event, without NONE.
pub data Event : Type 0 where
  read : Event
  write : Event

-- Events joined by `|`.
pub record Events : Type 0 where
  pub reads : Bool
  pub writes : Bool

abbrev pub no_events : Events
no_events = record { reads = false; writes = false }

-- `events & event`, `events | event`, `events & ~event`
abbrev pub has : Events → Event → Bool
has events read = events.reads
has events write = events.writes

abbrev pub with_event : Events → Event → Events
with_event events read = record events { reads = true }
with_event events write = record events { writes = true }

abbrev pub without : Events → Event → Events
without events read = record events { reads = false }
without events write = record events { writes = false }

abbrev pub is_any : Events → Bool
is_any events = events.reads || events.writes

-- IOScheduler::FdContext::EventContext
pub record EventContext : Type 0 where
  pub scheduler : Option ℕ
  pub fiber : Option ℕ
  pub cb : Option ℕ

abbrev pub empty_context : EventContext
empty_context = record { scheduler = none; fiber = none; cb = none }

-- IOScheduler::FdContext. Its `fd` is its place in the list of contexts.
pub record FdContext : Type 0 where
  pub r_event : EventContext
  pub w_event : EventContext
  pub event : Events

abbrev pub fresh_context : FdContext
fresh_context = record { r_event = empty_context; w_event = empty_context; event = no_events }

-- What is scheduled: a callback, or a fiber that goes on.
pub data Work : Type 0 where
  call : ℕ → Work
  resume : ℕ → Work

-- `tasks` are those handed to schedulers, each with its scheduler.
pub record IoScheduler : Type 0 where
  pub waiting : ℕ
  pub contexts : List FdContext
  pub tasks : List (ℕ × Work)

-- A call returns, stops at an assertion, or follows a null pointer or an index out of range.
pub data Outcome (A : Type 0) : Type 0 where
  ok : A → IoScheduler → Outcome A
  assertion : Outcome A
  fault : Outcome A

pub data Op : Type 0 where
  ctl_add : Op
  ctl_mod : Op
  ctl_del : Op

abbrev pub EpollCtl : Type 0
EpollCtl = Op → ℕ → Events → Bool

abbrev pub get_context : FdContext → Event → EventContext
get_context ctx read = ctx.r_event
get_context ctx write = ctx.w_event

abbrev pub put_context : FdContext → Event → EventContext → FdContext
put_context ctx read c = record ctx { r_event = c }
put_context ctx write c = record ctx { w_event = c }

abbrev pub is_set {ℓ} : {A : Type ℓ} → Option A → Bool
is_set none = false
is_set (some a) = true

-- `!event_ctx.cb && !event_ctx.fiber && !event_ctx.scheduler`
abbrev pub is_empty : EventContext → Bool
is_empty c = not (is_set c.cb) && (not (is_set c.fiber) && not (is_set c.scheduler))

-- IOScheduler::contextResize
unfoldable pub context_resize : ℕ → IoScheduler → IoScheduler
context_resize size s = record s {
  contexts = take size s.contexts ++ replicate (size - length s.contexts) fresh_context;
}

-- The constructor: a table for 32 descriptors.
unfoldable pub create : IoScheduler
unfolding context_resize
create = context_resize 32 (record { waiting = 0; contexts = []; tasks = [] })

-- What addEvent puts into the context of the event: `current` is the scheduler of the thread and
-- `fiber` its running fiber.
abbrev pub load : Option ℕ → ℕ → Option ℕ → EventContext
load current fiber (some f) = record { scheduler = current; fiber = none; cb = some f }
load current fiber none = record { scheduler = current; fiber = some fiber; cb = none }

abbrev pub add_to :
    EpollCtl → Option ℕ → ℕ → Bool → ℕ → Event → Option ℕ → FdContext → IoScheduler → Outcome Bool
add_to epoll_ctl current fiber is_exec fd event cb ctx s =
    let op = if is_any ctx.event then ctl_mod else ctl_add in
    let ctx' = record (put_context ctx event (load current fiber cb)) {
      event = with_event ctx.event event;
    } in
    if has ctx.event event
    then ok false s
    else if not (epoll_ctl op fd (with_event ctx.event event))
    then ok false s
    else if not (is_empty (get_context ctx event))
    then assertion
    else if not (is_set cb) && not is_exec
    then assertion
    else ok true (record s { waiting = s.waiting + 1; contexts = set s.contexts fd ctx' })

abbrev pub add_in :
    EpollCtl
    → Option ℕ
    → ℕ
    → Bool
    → ℕ
    → Event
    → Option ℕ
    → IoScheduler
    → Option FdContext
    → Outcome Bool
add_in epoll_ctl current fiber is_exec fd event cb s none = fault
add_in epoll_ctl current fiber is_exec fd event cb s (some ctx) =
    add_to epoll_ctl current fiber is_exec fd event cb ctx s

-- The table grows where the descriptor has no place in it.
unfoldable pub with_room : ℕ → IoScheduler → IoScheduler
unfolding context_resize
with_room fd s = if ltb fd (length s.contexts) then s else context_resize (fd * 3 / 2) s

-- IOScheduler::addEvent; true stands for 0 and false for -1. `is_exec` tells whether the running
-- fiber is in the state EXEC.
unfoldable pub add_event :
    EpollCtl → Option ℕ → ℕ → Bool → ℕ → Event → Option ℕ → IoScheduler → Outcome Bool
unfolding with_room
add_event epoll_ctl current fiber is_exec fd event cb s =
    add_in epoll_ctl current fiber is_exec fd event cb (with_room fd s)
      (get_elem? (with_room fd s).contexts fd)

-- The part that delEvent, cancelEvent and cancelAll share: a descriptor out of range gives false.
abbrev pub from_context :
    (FdContext → IoScheduler → Outcome Bool) → IoScheduler → Option FdContext → Outcome Bool
from_context go s none = ok false s
from_context go s (some ctx) = go ctx s

abbrev pub at_context : ℕ → (FdContext → IoScheduler → Outcome Bool) → IoScheduler → Outcome Bool
at_context fd go s = from_context go s (get_elem? s.contexts fd)

-- `new_event ? EPOLL_CTL_MOD : EPOLL_CTL_DEL`
abbrev pub op_after : Events → Op
op_after events = if is_any events then ctl_mod else ctl_del

abbrev pub del_at : EpollCtl → ℕ → Event → FdContext → IoScheduler → Outcome Bool
del_at epoll_ctl fd event ctx s =
    let new_event = without ctx.event event in
    let ctx' = record (put_context ctx event empty_context) { event = new_event } in
    if not (has ctx.event event)
    then ok false s
    else if not (epoll_ctl (op_after new_event) fd new_event)
    then ok false s
    else ok true (record s { waiting = sub64 s.waiting 1; contexts = set s.contexts fd ctx' })

-- IOScheduler::delEvent
unfoldable pub del_event : EpollCtl → ℕ → Event → IoScheduler → Outcome Bool
del_event epoll_ctl fd event s = at_context fd (del_at epoll_ctl fd event) s

-- What triggerEvent leaves: the context and the tasks.
pub data Triggered : Type 0 where
  triggered : FdContext → List (ℕ × Work) → Triggered
  trigger_assertion : Triggered
  trigger_fault : Triggered

abbrev pub hand_over : FdContext → Option ℕ → Work → List (ℕ × Work) → Triggered
hand_over ctx none work tasks = trigger_fault
hand_over ctx (some s) work tasks = triggered ctx (tasks ++ (s, work) ∷ [])

-- The `schedule` calls swap the callback or the fiber out of the context.
abbrev pub schedule_from : FdContext → Event → EventContext → List (ℕ × Work) → Triggered
schedule_from ctx event c tasks = elim c.cb [
  | some f ↦
      hand_over (put_context ctx event (record c { cb = none; scheduler = none })) c.scheduler
        (call f) tasks
  | none ↦ elim c.fiber [
    | some f ↦
        hand_over (put_context ctx event (record c { fiber = none; scheduler = none })) c.scheduler
          (resume f) tasks
    | none ↦ trigger_assertion
  ]
]

-- IOScheduler::FdContext::triggerEvent
unfoldable pub trigger_event : Event → FdContext → List (ℕ × Work) → Triggered
trigger_event event ctx tasks =
    if has ctx.event event
    then schedule_from (record ctx { event = without ctx.event event }) event
        (get_context ctx event) tasks
    else trigger_assertion
