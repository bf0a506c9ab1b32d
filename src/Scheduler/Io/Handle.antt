-- ===== src/Scheduler/Io/Handle.antt =====
-- The calls that trigger events: cancelEvent, cancelAll, and what `idle` does with an event that
-- `epoll_wait` reports; and when the io scheduler stops.
use lo_netfw.Base.{
  ℕ, ◌-◌, ◌^◌, Bool, true, false, not, ◌&&◌, ◌||◌, none, some, get_elem?, set, ◌==◌, sub64,
  if◌then◌else◌,
}
use lo_netfw.Scheduler.Io.Defs.{
  Event, read, write, Events, no_events, has, without, is_any, FdContext, IoScheduler, Outcome, ok,
  assertion, fault, EpollCtl, ctl_del, at_context, op_after, Triggered, triggered,
  trigger_assertion, trigger_fault, trigger_event,
}

-- What follows a trigger on the context of `fd`.
abbrev pub after_trigger :
    ℕ → IoScheduler → (FdContext → IoScheduler → Outcome Bool) → Triggered → Outcome Bool
after_trigger fd s next (triggered ctx' tasks) =
    next ctx'
      (record s { waiting = sub64 s.waiting 1; contexts = set s.contexts fd ctx'; tasks = tasks })
after_trigger fd s next trigger_assertion = assertion
after_trigger fd s next trigger_fault = fault

-- `fd_ctx->triggerEvent(event); --m_waitting_events_count;` on the context of `fd`, and what follows.
unfoldable pub trigger_at :
    ℕ → Event → FdContext → IoScheduler → (FdContext → IoScheduler → Outcome Bool) → Outcome Bool
unfolding trigger_event
trigger_at fd event ctx s next = after_trigger fd s next (trigger_event event ctx s.tasks)

abbrev pub done : FdContext → IoScheduler → Outcome Bool
done ctx s = ok true s

abbrev pub cancel_at : EpollCtl → ℕ → Event → FdContext → IoScheduler → Outcome Bool
cancel_at epoll_ctl fd event ctx s =
    let new_event = without ctx.event event in
    if not (has ctx.event event)
    then ok false s
    else if not (epoll_ctl (op_after new_event) fd new_event)
    then ok false s
    else trigger_at fd event ctx s done

-- IOScheduler::cancelEvent
unfoldable pub cancel_event : EpollCtl → ℕ → Event → IoScheduler → Outcome Bool
unfolding trigger_at
cancel_event epoll_ctl fd event s = at_context fd (cancel_at epoll_ctl fd event) s

-- A block `if (events & event) { fd_ctx->triggerEvent(event); ... }` and what follows.
unfoldable pub trigger_if :
    Bool
    → ℕ
    → Event
    → FdContext
    → IoScheduler
    → (FdContext → IoScheduler → Outcome Bool)
    → Outcome Bool
unfolding trigger_at
trigger_if true fd event ctx s next = trigger_at fd event ctx s next
trigger_if false fd event ctx s next = next ctx s

-- `LON_ASSERT(fd_ctx->event == Event::NONE)`
abbrev pub none_left : FdContext → IoScheduler → Outcome Bool
none_left ctx s = if is_any ctx.event then assertion else ok true s

abbrev pub cancel_rest : ℕ → FdContext → IoScheduler → Outcome Bool
cancel_rest fd ctx s = trigger_if ctx.event.writes fd write ctx s none_left

abbrev pub cancel_all_at : EpollCtl → ℕ → FdContext → IoScheduler → Outcome Bool
cancel_all_at epoll_ctl fd ctx s =
    if not (is_any ctx.event)
    then ok false s
    else if not (epoll_ctl ctl_del fd no_events)
    then ok false s
    else trigger_if ctx.event.reads fd read ctx s (cancel_rest fd)

-- IOScheduler::cancelAll
unfoldable pub cancel_all : EpollCtl → ℕ → IoScheduler → Outcome Bool
unfolding trigger_if
cancel_all epoll_ctl fd s = at_context fd (cancel_all_at epoll_ctl fd) s

-- An entry of the array that `epoll_wait` fills, for the context of a descriptor: EPOLLIN, EPOLLOUT,
-- and whether EPOLLERR or EPOLLHUP is among its bits.
pub record EpollEvent : Type 0 where
  pub epoll_in : Bool
  pub epoll_out : Bool
  pub epoll_err : Bool

-- `real_event`
abbrev pub real_event : EpollEvent → Events → Events
real_event e event = record {
  reads = e.epoll_in || (e.epoll_err && event.reads);
  writes = e.epoll_out || (e.epoll_err && event.writes);
}

-- `fd_ctx->event & ~real_event`
abbrev pub left_event : Events → Events → Events
left_event event real = record {
  reads = event.reads && not real.reads;
  writes = event.writes && not real.writes;
}

abbrev pub handle_at : EpollCtl → ℕ → EpollEvent → FdContext → IoScheduler → Outcome Bool
handle_at epoll_ctl fd e ctx s =
    let real = real_event e ctx.event in
    let left = left_event ctx.event real in
    if not ((ctx.event.reads && real.reads) || (ctx.event.writes && real.writes))
    then ok false s
    else if not (epoll_ctl (op_after left) fd left)
    then ok false s
    else trigger_if real.reads fd read ctx s
        (λ ctx' s'. trigger_if real.writes fd write ctx' s' done)

-- The body of the loop of IOScheduler::idle over the reported events, for an entry that is not the
-- pipe's; the result is false where it continues early. The entry points at the context of `fd`.
unfoldable pub handle_event : EpollCtl → ℕ → EpollEvent → IoScheduler → Outcome Bool
unfolding trigger_if
handle_event epoll_ctl fd e s = elim (get_elem? s.contexts fd) [
  | none ↦ fault
  | some ctx ↦ handle_at epoll_ctl fd e ctx s
]

-- IOScheduler::stopping, for the time that getNextTimerTimeMs gives and the answer of
-- Scheduler::stopping.
unfoldable pub stopping : ℕ → Bool → IoScheduler → Bool
stopping timeout scheduler_stopping s =
    timeout == 2 ^ 64 - 1 && (s.waiting == 0 && scheduler_stopping)
