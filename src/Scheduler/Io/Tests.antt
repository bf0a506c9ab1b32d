-- ===== src/Scheduler/Io/Tests.antt =====
-- Runs of the theorems about the events on a new io scheduler where descriptor 2 waits for READ.
use lo_netfw.Base.{◌≡◌, refl, true, false, some, none, get_elem?, set, inl}
use lo_netfw.Scheduler.Io.Defs.{
  write, FdContext, fresh_context, empty_context, IoScheduler, EpollCtl, create, context_resize,
  add_event,
}
use lo_netfw.Scheduler.Io.Handle.{cancel_all, EpollEvent, handle_event}
use lo_netfw.Scheduler.Io.Contexts.{IsSound, IsValid}
use lo_netfw.Scheduler.Io.Invariant.{Returns, replaced-IsValid}
use lo_netfw.Scheduler.Io.CancelAll.{Cleared, cancel_all-Returns}
use lo_netfw.Scheduler.Io.Register.{create-IsValid, Adds, add_event-Adds}
use lo_netfw.Scheduler.Io.Dispatch.{Ends, handle_event-Ends}

abbrev accepts : EpollCtl
accepts op fd events = true

abbrev reader : FdContext
reader = record {
  r_event = record { scheduler = some 1; fiber = none; cb = some 9 };
  w_event = empty_context;
  event = record { reads = true; writes = false };
}

abbrev busy : IoScheduler
busy = record create { waiting = 1; contexts = set create.contexts 2 reader }

reader-IsSound : IsSound reader
reader-IsSound = record { reader = (1, 9, inl refl); writer = refl }

busy-IsValid : IsValid busy
unfolding create context_resize
busy-IsValid =
    replaced-IsValid create create-IsValid 2 fresh_context refl reader reader-IsSound busy refl refl

at_reader : get_elem? busy.contexts 2 ≡ some reader
unfolding create context_resize
at_reader = refl

abbrev came_in : EpollEvent
came_in = record { epoll_in = true; epoll_out = false; epoll_err = false }

abbrev came_both : EpollEvent
came_both = record { epoll_in = true; epoll_out = true; epoll_err = false }

cancel_all-Returns_example : Returns busy (Cleared 2) (cancel_all accepts 2 busy)
cancel_all-Returns_example = cancel_all-Returns accepts 2 busy busy-IsValid

add_event-Adds_example : Adds 100 write busy (add_event accepts (some 1) 4 true 100 write none busy)
add_event-Adds_example = add_event-Adds accepts 1 4 true 100 write none busy busy-IsValid refl

handle_event-Ends_example :
    Ends accepts 2 came_in busy reader true (handle_event accepts 2 came_in busy)
handle_event-Ends_example =
    handle_event-Ends accepts 2 came_in busy reader busy-IsValid at_reader (λ h. refl, λ h. h)
