-- ===== src/Hook/Calls/Closing.antt =====
-- close of a descriptor that has an object: nothing waits for it any more, and the object is gone.
use lo_netfw.Base.{ℕ, ◌≡◌, sym, ap, ◌∙◌, Bool, true, false, Option, none, some}
use lo_netfw.Hook.Fd.{Fd, FdManager, lookup, del}
use lo_netfw.Hook.Fd.Laws.{Deleted, del-Deleted}
use lo_netfw.Hook.Calls.{Closed, close_on, close}
use lo_netfw.Scheduler.Io.Defs.{IoScheduler, Outcome, ok, assertion, fault, EpollCtl}
use lo_netfw.Scheduler.Io.Handle.{cancel_all}
use lo_netfw.Scheduler.Io.CancelAll.{Cleared, cancel_all-Returns}
use lo_netfw.Hook.Fd.Table as Table
use lo_netfw.Scheduler.Io.Contexts as Contexts

abbrev go_close : ℕ → FdManager → Outcome Bool → Option Closed
go_close n fds (ok b ios) = some (record { fds = del n fds; ios = ios })
go_close n fds assertion = none
go_close n fds fault = none

-- Close of a descriptor with an object, in a valid table and a valid io scheduler and with hooks
-- enabled, gets to the call of the system: the object is gone, the other descriptors keep theirs,
-- both stay valid, and when cancelAll gave true no event of the descriptor is registered.
close-Deleted :
    (epoll_ctl : EpollCtl) (n : ℕ) (fds : FdManager) (ios : IoScheduler) (f : Fd)
    → Table.IsValid fds
    → Contexts.IsValid ios
    → lookup fds n ≡ some f
    → (c : Closed) × (close true epoll_ctl n fds ios ≡ some c)
      × Deleted n fds c.fds
      × Contexts.IsValid c.ios
      × ((t : IoScheduler) → cancel_all epoll_ctl n ios ≡ ok true t → Cleared n c.ios)
unfolding close
close-Deleted epoll_ctl n fds ios f v g at =
    let (b, t, e, valid, still, after) = cancel_all-Returns epoll_ctl n ios g in
    (
      record { fds = del n fds; ios = t },
      ap (close_on epoll_ctl n fds ios) at ∙ ap (go_close n fds) e,
      del-Deleted n fds v,
      valid,
      λ t' e'. after (ap answer (sym e ∙ e')),
    )
  where
    answer : Outcome Bool → Bool
    answer (ok b t) = b
    answer assertion = false
    answer fault = false
