-- ===== src/Net/Socket/Cancel.antt =====
-- The calls of Socket that wake the fibers which wait for it.
use lo_netfw.Base.{ℕ, Bool, none, some}
use lo_netfw.Scheduler.Io.Defs.{read, write, IoScheduler, EpollCtl}
use lo_netfw.Scheduler.Io.Handle.{cancel_event}
use lo_netfw.Scheduler.Io.Handle as Handle
use lo_netfw.Scheduler.Io.Defs as Io
use lo_netfw.Net.Socket.{Socket}

-- cancelRead, cancelWrite, cancelAccept and cancelAll, on the IOScheduler of the thread; -1 is used as
-- an index.
abbrev pub cancel : (ℕ → IoScheduler → Io.Outcome Bool) → Socket → IoScheduler → Io.Outcome Bool
cancel f s ios = elim s.sockfd [ none ↦ Io.fault | some n ↦ f n ios ]

unfoldable pub cancel_read : EpollCtl → Socket → IoScheduler → Io.Outcome Bool
cancel_read epoll_ctl s ios = cancel (λ n. cancel_event epoll_ctl n read) s ios

unfoldable pub cancel_write : EpollCtl → Socket → IoScheduler → Io.Outcome Bool
cancel_write epoll_ctl s ios = cancel (λ n. cancel_event epoll_ctl n write) s ios

unfoldable pub cancel_accept : EpollCtl → Socket → IoScheduler → Io.Outcome Bool
cancel_accept epoll_ctl s ios = cancel (λ n. cancel_event epoll_ctl n read) s ios

unfoldable pub cancel_all : EpollCtl → Socket → IoScheduler → Io.Outcome Bool
cancel_all epoll_ctl s ios = cancel (Handle.cancel_all epoll_ctl) s ios
