-- ===== src/Hook/Io.antt =====
-- The template io and the function connect_with_timeout of hook/hook.cpp, in the build for Linux. The
-- answers of the system call, and what the rest of the program does while the fiber waits, are a list
-- of steps: the call is made once for each step, and behind the last step the answer is still to come.
-- The state is that of FDMGR, of the io scheduler and its timers, and `errno`.
pub mod Answer
use lo_netfw.Base.{
  ℕ, ◌+◌, ◌*◌, Bool, true, false, not, ◌&&◌, ◌||◌, List, [], ◌∷◌, Option, none, some, ◌==◌,
  if◌then◌else◌,
}
use lo_netfw.Base.Int.{ℤ, pos, negsuc}
use lo_netfw.Hook.Fd.{Fd, FdManager, lookup, is_close, get_timeout}
use lo_netfw.Scheduler.Io.Defs.{Event, read, write, IoScheduler, EpollCtl, add_event}
use lo_netfw.Scheduler.Io.Handle.{cancel_event}
use lo_netfw.Scheduler.Timer.Defs.{Manager, add_condition_timer, cancel}
use lo_netfw.Scheduler.Io.Defs as Io
use lo_netfw.Scheduler.Timer.Defs as Timers

-- EINTR, EAGAIN, EBADF, EINPROGRESS and ETIMEDOUT of Linux.
abbrev pub eintr : ℕ
eintr = 4

abbrev pub eagain : ℕ
eagain = 11

abbrev pub ebadf : ℕ
ebadf = 9

abbrev pub einprogress : ℕ
einprogress = 115

abbrev pub etimedout : ℕ
etimedout = 110

pub record Hooked : Type 0 where
  pub fds : FdManager
  pub ios : IoScheduler
  pub timers : Manager
  pub errno : ℕ

-- One call of the system, what it returns and the `errno` it sets with -1. Where the fiber waits after
-- it: the answer of epoll_ctl, the clock and the address of the timer, what the rest of the program leaves when the fiber goes
-- on, and whether the callback of the timer ran before.
pub record Step : Type 0 where
  pub ret : ℤ
  pub err : ℕ
  pub epoll_ctl : EpollCtl
  pub now : ℕ
  pub timer : ℕ
  pub back : Hooked → Hooked
  pub timer_ran : Bool

-- The fiber that calls, and the descriptor and event it waits for. `tinfo` and `on_timeout` stand for
-- the object of the wait and the callback of its timer.
pub record Waiter : Type 0 where
  pub scheduler : Option ℕ
  pub fiber : ℕ
  pub fd : ℕ
  pub event : Event
  pub tinfo : ℕ
  pub on_timeout : ℕ

-- The call returns, the fiber still waits or the call has no answer yet, or a call stops at an
-- assertion or follows a null pointer.
pub data Result : Type 0 where
  gave : ℤ → Hooked → Result
  pending : Hooked → Result
  stopped : Result

abbrev pub minus_one : ℤ
minus_one = negsuc 0

abbrev pub is_minus_one : ℤ → Bool
is_minus_one (pos n) = false
is_minus_one (negsuc n) = n == 0

-- `fun(fd, args...)`, with what it does to `errno`.
abbrev pub called : Step → Hooked → Hooked
called a w = if is_minus_one a.ret then record w { errno = a.err } else w

abbrev pub direct : List Step → Hooked → Result
direct [] w = pending w
direct (a ∷ more) w = gave a.ret (called a w)

-- `timeout >= 0`
abbrev pub has_timer : ℤ → Bool
has_timer (pos n) = true
has_timer (negsuc n) = false

abbrev pub arm : Waiter → ℤ → Step → Hooked → Hooked
arm c (pos ms) a w = record w {
  timers = (add_condition_timer a.now a.timer ms c.on_timeout c.tinfo false w.timers).1;
}
arm c (negsuc n) a w = w

abbrev pub with_timers : (Hooked → Result) → Hooked → Timers.Outcome Bool → Result
with_timers go w (Timers.ok b m) = go (record w { timers = m })
with_timers go w Timers.fault = stopped

-- `if (timer) timer->cancel();`
abbrev pub disarm : ℤ → Step → (Hooked → Result) → Hooked → Result
disarm (pos ms) a go w = with_timers go w (cancel a.timer w.timers)
disarm (negsuc n) a go w = go w

-- What the callback of the timer does, when `tinfo` is alive: `canceled` and the state after it.
unfoldable pub timer_callback : EpollCtl → Waiter → ℕ → IoScheduler → ℕ × Io.Outcome Bool
timer_callback epoll_ctl c canceled ios =
    if canceled == 0
    then (etimedout, cancel_event epoll_ctl c.fd c.event ios)
    else (canceled, Io.ok false ios)

-- Behind the yield of a wait.
abbrev pub woken : ℤ → Step → (Hooked → Result) → Hooked → Result
woken timeout a go w =
    if a.timer_ran && has_timer timeout
    then gave minus_one (record w { errno = etimedout })
    else go w

abbrev pub registered : Waiter → ℤ → Step → (Hooked → Result) → Hooked → Io.Outcome Bool → Result
registered c timeout a go w (Io.ok true ios) =
    disarm timeout a (woken timeout a go) (a.back (record w { ios = ios }))
registered c timeout a go w (Io.ok false ios) =
    disarm timeout a (gave minus_one) (record w { ios = ios })
registered c timeout a go w Io.assertion = stopped
registered c timeout a go w Io.fault = stopped

-- A timer where there is a timeout, addEvent, and the yield.
abbrev pub wait : Waiter → ℤ → Step → (Hooked → Result) → Hooked → Result
wait c timeout a go w =
    let w' = arm c timeout a w in
    registered c timeout a go w'
      (add_event a.epoll_ctl c.scheduler c.fiber true c.fd c.event none w'.ios)

-- `ret == -1 && errno == EINTR`, `ret == -1 && errno == EAGAIN`
abbrev pub is_interrupted : Step → Bool
is_interrupted a = is_minus_one a.ret && (a.err == eintr)

abbrev pub would_block : Step → Bool
would_block a = is_minus_one a.ret && (a.err == eagain)

-- io from `retry` on.
unfoldable pub io_loop : Waiter → ℤ → List Step → Hooked → Result
io_loop c timeout [] w = pending w
io_loop c timeout (a ∷ more) w =
    let again : Hooked → Result = λ w'. io_loop c timeout more w' in
    if is_interrupted a
    then again (called a w)
    else if would_block a
    then wait c timeout a again (called a w)
    else gave a.ret (called a w)

abbrev pub io_on : Waiter → List Step → Hooked → Option Fd → Result
io_on c steps w none = direct steps w
io_on c steps w (some f) =
    if is_close f
    then gave minus_one (record w { errno = ebadf })
    else if not f.is_socket || f.is_user_nonblock
    then direct steps w
    else io_loop c (get_timeout (some c.event) f) steps w

-- io; the first argument is HookState::isEnable().
unfoldable pub io : Bool → Waiter → List Step → Hooked → Result
io enabled c steps w = if not enabled then direct steps w else io_on c steps w (lookup w.fds c.fd)

-- What `getsockopt` answers for SO_ERROR: -1 with its `errno`, or the error of the socket.
pub data SoError : Type 0 where
  so_failed : ℕ → SoError
  so_error : ℕ → SoError

abbrev pub connected : SoError → Hooked → Result
connected (so_failed e) w = gave minus_one (record w { errno = e })
connected (so_error e) w =
    if e == 0 then gave (pos 0) w else gave minus_one (record w { errno = e })

-- `ret == -1 && errno == EINPROGRESS`
abbrev pub in_progress : Step → Bool
in_progress a = is_minus_one a.ret && (a.err == einprogress)

abbrev pub connect_socket : Waiter → ℤ → List Step → SoError → Hooked → Result
connect_socket c timeout [] e w = pending w
connect_socket c timeout (a ∷ more) e w =
    if in_progress a then wait c timeout a (connected e) (called a w) else gave a.ret (called a w)

abbrev pub connect_on : Waiter → ℤ → List Step → SoError → Hooked → Option Fd → Result
connect_on c timeout steps e w none = gave minus_one (record w { errno = ebadf })
connect_on c timeout steps e w (some f) =
    if is_close f
    then gave minus_one (record w { errno = ebadf })
    else if not f.is_socket || f.is_user_nonblock
    then direct steps w
    else connect_socket c timeout steps e w

-- connect_with_timeout
unfoldable pub connect_with_timeout : Bool → Waiter → ℤ → List Step → SoError → Hooked → Result
connect_with_timeout enabled c timeout steps e w =
    if not enabled then direct steps w else connect_on c timeout steps e w (lookup w.fds c.fd)

-- The calls that pass their arguments on to io.
pub data IoCall : Type 0 where
  call_accept : IoCall
  call_read : IoCall
  call_readv : IoCall
  call_recv : IoCall
  call_recvfrom : IoCall
  call_recvmsg : IoCall
  call_write : IoCall
  call_writev : IoCall
  call_send : IoCall
  call_sendto : IoCall
  call_sendmsg : IoCall

-- The event that each waits for; the type of its timeout is the same.
abbrev pub event_of : IoCall → Event
event_of call_accept = read
event_of call_read = read
event_of call_readv = read
event_of call_recv = read
event_of call_recvfrom = read
event_of call_recvmsg = read
event_of call_write = write
event_of call_writev = write
event_of call_send = write
event_of call_sendto = write
event_of call_sendmsg = write

unfoldable pub io_call : Bool → IoCall → Waiter → List Step → Hooked → Result
io_call enabled name c steps w = io enabled (record c { event = event_of name }) steps w
