-- ===== src/Hook/Calls.antt =====
-- The other hooked calls of hook/hook.cpp in the build for Linux: socket, accept, close, fcntl, ioctl,
-- setsockopt, sleep, usleep and nanosleep. What the system answers is an argument. A `Fd` in the table
-- is shared, so a call that changes it puts it back where it stands.
pub mod Nonblock
pub mod Closing
mod Tests
use lo_netfw.Base.{
  ℕ, ◌+◌, ◌*◌, ◌/◌, ◌%◌, ◌^◌, Bool, true, false, not, ◌&&◌, ◌||◌, Option, none, some, set,
  if◌then◌else◌,
}
use lo_netfw.Base.Int.{ℤ, pos, negsuc}
use lo_netfw.Hook.Fd.{
  Fd, Fstat, FdManager, lookup, is_close, get, del, set_timeout, set_user_nonblock,
}
use lo_netfw.Hook.Io.{Hooked, Result, gave, pending, stopped}
use lo_netfw.Scheduler.Io.Defs.{Event, read, write, IoScheduler, EpollCtl, ok, assertion, fault}
use lo_netfw.Scheduler.Io.Handle.{cancel_all}
use lo_netfw.Scheduler.Timer.Defs.{Manager, plain, add_timer}
use lo_netfw.Hook.Fd as Fds

-- The object in the table is changed.
abbrev pub put_fd : ℕ → Fd → FdManager → FdManager
put_fd n f m = record m { fds = set m.fds n (some f) }

-- A word of flags: the bit O_NONBLOCK, and the other bits.
pub record Flags : Type 0 where
  pub nonblock : Bool
  pub others : ℕ

-- What fcntl gives: a number, or a word of flags.
pub data Answer : Type 0 where
  number : ℤ → Answer
  flags : Flags → Answer

-- The system, whose state has the type `S`: fcntl with F_SETFL, whose answer is a number, and with
-- F_GETFL, where `none` is -1, and ioctl with FIONBIO.
pub record System (S : Type 0) : Type 0 where
  pub setfl : ℕ → Flags → S → ℤ × S
  pub getfl : ℕ → S → Option Flags
  pub fionbio : ℕ → Bool → S → ℤ × S

-- The answer of the calls that keep the object in a table: its manager and the system's state.
pub record Called (S : Type 0) (A : Type 0) : Type 0 where
  pub answer : A
  pub fds : FdManager
  pub system : S

-- `fd_obj == nullptr || !fd_obj->isSocket() || fd_obj->isClose()`
abbrev pub is_plain : Option Fd → Bool
is_plain none = true
is_plain (some f) = not f.is_socket || is_close f

module _ {S : Type 0} (sys : System S) where
  abbrev pub setfl_as : ℕ → Flags → FdManager → S → Called S ℤ
  setfl_as n arg fds s =
      let (r, s') = sys.setfl n arg s in record { answer = r; fds = fds; system = s' }

  abbrev pub setfl_on : ℕ → Flags → FdManager → S → Option Fd → Called S ℤ
  setfl_on n arg fds s none = setfl_as n arg fds s
  setfl_on n arg fds s (some f) =
      if is_plain (some f)
      then setfl_as n arg fds s
      else setfl_as n (record arg { nonblock = f.is_sys_nonblock })
          (put_fd n (set_user_nonblock arg.nonblock f) fds) s

  -- fcntl with F_SETFL
  unfoldable pub fcntl_setfl : ℕ → Flags → FdManager → S → Called S ℤ
  fcntl_setfl n arg fds s = setfl_on n arg fds s (lookup fds n)

  -- `arg | O_NONBLOCK` and `arg & ~O_NONBLOCK` on what F_GETFL gives, where -1 has every bit set.
  abbrev pub shown : Bool → Option Flags → Answer
  shown b (some f) = flags (record f { nonblock = b })
  shown true none = number (negsuc 0)
  shown false none = number (negsuc 2048)

  abbrev pub as_is : Option Flags → Answer
  as_is (some f) = flags f
  as_is none = number (negsuc 0)

  abbrev pub getfl_on : Option Flags → Option Fd → Answer
  getfl_on arg none = as_is arg
  getfl_on arg (some f) = if is_plain (some f) then as_is arg else shown f.is_user_nonblock arg

  -- fcntl with F_GETFL
  unfoldable pub fcntl_getfl : ℕ → FdManager → S → Answer
  fcntl_getfl n fds s = getfl_on (sys.getfl n s) (lookup fds n)

  abbrev pub fionbio_as : ℕ → Bool → FdManager → S → Called S ℤ
  fionbio_as n arg fds s =
      let (r, s') = sys.fionbio n arg s in record { answer = r; fds = fds; system = s' }

  abbrev pub fionbio_on : ℕ → Bool → FdManager → S → Option Fd → Called S ℤ
  fionbio_on n arg fds s none = fionbio_as n arg fds s
  fionbio_on n arg fds s (some f) =
      if is_plain (some f)
      then fionbio_as n arg fds s
      else fionbio_as n arg (put_fd n (set_user_nonblock arg f) fds) s

  -- ioctl with FIONBIO; `arg` tells whether the number pointed at is not 0.
  unfoldable pub ioctl_fionbio : ℕ → Bool → FdManager → S → Called S ℤ
  ioctl_fionbio n arg fds s = fionbio_on n arg fds s (lookup fds n)

-- The options SO_RCVTIMEO and SO_SNDTIMEO of SOL_SOCKET, and the others.
pub data Opt : Type 0 where
  rcvtimeo : Opt
  sndtimeo : Opt
  other_opt : Opt

abbrev pub timeout_event : Opt → Option Event
timeout_event rcvtimeo = some read
timeout_event sndtimeo = some write
timeout_event other_opt = none

abbrev pub set_timeout_on : ℕ → Option Event → ℤ → FdManager → Option Fd → FdManager
set_timeout_on n (some e) t fds (some f) = put_fd n (set_timeout (some e) t f) fds
set_timeout_on n _ t fds _ = fds

-- What setsockopt leaves in the table, for a time of `sec` seconds and `usec` microseconds; it then
-- passes the call on.
unfoldable pub setsockopt : Bool → ℕ → Opt → ℕ → ℕ → FdManager → FdManager
setsockopt enabled n opt sec usec fds =
    if not enabled
    then fds
    else set_timeout_on n (timeout_event opt) (pos (sec * 1000 + usec / 1000)) fds (lookup fds n)

-- FDMGR.get(fd, true) where the call gives a descriptor.
abbrev pub kept_new : ℕ → Fds.Outcome (Option Fd) → Fds.Outcome ℤ
kept_new n (Fds.ok o m) = Fds.ok (pos n) m
kept_new n Fds.fault = Fds.fault

abbrev pub keep_new : Fstat → FdManager → ℤ → Fds.Outcome ℤ
keep_new fstat fds (negsuc n) = Fds.ok (negsuc n) fds
keep_new fstat fds (pos n) = kept_new n (get fstat n true fds)

-- socket, for what `socket_f` gives.
unfoldable pub socket : Bool → Fstat → ℤ → FdManager → Fds.Outcome ℤ
socket enabled fstat r fds = if not enabled then Fds.ok r fds else keep_new fstat fds r

-- accept, for what io gives.
unfoldable pub accept : Fstat → Result → Option (Fds.Outcome ℤ)
accept fstat (gave r w) = some (keep_new fstat w.fds r)
accept fstat (pending w) = none
accept fstat stopped = none

-- What close leaves before it passes the call on, or none where cancelAll does not return.
pub record Closed : Type 0 where
  pub fds : FdManager
  pub ios : IoScheduler

abbrev pub close_on : EpollCtl → ℕ → FdManager → IoScheduler → Option Fd → Option Closed
close_on epoll_ctl n fds ios none = some (record { fds = fds; ios = ios })
close_on epoll_ctl n fds ios (some f) = elim (cancel_all epoll_ctl n ios) [
  | ok b ios' ↦ some (record { fds = del n fds; ios = ios' })
  | assertion ↦ none
  | fault ↦ none
]

-- close
unfoldable pub close : Bool → EpollCtl → ℕ → FdManager → IoScheduler → Option Closed
close enabled epoll_ctl n fds ios =
    if not enabled
    then some (record { fds = fds; ios = ios })
    else close_on epoll_ctl n fds ios (lookup fds n)

-- The time of the timer of sleep, with the wrap-around of `unsigned int`, of usleep and of nanosleep.
abbrev pub sleep_ms : ℕ → ℕ
sleep_ms seconds = seconds * 1000 % 2 ^ 32

abbrev pub usleep_ms : ℕ → ℕ
usleep_ms usec = usec / 1000

abbrev pub nanosleep_ms : ℕ → ℕ → ℕ
nanosleep_ms sec nsec = sec * 1000 + nsec / (1000 * 1000)

-- What the three do before they yield: a timer at the address `p`, whose callback `resume` schedules
-- the fiber.
abbrev pub sleep_timer : ℕ → ℕ → ℕ → ℕ → Manager → Manager
sleep_timer now p ms resume m = (add_timer now p ms (some (plain resume)) false m).1

unfoldable pub sleep : ℕ → ℕ → ℕ → ℕ → Manager → Manager
sleep now p seconds resume m = sleep_timer now p (sleep_ms seconds) resume m

unfoldable pub usleep : ℕ → ℕ → ℕ → ℕ → Manager → Manager
usleep now p usec resume m = sleep_timer now p (usleep_ms usec) resume m

unfoldable pub nanosleep : ℕ → ℕ → ℕ → ℕ → ℕ → Manager → Manager
nanosleep now p sec nsec resume m = sleep_timer now p (nanosleep_ms sec nsec) resume m

-- The commands of fcntl besides F_SETFL and F_GETFL.
pub data Cmd : Type 0 where
  dupfd : Cmd
  dupfd_cloexec : Cmd
  setfd : Cmd
  setown : Cmd
  setsig : Cmd
  setlease : Cmd
  notify : Cmd
  setpipe_sz : Cmd
  getfd : Cmd
  getown : Cmd
  getsig : Cmd
  getlease : Cmd
  getpipe_sz : Cmd
  setlk : Cmd
  setlkw : Cmd
  getlk : Cmd
  getown_ex : Cmd
  setown_ex : Cmd
  other_cmd : Cmd

-- How fcntl passes such a command on: with the argument, without one, or after it has read the
-- argument from a list of arguments that it had ended, which is undefined.
pub data Passes : Type 0 where
  with_argument : Passes
  without_argument : Passes
  undefined : Passes

unfoldable pub fcntl_passes : Cmd → Passes
fcntl_passes dupfd = with_argument
fcntl_passes dupfd_cloexec = with_argument
fcntl_passes setfd = with_argument
fcntl_passes setown = with_argument
fcntl_passes setsig = with_argument
fcntl_passes setlease = with_argument
fcntl_passes notify = with_argument
fcntl_passes setpipe_sz = with_argument
fcntl_passes getfd = without_argument
fcntl_passes getown = without_argument
fcntl_passes getsig = without_argument
fcntl_passes getlease = without_argument
fcntl_passes getpipe_sz = without_argument
fcntl_passes setlk = undefined
fcntl_passes setlkw = undefined
fcntl_passes getlk = undefined
fcntl_passes getown_ex = undefined
fcntl_passes setown_ex = undefined
fcntl_passes other_cmd = without_argument
