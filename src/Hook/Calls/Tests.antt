-- ===== src/Hook/Calls/Tests.antt =====
-- Runs of the theorems about the hooked calls on a table with a socket at descriptor 2, and a system
-- that keeps one word of flags.
use lo_netfw.Base.{
  ℕ, zero, suc, ◌+◌, ◌*◌, ◌^◌, ◌<◌, ◌↔◌, ◌≡◌, refl, sym, ap, arith, true, false, List, [], ◌∷◌,
  ◌++◌, Option, none, some,
}
use lo_netfw.Base.Int.{ℤ, pos, negsuc}
use lo_netfw.Hook.Fd.{Fd, FdManager, lookup, is_close}
use lo_netfw.Hook.Io.{Hooked, Step, Waiter, eintr, eagain, io_loop, io}
use lo_netfw.Hook.Io.Answer.{Explains, io_loop-Explains}
use lo_netfw.Hook.Calls.{is_plain, Flags, System, fcntl_setfl, sleep}
use lo_netfw.Hook.Calls.Nonblock.{
  Answers, Documented, Set, fcntl_setfl-Set, io-fcntl_setfl, sleep_exact,
}
use lo_netfw.Scheduler.Io.Defs.{read, EpollCtl, create}
use lo_netfw.Scheduler.Timer.Defs.{Manager}
use lo_netfw.Hook.Fd.Table as Table

abbrev socket_two : Fd
socket_two = record {
  fd = 2;
  is_init = true;
  is_socket = true;
  is_sys_nonblock = true;
  is_user_nonblock = false;
  is_closed = false;
  recv_timeout = pos 30;
  send_timeout = negsuc 0;
}

abbrev table : FdManager
table = record { fds = none ∷ none ∷ some socket_two ∷ none ∷ []; size = 4 }

table-own : (n : ℕ) (f : Fd) → lookup table n ≡ some f → f.fd ≡ n
table-own zero f e = absurd (cc e)
table-own (suc zero) f e = absurd (cc e)
table-own (suc (suc zero)) f e = ap fd_of (sym e)
  where
    fd_of : Option Fd → ℕ
    fd_of none = 0
    fd_of (some g) = g.fd
table-own (suc (suc (suc zero))) f e = absurd (cc e)
table-own (suc (suc (suc (suc n)))) f e = absurd (cc e)

table-IsValid : Table.IsValid table
table-IsValid = record { sized = refl; room = omega arith; own = table-own }

two_hooked : is_plain (some socket_two) ≡ false
unfolding is_close
two_hooked = refl

abbrev system : System Flags
system = record {
  setfl = λ n arg s. (pos 0, arg);
  getfl = λ n s. some s;
  fionbio = λ n b s. (pos 0, record s { nonblock = b });
}

system-Documented : Documented system
system-Documented = record {
  set_get = λ n arg s fine. (arg, refl, refl);
  fionbio_get = λ n b s fine. (record s { nonblock = b }, refl, refl);
}

abbrev plain_flags : Flags
plain_flags = record { nonblock = false; others = 2 }

abbrev wanted : Flags
wanted = record { nonblock = true; others = 2 }

abbrev accepts : EpollCtl
accepts op fd events = true

abbrev reader : Waiter
reader = record { scheduler = some 1; fiber = 7; fd = 2; event = read; tinfo = 50; on_timeout = 60 }

abbrev no_timers : Manager
no_timers = record {
  heap = λ p. record { cb = none; is_loop = false; ms = 0; next = 0 };
  timers = [];
  notified = false;
  previous_time = 0;
}

abbrev hooked : Hooked
hooked = record { fds = table; ios = create; timers = no_timers; errno = 0 }

abbrev answered : ℤ → ℕ → Step
answered ret err = record {
  ret = ret;
  err = err;
  epoll_ctl = accepts;
  now = 100;
  timer = 9;
  back = λ w. record w { ios = create };
  timer_ran = false;
}

abbrev tries : List Step
tries = answered (negsuc 0) eintr ∷ answered (negsuc 0) eagain ∷ []

abbrev steps : List Step
steps = tries ++ answered (pos 5) 0 ∷ []

io_loop-Explains_example :
    Explains reader (pos 30) steps hooked (io_loop reader (pos 30) steps hooked)
io_loop-Explains_example = io_loop-Explains reader (pos 30) steps hooked

fcntl_setfl-Set_example :
    Set system system-Documented 2 table plain_flags socket_two refl two_hooked true true
      (fcntl_setfl system 2 wanted table plain_flags)
unfolding fcntl_setfl is_close
fcntl_setfl-Set_example =
    fcntl_setfl-Set system system-Documented 2 table plain_flags socket_two refl two_hooked wanted
      refl

abbrev set_up : Hooked
set_up = record hooked { fds = (fcntl_setfl system 2 wanted table plain_flags).fds }

io-fcntl_setfl_example :
    Answers true true reader (pos 30) steps set_up (io true reader steps set_up)
unfolding fcntl_setfl is_close
io-fcntl_setfl_example =
    io-fcntl_setfl system system-Documented true reader steps hooked plain_flags socket_two wanted
      refl refl refl

sleep_exact_example :
    (((sleep 1000 9 5 60 no_timers).heap 9).next ≡ 1000 + 5 * 1000) ↔ (5 * 1000 < 2 ^ 32)
sleep_exact_example = sleep_exact 1000 9 5 60 no_timers (omega arith)
