-- ===== src/Hook/Fd.antt =====
-- The classes Fd and FdManager of hook/fd.h and hook/fd.cpp, in the build for Linux. What the system
-- answers about a descriptor is an argument. A descriptor is not negative. The calls of FdManager run
-- under its lock, and here one after the other.
pub mod Table
pub mod Laws
use lo_netfw.Base.{
  ℕ, ◌+◌, ◌-◌, ◌*◌, ◌/◌, Bool, true, false, not, ◌||◌, List, [], ◌∷◌, ◌++◌, Option, none, some,
  length, get_elem?, set, take, replicate, ltb, leb, if◌then◌else◌,
}
use lo_netfw.Base.Int.{ℤ, pos, negsuc}
use lo_netfw.Scheduler.Io.Defs.{Event, read, write}

pub record Fd : Type 0 where
  pub fd : ℕ
  pub is_init : Bool
  pub is_socket : Bool
  pub is_sys_nonblock : Bool
  pub is_user_nonblock : Bool
  pub is_closed : Bool
  pub recv_timeout : ℤ
  pub send_timeout : ℤ

-- `fstat`: `none` for -1, else whether the descriptor is a socket.
abbrev pub Fstat : Type 0
Fstat = ℕ → Option Bool

-- Fd::Fd, before init.
abbrev pub blank : ℕ → Fd
blank n = record {
  fd = n;
  is_init = false;
  is_socket = false;
  is_sys_nonblock = false;
  is_user_nonblock = false;
  is_closed = true;
  recv_timeout = negsuc 0;
  send_timeout = negsuc 0;
}

abbrev pub opened : Fd → Option Bool → Fd
opened f none = record f {
  is_init = false;
  is_socket = false;
  recv_timeout = negsuc 0;
  send_timeout = negsuc 0;
}
opened f (some is_socket) = record f {
  is_init = true;
  is_socket = is_socket;
  is_sys_nonblock = is_socket;
  is_user_nonblock = false;
  is_closed = false;
  recv_timeout = negsuc 0;
  send_timeout = negsuc 0;
}

-- Fd::init: the object after it, whose `is_init` is the result. For a socket O_NONBLOCK is set in the
-- system where it was not.
unfoldable pub init : Fstat → Fd → Fd
init fstat f = if f.is_init then f else opened f (fstat f.fd)

-- Fd::Fd
unfoldable pub create : Fstat → ℕ → Fd
unfolding init
create fstat n = init fstat (blank n)

unfoldable pub is_open : Fd → Bool
is_open f = not f.is_closed

unfoldable pub is_close : Fd → Bool
is_close f = f.is_closed

unfoldable pub set_sys_nonblock : Bool → Fd → Fd
set_sys_nonblock b f = record f { is_sys_nonblock = b }

unfoldable pub set_user_nonblock : Bool → Fd → Fd
set_user_nonblock b f = record f { is_user_nonblock = b }

-- Fd::setTimeout and Fd::getTimeout; `none` is a type that is neither READ nor WRITE.
unfoldable pub set_timeout : Option Event → ℤ → Fd → Fd
set_timeout (some read) t f = record f { recv_timeout = t }
set_timeout (some write) t f = record f { send_timeout = t }
set_timeout none t f = f

unfoldable pub get_timeout : Option Event → Fd → ℤ
get_timeout (some read) f = f.recv_timeout
get_timeout (some write) f = f.send_timeout
get_timeout none f = pos 0

-- An empty pointer is `none`.
pub record FdManager : Type 0 where
  pub fds : List (Option Fd)
  pub size : ℕ

-- A call returns, or uses an index that is out of range.
pub data Outcome (A : Type 0) : Type 0 where
  ok : A → FdManager → Outcome A
  fault : Outcome A

-- FdManager::FdManager
unfoldable pub manager : ℕ → FdManager
manager size = record { fds = replicate size none; size = size }

-- `m_fds[fd]` in range.
abbrev pub flat : Option (Option Fd) → Option Fd
flat none = none
flat (some o) = o

abbrev pub lookup : FdManager → ℕ → Option Fd
lookup m n = flat (get_elem? m.fds n)

abbrev pub is_set {ℓ} : {A : Type ℓ} → Option A → Bool
is_set none = false
is_set (some a) = true

-- `m_fds.resize(fd * 1.5); m_size = m_fds.size();` where the descriptor has no place.
abbrev pub grown : ℕ → FdManager → FdManager
grown n m =
    let fds = take (n * 3 / 2) m.fds ++ replicate (n * 3 / 2 - length m.fds) none in
    if leb (length m.fds) n then record { fds = fds; size = length fds } else m

-- The part of FdManager::get under the write lock.
unfoldable pub insert_new : Fstat → ℕ → FdManager → Outcome (Option Fd)
unfolding create
insert_new fstat n m =
    let new_fd = some (create fstat n) in
    let m' = grown n m in
    if ltb n (length m'.fds) then ok new_fd (record m' { fds = set m'.fds n new_fd }) else fault

-- FdManager::get
unfoldable pub get : Fstat → ℕ → Bool → FdManager → Outcome (Option Fd)
unfolding insert_new
get fstat n auto_create m =
    let new = insert_new fstat n m in
    if leb m.size n
    then if not auto_create then ok none m else new
    else if is_set (lookup m n) || not auto_create
    then ok (lookup m n) m
    else new

-- FdManager::del
unfoldable pub del : ℕ → FdManager → FdManager
del n m = if leb m.size n then m else record m { fds = set m.fds n none }

-- FdManager::size
abbrev pub count_set : List (Option Fd) → ℕ
count_set [] = 0
count_set (none ∷ fs) = count_set fs
count_set (some f ∷ fs) = 1 + count_set fs

unfoldable pub size : FdManager → ℕ
size m = count_set m.fds
