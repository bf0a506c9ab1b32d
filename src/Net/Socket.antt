-- ===== src/Net/Socket.antt =====
-- The class Socket of net/socket.h and net/socket.cpp, in the build for Linux. The calls of the system,
-- hooked or not, are the parameter `System`; an answer true stands for 0. `none` for a descriptor is -1,
-- and an address is the list of its bytes.
pub mod Owned
pub mod Life
pub mod Connect
pub mod Runs
pub mod Cached
pub mod Timeout
pub mod Transfer
pub mod Cancel
mod Tests
use lo_netfw.Base.{
  ℕ, ◌+◌, ◌-◌, ◌*◌, ◌/◌, ◌%◌, Bool, true, false, not, ◌&&◌, List, [], ◌∷◌, Option, none, some, ◌==◌,
  replicate, length, if◌then◌else◌,
}
use lo_netfw.Base.Int.{ℤ, pos, negsuc}
use lo_netfw.Hook.Fd.{Fd, is_close, get_timeout}
use lo_netfw.Hook.Calls.{Opt, rcvtimeo, sndtimeo}
use lo_netfw.Scheduler.Io.Defs.{Event, read, write}

pub record Socket : Type 0 where
  pub sockfd : Option ℕ
  pub family : ℕ
  pub kind : ℕ
  pub protocol : ℕ
  pub is_connected : Bool
  pub local_addr : Option (List ℕ)
  pub peer_addr : Option (List ℕ)

-- The options that a Socket sets by itself, and those of its callers.
pub data SockOpt : Type 0 where
  reuseaddr : SockOpt
  tcp_nodelay : SockOpt
  timeo : Opt → SockOpt
  so_error : SockOpt

-- An `int`, or a `timeval` of seconds and microseconds.
pub data OptValue : Type 0 where
  int : ℤ → OptValue
  timeval : ℤ → ℤ → OptValue

-- The system, whose state has the type `S`.
pub record System (S : Type 0) : Type 0 where
  pub socket : ℕ → ℕ → ℕ → S → Option ℕ × S
  pub bind : Option ℕ → List ℕ → S → Bool × S
  pub connect : Option ℕ → List ℕ → S → Bool × S
  pub connect_with_timeout : Option ℕ → List ℕ → ℕ → S → Bool × S
  pub listen : Option ℕ → ℕ → S → Bool × S
  pub accept : Option ℕ → S → Option ℕ × S
  pub close : ℕ → S → S
  pub setsockopt : Option ℕ → SockOpt → OptValue → S → Bool × S
  pub getsockopt : Option ℕ → SockOpt → S → Option ℤ × S
  -- The address that getsockname or getpeername leaves in a buffer of so many bytes.
  pub getsockname : Option ℕ → ℕ → S → Option (List ℕ)
  pub getpeername : Option ℕ → ℕ → S → Option (List ℕ)
  -- FDMGR.get without auto_create
  pub get_fd : Option ℕ → S → Option Fd

-- What a method gives, and leaves behind.
pub record Done (S A : Type 0) : Type 0 where
  pub answer : A
  pub socket : Socket
  pub system : S

abbrev pub done : {S A : Type 0} → A → Socket → S → Done S A
done a s w = record { answer = a; socket = s; system = w }

-- Socket::Socket
unfoldable pub create : ℕ → ℕ → ℕ → Socket
create family kind protocol = record {
  sockfd = none;
  family = family;
  kind = kind;
  protocol = protocol;
  is_connected = false;
  local_addr = none;
  peer_addr = none;
}

-- Socket::create of a family and a type: AF_UNIX, AF_INET and AF_INET6 are 1, 2 and 10, SOCK_STREAM
-- and SOCK_DGRAM are 1 and 2; a null pointer is `none`.
abbrev pub is_kind : ℕ → Bool
is_kind kind = if kind == 1 then true else kind == 2

abbrev pub is_family : ℕ → Bool
is_family family = if family == 2 then true else if family == 10 then true else family == 1

unfoldable pub create_of : ℕ → ℕ → Option Socket
unfolding create
create_of family kind =
    if is_family family && is_kind kind then some (create family kind 0) else none

-- `getAddr()->sa_family`
abbrev pub family_of : List ℕ → ℕ
family_of [] = 0
family_of (a ∷ []) = a
family_of (a ∷ b ∷ bytes) = a + 256 * b

-- Socket::create for an address and a type
unfoldable pub create_for : List ℕ → ℕ → Option Socket
unfolding create
create_for addr kind = if is_kind kind then some (create (family_of addr) kind 0) else none

abbrev pub is_some {ℓ} : {A : Type ℓ} → Option A → Bool
is_some none = false
is_some (some a) = true

-- Socket::isValid
abbrev pub is_valid : Socket → Bool
is_valid s = is_some s.sockfd

-- The UnknownAddress of a family, and `getAddrLen` of the address that a family starts with.
abbrev pub unknown_address : ℕ → List ℕ
unknown_address family = (family % 256) ∷ (family / 256 % 256) ∷ replicate 14 0

abbrev pub addr_len : ℕ → ℕ
addr_len family =
    if family == 2 then 16 else if family == 10 then 28 else if family == 1 then 109 else 16

-- `fd && fd->isSocket() && !fd->isClose()`
abbrev pub is_open_socket : Option Fd → Bool
is_open_socket none = false
is_open_socket (some f) = f.is_socket && not (is_close f)

-- A `timeval` of milliseconds, with the signs of the source's division.
abbrev pub negate : ℕ → ℤ
negate n = if n == 0 then pos 0 else negsuc (n - 1)

abbrev pub timeval_of : ℤ → OptValue
timeval_of (pos t) = timeval (pos (t / 1000)) (pos (t % 1000 * 1000))
timeval_of (negsuc t) = timeval (negate ((t + 1) / 1000)) (negate ((t + 1) % 1000 * 1000))

abbrev pub timeout_of : Event → Option Fd → ℤ
timeout_of e none = negsuc 0
timeout_of e (some f) = get_timeout (some e) f

module _ {S : Type 0} (sys : System S) where
  -- Socket::setOption and Socket::getError
  abbrev pub set_option : SockOpt → OptValue → Socket → S → Bool × S
  set_option o v s w = sys.setsockopt s.sockfd o v w

  abbrev pub error_of : Option ℤ → ℤ
  error_of none = negsuc 0
  error_of (some e) = e

  unfoldable pub get_error : Socket → S → ℤ × S
  get_error s w = let (e, w') = sys.getsockopt s.sockfd so_error w in (error_of e, w')

  -- setSendTimeout, setRecvTimeout, getSendTimeout and getRecvTimeout
  unfoldable pub set_send_timeout : ℤ → Socket → S → S
  set_send_timeout t s w = (set_option (timeo sndtimeo) (timeval_of t) s w).1

  unfoldable pub set_recv_timeout : ℤ → Socket → S → S
  set_recv_timeout t s w = (set_option (timeo rcvtimeo) (timeval_of t) s w).1

  unfoldable pub get_send_timeout : Socket → S → ℤ
  get_send_timeout s w = timeout_of write (sys.get_fd s.sockfd w)

  unfoldable pub get_recv_timeout : Socket → S → ℤ
  get_recv_timeout s w = timeout_of read (sys.get_fd s.sockfd w)

  -- Socket::initSocket
  unfoldable pub init_socket : Socket → S → S
  init_socket s w =
      let w' = (set_option reuseaddr (int (pos 1)) s w).1 in
      if s.kind == 1 then (set_option tcp_nodelay (int (pos 1)) s w').1 else w'

  -- Socket::newSocket
  abbrev pub opened : Option ℕ → Socket → S → Done S (Unit {0})
  opened none s w = done tt (record s { sockfd = none }) w
  opened (some n) s w = let s' = record s { sockfd = some n } in done tt s' (init_socket s' w)

  unfoldable pub new_socket : Socket → S → Done S (Unit {0})
  unfolding init_socket
  new_socket s w = let (o, w') = sys.socket s.family s.kind s.protocol w in opened o s w'

  -- getLocalAddress and getPeerAddress: the address, and the socket that remembers it.
  abbrev pub found_local : Socket → Option (List ℕ) → List ℕ × Socket
  found_local s none = (unknown_address s.family, s)
  found_local s (some a) = (a, record s { local_addr = some a })

  abbrev pub local_or : Socket → S → Option (List ℕ) → List ℕ × Socket
  local_or s w none = found_local s (sys.getsockname s.sockfd (addr_len s.family) w)
  local_or s w (some a) = (a, s)

  unfoldable pub get_local_address : Socket → S → List ℕ × Socket
  get_local_address s w = local_or s w s.local_addr

  abbrev pub found_peer : Socket → Option (List ℕ) → List ℕ × Socket
  found_peer s none = (unknown_address s.family, s)
  found_peer s (some a) = (a, record s { peer_addr = some a })

  abbrev pub peer_or : Socket → S → Option (List ℕ) → List ℕ × Socket
  peer_or s w none = found_peer s (sys.getpeername s.sockfd (addr_len s.family) w)
  peer_or s w (some a) = (a, s)

  unfoldable pub get_peer_address : Socket → S → List ℕ × Socket
  get_peer_address s w = peer_or s w s.peer_addr

  -- `getLocalAddress(); getPeerAddress();`
  unfoldable pub remember : Socket → S → Socket
  unfolding get_local_address get_peer_address
  remember s w = (get_peer_address (get_local_address s w).1 w).1

  -- Socket::init
  unfoldable pub init : ℕ → Socket → S → Done S Bool
  unfolding init_socket remember
  init n s w =
      let s' = record s { sockfd = some n; is_connected = true } in
      let w' = init_socket s' w in
      if is_open_socket (sys.get_fd (some n) w)
      then done true (remember s' w') w'
      else done false s w

  -- Socket::accept; the socket that fails in init goes, and closes nothing.
  abbrev pub accepted : Done S Bool → Option Socket × S
  accepted d = if d.answer then (some d.socket, d.system) else (none, d.system)

  abbrev pub accept_on : Socket → Option ℕ → S → Option Socket × S
  accept_on s none w = (none, w)
  accept_on s (some n) w = accepted (init n (create s.family s.kind s.protocol) w)

  unfoldable pub accept : Socket → S → Option Socket × S
  unfolding init create
  accept s w = let (o, w') = sys.accept s.sockfd w in accept_on s o w'

  -- `if (!isValid()) newSocket();`
  abbrev pub ready : Socket → S → Done S (Unit {0})
  ready s w = if is_valid s then done tt s w else new_socket s w

  -- Socket::bind
  abbrev pub bound : Bool × S → Socket → Done S Bool
  bound (true, w) s = done true (get_local_address s w).1 w
  bound (false, w) s = done false s w

  abbrev pub bind_ready : List ℕ → Socket → S → Done S Bool
  bind_ready addr s w =
      if not (is_valid s)
      then done false s w
      else if not (s.family == family_of addr)
      then done false s w
      else bound (sys.bind s.sockfd addr w) s

  unfoldable pub bind : List ℕ → Socket → S → Done S Bool
  unfolding new_socket get_local_address
  bind addr s w = let d = ready s w in bind_ready addr d.socket d.system

  -- Socket::close
  abbrev pub close_fd : Option ℕ → S → S
  close_fd none w = w
  close_fd (some n) w = sys.close n w

  unfoldable pub close : Socket → S → Done S Bool
  close s w =
      if not s.is_connected && not (is_valid s)
      then done true s w
      else done true (record s { sockfd = none; is_connected = false }) (close_fd s.sockfd w)

  -- Socket::connect
  abbrev pub connected : Bool × S → Socket → Done S Bool
  connected (true, w) s = done true (remember (record s { is_connected = true }) w) w
  connected (false, w) s = let d = close s w in done false d.socket d.system

  abbrev pub connect_as : ℤ → Option ℕ → List ℕ → S → Bool × S
  connect_as (negsuc t) n addr w = sys.connect n addr w
  connect_as (pos t) n addr w = sys.connect_with_timeout n addr t w

  abbrev pub connect_ready : List ℕ → ℤ → Socket → S → Done S Bool
  connect_ready addr timeout s w =
      if not (is_valid s)
      then done false s w
      else if not (s.family == family_of addr)
      then done false s w
      else connected (connect_as timeout s.sockfd addr w) s

  unfoldable pub connect : List ℕ → ℤ → Socket → S → Done S Bool
  unfolding new_socket close remember
  connect addr timeout s w = let d = ready s w in connect_ready addr timeout d.socket d.system

  -- Socket::listen
  unfoldable pub listen : ℕ → Socket → S → Bool × S
  listen backlog s w = if not (is_valid s) then (false, w) else sys.listen s.sockfd backlog w
