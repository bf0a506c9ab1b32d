-- ===== src/Net/Socket/Tests.antt =====
-- Runs of the theorems about Socket, on a host that numbers its descriptors from 3, connects to short
-- addresses only, and answers every getpeername in the same way.
use lo_netfw.Base.{
  ℕ, ◌+◌, ◌≡◌, ◌≢◌, refl, arith, true, false, List, [], ◌∷◌, Option, none, some, length, ltb,
}
use lo_netfw.Base.Int.{pos, negsuc}
use lo_netfw.Hook.Fd.{Fd, FdManager, lookup}
use lo_netfw.Hook.Calls.{setsockopt}
use lo_netfw.Scheduler.Io.Defs.{read, write}
use lo_netfw.Net.Socket.{
  Socket, System, SockOpt, timeo, OptValue, timeval, create, close, connect, accept,
  get_peer_address,
}
use lo_netfw.Net.Socket.Owned.{Tracks, without}
use lo_netfw.Net.Socket.Life.{Holds}
use lo_netfw.Net.Socket.Connect.{Ends, connect-Ends, accept-Accepts}
use lo_netfw.Net.Socket.Runs.{Action, bind_call, connect_call, peer_call, act_all, act_all-Holds}
use lo_netfw.Net.Socket.Cached.{reconnect_peer}
use lo_netfw.Net.Socket.Timeout.{IsHooked, set_for, get_for, get_for-set_for}

record Host : Type 0 where
  open_fds : List ℕ
  next : ℕ
  table : FdManager

abbrev next_fd : Host → Option ℕ × Host
next_fd w = (some w.next, record w { open_fds = w.next ∷ w.open_fds; next = w.next + 1 })

abbrev changed : Option ℕ → SockOpt → OptValue → FdManager → FdManager
changed (some n) (timeo o) (timeval (pos sec) (pos usec)) m = setsockopt true n o sec usec m
changed n o v m = m

abbrev found : Option ℕ → FdManager → Option Fd
found none m = none
found (some n) m = lookup m n

abbrev host : System Host
host = record {
  socket = λ f k p w. next_fd w;
  bind = λ n a w. (true, w);
  connect = λ n a w. (ltb (length a) 5, w);
  connect_with_timeout = λ n a t w. (ltb (length a) 5, w);
  listen = λ n b w. (true, w);
  accept = λ n w. next_fd w;
  close = λ n w. record w { open_fds = without n w.open_fds };
  setsockopt = λ n o v w. (true, record w { table = changed n o v w.table });
  getsockopt = λ n o w. (some (pos 0), w);
  getsockname = λ n k w. some (2 ∷ 0 ∷ 1 ∷ []);
  getpeername = λ n k w. some (2 ∷ 0 ∷ 7 ∷ []);
  get_fd = λ n w. found n w.table;
}

abbrev tracks : Tracks host
tracks = record {
  owned = λ w. w.open_fds;
  owned-socket = λ f k p w. refl;
  owned-accept = λ n w. refl;
  owned-close = λ n w. refl;
  owned-bind = λ n a w. refl;
  owned-connect = λ n a w. refl;
  owned-connect_with_timeout = λ n a t w. refl;
  owned-listen = λ n b w. refl;
  owned-setsockopt = λ n o v w. refl;
  owned-getsockopt = λ n o w. refl;
}

abbrev hooked : IsHooked host (λ w. w.table)
hooked = record { finds = λ n w. refl; changes = λ n o sec usec w. refl }

abbrev a_socket : Fd
a_socket = record {
  fd = 0;
  is_init = true;
  is_socket = true;
  is_sys_nonblock = true;
  is_user_nonblock = false;
  is_closed = false;
  recv_timeout = negsuc 0;
  send_timeout = negsuc 0;
}

-- Descriptor 0 is in the table, and no other.
abbrev started : Host
started = record {
  open_fds = 0 ∷ [];
  next = 3;
  table = record { fds = some a_socket ∷ none ∷ []; size = 2 };
}

abbrev tcp : Socket
tcp = record {
  sockfd = none;
  family = 2;
  kind = 1;
  protocol = 0;
  is_connected = false;
  local_addr = none;
  peer_addr = none;
}

abbrev near : List ℕ
near = 2 ∷ 0 ∷ 7 ∷ []

abbrev far : List ℕ
far = 2 ∷ 0 ∷ 7 ∷ 7 ∷ 7 ∷ 7 ∷ []

connect_runs : (connect host near (negsuc 0) tcp started).answer ≡ true
unfolding connect
connect_runs = refl

connect_fails : (connect host far (pos 9) tcp started).system.open_fds ≡ 0 ∷ []
unfolding connect
connect_fails = refl

abbrev three_calls : List Action
three_calls =
    connect_call near (negsuc 0) ∷ peer_call ∷ connect_call far (pos 9) ∷ bind_call near ∷ []

act_all-Holds_example :
    let (s, w) = act_all host three_calls (create 2 1 0) started in
    Holds tracks.owned (0 ∷ []) s w × ((close host s w).system.open_fds ≡ 0 ∷ [])
act_all-Holds_example = act_all-Holds host tracks three_calls 2 1 0 started

connect-Ends_example :
    let d = connect host far (pos 9) tcp started in
    Ends host tracks (0 ∷ []) d.answer d.socket d.system
connect-Ends_example =
    connect-Ends host tracks (0 ∷ []) far (pos 9) tcp started
      (record { has_fd = λ e. absurd (cc e); opens = refl }) refl

-- Descriptor 3 is not in the table, so it is left open.
accept-Accepts_example :
    ((accept host tcp started).0 ≡ none) × ((accept host tcp started).1.open_fds ≡ 3 ∷ 0 ∷ [])
accept-Accepts_example = accept-Accepts host tracks tcp started

reconnect_peer_example :
    let s : Socket = record tcp { sockfd = some 3; is_connected = true; peer_addr = some far } in
    let d = close host s started in
    let d' = connect host near (negsuc 0) d.socket d.system in
    get_peer_address host d'.socket started ≡ (far, d'.socket)
reconnect_peer_example =
    reconnect_peer host far near (negsuc 0)
      (record tcp { sockfd = some 3; is_connected = true; peer_addr = some far }) started started
      refl

abbrev one : ℕ
one = 1

one_zero : one ≢ 0
one_zero e = absurd (omega arith)

read_write : write ≢ read
read_write e = cc e

get_for-set_for_example :
    let s : Socket = record tcp { sockfd = some 0 } in
    let w' = set_for host write (pos 2500) s started in
    (get_for host write s w' ≡ pos 2500)
    × (get_for host read s w' ≡ get_for host read s started)
    × (lookup w'.table 1 ≡ lookup started.table 1)
get_for-set_for_example =
    get_for-set_for host (λ w. w.table) hooked 0 a_socket (record tcp { sockfd = some 0 }) refl
      write read 2500 1 started refl read_write one_zero
