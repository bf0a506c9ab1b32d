-- ===== src/Server.antt =====
-- The class TcpServer of server/tcpserver.cpp. A socket, an address and a client are numbers; what the
-- sockets answer is an argument. `accepts` are the tasks handed to the scheduler that accepts.
pub mod Bind
pub mod Life
mod Tests
use lo_netfw.Base.{
  ℕ, Bool, true, false, not, ◌&&◌, List, [], ◌∷◌, ◌++◌, map, Option, none, some, if◌then◌else◌,
}

-- A task for the scheduler that accepts: startAccept for a socket, or the closing of all sockets.
pub data AcceptTask : Type 0 where
  start_accept : ℕ → AcceptTask
  close_all : AcceptTask

pub record TcpServer : Type 0 where
  pub is_stop : Bool
  pub sockets : List ℕ
  pub client_timeout : ℕ
  pub accepts : List AcceptTask

-- TcpServer::TcpServer
unfoldable pub create : ℕ → TcpServer
create client_timeout = record {
  is_stop = true;
  sockets = [];
  client_timeout = client_timeout;
  accepts = [];
}

-- An address of a list that is to be bound, the socket that is made for it, and whether that can then
-- be bound and can listen.
pub record Attempt : Type 0 where
  pub addr : ℕ
  pub socket : ℕ
  pub binds : Bool
  pub listens : Bool

pub record Bound : Type 0 where
  pub server : TcpServer
  pub failed : List ℕ

-- The loop of bind.
abbrev pub bind_each : List Attempt → Bound → Bound
bind_each [] b = b
bind_each (a ∷ attempts) b =
    let failed = bind_each attempts (record b { failed = b.failed ++ a.addr ∷ [] }) in
    let s = b.server in
    let bound =
      bind_each attempts
        (record b { server = record s { sockets = s.sockets ++ a.socket ∷ [] } }) in
    if not a.binds then failed else if not a.listens then failed else bound

abbrev pub is_none {ℓ} : {A : Type ℓ} → List A → Bool
is_none [] = true
is_none (x ∷ xs) = false

-- What bind gives: the result, the server, and the addresses that failed.
abbrev pub finish_bind : Bound → Bool × Bound
finish_bind b =
    let s = b.server in
    if not (is_none b.failed)
    then (false, record b { server = record s { sockets = [] } })
    else (true, b)

-- TcpServer::bind of a list of addresses; `failed` is what the caller's list holds.
unfoldable pub bind : List Attempt → List ℕ → TcpServer → Bool × Bound
bind attempts failed s = finish_bind (bind_each attempts (record { server = s; failed = failed }))

-- TcpServer::bind of one address
unfoldable pub bind_one : Attempt → TcpServer → Bool × Bound
unfolding bind
bind_one a s = bind (a ∷ []) [] s

-- TcpServer::start
unfoldable pub start : TcpServer → TcpServer
start s =
    if not s.is_stop
    then s
    else record s { is_stop = false; accepts = s.accepts ++ map start_accept s.sockets }

-- TcpServer::stop, and the task that it schedules
unfoldable pub stop : TcpServer → TcpServer
stop s = if s.is_stop then s else record s { is_stop = true; accepts = s.accepts ++ close_all ∷ [] }

unfoldable pub run_close_all : TcpServer → TcpServer
run_close_all s = record s { sockets = [] }

-- One round of startAccept: whether the server is stopped when the round starts, what accept then
-- gives, and the timeout of the server once it has.
pub record Accept : Type 0 where
  pub stopped : Bool
  pub client : Option ℕ
  pub timeout : ℕ

-- A client with the timeout that it is given, when accept gives one.
abbrev pub handle_client : Accept → Option ℕ → List (ℕ × ℕ) → List (ℕ × ℕ)
handle_client a none handled = handled
handle_client a (some client) handled = handled ++ (client, a.timeout) ∷ []

-- TcpServer::startAccept: the clients that are handed to the scheduler, and whether the loop ended.
unfoldable pub start_accepting : List Accept → List (ℕ × ℕ) → Bool × List (ℕ × ℕ)
start_accepting [] handled = (false, handled)
start_accepting (a ∷ rounds) handled =
    let rest = start_accepting rounds (handle_client a a.client handled) in
    if a.stopped then (true, handled) else rest
