-- ===== src/Net/Socket/Runs.antt =====
-- Any sequence of calls on one Socket.
use lo_netfw.Base.{ℕ, ◌≡◌, refl, List, [], ◌∷◌, Bool-cases, inl, inr}
use lo_netfw.Base.Int.{ℤ}
use lo_netfw.Net.Socket.{
  Socket, System, SockOpt, OptValue, set_option, create, is_valid, get_local_address,
  get_peer_address, bind, close, connect, listen, get_error,
}
use lo_netfw.Net.Socket.Owned.{Tracks}
use lo_netfw.Net.Socket.Life.{
  Holds, local-Holds, peer-Holds, moved, closed, close-Holds, bind-Holds, connect-Holds,
}

-- The calls of one Socket. setSendTimeout, setRecvTimeout and getOption are set_opt and error_call.
pub data Action : Type 0 where
  bind_call : List ℕ → Action
  connect_call : List ℕ → ℤ → Action
  listen_call : ℕ → Action
  close_call : Action
  set_opt : SockOpt → OptValue → Action
  error_call : Action
  local_call : Action
  peer_call : Action

module _ {S : Type 0} (sys : System S) where
  abbrev pub act : Action → Socket → S → Socket × S
  act (bind_call addr) s w = let d = bind sys addr s w in (d.socket, d.system)
  act (connect_call addr timeout) s w = let d = connect sys addr timeout s w in (d.socket, d.system)
  act (listen_call b) s w = (s, (listen sys b s w).1)
  act close_call s w = let d = close sys s w in (d.socket, d.system)
  act (set_opt o v) s w = (s, (set_option sys o v s w).1)
  act error_call s w = (s, (get_error sys s w).1)
  act local_call s w = ((get_local_address sys s w).1, w)
  act peer_call s w = ((get_peer_address sys s w).1, w)

  abbrev pub act_all : List Action → Socket → S → Socket × S
  act_all [] s w = (s, w)
  act_all (a ∷ more) s w = act_all more (act a s w).0 (act a s w).1

module _ {S : Type 0} (sys : System S) (t : Tracks sys) (rest : List ℕ) where
  listen-Holds :
      (b : ℕ) (s : Socket) (w : S)
      → Holds t.owned rest s w
      → Holds t.owned rest s (listen sys b s w).1
  unfolding listen
  listen-Holds b s w h = elim (Bool-cases (is_valid s)) [
    | inl e ↦ rw e (moved sys t rest s w _ h (t.owned-listen s.sockfd b w))
    | inr e ↦ rw e h
  ]

  act-Holds :
      (a : Action) (s : Socket) (w : S)
      → Holds t.owned rest s w
      → Holds t.owned rest (act sys a s w).0 (act sys a s w).1
  unfolding get_error
  act-Holds (bind_call addr) s w h = bind-Holds sys t rest addr s w h
  act-Holds (connect_call addr timeout) s w h = connect-Holds sys t rest addr timeout s w h
  act-Holds (listen_call b) s w h = listen-Holds b s w h
  act-Holds close_call s w h = close-Holds sys t rest s w h
  act-Holds (set_opt o v) s w h = moved sys t rest s w _ h (t.owned-setsockopt _ o v w)
  act-Holds error_call s w h = moved sys t rest s w _ h (t.owned-getsockopt _ _ w)
  act-Holds local_call s w h = local-Holds sys t rest s w h
  act-Holds peer_call s w h = peer-Holds sys t rest s w h

  all-Holds :
      (calls : List Action) (s : Socket) (w : S)
      → Holds t.owned rest s w
      → Holds t.owned rest (act_all sys calls s w).0 (act_all sys calls s w).1
  all-Holds [] s w h = h
  all-Holds (a ∷ more) s w h = all-Holds more _ _ (act-Holds a s w h)

-- Where socket and accept add the descriptor that they give to those that are open, close takes
-- one out and no other call changes them: after any calls of bind, connect, listen, close,
-- setOption, getError, getLocalAddress and getPeerAddress on a new Socket it is connected only
-- while it has a descriptor, the process has open that descriptor and what it had before, and
-- closing the socket leaves just the latter open.
pub act_all-Holds :
    {S : Type 0} (sys : System S) (t : Tracks sys) (calls : List Action) (family kind protocol : ℕ)
    (w : S)
    → let (s, w') = act_all sys calls (create family kind protocol) w in
      Holds t.owned (t.owned w) s w' × (t.owned (close sys s w').system ≡ t.owned w)
unfolding create
act_all-Holds sys t calls family kind protocol w =
    let h =
      all-Holds sys t (t.owned w) calls (create family kind protocol) w
        (record { has_fd = λ e. absurd (cc e); opens = refl }) in
    (h, (closed sys t (t.owned w) _ _ h).2)
