-- ===== src/Net/Socket/Connect.antt =====
-- How Socket::connect and Socket::accept end.
use lo_netfw.Base.{
  ℕ, ◌≡◌, refl, ap, ◌∙◌, Bool, true, false, List, ◌∷◌, Option, none, some, ==_iff, Bool-cases, inl,
  inr, if◌then◌else◌,
}
use lo_netfw.Base.Int.{ℤ}
use lo_netfw.Net.Socket.{
  Socket, System, Done, create, init_socket, is_valid, is_some, opened, new_socket, accept,
  accept_on, ready, connect, connected, connect_as, connect_ready, family_of, is_open_socket,
  remember,
}
use lo_netfw.Net.Socket.Owned.{with_fd, Tracks}
use lo_netfw.Net.Socket.Life.{
  Holds, invalid, idle, ready-Holds, closed, moved, owned-connect_as, owned-init_socket,
  remember-Holds, remember-Same,
}

module _ {S : Type 0} (sys : System S) where
  opened-family : (o : Option ℕ) (s : Socket) (w : S) → (opened sys o s w).socket.family ≡ s.family
  opened-family none s w = refl
  opened-family (some n) s w = refl

  ready-family : (s : Socket) (w : S) → (ready sys s w).socket.family ≡ s.family
  unfolding new_socket
  ready-family s w = elim (Bool-cases (is_valid s)) [
    | inl e ↦ rw e refl
    | inr e ↦ rw e (
        opened-family (sys.socket s.family s.kind s.protocol w).0 s
          (sys.socket s.family s.kind s.protocol w).1)
  ]

module _ {S : Type 0} (sys : System S) (t : Tracks sys) (rest : List ℕ) where
  -- What connect or init leaves, by its answer: a connected socket, or one that is closed.
  abbrev pub Ends : Bool → Socket → S → Type 0
  Ends true s w = (s.is_connected ≡ true) × (is_valid s ≡ true) × Holds t.owned rest s w
  Ends false s w = (s.sockfd ≡ none) × (s.is_connected ≡ false) × (t.owned w ≡ rest)

  linked :
      (s : Socket) (w : S)
      → s.is_connected ≡ true
      → is_valid s ≡ true
      → t.owned w ≡ with_fd s.sockfd rest
      → Ends true (remember sys s w) w
  linked s w c v e =
      let (f', c') = remember-Same sys s w in
      (
        c' ∙ c,
        ap is_some f' ∙ v,
        remember-Holds sys t rest s w (record { has_fd = λ x. v; opens = e }),
      )

  -- Under the same laws of the system, for a Socket that is connected only while it has a
  -- descriptor, a connect to an address of its family gives true with the socket connected, a
  -- descriptor still its own, or false with the socket closed and its descriptor given back, also
  -- one that it had before.
  pub connect-Ends :
      (addr : List ℕ) (timeout : ℤ) (s : Socket) (w : S)
      → Holds t.owned rest s w
      → s.family ≡ family_of addr
      → let d = connect sys addr timeout s w in Ends d.answer d.socket d.system
  unfolding connect
  connect-Ends addr timeout s w h same =
      of (ready sys s w) (ready-Holds sys t rest s w h) (ready-family sys s w ∙ same)
    where
      EndsIn : Done S Bool → Type 0
      EndsIn d = Ends d.answer d.socket d.system

      ended :
          (b : Bool) (s' : Socket) (w' : S)
          → is_valid s' ≡ true
          → Holds t.owned rest s' w'
          → EndsIn (connected sys (b, w') s')
      ended true s' w' v h' = linked (record s' { is_connected = true }) w' refl v h'.opens
      ended false s' w' v h' = closed sys t rest s' w' h'

      of :
          (d : Done S (Unit {0}))
          → Holds t.owned rest d.socket d.system
          → d.socket.family ≡ family_of addr
          → EndsIn (connect_ready sys addr timeout d.socket d.system)
      of d h' f = elim (Bool-cases (is_valid d.socket)) [
        | inr e ↦
            let none_open = invalid d.socket e in
            rw e (
              none_open,
              idle sys t rest d.socket d.system h' e,
              h'.opens ∙ ap (λ o. with_fd o rest) none_open,
            )
        | inl e ↦
            rw (e, (==_iff d.socket.family (family_of addr)).1 f)
              (ended (connect_as sys timeout d.socket.sockfd addr d.system).0 d.socket
                (connect_as sys timeout d.socket.sockfd addr d.system).1 e
                (moved sys t rest d.socket d.system _ h'
                  (owned-connect_as sys t rest timeout _ addr _)))
      ]

module _ {S : Type 0} (sys : System S) (t : Tracks sys) where
  -- What accept leaves for what the system's accept gives: a connected socket with the descriptor
  -- where the table knows it as an open socket, and else no socket, with the descriptor left open.
  abbrev pub Accepts : Socket → S → Option ℕ → S → Option Socket → S → Type 0
  Accepts s w none w' o w'' = (o ≡ none) × (t.owned w'' ≡ t.owned w)
  Accepts s w (some n) w' o w'' =
      if is_open_socket (sys.get_fd (some n) w')
      then ((s' : Socket) × (o ≡ some s')
          × (s'.sockfd ≡ some n)
          × Ends sys t (t.owned w) true s' w'')
      else (o ≡ none) × (t.owned w'' ≡ n ∷ t.owned w)

  -- Under the same laws, accept gives no socket where the system gives no descriptor; a connected
  -- Socket with the descriptor where the table knows that as an open socket; and else no socket,
  -- with the descriptor left open.
  pub accept-Accepts :
      (s : Socket) (w : S)
      → let (o, w') = sys.accept s.sockfd w in
        let (o', w'') = accept sys s w in Accepts s w o w' o' w''
  unfolding accept
  accept-Accepts s w =
      of (sys.accept s.sockfd w).0 (sys.accept s.sockfd w).1 (t.owned-accept s.sockfd w)
    where
      of :
          (o : Option ℕ) (w' : S)
          → t.owned w' ≡ with_fd o (t.owned w)
          → Accepts s w o w' (accept_on sys s o w').0 (accept_on sys s o w').1
      of none w' e = (refl, e)
      of (some n) w' e = elim (Bool-cases (is_open_socket (sys.get_fd (some n) w'))) [
        | inl g ↦
            let s' = record (create s.family s.kind s.protocol) {
              sockfd = some n;
              is_connected = true;
            } in
            let w'' = init_socket sys s' w' in
            rw g (
              remember sys s' w'',
              refl,
              (remember-Same sys s' w'').0,
              linked sys t (t.owned w) s' w'' refl refl
                  (owned-init_socket sys t (t.owned w) s' w' ∙ e),
            )
        | inr g ↦ rw g (refl, e)
      ]
