-- ===== src/Net/Socket/Life.antt =====
-- The life of a Socket: which descriptor it has, and when it is connected.
use lo_netfw.Base.{
  ℕ, and_parts, ◌≡◌, refl, sym, ap, ◌∙◌, Bool, true, false, not, ◌&&◌, List, Option, none, some,
  ◌==◌, ==_iff, if_true, if_false, Bool-cases, inl, inr,
}
use lo_netfw.Base.Int.{ℤ, pos, negsuc}
use lo_netfw.Net.Socket.{
  Socket, System, Done, is_valid, is_some, init_socket, opened, new_socket, found_local, local_or,
  get_local_address, found_peer, peer_or, get_peer_address, remember, ready, bind, bind_ready,
  bound, close, close_fd, connect, connected, connect_as, connect_ready, family_of,
}
use lo_netfw.Net.Socket.Owned.{with_fd, without, Tracks}

-- The socket is connected only while it has a descriptor, and the process has open that descriptor
-- and the others `rest`.
pub record Holds {S : Type 0} (owned : S → List ℕ) (rest : List ℕ) (s : Socket) (w : S)
    : Type 0 where
  pub has_fd : s.is_connected ≡ true → is_valid s ≡ true
  pub opens : owned w ≡ with_fd s.sockfd rest

not-true : (b : Bool) → not b ≡ true → b ≡ false
not-true true e = absurd (cc e)
not-true false e = refl

pub invalid : (s : Socket) → is_valid s ≡ false → s.sockfd ≡ none
invalid s = of s.sockfd
  where
    of : (o : Option ℕ) → is_some o ≡ false → o ≡ none
    of none e = refl
    of (some n) e = absurd (cc e)

-- The descriptor, and whether it is connected.
abbrev pub Same : Socket → Socket → Type 0
Same s' s = (s'.sockfd ≡ s.sockfd) × (s'.is_connected ≡ s.is_connected)

module _ {S : Type 0} (sys : System S) where
  local-Same : (s : Socket) (w : S) → Same (get_local_address sys s w).1 s
  unfolding get_local_address
  local-Same s w = of s.local_addr
    where
      found : (o : Option (List ℕ)) → Same (found_local sys s o).1 s
      found none = (refl, refl)
      found (some a) = (refl, refl)

      of : (o : Option (List ℕ)) → Same (local_or sys s w o).1 s
      of none = found _
      of (some a) = (refl, refl)

  peer-Same : (s : Socket) (w : S) → Same (get_peer_address sys s w).1 s
  unfolding get_peer_address
  peer-Same s w = of s.peer_addr
    where
      found : (o : Option (List ℕ)) → Same (found_peer sys s o).1 s
      found none = (refl, refl)
      found (some a) = (refl, refl)

      of : (o : Option (List ℕ)) → Same (peer_or sys s w o).1 s
      of none = found _
      of (some a) = (refl, refl)

  pub remember-Same : (s : Socket) (w : S) → Same (remember sys s w) s
  unfolding remember
  remember-Same s w =
      let (f, c) = local-Same s w in
      let (f', c') = peer-Same (get_local_address sys s w).1 w in (f' ∙ f, c' ∙ c)

module _ {S : Type 0} (sys : System S) (t : Tracks sys) (rest : List ℕ) where
  pub owned-init_socket : (s : Socket) (w : S) → t.owned (init_socket sys s w) ≡ t.owned w
  unfolding init_socket
  owned-init_socket s w = elim (Bool-cases (s.kind == 1)) [
    | inl e ↦ ap t.owned (if_true _ _ _ e) ∙ t.owned-setsockopt _ _ _ _ ∙ t.owned-setsockopt _ _ _ _
    | inr e ↦ ap t.owned (if_false _ _ _ e) ∙ t.owned-setsockopt _ _ _ _
  ]

  same_fd : (s s' : Socket) (w : S) → Holds t.owned rest s w → Same s' s → Holds t.owned rest s' w
  same_fd s s' w h (f, c) = record {
    has_fd = λ e. rw f (h.has_fd (sym c ∙ e));
    opens = rw f h.opens;
  }

  pub local-Holds :
      (s : Socket) (w : S)
      → Holds t.owned rest s w
      → Holds t.owned rest (get_local_address sys s w).1 w
  local-Holds s w h = same_fd s _ w h (local-Same sys s w)

  pub peer-Holds :
      (s : Socket) (w : S)
      → Holds t.owned rest s w
      → Holds t.owned rest (get_peer_address sys s w).1 w
  peer-Holds s w h = same_fd s _ w h (peer-Same sys s w)

  pub remember-Holds :
      (s : Socket) (w : S) → Holds t.owned rest s w → Holds t.owned rest (remember sys s w) w
  remember-Holds s w h = same_fd s _ w h (remember-Same sys s w)

  pub moved :
      (s : Socket) (w w' : S)
      → Holds t.owned rest s w
      → t.owned w' ≡ t.owned w
      → Holds t.owned rest s w'
  moved s w w' h e = record { has_fd = h.has_fd; opens = e ∙ h.opens }

  opened-Holds :
      (o : Option ℕ) (s : Socket) (w : S)
      → s.is_connected ≡ false
      → t.owned w ≡ with_fd o rest
      → Holds t.owned rest (opened sys o s w).socket (opened sys o s w).system
  opened-Holds none s w c e = record { has_fd = λ d. absurd (cc (c, d)); opens = e }
  opened-Holds (some n) s w c e = record {
    has_fd = λ d. refl;
    opens = owned-init_socket (record s { sockfd = some n }) w ∙ e;
  }

  pub idle :
      (s : Socket) (w : S) → Holds t.owned rest s w → is_valid s ≡ false → s.is_connected ≡ false
  idle s w h e = elim (Bool-cases s.is_connected) [
    | inl c ↦ absurd (cc (h.has_fd c, e))
    | inr c ↦ c
  ]

  pub ready-Holds :
      (s : Socket) (w : S)
      → Holds t.owned rest s w
      → Holds t.owned rest (ready sys s w).socket (ready sys s w).system
  unfolding new_socket
  ready-Holds s w h = elim (Bool-cases (is_valid s)) [
    | inl e ↦ rw e h
    | inr e ↦ rw e (
        opened-Holds (sys.socket s.family s.kind s.protocol w).0 s
          (sys.socket s.family s.kind s.protocol w).1 (idle s w h e)
          (t.owned-socket _ _ _ w
            ∙ ap (with_fd (sys.socket s.family s.kind s.protocol w).0)
                (h.opens ∙ ap (λ o. with_fd o rest) (invalid s e))))
  ]

  owned-close_fd :
      (o : Option ℕ) (w : S) → t.owned w ≡ with_fd o rest → t.owned (close_fd sys o w) ≡ rest
  owned-close_fd none w e = e
  owned-close_fd (some n) w e =
      t.owned-close n w ∙ ap (without n) e ∙ if_true _ _ _ ((==_iff n n).1 refl)

  -- What close leaves: no descriptor, no connection, and only the others open.
  pub closed :
      (s : Socket) (w : S)
      → Holds t.owned rest s w
      → ((close sys s w).socket.sockfd ≡ none)
        × ((close sys s w).socket.is_connected ≡ false)
        × (t.owned (close sys s w).system ≡ rest)
  unfolding close
  closed s w h = elim (Bool-cases (not s.is_connected && not (is_valid s))) [
    | inl e ↦
        let (c, v) = and_parts _ _ e in
        let none_open = invalid s (not-true _ v) in
        rw e (none_open, not-true _ c, h.opens ∙ ap (λ o. with_fd o rest) none_open)
    | inr e ↦ rw e (refl, refl, owned-close_fd s.sockfd w h.opens)
  ]

  pub close-Holds :
      (s : Socket) (w : S)
      → Holds t.owned rest s w
      → Holds t.owned rest (close sys s w).socket (close sys s w).system
  close-Holds s w h =
      let (f, c, o) = closed s w h in
      record { has_fd = λ e. absurd (cc (c, e)); opens = o ∙ ap (λ n. with_fd n rest) (sym f) }

  pub bind-Holds :
      (addr : List ℕ) (s : Socket) (w : S)
      → Holds t.owned rest s w
      → Holds t.owned rest (bind sys addr s w).socket (bind sys addr s w).system
  unfolding bind
  bind-Holds addr s w h = of (ready sys s w) (ready-Holds s w h)
    where
      done_of :
          (b : Bool) (s' : Socket) (w' : S)
          → Holds t.owned rest s' w'
          → Holds t.owned rest (bound sys (b, w') s').socket (bound sys (b, w') s').system
      done_of true s' w' h' = local-Holds s' w' h'
      done_of false s' w' h' = h'

      of :
          (d : Done S (Unit {0}))
          → Holds t.owned rest d.socket d.system
          → Holds t.owned rest
              (bind_ready sys addr d.socket d.system).socket
              (bind_ready sys addr d.socket d.system).system
      of d h' = elim (Bool-cases (is_valid d.socket)) [
        | inr e ↦ rw e h'
        | inl e ↦ elim (Bool-cases (d.socket.family == family_of addr)) [
          | inr f ↦ rw (e, f) h'
          | inl f ↦
              rw (e, f)
                (done_of (sys.bind d.socket.sockfd addr d.system).0 d.socket
                  (sys.bind d.socket.sockfd addr d.system).1
                  (moved d.socket d.system _ h' (t.owned-bind _ _ _)))
        ]
      ]

  connected-Holds :
      (b : Bool) (s : Socket) (w : S)
      → is_valid s ≡ true
      → Holds t.owned rest s w
      → Holds t.owned rest (connected sys (b, w) s).socket (connected sys (b, w) s).system
  connected-Holds true s w v h =
      remember-Holds (record s { is_connected = true }) w
        (record { has_fd = λ e. v; opens = h.opens })
  connected-Holds false s w v h = close-Holds s w h

  pub owned-connect_as :
      (timeout : ℤ) (n : Option ℕ) (addr : List ℕ) (w : S)
      → t.owned (connect_as sys timeout n addr w).1 ≡ t.owned w
  owned-connect_as (pos k) n addr w = t.owned-connect_with_timeout n addr k w
  owned-connect_as (negsuc k) n addr w = t.owned-connect n addr w

  pub connect-Holds :
      (addr : List ℕ) (timeout : ℤ) (s : Socket) (w : S)
      → Holds t.owned rest s w
      → Holds t.owned rest
          (connect sys addr timeout s w).socket
          (connect sys addr timeout s w).system
  unfolding connect
  connect-Holds addr timeout s w h = of (ready sys s w) (ready-Holds s w h)
    where
      of :
          (d : Done S (Unit {0}))
          → Holds t.owned rest d.socket d.system
          → Holds t.owned rest
              (connect_ready sys addr timeout d.socket d.system).socket
              (connect_ready sys addr timeout d.socket d.system).system
      of d h' = elim (Bool-cases (is_valid d.socket)) [
        | inr e ↦ rw e h'
        | inl e ↦ elim (Bool-cases (d.socket.family == family_of addr)) [
          | inr f ↦ rw (e, f) h'
          | inl f ↦
              rw (e, f)
                (connected-Holds (connect_as sys timeout d.socket.sockfd addr d.system).0 d.socket
                  (connect_as sys timeout d.socket.sockfd addr d.system).1 e
                  (moved d.socket d.system _ h' (owned-connect_as timeout _ addr _)))
        ]
      ]
