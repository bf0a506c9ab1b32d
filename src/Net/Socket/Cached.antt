-- ===== src/Net/Socket/Cached.antt =====
-- The peer address that a Socket remembers, across close and connect.
use lo_netfw.Base.{
  ℕ, ◌≡◌, ap, ◌∙◌, Bool, true, false, not, ◌&&◌, List, Option, none, some, ◌==◌, Bool-cases, inl,
  inr,
}
use lo_netfw.Base.Int.{ℤ}
use lo_netfw.Net.Socket.{
  Socket, System, Done, is_valid, opened, new_socket, found_local, local_or, get_local_address,
  peer_or, get_peer_address, remember, ready, close, connect, connected, connect_as, connect_ready,
  family_of,
}

module _ {S : Type 0} (sys : System S) (a : List ℕ) where
  abbrev HasPeer : Socket → Type 0
  HasPeer s = s.peer_addr ≡ some a

  local-HasPeer : (s : Socket) (w : S) → HasPeer s → HasPeer (get_local_address sys s w).1
  unfolding get_local_address
  local-HasPeer s w h = of s.local_addr
    where
      found : (o : Option (List ℕ)) → HasPeer (found_local sys s o).1
      found none = h
      found (some b) = h

      of : (o : Option (List ℕ)) → HasPeer (local_or sys s w o).1
      of none = found _
      of (some b) = h

  get_peer_address_kept : (s : Socket) (w : S) → HasPeer s → get_peer_address sys s w ≡ (a, s)
  unfolding get_peer_address
  get_peer_address_kept s w h = ap (peer_or sys s w) h

  remember-HasPeer : (s : Socket) (w : S) → HasPeer s → HasPeer (remember sys s w)
  unfolding remember
  remember-HasPeer s w h =
      let h' = local-HasPeer s w h in
      ap (λ r. r.1.peer_addr) (get_peer_address_kept (get_local_address sys s w).1 w h') ∙ h'

  close-HasPeer : (s : Socket) (w : S) → HasPeer s → HasPeer (close sys s w).socket
  unfolding close
  close-HasPeer s w h = elim (Bool-cases (not s.is_connected && not (is_valid s))) [
    | inl e ↦ rw e h
    | inr e ↦ rw e h
  ]

  ready-HasPeer : (s : Socket) (w : S) → HasPeer s → HasPeer (ready sys s w).socket
  unfolding new_socket
  ready-HasPeer s w h = elim (Bool-cases (is_valid s)) [
    | inl e ↦ rw e h
    | inr e ↦ rw e (
        made (sys.socket s.family s.kind s.protocol w).0
          (sys.socket s.family s.kind s.protocol w).1)
  ]
    where
      made : (o : Option ℕ) (w' : S) → HasPeer (opened sys o s w').socket
      made none w' = h
      made (some n) w' = h

  connect-HasPeer :
      (addr : List ℕ) (timeout : ℤ) (s : Socket) (w : S)
      → HasPeer s
      → HasPeer (connect sys addr timeout s w).socket
  unfolding connect
  connect-HasPeer addr timeout s w h = of (ready sys s w) (ready-HasPeer s w h)
    where
      ended :
          (b : Bool) (s' : Socket) (w' : S) → HasPeer s' → HasPeer (connected sys (b, w') s').socket
      ended true s' w' h' = remember-HasPeer (record s' { is_connected = true }) w' h'
      ended false s' w' h' = close-HasPeer s' w' h'

      of :
          (d : Done S (Unit {0}))
          → HasPeer d.socket
          → HasPeer (connect_ready sys addr timeout d.socket d.system).socket
      of d h' = elim (Bool-cases (is_valid d.socket)) [
        | inr e ↦ rw e h'
        | inl e ↦ elim (Bool-cases (d.socket.family == family_of addr)) [
          | inr f ↦ rw (e, f) h'
          | inl f ↦
              rw (e, f)
                (ended (connect_as sys timeout d.socket.sockfd addr d.system).0 d.socket
                  (connect_as sys timeout d.socket.sockfd addr d.system).1 h')
        ]
      ]

  -- A Socket that remembers a peer, is closed and connected anew, to any address and however that
  -- ends, still gives the old peer for getPeerAddress, and asks the system for no other.
  pub reconnect_peer :
      (addr : List ℕ) (timeout : ℤ) (s : Socket) (w w' : S)
      → s.peer_addr ≡ some a
      → let d = close sys s w in
        let d' = connect sys addr timeout d.socket d.system in
        get_peer_address sys d'.socket w' ≡ (a, d'.socket)
  reconnect_peer addr timeout s w w' h =
      get_peer_address_kept (connect sys addr timeout _ _).socket w'
        (connect-HasPeer addr timeout _ _ (close-HasPeer s w h))
