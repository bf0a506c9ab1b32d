-- ===== src/Server/Bind.antt =====
-- bind keeps the sockets of all addresses, or none.
use lo_netfw.Base.{
  ℕ, ◌≡◌, ◌≢◌, ◌⊎◌, refl, sym, ap, ◌∙◌, Bool, true, false, not, ◌&&◌, List, [], ◌∷◌, ◌++◌, map,
  Bool-cases, inl, inr, if_true, if_false, if◌then◌else◌,
}
use lo_netfw.Server.{TcpServer, Attempt, Bound, bind_each, is_none, finish_bind, bind}
use mathlib.Core.List.{append-nil, append_assoc}
use mathlib.Core.Path.{subst}

-- Whether the socket for an address can be bound and listen; the sockets that can, and the addresses
-- of the others.
abbrev pub works : Attempt → Bool
works a = a.binds && a.listens

abbrev pub good : List Attempt → List ℕ
good [] = []
good (a ∷ more) = if works a then a.socket ∷ good more else good more

abbrev pub bad : List Attempt → List ℕ
bad [] = []
bad (a ∷ more) = if works a then bad more else a.addr ∷ bad more

abbrev Sorts : List Attempt → Bound → Bound → Type 0
Sorts addrs b r =
    (r.failed ≡ b.failed ++ bad addrs) × (r.server.sockets ≡ b.server.sockets ++ good addrs)

abbrev one_failed : Attempt → Bound → Bound
one_failed addr b = record b { failed = b.failed ++ addr.addr ∷ [] }

abbrev one_bound : Attempt → Bound → Bound
one_bound addr b =
    let s = b.server in record b { server = record s { sockets = s.sockets ++ addr.socket ∷ [] } }

bind_each-bad :
    (addr : Attempt) (addrs : List Attempt) (b : Bound)
    → works addr ≡ false
    → bind_each (addr ∷ addrs) b ≡ bind_each addrs (one_failed addr b)
bind_each-bad addr addrs b e = elim (Bool-cases (addr.binds)) [
  | inl h ↦
      if_false _ _ _ (ap not h) ∙ if_true _ _ _ (ap not (sym (ap (λ x. x && addr.listens) h) ∙ e))
  | inr h ↦ if_true _ _ _ (ap not h)
]

bind_each-good :
    (addr : Attempt) (addrs : List Attempt) (b : Bound)
    → works addr ≡ true
    → bind_each (addr ∷ addrs) b ≡ bind_each addrs (one_bound addr b)
bind_each-good addr addrs b e = elim (Bool-cases (addr.binds)) [
  | inl h ↦
      if_false _ _ _ (ap not h) ∙ if_false _ _ _ (ap not (sym (ap (λ x. x && addr.listens) h) ∙ e))
  | inr h ↦ absurd (cc (sym (ap (λ x. x && addr.listens) h) ∙ e))
]

bind_each-Sorts : (addrs : List Attempt) (b : Bound) → Sorts addrs b (bind_each addrs b)
bind_each-Sorts [] b = (sym (append-nil b.failed), sym (append-nil b.server.sockets))
bind_each-Sorts (addr ∷ addrs) b = elim (Bool-cases (works addr)) [
  | inl e ↦
      let (failed, sockets) = bind_each-Sorts addrs (one_bound addr b) in
      subst (Sorts (addr ∷ addrs) b) (sym (bind_each-good addr addrs b e)) (
        failed ∙ ap (λ xs. b.failed ++ xs) (sym (if_true _ _ _ e)),
        sockets
            ∙ append_assoc b.server.sockets (addr.socket ∷ []) _
            ∙ ap (λ xs. b.server.sockets ++ xs) (sym (if_true _ _ _ e)),
      )
  | inr e ↦
      let (failed, sockets) = bind_each-Sorts addrs (one_failed addr b) in
      subst (Sorts (addr ∷ addrs) b) (sym (bind_each-bad addr addrs b e)) (
        failed
            ∙ append_assoc b.failed (addr.addr ∷ []) (bad addrs)
            ∙ ap (λ xs. b.failed ++ xs) (sym (if_false _ _ _ e)),
        sockets ∙ ap (λ xs. b.server.sockets ++ xs) (sym (if_false _ _ _ e)),
      )
]

all_good :
    (addrs : List Attempt) → bad addrs ≡ [] → good addrs ≡ map (λ (a : Attempt). a.socket) addrs
all_good [] e = refl
all_good (addr ∷ addrs) e = elim (Bool-cases (works addr)) [
  | inl w ↦
      if_true _ _ _ w ∙ ap (λ xs. addr.socket ∷ xs) (all_good addrs (sym (if_true _ _ _ w) ∙ e))
  | inr w ↦ absurd (cc (sym (if_false _ (bad addrs) (addr.addr ∷ bad addrs) w) ∙ e))
]

-- What bind leaves: all addresses work, and the server has their sockets behind its own, or it has
-- no socket and the caller gets the addresses that do not work.
abbrev pub Binds : List Attempt → TcpServer → Bool × Bound → Type 0
Binds addrs s r =
    ((bad addrs ≡ [])
      × (r.0 ≡ true)
      × (r.1.failed ≡ [])
      × (r.1.server.sockets ≡ s.sockets ++ map (λ (a : Attempt). a.socket) addrs))
    ⊎ ((bad addrs ≢ []) × (r.0 ≡ false) × (r.1.failed ≡ bad addrs) × (r.1.server.sockets ≡ []))

from_failed :
    (addrs : List Attempt) (s : TcpServer) (b : Bound) (failed : List ℕ)
    → b.failed ≡ failed
    → bad addrs ≡ failed
    → (bad addrs ≡ [] → b.server.sockets ≡ s.sockets ++ map (λ (a : Attempt). a.socket) addrs)
    → Binds addrs s (finish_bind b)
from_failed addrs s b [] e same sockets =
    subst (Binds addrs s) (sym (if_false _ _ _ (ap (λ xs. not (is_none xs)) e)))
      (inl (same, refl, e, sockets same))
from_failed addrs s b (x ∷ xs) e same sockets =
    subst (Binds addrs s) (sym (if_true _ _ _ (ap (λ ys. not (is_none ys)) e)))
      (inr (λ none. absurd (cc (sym same ∙ none)), refl, e ∙ sym same, refl))

-- Bind of a list of addresses, with an empty list for those that fail, gives true when every
-- address can be bound and listen, and the server then has their sockets, in order, behind its
-- own; else it gives false, the caller gets just the other addresses, in order, and the server is
-- left without any socket.
pub bind-Binds : (addrs : List Attempt) (s : TcpServer) → Binds addrs s (bind addrs [] s)
unfolding bind
bind-Binds addrs s =
    let b : Bound = record { server = s; failed = [] } in
    let (failed, sockets) = bind_each-Sorts addrs b in
    from_failed addrs s (bind_each addrs b) (bad addrs) failed refl
      (λ none. sockets ∙ ap (λ xs. s.sockets ++ xs) (all_good addrs none))
