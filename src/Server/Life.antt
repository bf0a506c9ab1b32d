-- ===== src/Server/Life.antt =====
-- The clients that startAccept hands on.
use lo_netfw.Base.{
  ℕ, ◌≡◌, refl, sym, ap, ◌∙◌, Bool, true, false, List, [], ◌∷◌, ◌++◌, none, some, All, if_true,
  if_false,
}
use lo_netfw.Server.{Accept, handle_client, start_accepting}
use mathlib.Core.List.{append-nil, append_assoc}

-- The rounds in which accept gave a client, in order, with the client.
pub data Accepts : List Accept → List (ℕ × Accept) → Type 0 where
  no_round : Accepts [] []
  no_client :
      {a : Accept} {rounds : List Accept} {cs : List (ℕ × Accept)}
      → a.client ≡ none
      → Accepts rounds cs
      → Accepts (a ∷ rounds) cs
  one_client :
      {a : Accept} {c : ℕ} {rounds : List Accept} {cs : List (ℕ × Accept)}
      → a.client ≡ some c
      → Accepts rounds cs
      → Accepts (a ∷ rounds) ((c, a) ∷ cs)

abbrev pub Runs : Accept → Type 0
Runs a = a.stopped ≡ false

-- Each client with the timeout of the server in its round.
abbrev pub with_timeouts : List (ℕ × Accept) → List (ℕ × ℕ)
with_timeouts [] = []
with_timeouts ((c, a) ∷ cs) = (c, a.timeout) ∷ with_timeouts cs

module _ (last : List Accept) (ended : Bool)
    (ends : (handled : List (ℕ × ℕ)) → start_accepting last handled ≡ (ended, handled)) where
  hands_on :
      (rounds : List Accept) (cs : List (ℕ × Accept))
      → All Runs rounds
      → Accepts rounds cs
      → (handled : List (ℕ × ℕ))
      → start_accepting (rounds ++ last) handled ≡ (ended, handled ++ with_timeouts cs)
  unfolding start_accepting
  hands_on _ _ runs no_round handled =
      ends handled ∙ ap (λ hs. (ended, hs)) (sym (append-nil handled))
  hands_on _ _ runs (no_client {a} {rounds} {cs} e more) handled =
      if_false _ _ _ runs.0
      ∙ ap (λ o. start_accepting (rounds ++ last) (handle_client a o handled)) e
      ∙ hands_on rounds cs runs.1 more handled
  hands_on _ _ runs (one_client {a} {c} {rounds} {cs} e more) handled =
      if_false _ _ _ runs.0
      ∙ ap (λ o. start_accepting (rounds ++ last) (handle_client a o handled)) e
      ∙ hands_on rounds cs runs.1 more (handled ++ (c, a.timeout) ∷ [])
      ∙ ap (λ hs. (ended, hs)) (append_assoc handled ((c, a.timeout) ∷ []) (with_timeouts cs))

-- In rounds that do not find the server stopped, startAccept hands on just the clients that accept
-- gives, in order, each with the timeout that the server has in its round, and goes on; with a
-- round behind them that finds it stopped, it hands on the same clients, whatever rounds follow,
-- and ends.
pub start_accepting-clients :
    (rounds : List Accept) (cs : List (ℕ × Accept)) (last : Accept) (after : List Accept)
    (handled : List (ℕ × ℕ))
    → All Runs rounds
    → Accepts rounds cs
    → last.stopped ≡ true
    → (start_accepting rounds handled ≡ (false, handled ++ with_timeouts cs))
      × (start_accepting (rounds ++ last ∷ after) handled ≡ (true, handled ++ with_timeouts cs))
unfolding start_accepting
start_accepting-clients rounds cs last after handled runs accepts stops = (
  ap (λ rs. start_accepting rs handled) (sym (append-nil rounds))
      ∙ hands_on [] false (λ hs. refl) rounds cs runs accepts handled,
  hands_on (last ∷ after) true (λ hs. if_true _ _ _ stops) rounds cs runs accepts handled,
)
