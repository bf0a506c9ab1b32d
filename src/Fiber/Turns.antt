-- ===== src/Fiber/Turns.antt =====
-- One turn of a fiber: a scheduler's fiber swaps it in, and its code gives control back.
use lo_netfw.Base.{
  ℕ, ◌≡◌, ◌≢◌, ◌==◌, ==_iff, refl, ap, ◌∙◌, Bool, true, false, Option, none, some, if_true,
  if_false, Bool-cases, inl, inr,
}
use lo_netfw.Fiber.{
  State, error, hold, exec, term, ready, is_exec, Fiber, Locals, Outcome, returned, thrown,
  switched, null_access, double_free, put, Ends, cb_returns, set_this, swap_in_from, swap_out_to,
  get_this, yield_to_ready_to, yield_to_hold_to, main_func_end,
}
use mathlib.Core.Path.{subst}

-- How the code of a fiber gives control back: by a yield to the scheduler's fiber, or at its end.
pub data Leaves : Type 0 where
  by_ready : Leaves
  by_hold : Leaves
  by_end : Leaves

abbrev pub gives_back : Ends → Leaves → ℕ → Option ℕ → Locals → Outcome
gives_back ends by_ready p main_fiber l = yield_to_ready_to true true p main_fiber l
gives_back ends by_hold p main_fiber l = yield_to_hold_to true true p main_fiber l
gives_back ends by_end p main_fiber l = main_func_end true ends p l

abbrev pub in_fiber : (Locals → Outcome) → Outcome → Outcome
in_fiber go (returned l) = returned l
in_fiber go (thrown l) = thrown l
in_fiber go (switched q p l) = go l
in_fiber go null_access = null_access
in_fiber go double_free = double_free

-- swapIn(main_fiber), and then what the fiber's code does last.
unfoldable pub turn : Ends → Leaves → ℕ → Option ℕ → Locals → Outcome
turn ends leaves p main_fiber l =
    in_fiber (gives_back ends leaves p main_fiber) (swap_in_from true p main_fiber l)

-- The state a turn leaves.
abbrev pub state_after : Bool → Leaves → State
state_after ok by_ready = ready
state_after ok by_hold = hold
state_after true by_end = term
state_after false by_end = error

-- `l'` is `l` after a turn of `p`, back in the fiber `q`.
pub record Back (p q : ℕ) (state : State) (l l' : Locals) : Type 0 where
  pub left : (l'.heap p).state ≡ state
  pub stack : (l'.heap p).stack ≡ (l.heap p).stack
  pub id : (l'.heap p).id ≡ (l.heap p).id
  pub others : (r : ℕ) → r ≢ p → l'.heap r ≡ l.heap r
  pub cur : l'.cur_fiber ≡ some q
  pub main : l'.main_fiber ≡ l.main_fiber
  pub schedule : l'.schedule_fiber ≡ none
  pub fibers : l'.fiber_count ≡ l.fiber_count
  pub last_id : l'.fiber_id ≡ l.fiber_id

pub put_same : (heap : ℕ → Fiber) (p : ℕ) (f : Fiber) → put heap p f p ≡ f
put_same heap p f = if_true _ _ _ ((==_iff p p).1 refl)

pub put_other : (heap : ℕ → Fiber) (p : ℕ) (f : Fiber) (r : ℕ) → r ≢ p → put heap p f r ≡ heap r
put_other heap p f r other = elim (Bool-cases (r == p)) [
  | inl same ↦ absurd (other ((==_iff r p).0 same))
  | inr e ↦ if_false _ _ _ e
]

module _ (p q : ℕ) (l : Locals) where
  -- The fiber as it is entered.
  abbrev running : Fiber
  running = record (l.heap p) { state = exec }

  abbrev entered : Locals
  entered = record l { heap = put l.heap p running; cur_fiber = some p; schedule_fiber = some q }

  swap_in_from-entered :
      is_exec (l.heap p).state ≡ false → swap_in_from true p (some q) l ≡ switched q p entered
  unfolding swap_in_from set_this
  swap_in_from-entered idle = if_false _ _ _ idle

  abbrev left_as : Fiber → Locals
  left_as g = record l {
    heap = put (put l.heap p running) p g;
    cur_fiber = some q;
    schedule_fiber = none;
  }

  left_as-Back :
      (g : Fiber) (state : State)
      → g.state ≡ state
      → g.stack ≡ (put l.heap p running p).stack
      → g.id ≡ (put l.heap p running p).id
      → Back p q state l (left_as g)
  left_as-Back g state a b c = record {
    left = ap (λ (f : Fiber). f.state) (put_same (put l.heap p running) p g) ∙ a;
    stack =
        ap (λ (f : Fiber). f.stack) (put_same (put l.heap p running) p g)
        ∙ b
        ∙ ap (λ (f : Fiber). f.stack) (put_same l.heap p running);
    id =
        ap (λ (f : Fiber). f.id) (put_same (put l.heap p running) p g)
        ∙ c
        ∙ ap (λ (f : Fiber). f.id) (put_same l.heap p running);
    others = λ r h. put_other (put l.heap p running) p g r h ∙ put_other l.heap p running r h;
    cur = refl;
    main = refl;
    schedule = refl;
    fibers = refl;
    last_id = refl;
  }

  gives_back-Back :
      (ends : Ends) (leaves : Leaves)
      → (l' : Locals) × (gives_back ends leaves p (some q) entered ≡ switched p q l')
        × Back p q (state_after (cb_returns ends (put l.heap p running p).cb) leaves) l l'
  unfolding yield_to_ready_to yield_to_hold_to main_func_end get_this swap_out_to
  gives_back-Back ends by_ready = (_, refl, left_as-Back _ _ refl refl refl)
  gives_back-Back ends by_hold = (_, refl, left_as-Back _ _ refl refl refl)
  gives_back-Back ends by_end = elim (Bool-cases (cb_returns ends (put l.heap p running p).cb)) [
    | inl e ↦ rw e (_, refl, left_as-Back _ _ refl refl refl)
    | inr e ↦ rw e (_, refl, left_as-Back _ _ refl refl refl)
  ]

  -- When the fiber of a scheduler swaps in a fiber that is not running, and the code of that fiber
  -- yields to it or ends, control comes back to the scheduler's fiber, which is the current one
  -- again: the fiber is READY or HOLD after the yield, TERM when its callback returned and ERROR
  -- when it threw, and keeps its stack; the other fibers and the counters are as before.
  pub turn-Back :
      (ends : Ends) (leaves : Leaves)
      → is_exec (l.heap p).state ≡ false
      → (l' : Locals) × (turn ends leaves p (some q) l ≡ switched p q l')
        × Back p q (state_after (cb_returns ends (l.heap p).cb) leaves) l l'
  unfolding turn
  turn-Back ends leaves idle =
      let (l', e, back) = gives_back-Back ends leaves in
      (
        l',
        ap (in_fiber (gives_back ends leaves p (some q))) (swap_in_from-entered idle) ∙ e,
        subst (λ f. Back p q (state_after (cb_returns ends f.cb) leaves) l l')
            (put_same l.heap p running) back,
      )
