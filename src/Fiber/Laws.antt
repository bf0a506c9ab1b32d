-- ===== src/Fiber/Laws.antt =====
-- When a fiber can be entered, reset and destroyed.
use lo_netfw.Base.{
  ℕ, ◌+◌, ◌%◌, ◌^◌, ◌<◌, ◌≡◌, ◌≢◌, inl, inr, refl, ap, ◌∙◌, arith, Bool, true, false, Option, none,
  some, if_true, if_false, Bool-cases, sub64, ltb, ltb→lt, ltb→le,
}
use lo_netfw.Fiber.{
  State, error, init, hold, exec, term, ready, is_exec, is_error, is_refused, Fiber, block,
  dangling, Locals, returned, thrown, switched, double_free, put, Ends, cb_returns, create, destroy,
  destroy_stack, reset, reset_stack, swap_in_from, get_this, get_from, set_this, Current, current,
  no_main, next_of,
}
use lo_netfw.Fiber.Turns.{by_end, state_after, turn, put_same, put_other, turn-Back}
use mathlib.Core.Path.{subst}

-- A fiber with a stack, in the state ERROR, can neither be reset nor destroyed.
abbrev pub Stuck : ℕ → Locals → Type 0
Stuck p l =
    ((got : Bool) (cb : Option ℕ) → reset got p cb l ≡ thrown l)
    × (destroy p l ≡ thrown (record l { fiber_count = sub64 l.fiber_count 1 }))

refused_error : (state : State) → is_refused state ≡ is_error state
refused_error error = refl
refused_error init = refl
refused_error hold = refl
refused_error exec = refl
refused_error term = refl
refused_error ready = refl

-- ~Fiber has counted down when it looks at the fiber.
abbrev counted_down : Locals → Locals
counted_down l = record l { fiber_count = sub64 l.fiber_count 1 }

destroy_at :
    (p : ℕ) (l : Locals) (f : Fiber)
    → l.heap p ≡ f
    → destroy p l ≡ destroy_stack p f f.stack (counted_down l)
unfolding destroy
destroy_at p l f e = ap (λ (f : Fiber). destroy_stack p f f.stack (counted_down l)) e

pub error-Stuck :
    (p : ℕ) (l : Locals) → (l.heap p).stack ≡ block → (l.heap p).state ≡ error → Stuck p l
unfolding reset destroy
error-Stuck p l s e = (
  λ got cb. ap (λ st. reset_stack got p cb st l) s ∙ if_true _ _ _ (ap is_refused e),
  ap (λ st. destroy_stack p (l.heap p) st (counted_down l)) s ∙ if_true _ _ _ (ap is_refused e),
)

-- After a turn in which the callback of a fiber with a stack throws, every reset of the fiber
-- throws, and so does its destructor.
turn-Stuck :
    (p q : ℕ) (l : Locals) (ends : Ends)
    → is_exec (l.heap p).state ≡ false
    → (l.heap p).stack ≡ block
    → cb_returns ends (l.heap p).cb ≡ false
    → (l' : Locals) × (turn ends by_end p (some q) l ≡ switched p q l') × Stuck p l'
turn-Stuck p q l ends idle s raises =
    let (l', e, back) = turn-Back p q l ends by_end idle in
    (l', e, error-Stuck p l' (back.stack ∙ s) (back.left ∙ ap (λ b. state_after b by_end) raises))

-- What reset leaves of a fiber.
pub record Renewed (p : ℕ) (cb : Option ℕ) (l l' : Locals) : Type 0 where
  pub state : (l'.heap p).state ≡ init
  pub runs : (l'.heap p).cb ≡ cb
  pub stack : (l'.heap p).stack ≡ (l.heap p).stack
  pub id : (l'.heap p).id ≡ (l.heap p).id
  pub others : (r : ℕ) → r ≢ p → l'.heap r ≡ l.heap r
  pub cur : l'.cur_fiber ≡ l.cur_fiber

module _ (p : ℕ) (cb : Option ℕ) (l : Locals) where
  -- Reset of a fiber with a stack in any state but ERROR, also in HOLD, READY or EXEC, returns:
  -- the fiber has the new callback and the state INIT and keeps its identifier and stack, and no
  -- other fiber changes.
  pub reset-Renewed :
      (l.heap p).stack ≡ block
      → is_error (l.heap p).state ≡ false
      → (l' : Locals) × (reset true p cb l ≡ returned l') × Renewed p cb l l'
  unfolding reset
  reset-Renewed s fine = (
    _,
    ap (λ st. reset_stack true p cb st l) s ∙ if_false _ _ _ (refused_error _ ∙ fine),
    record {
      state = ap (λ (f : Fiber). f.state) (put_same l.heap p _);
      runs = ap (λ (f : Fiber). f.cb) (put_same l.heap p _);
      stack = ap (λ (f : Fiber). f.stack) (put_same l.heap p _);
      id = ap (λ (f : Fiber). f.id) (put_same l.heap p _);
      others = put_other l.heap p _;
      cur = refl;
    },
  )

  abbrev half_reset : Fiber
  half_reset = record (l.heap p) { cb = cb; stack = dangling }

  abbrev after_half : Locals
  after_half = record l { heap = put l.heap p half_reset }

  reset-double_free :
      (l.heap p).stack ≡ block
      → is_error (l.heap p).state ≡ false
      → (l' : Locals) × (reset false p cb l ≡ thrown l') × (destroy p l' ≡ double_free)
  unfolding reset
  reset-double_free s fine = (
    after_half,
    ap (λ st. reset_stack false p cb st l) s ∙ if_false _ _ _ (refused_error _ ∙ fine),
    destroy_at p after_half half_reset (put_same l.heap p half_reset),
  )

counted : (n : ℕ) → n < 2 ^ 64 → sub64 (next_of n) 1 ≡ n
counted n small = elim (Bool-cases (ltb (n + 1) (2 ^ 64))) [
  | inl e ↦
      let h : (n + 1) % 2 ^ 64 ≡ n + 1 = omega (arith, ltb→lt (n + 1) (2 ^ 64) e) in
      ap (λ m. sub64 m 1) h ∙ grind (arith)
  | inr e ↦
      let h : (n + 1) % 2 ^ 64 ≡ 0 = omega (arith, ltb→le (n + 1) (2 ^ 64) e) in
      ap (λ m. sub64 m 1) h ∙ grind (arith, ltb→le (n + 1) (2 ^ 64) e)
]

module _ (p : ℕ) (cb : Option ℕ) (size : ℕ) (l : Locals) where
  abbrev pub newborn : Fiber
  newborn = record {
    id = next_of l.fiber_id;
    stack_size = size;
    state = init;
    stack = block;
    cb = cb;
  }

  abbrev pub with_newborn : Locals
  with_newborn = record l {
    heap = put l.heap p newborn;
    fiber_id = next_of l.fiber_id;
    fiber_count = next_of l.fiber_count;
  }

  destroy-create :
      l.fiber_count < 2 ^ 64
      → (l' : Locals) × (create true p cb size l ≡ returned l')
        × (l'' : Locals) × (destroy p l' ≡ returned l'')
        × (l''.fiber_count ≡ l.fiber_count)
  unfolding create
  destroy-create small = (
    with_newborn,
    refl,
    counted_down with_newborn,
    destroy_at p with_newborn newborn (put_same l.heap p newborn),
    counted l.fiber_count small,
  )

swap_in_running :
    (p q r : ℕ) (l : Locals)
    → (l.heap p).state ≡ exec
    → l.cur_fiber ≡ some r
    → (l' : Locals) × (swap_in_from true p (some q) l ≡ thrown l') × (l'.cur_fiber ≡ some p)
unfolding swap_in_from
swap_in_running p q r l running cur = rw running (_, refl, refl)

abbrev Sets : Current → Type 0
Sets (current p l) = l.cur_fiber ≡ some p
Sets (no_main l) = Unit

get_from-Sets :
    (got : Bool) (fresh : ℕ) (l : Locals) (o : Option ℕ)
    → l.cur_fiber ≡ o
    → Sets (get_from got fresh l o)
unfolding set_this
get_from-Sets got fresh l (some p) e = e
get_from-Sets true fresh l none e = refl
get_from-Sets false fresh l none e = tt

get_this_again :
    (got got' : Bool) (fresh fresh' : ℕ) (l l' : Locals) (p : ℕ)
    → get_this got fresh l ≡ current p l'
    → get_this got' fresh' l' ≡ current p l'
unfolding get_this
get_this_again got got' fresh fresh' l l' p e =
    ap (get_from got' fresh' l') (subst Sets e (get_from-Sets got fresh l l.cur_fiber refl))
