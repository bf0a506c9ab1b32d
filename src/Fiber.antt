-- ===== src/Fiber.antt =====
-- The class Fiber of fiber/fiber.h and fiber/fiber.cpp, in the build with ucontext. A `Fiber *` is an
-- address, a number, `none` a null pointer; the variables of the thread and the counters of the
-- program are the record Locals. The saved registers and the contents of the stacks are the
-- platform's: a switch of contexts says which fiber's context is left and which is entered. What
-- `getcontext` and `swapcontext` answer (true for 0) is an argument.

pub mod Turns
pub mod Laws
mod Tests
use lo_netfw.Base.{
  ℕ, ◌+◌, ◌%◌, ◌^◌, Bool, true, false, not, ◌&&◌, Option, none, some, ◌==◌, sub64, if◌then◌else◌,
}

-- Fiber::State
pub data State : Type 0 where
  error : State
  init : State
  hold : State
  exec : State
  term : State
  ready : State

abbrev pub is_exec : State → Bool
is_exec exec = true
is_exec _ = false

abbrev pub is_term : State → Bool
is_term term = true
is_term _ = false

abbrev pub is_init : State → Bool
is_init init = true
is_init _ = false

abbrev pub is_error : State → Bool
is_error error = true
is_error _ = false

-- `m_stack`: null, a block, or a block that was given back and is still pointed at.
pub data Stack : Type 0 where
  null : Stack
  block : Stack
  dangling : Stack

pub record Fiber : Type 0 where
  pub id : ℕ
  pub stack_size : ℕ
  pub state : State
  pub stack : Stack
  pub cb : Option ℕ

pub record Locals : Type 0 where
  pub heap : ℕ → Fiber
  pub cur_fiber : Option ℕ
  pub main_fiber : Option ℕ
  pub schedule_fiber : Option ℕ
  pub fiber_id : ℕ
  pub fiber_count : ℕ

-- A call returns, throws, leaves the context of one fiber for that of another, follows a null
-- pointer, or gives a block back twice.
pub data Outcome : Type 0 where
  returned : Locals → Outcome
  thrown : Locals → Outcome
  switched : ℕ → ℕ → Locals → Outcome
  null_access : Outcome
  double_free : Outcome

abbrev pub put : (ℕ → Fiber) → ℕ → Fiber → ℕ → Fiber
put heap p f q = if q == p then f else heap q

abbrev pub put_state : ℕ → State → Locals → Locals
put_state p state l = record l { heap = put l.heap p (record (l.heap p) { state = state }) }

abbrev pub is_set {ℓ} : {A : Type ℓ} → Option A → Bool
is_set none = false
is_set (some a) = true

abbrev pub next_of : ℕ → ℕ
next_of n = (n + 1) % 2 ^ 64

-- Fiber::setThis
unfoldable pub set_this : Option ℕ → Locals → Locals
set_this fiber l = record l { cur_fiber = fiber }

-- What Fiber::Fiber() has done when it calls `getcontext`.
abbrev pub with_main : ℕ → Locals → Locals
with_main p l = set_this (some p) (record l {
  heap = put l.heap p (record { id = 0; stack_size = 0; state = exec; stack = null; cb = none });
})

-- Fiber::Fiber(), the main fiber of a thread, at the address `p`.
unfoldable pub create_main : Bool → ℕ → Locals → Outcome
create_main got p l =
    if got
    then returned (record (with_main p l) { fiber_count = next_of l.fiber_count })
    else thrown (with_main p l)

-- Fiber::Fiber(cb, stack_size), at the address `p`.
unfoldable pub create : Bool → ℕ → Option ℕ → ℕ → Locals → Outcome
create got p cb stack_size l =
    if got
    then returned (record l {
      heap = put l.heap p (record {
        id = next_of l.fiber_id;
        stack_size = stack_size;
        state = init;
        stack = block;
        cb = cb;
      });
      fiber_id = next_of l.fiber_id;
      fiber_count = next_of l.fiber_count;
    })
    else thrown (record l { fiber_id = next_of l.fiber_id })

-- `m_state != TERM && m_state != INIT && m_state == ERROR`
abbrev pub is_refused : State → Bool
is_refused state = not (is_term state) && (not (is_init state) && is_error state)

abbrev pub free_stack : Fiber → Locals → Outcome
free_stack f l = if is_refused f.state then thrown l else returned l

abbrev pub destroy_main : ℕ → Fiber → Locals → Outcome
destroy_main p f l =
    if is_set f.cb then thrown l else if not (is_exec f.state) then thrown l else elim l.cur_fiber [
      | none ↦ returned l
      | some c ↦ if c == p then returned (set_this none l) else returned l
    ]

abbrev pub destroy_stack : ℕ → Fiber → Stack → Locals → Outcome
destroy_stack p f null l = destroy_main p f l
destroy_stack p f block l = free_stack f l
destroy_stack p f dangling l = double_free

-- Fiber::~Fiber
unfoldable pub destroy : ℕ → Locals → Outcome
destroy p l =
    let l' = record l { fiber_count = sub64 l.fiber_count 1 } in
    destroy_stack p (l.heap p) (l.heap p).stack l'

abbrev pub reset_block : Bool → ℕ → Option ℕ → Locals → Outcome
reset_block got p cb l =
    let f = record (l.heap p) { cb = cb } in
    if is_refused f.state
    then thrown l
    else if not got
    then thrown (record l { heap = put l.heap p (record f { stack = dangling }) })
    else returned (record l { heap = put l.heap p (record f { state = init }) })

abbrev pub reset_stack : Bool → ℕ → Option ℕ → Stack → Locals → Outcome
reset_stack got p cb null l = thrown l
reset_stack got p cb block l = reset_block got p cb l
reset_stack got p cb dangling l = reset_block got p cb l

-- Fiber::reset
unfoldable pub reset : Bool → ℕ → Option ℕ → Locals → Outcome
reset got p cb l = reset_stack got p cb (l.heap p).stack l

abbrev pub enter : Bool → ℕ → Option ℕ → Locals → Outcome
enter swaps p from l = if is_exec (l.heap p).state then thrown l else elim from [
  | none ↦ null_access
  | some q ↦ if swaps then switched q p (put_state p exec l) else thrown (put_state p exec l)
]

-- Fiber::swapIn()
unfoldable pub swap_in : Bool → ℕ → Locals → Outcome
unfolding set_this
swap_in swaps p l = enter swaps p l.main_fiber (set_this (some p) l)

-- Fiber::swapIn(main_fiber)
unfoldable pub swap_in_from : Bool → ℕ → Option ℕ → Locals → Outcome
unfolding set_this
swap_in_from swaps p main_fiber l =
    enter swaps p main_fiber (record (set_this (some p) l) { schedule_fiber = main_fiber })

abbrev pub leave : Bool → ℕ → Option ℕ → Locals → Outcome
leave swaps p none l = null_access
leave swaps p (some q) l = if swaps then switched p q l else thrown l

-- Fiber::swapOut()
unfoldable pub swap_out : Bool → ℕ → Locals → Outcome
unfolding set_this
swap_out swaps p l = leave swaps p l.main_fiber (set_this l.main_fiber l)

-- Fiber::swapOut(main_fiber)
unfoldable pub swap_out_to : Bool → ℕ → Option ℕ → Locals → Outcome
unfolding set_this
swap_out_to swaps p main_fiber l =
    leave swaps p main_fiber (record (set_this main_fiber l) { schedule_fiber = none })

-- Fiber::getThis: the running fiber and what the thread's variables are then; `fresh` is the address
-- a new main fiber would get.
pub data Current : Type 0 where
  current : ℕ → Locals → Current
  no_main : Locals → Current

abbrev pub get_from : Bool → ℕ → Locals → Option ℕ → Current
get_from got fresh l (some p) = current p l
get_from got fresh l none =
    if got
    then current fresh (record (with_main fresh l) {
      fiber_count = next_of l.fiber_count;
      main_fiber = some fresh;
    })
    else no_main (with_main fresh l)

unfoldable pub get_this : Bool → ℕ → Locals → Current
get_this got fresh l = get_from got fresh l l.cur_fiber

abbrev pub with_current : (ℕ → Locals → Outcome) → Current → Outcome
with_current go (current p l) = go p l
with_current go (no_main l) = thrown l

-- Fiber::yieldToReady(), Fiber::yieldToHold()
unfoldable pub yield_to_ready : Bool → Bool → ℕ → Locals → Outcome
yield_to_ready swaps got fresh l =
    with_current (λ p l'. swap_out swaps p (put_state p ready l')) (get_this got fresh l)

unfoldable pub yield_to_hold : Bool → Bool → ℕ → Locals → Outcome
yield_to_hold swaps got fresh l =
    with_current (λ p l'. swap_out swaps p (put_state p hold l')) (get_this got fresh l)

-- Fiber::yieldToReady(main_fiber), Fiber::yieldToHold(main_fiber)
unfoldable pub yield_to_ready_to : Bool → Bool → ℕ → Option ℕ → Locals → Outcome
yield_to_ready_to swaps got fresh main_fiber l =
    with_current (λ p l'. swap_out_to swaps p main_fiber (put_state p ready l'))
      (get_this got fresh l)

unfoldable pub yield_to_hold_to : Bool → Bool → ℕ → Option ℕ → Locals → Outcome
yield_to_hold_to swaps got fresh main_fiber l =
    with_current (λ p l'. swap_out_to swaps p main_fiber (put_state p hold l'))
      (get_this got fresh l)

-- Fiber::setStateError
unfoldable pub set_state_error : Bool → ℕ → Locals → Outcome
set_state_error got fresh l =
    with_current (λ p l'. returned (put_state p error l')) (get_this got fresh l)

-- Fiber::setState
unfoldable pub set_state : ℕ → State → Locals → Locals
set_state p state l = put_state p state l

-- Fiber::getFiberId
unfoldable pub get_fiber_id : Locals → ℕ
get_fiber_id l = elim l.cur_fiber [ none ↦ 0 | some p ↦ (l.heap p).id ]

-- How the call `cur->m_cb()` ends in Fiber::mainFunc, for the callback given, after all its yields.
abbrev pub Ends : Type 0
Ends = ℕ → Bool

-- Whether `m_cb()` returns; an empty function throws.
abbrev pub cb_returns : Ends → Option ℕ → Bool
cb_returns ends none = false
cb_returns ends (some cb) = ends cb

abbrev pub after_cb : Bool → ℕ → Locals → Locals
after_cb true p l = record l { heap = put l.heap p (record (l.heap p) { cb = none; state = term }) }
after_cb false p l = put_state p error l

abbrev pub go_back : Bool → ℕ → Option ℕ → Locals → Outcome
go_back swaps p none l = swap_out swaps p l
go_back swaps p (some s) l = swap_out_to swaps p (some s) l

-- Fiber::mainFunc in the fiber `p`, from the end of the callback on.
unfoldable pub main_func_end : Bool → Ends → ℕ → Locals → Outcome
main_func_end swaps ends p l =
    let l' = after_cb (cb_returns ends (l.heap p).cb) p l in go_back swaps p l'.schedule_fiber l'

-- Fiber::mainFunc
unfoldable pub main_func : Bool → Bool → ℕ → Ends → Locals → Outcome
main_func swaps got fresh ends l = with_current (main_func_end swaps ends) (get_this got fresh l)
