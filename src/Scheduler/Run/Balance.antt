-- ===== src/Scheduler/Run/Balance.antt =====
-- Whatever the code in the fibers does, a round leaves the counts of active and idle threads as they
-- were, and only tasks that hold work.
use lo_netfw.Base.{
  ℕ, ◌+◌, ◌≡◌, refl, sym, ap, ◌∙◌, Bool, true, false, List, [], ◌∷◌, ◌++◌, Option, none, some, All,
  Bool-cases, inl, inr, sub64, if◌then◌else◌,
}
use lo_netfw.Fiber.{
  Locals, Outcome, returned, thrown, switched, null_access, double_free, reset, is_term,
}
use lo_netfw.Fiber.Turns.{turn}
use lo_netfw.Scheduler.Run.Returns.{Comes, IsCalled, turn-Comes, reset-IsCalled, load_cb-IsCalled}
use lo_netfw.Scheduler.Tasks.{Task, fiber_task, has_work, m_schedule}
use lo_netfw.Scheduler.Tasks.Pick.{HasWork, pick-Finds}
use lo_netfw.Scheduler.Run.{
  Runner, Program, Round, next, finished, raised, asserted, faulted, state_of, after_turn,
  after_call, is_over, is_ready, goes_on, schedule, schedule_each, came_back, settle_fiber,
  fiber_turn, settle_cb, cb_turn, load_cb, cb_address, run_cb, run_fiber, idle_leaves, settle_idle,
  idle_turn, go_picked, round,
}
use lo_netfw.Scheduler.Run.Drain.{sub64_suc, All-append, All-join}
use mathlib.Core.Path.{subst}

-- A round that goes on or ends leaves these counts, and tasks with work.
abbrev pub Leaves : ℕ → ℕ → Round → Type 0
Leaves a i (next r) = (r.active ≡ a) × (r.idle ≡ i) × All HasWork r.tasks
Leaves a i (finished r) = (r.active ≡ a) × (r.idle ≡ i) × All HasWork r.tasks
Leaves a i raised = Unit
Leaves a i asserted = ⊥
Leaves a i faulted = ⊥

if-Leaves :
    (a i : ℕ) (b : Bool) (x y : Round)
    → Leaves a i x
    → Leaves a i y
    → Leaves a i (if b then x else y)
if-Leaves a i true x y g h = g
if-Leaves a i false x y g h = h

after_turn-Leaves :
    (a i : ℕ) (go : Locals → Round)
    → ((l : Locals) → Leaves a i (go l))
    → (o : Outcome) → Comes o
    → Leaves a i (after_turn go o)
after_turn-Leaves a i go h (switched p q l) c = h l
after_turn-Leaves a i go h (thrown l) c = tt
after_turn-Leaves a i go h (returned l) c = absurd c
after_turn-Leaves a i go h null_access c = absurd c
after_turn-Leaves a i go h double_free c = absurd c

after_call-Leaves :
    (a i : ℕ) (go : Locals → Round)
    → ((l : Locals) → Leaves a i (go l))
    → (o : Outcome) → IsCalled o
    → Leaves a i (after_call go o)
after_call-Leaves a i go h (returned l) c = h l
after_call-Leaves a i go h (thrown l) c = tt
after_call-Leaves a i go h (switched p q l) c = absurd c
after_call-Leaves a i go h null_access c = absurd c
after_call-Leaves a i go h double_free c = absurd c

m_schedule-HasWork :
    (t : Task) (ts : List Task) → All HasWork ts → All HasWork (m_schedule t ts).tasks
unfolding m_schedule
m_schedule-HasWork t ts h = elim (Bool-cases (has_work t)) [
  | inl e ↦ rw e (All-join HasWork ts (t ∷ []) h (e, tt))
  | inr e ↦ rw e h
]

schedule-Leaves :
    (a i : ℕ) (t : Task) (r : Runner) → Leaves a i (next r) → Leaves a i (next (schedule t r))
unfolding schedule
schedule-Leaves a i t r h = (h.0, h.1, m_schedule-HasWork t r.tasks h.2)

schedule_each-Leaves :
    (a i : ℕ) (ts : List Task) (r : Runner)
    → Leaves a i (next r)
    → Leaves a i (next (schedule_each ts r))
schedule_each-Leaves a i [] r h = h
schedule_each-Leaves a i (t ∷ ts) r h =
    schedule_each-Leaves a i ts (schedule t r) (schedule-Leaves a i t r h)

came_back-Leaves :
    (a i : ℕ) (ts : List Task) (l : Locals) (r : Runner)
    → Leaves (a + 1) i (next r)
    → Leaves a i (next (came_back ts l r))
came_back-Leaves a i ts l r h =
    let g : Leaves (a + 1) i (next (schedule_each ts (record r { locals = l }))) =
      schedule_each-Leaves (a + 1) i ts (record r { locals = l }) h in
    (ap (λ n. sub64 n 1) g.0 ∙ sub64_suc a, g.1, g.2)

module _ (a i : ℕ) where
  settle_fiber-Leaves : (p : ℕ) (r : Runner) → Leaves a i (next r) → Leaves a i (settle_fiber p r)
  settle_fiber-Leaves p r h =
      if-Leaves a i (is_ready (state_of r p)) _ _
        (schedule-Leaves a i (fiber_task (some p) none) r h)
        (if-Leaves a i (is_over (state_of r p)) _ _ h h)

  settle_cb-Leaves : (p : ℕ) (r : Runner) → Leaves a i (next r) → Leaves a i (settle_cb p r)
  settle_cb-Leaves p r h =
      if-Leaves a i (is_ready (state_of r p)) _ _
        (schedule-Leaves a i (fiber_task (some p) none) r h)
        (if-Leaves a i (is_over (state_of r p)) _ _
          (after_call-Leaves a i _ (λ l. h) (reset true p none r.locals)
            (reset-IsCalled p none r.locals))
          h)

  module _ (program : Program) (q : ℕ) where
    cb_turn-Leaves :
        (p : ℕ) (r : Runner)
        → r.scheduler_fiber ≡ some q
        → Leaves (a + 1) i (next r)
        → Leaves a i (cb_turn program p r)
    cb_turn-Leaves p r sf h =
        after_turn-Leaves a i (λ l. settle_cb p (came_back (program.adds r p) l r))
          (λ l.
            settle_cb-Leaves p (came_back (program.adds r p) l r)
              (came_back-Leaves a i (program.adds r p) l r h))
          (turn program.ends (program.leaves r p) p r.scheduler_fiber r.locals)
          (turn-Comes program.ends (program.leaves r p) p q r.scheduler_fiber r.locals sf)

    fiber_turn-Leaves :
        (p : ℕ) (r : Runner)
        → r.scheduler_fiber ≡ some q
        → Leaves (a + 1) i (next r)
        → Leaves a i (fiber_turn program p r)
    fiber_turn-Leaves p r sf h =
        after_turn-Leaves a i (λ l. settle_fiber p (came_back (program.adds r p) l r))
          (λ l.
            settle_fiber-Leaves p (came_back (program.adds r p) l r)
              (came_back-Leaves a i (program.adds r p) l r h))
          (turn program.ends (program.leaves r p) p r.scheduler_fiber r.locals)
          (turn-Comes program.ends (program.leaves r p) p q r.scheduler_fiber r.locals sf)

    run_cb-Leaves :
        (o : Option ℕ) (r : Runner)
        → r.scheduler_fiber ≡ some q
        → Leaves (a + 1) i (next r)
        → Leaves a i (run_cb program o r)
    run_cb-Leaves none r sf h = (ap (λ n. sub64 n 1) h.0 ∙ sub64_suc a, h.1, h.2)
    run_cb-Leaves (some f) r sf h =
        let p : ℕ = cb_address program r r.cb_fiber in
        let loaded : Locals → Runner =
          λ l. record r { locals = l; cb_fiber = some p; entered = r.entered ++ f ∷ [] } in
        after_call-Leaves a i (λ l. cb_turn program p (loaded l))
          (λ l. cb_turn-Leaves p (loaded l) sf h) (load_cb program f r r.cb_fiber)
          (load_cb-IsCalled program f r r.cb_fiber)

    run_fiber-Leaves :
        (t : Task) (o : Option ℕ) (r : Runner)
        → r.scheduler_fiber ≡ some q
        → Leaves (a + 1) i (next r)
        → Leaves a i (run_fiber program t o r)
    run_fiber-Leaves t none r sf h = run_cb-Leaves t.cb r sf h
    run_fiber-Leaves t (some p) r sf h =
        if-Leaves a i (goes_on r (some p)) (fiber_turn program p r) (run_cb program t.cb r)
          (fiber_turn-Leaves p r sf h) (run_cb-Leaves t.cb r sf h)

  settle_idle-Leaves : (p : ℕ) (r : Runner) → Leaves a i (next r) → Leaves a i (settle_idle p r)
  settle_idle-Leaves p r h = if-Leaves a i (is_over (state_of r p)) (next r) _ h h

  -- The runner behind a turn of the idle fiber.
  abbrev behind_idle : Runner → Locals → Runner
  behind_idle r l = record r { locals = l; idle = sub64 (r.idle + 1) 1 }

  idle_turn-Leaves :
      (q : ℕ) (r : Runner)
      → r.scheduler_fiber ≡ some q
      → Leaves a i (next r)
      → Leaves a i (idle_turn r)
  unfolding idle_turn
  idle_turn-Leaves q r sf h =
      let n : sub64 (r.idle + 1) 1 ≡ i = sub64_suc r.idle ∙ h.1 in
      if-Leaves a i (is_term (state_of r r.idle_fiber)) (finished r) _ h (
        after_turn-Leaves a i (λ l. settle_idle r.idle_fiber (behind_idle r l))
          (λ l. settle_idle-Leaves r.idle_fiber (behind_idle r l) (h.0, n, h.2))
          (turn (λ _. true) (idle_leaves (record r { idle = r.idle + 1 })) r.idle_fiber
            r.scheduler_fiber r.locals)
          (turn-Comes (λ _. true) (idle_leaves (record r { idle = r.idle + 1 })) r.idle_fiber q
            r.scheduler_fiber r.locals sf))

-- In a thread with a scheduler's fiber, whatever the code in fibers does, a round of run on tasks
-- that all hold work fails no assertion, follows no null pointer and frees no stack twice, and,
-- unless an exception leaves it, leaves the counts of active and of idle threads as they were, and
-- tasks that all hold work.
pub round-Leaves :
    (program : Program) (q : ℕ) (r : Runner)
    → r.scheduler_fiber ≡ some q
    → All HasWork r.tasks
    → Leaves r.active r.idle (round program r)
unfolding round
round-Leaves program q r sf h = elim (pick-Finds (state_of r) r.thread r.tasks h) [
  | inl (n, t, rest, e, f) ↦
      let (front, back) = All-append HasWork f.before (t ∷ f.after) (subst (All HasWork) f.all h) in
      let rest_h : All HasWork rest =
        subst (All HasWork) (sym f.others) (All-join HasWork f.before f.after front back.1) in
      subst (λ o. Leaves r.active r.idle (go_picked program r o)) (sym e)
        (run_fiber-Leaves r.active r.idle program q t t.fiber _ sf (refl, refl, rest_h))
  | inr (e, w) ↦
      subst (λ o. Leaves r.active r.idle (go_picked program r o)) (sym e)
        (idle_turn-Leaves r.active r.idle q _ sf (refl, refl, h))
]
