-- ===== src/Scheduler/Run/Calls.antt =====
-- The round of a task that is a callback which runs to its end.
use lo_netfw.Base.{
  ℕ, ◌≡◌, ◌≢◌, refl, ap, ◌∙◌, true, false, List, [], ◌∷◌, ◌++◌, Option, none, some, if_true,
  if_false, sub64,
}
use lo_netfw.Fiber.{
  error, init, term, is_error, is_exec, block, Fiber, Locals, returned, create, cb_returns,
}
use lo_netfw.Fiber.Turns.{Leaves, by_end, state_after, turn, Back, put_same, put_other, turn-Back}
use lo_netfw.Fiber.Laws.{reset-Renewed, newborn, with_newborn, Stuck, error-Stuck}
use lo_netfw.Scheduler.Tasks.{Task}
use lo_netfw.Scheduler.Run.{
  Runner, Program, Round, next, raised, after_turn, after_call, is_over, is_ready, came_back,
  settle_cb, cb_turn, load_cb, cb_address, call_cb,
}
use mathlib.Core.Path.{subst}

-- A fiber that can be given a callback.
pub record IsReusable (p : ℕ) (l : Locals) : Type 0 where
  pub stack : (l.heap p).stack ≡ block
  pub fine : is_error (l.heap p).state ≡ false

abbrev pub CbReady : Runner → Type 0
CbReady r = (p : ℕ) → r.cb_fiber ≡ some p → IsReusable p r.locals

-- The fiber `p` holds the callback `f`, ready to run.
pub record Loaded (p f : ℕ) (l l' : Locals) : Type 0 where
  pub stack : (l'.heap p).stack ≡ block
  pub state : (l'.heap p).state ≡ init
  pub cb : (l'.heap p).cb ≡ some f
  pub others : (q : ℕ) → q ≢ p → l'.heap q ≡ l.heap q

module _ (program : Program) (f : ℕ) (r : Runner) (ready : CbReady r) where
  load_from :
      (o : Option ℕ)
      → r.cb_fiber ≡ o
      → (l' : Locals) × (load_cb program f r o ≡ returned l')
        × Loaded (cb_address program r o) f r.locals l'
  unfolding create
  load_from none e =
      let p : ℕ = program.fresh r in
      let new : Fiber = newborn p (some f) r.stack_size r.locals in
      (
        with_newborn p (some f) r.stack_size r.locals,
        refl,
        record {
          stack = ap (λ (f : Fiber). f.stack) (put_same r.locals.heap p new);
          state = ap (λ (f : Fiber). f.state) (put_same r.locals.heap p new);
          cb = ap (λ (f : Fiber). f.cb) (put_same r.locals.heap p new);
          others = put_other r.locals.heap p new;
        },
      )
  load_from (some p) e =
      let g : IsReusable p r.locals = ready p e in
      let (l', done, n) = reset-Renewed p (some f) r.locals g.stack g.fine in
      (
        l',
        done,
        record { stack = n.stack ∙ g.stack; state = n.state; cb = n.runs; others = n.others },
      )

  load_cb-Loaded :
      (l' : Locals) × (load_cb program f r r.cb_fiber ≡ returned l')
      × Loaded (cb_address program r r.cb_fiber) f r.locals l'
  load_cb-Loaded = load_from r.cb_fiber refl

-- The round leaves this of the callback's fiber and of the thread's variables.
pub record Done (p : ℕ) (l l' : Locals) : Type 0 where
  pub reusable : IsReusable p l'
  pub others : (q : ℕ) → q ≢ p → l'.heap q ≡ l.heap q

module _ (program : Program) (f q : ℕ) (r : Runner) (ready : CbReady r)
    (scheduler : r.scheduler_fiber ≡ some q)
    (quiet : (r' : Runner) (p : ℕ)
      → (program.leaves r' p ≡ by_end) × (program.adds r' p ≡ [])) where
  abbrev address : ℕ
  address = cb_address program r r.cb_fiber

  -- The runner in the turn of the callback.
  abbrev in_turn : Locals → Runner
  in_turn l = record r { locals = l; cb_fiber = some address; entered = r.entered ++ f ∷ [] }

  -- The runner behind the turn, with the fiber as `l` has it.
  abbrev pub behind_turn : Locals → Runner
  behind_turn l = record r {
    locals = l;
    cb_fiber = some address;
    entered = r.entered ++ f ∷ [];
    active = sub64 r.active 1;
  }

  settled :
      (l : Locals)
      → (l.heap address).stack ≡ block
      → (l.heap address).state ≡ term
      → (l' : Locals) × (settle_cb address (behind_turn l) ≡ next (behind_turn l'))
        × Done address l l'
  settled l s e =
      let (l', done, n) = reset-Renewed address none l s (ap is_error e) in
      (
        l',
        if_false _ _ _ (ap is_ready e)
            ∙ if_true _ _ _ (ap is_over e)
            ∙ ap (after_call (λ l. next (record (behind_turn l) { locals = l }))) done,
        record {
          reusable = record { stack = n.stack ∙ s; fine = ap is_error n.state };
          others = n.others;
        },
      )

  abbrev goes_on : Locals → List Task → Locals → Round
  goes_on l added l' = settle_cb address (came_back added l' (in_turn l))

  turned :
      (l : Locals)
      → Loaded address f r.locals l
      → (l' : Locals) × (cb_turn program address (in_turn l) ≡ settle_cb address (behind_turn l'))
        × Back address q (state_after (program.ends f) by_end) l l'
  turned l h =
      let added : List Task = program.adds (in_turn l) address in
      let (l', e, back) = turn-Back address q l program.ends by_end (ap is_exec h.state) in
      (
        l',
        ap
              (λ (w : Leaves).
                after_turn (goes_on l added) (turn program.ends w address r.scheduler_fiber l))
              (quiet (in_turn l) address).0
            ∙ ap (λ o. after_turn (goes_on l added) (turn program.ends by_end address o l))
                scheduler
            ∙ ap (after_turn (goes_on l added)) e
            ∙ ap (λ ts. goes_on l ts l') (quiet (in_turn l) address).1,
        subst (λ o. Back address q (state_after (cb_returns program.ends o) by_end) l l') h.cb back,
      )

  -- The callback returns.
  pub call_cb-Done :
      program.ends f ≡ true
      → (l : Locals) × (call_cb program f r ≡ next (behind_turn l)) × Done address r.locals l
  call_cb-Done returns =
      let (l1, made, h) = load_cb-Loaded program f r ready in
      let (l2, came, back) = turned l1 h in
      let (l3, reused, d) =
        settled l2 (back.stack ∙ h.stack) (back.left ∙ ap (λ b. state_after b by_end) returns) in
      (
        l3,
        ap (after_call (λ l. cb_turn program address (in_turn l))) made ∙ came ∙ reused,
        record {
          reusable = d.reusable;
          others = λ q other. d.others q other ∙ back.others q other ∙ h.others q other;
        },
      )

  -- The callback throws.
  pub call_cb-raised : program.ends f ≡ false → call_cb program f r ≡ raised
  call_cb-raised raises =
      let (l1, made, h) = load_cb-Loaded program f r ready in
      let (l2, came, back) = turned l1 h in
      let e : (l2.heap address).state ≡ error = back.left ∙ ap (λ b. state_after b by_end) raises in
      let stuck : Stuck address l2 = error-Stuck address l2 (back.stack ∙ h.stack) e in
      ap (after_call (λ l. cb_turn program address (in_turn l))) made
      ∙ came
      ∙ if_false _ _ _ (ap is_ready e)
      ∙ if_true _ _ _ (ap is_over e)
      ∙ ap (after_call (λ l. next (record (behind_turn l2) { locals = l }))) (stuck.0 true none)
