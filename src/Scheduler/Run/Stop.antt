-- ===== src/Scheduler/Run/Stop.antt =====
-- The loop of run ends when the scheduler was told to stop and its tasks are worked off, and a
-- callback that throws ends it too.
use lo_netfw.Base.{
  ℕ, zero, suc, ◌+◌, ◌≡◌, refl, sym, ap, ◌∙◌, arith, true, false, List, [], ◌∷◌, ◌++◌, Option, some,
  length, Bool-cases, inl, inr, if_true, if_false, sub64,
}
use lo_netfw.Fiber.{Fiber, Locals, is_exec, term, is_term, Outcome, cb_returns}
use lo_netfw.Fiber.Turns.{Leaves, by_end, state_after, turn, turn-Back}
use lo_netfw.Scheduler.Tasks.{Task, cb_task, is_elsewhere, picked, pick}
use lo_netfw.Scheduler.Tasks.Queue.{queue_of}
use lo_netfw.Scheduler.Run.{
  Runner, Program, Round, next, finished, raised, asserted, faulted, notify_if, state_of,
  after_turn, is_over, stopping, settle_idle, idle_turn, go_picked, round, go_round, run,
}
use lo_netfw.Scheduler.Run.Calls.{CbReady, call_cb-raised}
use lo_netfw.Scheduler.Run.Drain.{
  callbacks, others_of, IsFinishing, IsSettled, Settings, drain-Worked,
}

-- A list that holds tasks neither for the thread nor for others is empty.
both_empty :
    (thread : ℕ) (ts : List Task) → queue_of thread ts ≡ [] → others_of thread ts ≡ [] → ts ≡ []
both_empty thread [] a b = refl
both_empty thread (t ∷ ts) a b = elim (Bool-cases (is_elsewhere thread t.thread_id)) [
  | inl e ↦ absurd (cc (sym (if_true _ _ _ e) ∙ b))
  | inr e ↦ absurd (cc (sym (if_false _ _ _ e) ∙ a))
]

-- The idle fiber, when it waits.
pub record IsIdle (r : Runner) : Type 0 where
  pub rests : is_exec (state_of r r.idle_fiber) ≡ false
  pub lives : is_term (state_of r r.idle_fiber) ≡ false
  pub cb : (c : ℕ) × ((r.locals.heap r.idle_fiber).cb ≡ some c)

abbrev runner_or : Runner → Round → Runner
runner_or r (next r') = r'
runner_or r _ = r

go_round-more :
    (go more : Runner → Round) (r' : Runner) (end : Round)
    → ((r : Runner) → go r ≡ next r' → more r ≡ end)
    → (o : Round) → go_round go o ≡ next r'
    → go_round more o ≡ end
go_round-more go more r' end h (next r) e = h r e
go_round-more go more r' end h (finished r) e = absurd (cc e)
go_round-more go more r' end h raised e = absurd (cc e)
go_round-more go more r' end h asserted e = absurd (cc e)
go_round-more go more r' end h faulted e = absurd (cc e)

-- Rounds after rounds.
run-more :
    (program : Program) (m n : ℕ) (r r' : Runner)
    → run program m r ≡ next r'
    → run program (m + n) r ≡ run program n r'
unfolding run
run-more program zero n r r' e =
    let none_first : 0 + n ≡ n = omega arith in
    ap (λ k. run program k r) none_first ∙ ap (run program n) (ap (runner_or r) e)
run-more program (suc m) n r r' e =
    let one_first : suc m + n ≡ suc (m + n) = omega arith in
    ap (λ k. run program k r) one_first
    ∙ go_round-more (run program m) (run program (m + n)) r' (run program n r')
        (λ r1. run-more program m n r1 r') (round program r) e

module _ (program : Program) (q : ℕ) (r : Runner) (scheduler : r.scheduler_fiber ≡ some q)
    (empty : r.tasks ≡ []) where
  idle_round : round program r ≡ idle_turn (notify_if false r)
  unfolding round pick
  idle_round = ap (λ ts. go_picked program r (pick (state_of r) r.thread ts)) empty

  stops : r.is_stopping ≡ true → r.auto_stop ≡ true → r.active ≡ 0 → stopping r ≡ true
  unfolding stopping
  stops a b c = rw (a, b, empty, c) refl

  -- The runner behind a turn of the idle fiber.
  abbrev behind_idle : Locals → Runner
  behind_idle l = record r { locals = l; idle = sub64 (r.idle + 1) 1 }

  idle-ends :
      IsIdle r
      → stopping r ≡ true
      → (l : Locals) × (round program r ≡ next (behind_idle l))
        × (is_term (l.heap r.idle_fiber).state ≡ true)
  unfolding idle_turn stopping
  idle-ends i stop =
      let p : ℕ = r.idle_fiber in
      let (l, e, back) = turn-Back p q r.locals (λ _. true) by_end i.rests in
      let ended : (l.heap p).state ≡ term =
        back.left ∙ ap (λ o. state_after (cb_returns (λ _. true) o) by_end) i.cb.1 in
      let after : Outcome → Round = after_turn (λ l. settle_idle p (behind_idle l)) in
      (
        l,
        idle_round
            ∙ if_false _ _ _ i.lives
            ∙ ap (λ (w : Leaves). after (turn (λ _. true) w p r.scheduler_fiber r.locals))
                (if_true _ _ _ stop)
            ∙ ap (λ o. after (turn (λ _. true) by_end p o r.locals)) scheduler
            ∙ ap after e
            ∙ if_true _ _ _ (ap is_over ended),
        ap is_term ended,
      )

  idle_over : is_term (state_of r r.idle_fiber) ≡ true → round program r ≡ finished r
  unfolding idle_turn
  idle_over over = idle_round ∙ if_true _ _ _ over

module _ (program : Program) (finishing : IsFinishing program) (q : ℕ) (r : Runner)
    (settled : IsSettled q r) (idle : IsIdle r) where
  -- A scheduler that was told to stop, with no active thread and an idle fiber that waits, and
  -- whose tasks are callbacks for this thread that return, yield not and schedule nothing, leaves
  -- the loop of run two rounds after the last task; no task is left, and the callbacks have been
  -- entered in order.
  pub run-finished :
      others_of r.thread r.tasks ≡ []
      → r.is_stopping ≡ true
      → r.auto_stop ≡ true
      → r.active ≡ 0
      → (r' : Runner) × (run program (length (queue_of r.thread r.tasks) + 2) r ≡ finished r')
        × (r'.tasks ≡ [])
        × (r'.entered ≡ r.entered ++ callbacks (queue_of r.thread r.tasks))
  unfolding run
  run-finished alone stop auto none_active =
      let qs : List Task = queue_of r.thread r.tasks in
      let (r1, rounds, w, none_left) = drain-Worked program finishing q qs r settled refl in
      let thread : r1.thread ≡ r.thread = ap (λ (s : Settings). s.2) w.kept in
      let empty : r1.tasks ≡ [] = both_empty r.thread r1.tasks none_left (w.others ∙ alone) in
      let idle_fiber : r1.idle_fiber ≡ r.idle_fiber = ap (λ (s : Settings). s.3) w.kept in
      let same : r1.locals.heap r1.idle_fiber ≡ r.locals.heap r.idle_fiber =
        ap (r1.locals.heap) idle_fiber ∙ w.idles in
      let waits : IsIdle r1 = record {
        rests = ap (λ (f : Fiber). is_exec f.state) same ∙ idle.rests;
        lives = ap (λ (f : Fiber). is_term f.state) same ∙ idle.lives;
        cb = (idle.cb.0, ap (λ (f : Fiber). f.cb) same ∙ idle.cb.1);
      } in
      let stopped : stopping r1 ≡ true =
        stops program q r1 w.settled.scheduler empty (ap (λ (s : Settings). s.0) w.kept ∙ stop)
          (ap (λ (s : Settings). s.1) w.kept ∙ auto)
          (ap (λ (s : Settings). s.4) w.kept ∙ none_active) in
      let (l, e, over) = idle-ends program q r1 w.settled.scheduler empty waits stopped in
      let r2 : Runner = behind_idle program q r1 w.settled.scheduler empty l in
      (
        r2,
        run-more program (length qs) 2 r r1 rounds
            ∙ ap (go_round (run program 1)) e
            ∙ ap (go_round (run program 0)) (idle_over program q r2 w.settled.scheduler empty over),
        empty,
        w.entered,
      )

-- When the first task is a callback for the thread that throws without a yield, and the fiber for
-- callbacks can be reset if there is one, an exception leaves the loop of run.
pub round-raised :
    (program : Program) (q : ℕ) (r : Runner)
    → CbReady r
    → r.scheduler_fiber ≡ some q
    → ((r' : Runner) (p : ℕ) → (program.leaves r' p ≡ by_end) × (program.adds r' p ≡ []))
    → (f : ℕ) (tid : Option ℕ) (ts : List Task) → r.tasks ≡ cb_task (some f) tid ∷ ts
    → is_elsewhere r.thread tid ≡ false
    → program.ends f ≡ false
    → round program r ≡ raised
unfolding round pick
round-raised program q r ready scheduler quiet f tid ts here mine raises =
    let t : Task = cb_task (some f) tid in
    let r' : Runner = notify_if false (record r { tasks = ts; active = r.active + 1 }) in
    ap (λ (us : List Task). go_picked program r (pick (state_of r) r.thread us)) here
    ∙ ap (go_picked program r) (if_false _ _ (picked false t ts) mine)
    ∙ call_cb-raised program f q r' ready scheduler quiet raises
