-- ===== src/Scheduler/Run/Drain.antt =====
-- The loop of run works off the tasks of its thread when they are callbacks that return, and then
-- ends once it was told to stop.
use lo_netfw.Base.{
  ℕ, ◌+◌, ◌≡◌, ◌≢◌, refl, sym, ap, ◌∙◌, arith, Bool, true, false, not, ◌&&◌, List, [], ◌∷◌, ◌++◌,
  Option, none, some, All, length, Bool-cases, inl, inr, if_false, sub64, if◌then◌else◌,
}
use lo_netfw.Fiber.Turns.{by_end}
use lo_netfw.Scheduler.Tasks.{
  Task, cb_task, has_work, is_elsewhere, is_running, Picked, picked, pick,
}
use lo_netfw.Scheduler.Tasks.Pick.{HasWork, pick-Finds}
use lo_netfw.Scheduler.Tasks.Queue.{queue_of, dequeue, seen, pick-dequeue}
use lo_netfw.Scheduler.Run.{
  Runner, Program, next, notify_if, state_of, cb_address, go_picked, round, go_round, run,
}
use lo_netfw.Scheduler.Run.Calls.{IsReusable, CbReady, call_cb-Done}
use mathlib.Core.Path.{subst}
use mathlib.Core.List.{append-nil, append_assoc}

-- A task that is a callback.
abbrev pub IsCall : Task → Type 0
IsCall t = (f : ℕ) × (tid : Option ℕ) × (t ≡ cb_task (some f) tid)

abbrev cb_list : Option ℕ → List ℕ
cb_list none = []
cb_list (some f) = f ∷ []

-- The callbacks of the tasks.
abbrev pub callbacks : List Task → List ℕ
callbacks [] = []
callbacks (t ∷ ts) = cb_list t.cb ++ callbacks ts

-- The tasks that are for other threads.
abbrev pub others_of : ℕ → List Task → List Task
others_of thread [] = []
others_of thread (t ∷ ts) =
    if is_elsewhere thread t.thread_id then t ∷ others_of thread ts else others_of thread ts

-- Callbacks return and schedule nothing; a new fiber is not the idle fiber.
pub record IsFinishing (program : Program) : Type 0 where
  pub returns : (f : ℕ) → program.ends f ≡ true
  pub quiet : (r : Runner) (p : ℕ) → (program.leaves r p ≡ by_end) × (program.adds r p ≡ [])
  pub apart : (r : Runner) → program.fresh r ≢ r.idle_fiber

pub record IsSettled (q : ℕ) (r : Runner) : Type 0 where
  pub scheduler : r.scheduler_fiber ≡ some q
  pub ready : CbReady r
  pub apart : (p : ℕ) → r.cb_fiber ≡ some p → p ≢ r.idle_fiber
  pub calls : All IsCall r.tasks

abbrev pub Settings : Type 0
Settings = Bool × Bool × ℕ × ℕ × ℕ × ℕ

-- What the rounds of callbacks keep.
abbrev pub settings : Runner → Settings
settings r = (r.is_stopping, r.auto_stop, r.thread, r.idle_fiber, r.active, r.idle)

-- The work `qs` has been done between `r` and `r'`.
pub record Worked (q : ℕ) (qs : List Task) (r r' : Runner) : Type 0 where
  pub settled : IsSettled q r'
  pub kept : settings r' ≡ settings r
  pub entered : r'.entered ≡ r.entered ++ callbacks qs
  pub others : others_of r.thread r'.tasks ≡ others_of r.thread r.tasks
  pub idles : r'.locals.heap r.idle_fiber ≡ r.locals.heap r.idle_fiber

pub All-append : (P : Task → Type 0) (xs ys : List Task) → All P (xs ++ ys) → All P xs × All P ys
All-append P [] ys h = (tt, h)
All-append P (x ∷ xs) ys h = let (a, b) = All-append P xs ys h.1 in ((h.0, a), b)

pub All-join : (P : Task → Type 0) (xs ys : List Task) → All P xs → All P ys → All P (xs ++ ys)
All-join P [] ys a b = b
All-join P (x ∷ xs) ys a b = (a.0, All-join P xs ys a.1 b)

All-HasWork : (ts : List Task) → All IsCall ts → All HasWork ts
All-HasWork [] h = tt
All-HasWork (t ∷ ts) h = (ap has_work h.0.2, All-HasWork ts h.1)

module _ (thread : ℕ) where
  All-queue : (P : Task → Type 0) (ts : List Task) → All P ts → All P (queue_of thread ts)
  All-queue P [] h = tt
  All-queue P (t ∷ ts) h = elim (Bool-cases (is_elsewhere thread t.thread_id)) [
    | inl e ↦ rw e (All-queue P ts h.1)
    | inr e ↦ rw e (h.0, All-queue P ts h.1)
  ]

  others_of-append :
      (xs ys : List Task) → others_of thread (xs ++ ys) ≡ others_of thread xs ++ others_of thread ys
  others_of-append [] ys = refl
  others_of-append (x ∷ xs) ys = elim (Bool-cases (is_elsewhere thread x.thread_id)) [
    | inl e ↦ rw e (ap (λ zs. x ∷ zs) (others_of-append xs ys))
    | inr e ↦ rw e (others_of-append xs ys)
  ]

and_left : (a b : Bool) → (not a && b) ≡ true → a ≡ false
and_left true b h = sym h
and_left false b h = refl

abbrev first_or : Task → Option (Task × List Task) → Task
first_or t none = t
first_or t (some x) = x.0

abbrev rest_or : List Task → Option (Task × List Task) → List Task
rest_or ts none = ts
rest_or ts (some x) = x.1

pub sub64_suc : (n : ℕ) → sub64 (n + 1) 1 ≡ n
sub64_suc n = grind (arith)

-- What the search gives when the thread's queue is not empty.
module _ (r : Runner) (calls : All IsCall r.tasks) (t : Task) (qs : List Task)
    (queue : queue_of r.thread r.tasks ≡ t ∷ qs) where
  abbrev Takes : Picked → Type 0
  Takes o =
      (n : Bool) × (rest : List Task) × (o ≡ picked n t rest)
      × IsCall t
      × All IsCall rest
      × (queue_of r.thread rest ≡ qs)
      × (others_of r.thread rest ≡ others_of r.thread r.tasks)

  is_first : seen r.thread (pick (state_of r) r.thread r.tasks) ≡ some (t, qs)
  is_first =
      let call : IsCall t =
        (subst (All IsCall) queue (All-queue r.thread IsCall r.tasks calls)).0 in
      (pick-dequeue (state_of r) r.thread r.tasks (All-HasWork r.tasks calls)).0
      ∙ ap (dequeue (state_of r)) queue
      ∙ if_false _ _ _ (ap (λ (u : Task). is_running (state_of r) u.fiber) call.2)

  pick-Takes : Takes (pick (state_of r) r.thread r.tasks)
  pick-Takes = elim (pick-Finds (state_of r) r.thread r.tasks (All-HasWork r.tasks calls)) [
    | inl (n, u, rest, e, f) ↦
        let same : some (u, queue_of r.thread rest) ≡ some (t, qs) =
          sym (ap (seen r.thread) e) ∙ is_first in
        let this : u ≡ t = ap (first_or t) same in
        let (front, back) =
          All-append IsCall f.before (u ∷ f.after) (subst (All IsCall) f.all calls) in
        (
          n,
          rest,
          e ∙ ap (λ v. picked n v rest) this,
          subst IsCall this back.0,
          subst (All IsCall) (sym f.others) (All-join IsCall f.before f.after front back.1),
          ap (rest_or []) same,
          ap (others_of r.thread) f.others
              ∙ others_of-append r.thread f.before f.after
              ∙ ap (λ xs. others_of r.thread f.before ++ xs)
                  (sym (
                    if_false _ (u ∷ others_of r.thread f.after) _ (
                      and_left (is_elsewhere r.thread u.thread_id)
                        (not (is_running (state_of r) u.fiber)) f.eligible)))
              ∙ sym (others_of-append r.thread f.before (u ∷ f.after))
              ∙ sym (ap (others_of r.thread) f.all),
        )
    | inr (e, w) ↦ absurd (cc (sym (ap (seen r.thread) e) ∙ is_first))
  ]

module _ (program : Program) (finishing : IsFinishing program) (q : ℕ) where
  -- The runner that has taken a task.
  abbrev taken : Runner → Bool → List Task → Runner
  taken r n rest = notify_if n (record r { tasks = rest; active = r.active + 1 })

  cb_apart :
      (r : Runner)
      → IsSettled q r
      → (o : Option ℕ) → r.cb_fiber ≡ o
      → cb_address program r o ≢ r.idle_fiber
  cb_apart r g none e = finishing.apart r
  cb_apart r g (some p) e = g.apart p e

  called-Worked :
      (r : Runner)
      → IsSettled q r
      → (t : Task) → IsCall t
      → (n : Bool) (rest : List Task) → All IsCall rest
      → others_of r.thread rest ≡ others_of r.thread r.tasks
      → (r' : Runner) × (go_picked program r (picked n t rest) ≡ next r')
        × Worked q (t ∷ []) r r'
        × (r'.tasks ≡ rest)
  called-Worked r g t (f, tid, here) n rest calls others =
      let r1 : Runner = taken r n rest in
      let (l, done, d) =
        call_cb-Done program f q r1 g.ready g.scheduler finishing.quiet (finishing.returns f) in
      let p : ℕ = cb_address program r1 r.cb_fiber in
      let g1 : IsSettled q r1 = record {
        scheduler = g.scheduler;
        ready = g.ready;
        apart = g.apart;
        calls = calls;
      } in
      let apart : p ≢ r.idle_fiber = cb_apart r1 g1 r.cb_fiber refl in
      (
        _,
        ap (λ u. go_picked program r (picked n u rest)) here ∙ done,
        record {
          settled = record {
            scheduler = g.scheduler;
            ready = λ p' e. subst (λ (o : ℕ). IsReusable o l) (ap (λ o. first_cb p o) e) d.reusable;
            apart = λ p' e. subst (λ (o : ℕ). o ≢ r.idle_fiber) (ap (λ o. first_cb p o) e) apart;
            calls = calls;
          };
          kept =
              ap (λ a. (r.is_stopping, r.auto_stop, r.thread, r.idle_fiber, a, r.idle))
                (sub64_suc r.active);
          entered = ap (λ (u : Task). r.entered ++ (cb_list u.cb ++ [])) (sym here);
          others = others;
          idles = d.others r.idle_fiber (λ e. apart (sym e));
        },
        refl,
      )
    where
      first_cb : ℕ → Option ℕ → ℕ
      first_cb p none = p
      first_cb p (some o) = o

  -- When callbacks return, yield not and schedule nothing, and the tasks are callbacks, as many
  -- rounds of run as the queue of the thread is long work it off: each of its callbacks is entered
  -- once, in order, no task for the thread is left, those for other threads are, and the count of
  -- active threads is as before.
  pub drain-Worked :
      (qs : List Task) (r : Runner)
      → IsSettled q r
      → queue_of r.thread r.tasks ≡ qs
      → (r' : Runner) × (run program (length qs) r ≡ next r')
        × Worked q qs r r'
        × (queue_of r.thread r'.tasks ≡ [])
  unfolding run round
  drain-Worked [] r g queue = (
    r,
    refl,
    record {
      settled = g;
      kept = refl;
      entered = sym (append-nil r.entered);
      others = refl;
      idles = refl;
    },
    queue,
  )
  drain-Worked (t ∷ qs) r g queue =
      let (n, rest, e, call, calls, left, others) = pick-Takes r g.calls t qs queue in
      let (r1, done, w, at) = called-Worked r g t call n rest calls others in
      let thread : r1.thread ≡ r.thread = ap (λ (s : Settings). s.2) w.kept in
      let idle_fiber : r1.idle_fiber ≡ r.idle_fiber = ap (λ (s : Settings). s.3) w.kept in
      let (r2, rounds, w', empty) =
        drain-Worked qs r1 w.settled
          (ap (λ (th : ℕ). queue_of th r1.tasks) thread ∙ ap (queue_of r.thread) at ∙ left) in
      (
        r2,
        ap (λ o. go_round (run program (length qs)) (go_picked program r o)) e
            ∙ ap (go_round (run program (length qs))) done
            ∙ rounds,
        record {
          settled = w'.settled;
          kept = w'.kept ∙ w.kept;
          entered =
              w'.entered
              ∙ ap (λ fs. fs ++ callbacks qs) w.entered
              ∙ append_assoc r.entered (callbacks (t ∷ [])) (callbacks qs)
              ∙ ap (λ fs. r.entered ++ fs)
                  (ap (λ fs. fs ++ callbacks qs) (append-nil (cb_list t.cb)));
          others =
              subst (λ (th : ℕ). others_of th r2.tasks ≡ others_of th r1.tasks) thread w'.others
              ∙ w.others;
          idles =
              subst (λ (i : ℕ). r2.locals.heap i ≡ r1.locals.heap i) idle_fiber w'.idles ∙ w.idles;
        },
        ap (λ (th : ℕ). queue_of th r2.tasks) (sym thread) ∙ empty,
      )
