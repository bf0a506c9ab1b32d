-- ===== src/Scheduler/Tasks/Queue.antt =====
-- The tasks are, for each thread, a queue: what a thread takes is the first of its queue that does not
-- run on another thread, and what is scheduled stands at the end of the queues it is for.
use lo_netfw.Base.{
  ℕ, ◌≡◌, refl, sym, ap, ◌∙◌, inl, inr, Bool, true, false, not, ◌&&◌, ◌||◌, List, [], ◌∷◌, ◌++◌,
  Option, none, some, All, Bool-cases, if_true, if_false, if◌then◌else◌,
}
use lo_netfw.Fiber.{State}
use lo_netfw.Scheduler.Tasks.{
  Task, has_work, is_none, is_elsewhere, is_running, Picked, picked, nothing, assertion, passed,
  pick, m_schedule, schedule_from, schedule_all,
}
use lo_netfw.Scheduler.Tasks.Pick.{HasWork, First, pick-Finds}
use mathlib.Core.Path.{subst}
use mathlib.Core.List.{append-nil, append_assoc}

-- The queue of a thread.
abbrev pub queue_of : ℕ → List Task → List Task
queue_of thread [] = []
queue_of thread (t ∷ ts) =
    if is_elsewhere thread t.thread_id then queue_of thread ts else t ∷ queue_of thread ts

abbrev pub behind : Task → Option (Task × List Task) → Option (Task × List Task)
behind t none = none
behind t (some (first, rest)) = some (first, t ∷ rest)

-- The first of a queue that does not run, and the queue without it.
abbrev pub dequeue : (ℕ → State) → List Task → Option (Task × List Task)
dequeue state_of [] = none
dequeue state_of (t ∷ ts) =
    if is_running state_of t.fiber then behind t (dequeue state_of ts) else some (t, ts)

-- A search as the queue of the thread sees it.
abbrev pub seen : ℕ → Picked → Option (Task × List Task)
seen thread (picked n t rest) = some (t, queue_of thread rest)
seen thread (nothing n) = none
seen thread assertion = none

-- A search leaves the queues alone that the task was not in.
abbrev pub LeavesOthers : List Task → Picked → Type 0
LeavesOthers ts (picked n t rest) =
    (q : ℕ) → is_elsewhere q t.thread_id ≡ true → queue_of q rest ≡ queue_of q ts
LeavesOthers ts _ = Unit

module _ (thread : ℕ) where
  queue_of-append :
      (xs ys : List Task) → queue_of thread (xs ++ ys) ≡ queue_of thread xs ++ queue_of thread ys
  queue_of-append [] ys = refl
  queue_of-append (x ∷ xs) ys = elim (Bool-cases (is_elsewhere thread x.thread_id)) [
    | inl e ↦ rw e (queue_of-append xs ys)
    | inr e ↦ rw e (ap (λ zs. x ∷ zs) (queue_of-append xs ys))
  ]

  seen-elsewhere :
      (b : Bool) (t : Task)
      → is_elsewhere thread t.thread_id ≡ true
      → (o : Picked) → seen thread (passed b t o) ≡ seen thread o
  seen-elsewhere b t e (picked n first rest) = ap (λ ts. some (first, ts)) (if_true _ _ _ e)
  seen-elsewhere b t e (nothing n) = refl
  seen-elsewhere b t e assertion = refl

  seen-behind :
      (b : Bool) (t : Task)
      → is_elsewhere thread t.thread_id ≡ false
      → (o : Picked) → seen thread (passed b t o) ≡ behind t (seen thread o)
  seen-behind b t e (picked n first rest) = ap (λ ts. some (first, ts)) (if_false _ _ _ e)
  seen-behind b t e (nothing n) = refl
  seen-behind b t e assertion = refl

  seen-pick :
      (state_of : ℕ → State) (ts : List Task)
      → All HasWork ts
      → seen thread (pick state_of thread ts) ≡ dequeue state_of (queue_of thread ts)
  unfolding pick
  seen-pick state_of [] h = refl
  seen-pick state_of (t ∷ ts) h = elim (Bool-cases (is_elsewhere thread t.thread_id)) [
    | inl e ↦
        ap (seen thread) (if_true _ _ _ e)
        ∙ seen-elsewhere true t e _
        ∙ seen-pick state_of ts h.1
        ∙ sym (ap (dequeue state_of) (if_true _ _ _ e))
    | inr e ↦ elim (Bool-cases (is_running state_of t.fiber)) [
      | inl r ↦
          ap (seen thread) (if_false _ _ _ e ∙ if_false _ _ _ (ap not h.0) ∙ if_true _ _ _ r)
          ∙ seen-behind false t e _
          ∙ ap (behind t) (seen-pick state_of ts h.1)
          ∙ sym (ap (dequeue state_of) (if_false _ _ _ e) ∙ if_true _ _ _ r)
      | inr r ↦
          ap (seen thread) (if_false _ _ _ e ∙ if_false _ _ _ (ap not h.0) ∙ if_false _ _ _ r)
          ∙ sym (ap (dequeue state_of) (if_false _ _ _ e) ∙ if_false _ _ _ r)
    ]
  ]

First-LeavesOthers :
    {state_of : ℕ → State} {thread : ℕ} (ts : List Task) (n : Bool) (t : Task) (rest : List Task)
    → First state_of thread ts n t rest
    → LeavesOthers ts (picked n t rest)
First-LeavesOthers ts n t rest f q e =
    ap (queue_of q) f.others
    ∙ queue_of-append q f.before f.after
    ∙ ap (λ xs. queue_of q f.before ++ xs) (sym (if_true _ _ _ e))
    ∙ sym (queue_of-append q f.before (t ∷ f.after))
    ∙ sym (ap (queue_of q) f.all)

-- The list of tasks, all holding work, is a queue for each thread: the search of run takes from
-- the queue of its thread the first task that is not running, and a queue that the task was not in
-- stays as it was.
pub pick-dequeue :
    (state_of : ℕ → State) (thread : ℕ) (ts : List Task)
    → All HasWork ts
    → (seen thread (pick state_of thread ts) ≡ dequeue state_of (queue_of thread ts))
      × LeavesOthers ts (pick state_of thread ts)
pick-dequeue state_of thread ts h = (
  seen-pick thread state_of ts h,
  elim (pick-Finds state_of thread ts h) [
    | inl (n, t, rest, e, f) ↦ subst (LeavesOthers ts) (sym e) (First-LeavesOthers ts n t rest f)
    | inr (e, w) ↦ subst (LeavesOthers ts) (sym e) tt
  ],
)

-- The tasks that hold work.
abbrev pub working : List Task → List Task
working [] = []
working (t ∷ ts) = if has_work t then t ∷ working ts else working ts

working_cons : (t : Task) (ts : List Task) → working (t ∷ ts) ≡ working (t ∷ []) ++ working ts
working_cons t ts = elim (Bool-cases (has_work t)) [ inl e ↦ rw e refl | inr e ↦ rw e refl ]

m_schedule-tasks : (t : Task) (ts : List Task) → (m_schedule t ts).tasks ≡ ts ++ working (t ∷ [])
unfolding m_schedule
m_schedule-tasks t ts = elim (Bool-cases (has_work t)) [
  | inl e ↦ rw e refl
  | inr e ↦ rw e (sym (append-nil ts))
]

-- A list that `m_schedule` leaves empty was empty.
m_schedule-none :
    (t : Task) (ts : List Task) (b c : Bool)
    → ((is_none ts || b) || (is_none (m_schedule t ts).tasks && c)) ≡ (b || (is_none ts && true))
unfolding m_schedule
m_schedule-none t [] true c = refl
m_schedule-none t [] false c = refl
m_schedule-none t (x ∷ xs) b c = elim (Bool-cases (has_work t)) [
  | inl e ↦ rw e refl
  | inr e ↦ rw e refl
]

or_none : (b c : Bool) → b ≡ (b || (c && false))
or_none true c = refl
or_none false true = refl
or_none false false = refl

schedule_from_lem :
    (b : Bool) (more ts : List Task)
    → ((schedule_from b more ts).tasks ≡ ts ++ working more)
      × ((schedule_from b more ts).notifies ≡ (b || (is_none ts && not (is_none more))))
unfolding m_schedule
schedule_from_lem b [] ts = (sym (append-nil ts), or_none b (is_none ts))
schedule_from_lem b (t ∷ more) ts =
    let (tasks, notifies) = schedule_from_lem (is_none ts || b) more (m_schedule t ts).tasks in
    (
      tasks
          ∙ ap (λ xs. xs ++ working more) (m_schedule-tasks t ts)
          ∙ append_assoc ts (working (t ∷ [])) (working more)
          ∙ ap (λ xs. ts ++ xs) (sym (working_cons t more)),
      notifies ∙ m_schedule-none t ts b (not (is_none more)),
    )

schedule_all_lem :
    (more ts : List Task)
    → ((schedule_all more ts).tasks ≡ ts ++ working more)
      × ((schedule_all more ts).notifies ≡ (is_none ts && not (is_none more)))
      × ((thread : ℕ)
          → queue_of thread (schedule_all more ts).tasks
            ≡ queue_of thread ts ++ queue_of thread (working more))
unfolding schedule_all
schedule_all_lem more ts =
    let (tasks, notifies) = schedule_from_lem false more ts in
    (
      tasks,
      notifies,
      λ thread. ap (queue_of thread) tasks ∙ queue_of-append thread ts (working more),
    )
