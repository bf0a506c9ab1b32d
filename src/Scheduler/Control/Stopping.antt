-- ===== src/Scheduler/Control/Stopping.antt =====
-- stop ends a scheduler: the loop that it enters on the caller's thread works off the tasks and ends.
use lo_netfw.Base.{
  ℕ, zero, suc, length-append, ◌+◌, ◌≤◌, ◌≡◌, ◌↔◌, arith, refl, sym, ap, ◌∙◌, Bool, true, false,
  not, ◌&&◌, ◌||◌, List, [], ◌∷◌, ◌++◌, Option, none, some, length, Bool-cases, ◌==◌, ==_iff,
  and_parts, if◌then◌else◌, inl, inr, if_true, if_false,
}
use lo_netfw.Fiber.{State, is_set, is_term, is_init}
use lo_netfw.Scheduler.Tasks.Queue.{queue_of}
use lo_netfw.Scheduler.Run.{Runner, Program, finished, stopping, run}
use lo_netfw.Scheduler.Run.Drain.{callbacks, others_of, IsFinishing, IsSettled}
use lo_netfw.Scheduler.Run.Stop.{IsIdle, run-finished}
use lo_netfw.Scheduler.Control.{
  Threads, made, is_none, start, Stopped, at_once, assertion, joins, root_waits, notify_all,
  wind_down, stop,
}
use mathlib.Core.Option.{some-injective}
use mathlib.Core.Path.{subst}

-- The state that stop leaves is that before it, with both flags set and some calls of notify.
abbrev pub Ended : Runner → Runner → Type 0
Ended r r' = (n : ℕ) × (r' ≡ record r { is_stopping = true; auto_stop = true; notified = n })

-- Without threads to join, a root fiber has not started or has ended.
abbrev pub Rests : Threads → Type 0
Rests t =
    (t.threads_count ≡ 0)
    × (s : State) × (t.root_fiber ≡ some s)
    × ((is_term s || is_init s) ≡ true)

-- What stop does: it returns at once, or fails an assertion, or joins all threads.
abbrev pub Cases : Threads → Bool → Runner → Stopped → Type 0
Cases t is_current r (at_once r') = Ended r r' × (stopping r' ≡ true) × Rests t
Cases t is_current r assertion = is_current ≡ not (is_set t.root_thread)
Cases t is_current r (joins enters ids t' r') =
    (is_current ≡ is_set t.root_thread)
    × Ended r r'
    × (enters ≡ (is_set t.root_fiber && not (stopping r')))
    × (ids ≡ t.threads)
    × (t'.threads ≡ [])
    × (Rests t → stopping r' ≡ false)

root_waits-Rests : (t : Threads) → (root_waits t.threads_count t.root_fiber ≡ true) ↔ Rests t
root_waits-Rests t = waits t.threads_count t.root_fiber
  where
    waits :
        (n : ℕ) (o : Option State)
        → (root_waits n o ≡ true)
          ↔ ((n ≡ 0) × (s : State) × (o ≡ some s) × ((is_term s || is_init s) ≡ true))
    waits n none = (λ e. absurd (cc e), λ h. absurd (cc (h.2)))
    waits n (some s) = (
      λ e.
          let (here, over) = and_parts (n == 0) (is_term s || is_init s) e in
          ((==_iff n 0).0 here, s, refl, over),
      λ h.
          let same : s ≡ h.1 = some-injective s h.1 h.2 in
          ap (λ b. b && (is_term s || is_init s)) ((==_iff n 0).1 h.0)
          ∙ ap (λ u. is_term u || is_init u) same
          ∙ h.3,
    )

abbrev both_set : Runner → Runner
both_set r = record r { is_stopping = true; auto_stop = true }

wind_down-Cases :
    (t : Threads) (is_current : Bool) (r : Runner)
    → (Rests t → stopping (both_set r) ≡ false)
    → Cases t is_current r (wind_down is_current t (record r { auto_stop = true }))
unfolding stopping
wind_down-Cases t is_current r busy = cases (is_set t.root_thread) is_current refl
  where
    left : Runner
    left = notify_all t (both_set r)

    cases :
        (root current : Bool)
        → root ≡ is_set t.root_thread
        → Cases t current r (
            if root && not current
            then assertion
            else if not root && current
            then assertion
            else joins
                (is_set t.root_fiber && not (stopping left))
                t.threads
                (record t { threads = [] })
                left)
    cases true true e = (e, (left.notified, refl), refl, refl, refl, busy)
    cases true false e = ap not e
    cases false true e = ap not e
    cases false false e = (e, (left.notified, refl), refl, refl, refl, busy)

stop-Cases :
    (t : Threads) (is_current : Bool) (r : Runner) → Cases t is_current r (stop is_current t r)
unfolding stop
stop-Cases t is_current r = elim (Bool-cases (root_waits t.threads_count t.root_fiber)) [
  | inl e ↦ elim (Bool-cases (stopping (both_set r))) [
    | inl f ↦
        subst (Cases t is_current r) (sym (if_true _ _ _ e ∙ if_true _ _ _ f))
          ((r.notified, refl), f, (root_waits-Rests t).0 e)
    | inr f ↦
        subst (Cases t is_current r) (sym (if_true _ _ _ e ∙ if_false _ _ _ f))
          (wind_down-Cases t is_current r (λ rests. f))
  ]
  | inr e ↦
      subst (Cases t is_current r) (sym (if_false _ _ _ e))
        (wind_down-Cases t is_current r (λ rests. absurd (cc ((root_waits-Rests t).1 rests, e))))
]

-- What stop does for a scheduler that has no more threads than it is made for.
abbrev pub Stops : Threads → Bool → Runner → Stopped → Type 0
Stops t is_current r (at_once r') = Ended r r' × (stopping r' ≡ true) × Rests t × (t.threads ≡ [])
Stops t is_current r assertion = Cases t is_current r assertion
Stops t is_current r (joins enters ids t' r') = Cases t is_current r (joins enters ids t' r')

-- The threads that a scheduler has are no more than it is made for.
abbrev pub IsSized : Threads → Type 0
IsSized t = length t.threads ≤ t.threads_count

length-made : (id_of : ℕ → ℕ) (n : ℕ) → length (made id_of n) ≡ n
length-made id_of zero = refl
length-made id_of (suc n) =
    length-append (made id_of n) (id_of n ∷ []) ∙ omega (arith, length-made id_of n)

-- It is so behind the constructor and behind start.
abbrev SizedIf : Option (Threads × Runner) → Type 0
SizedIf none = Unit
SizedIf (some (t, r)) = IsSized t

if-SizedIf :
    (b : Bool) (x y : Option (Threads × Runner))
    → SizedIf x
    → SizedIf y
    → SizedIf (if b then x else y)
if-SizedIf true x y g h = g
if-SizedIf false x y g h = h

start-IsSized : (id_of : ℕ → ℕ) (t : Threads) (r : Runner) → IsSized t → SizedIf (start id_of t r)
unfolding start
start-IsSized id_of t r h =
    if-SizedIf (not r.is_stopping) _ _ h (
      if-SizedIf (not (is_none t.threads)) _ _ tt
        (omega (arith, length-made id_of t.threads_count)))

no_threads : (ids : List ℕ) (n : ℕ) → length ids ≤ n → n ≡ 0 → ids ≡ []
no_threads [] n h e = refl
no_threads (id ∷ ids) n h e = absurd (omega arith)

-- For a scheduler that has at most the threads it is made for: stop fails an assertion only when
-- the scheduler of the calling thread is this one without a root thread, or is another one or none
-- with a root thread. Else it sets both flags, and changes of the tasks and counts at most the
-- calls of notify: it returns at once only when no thread is there to join, the root fiber has not
-- started or has ended, and the scheduler is then stopping; or it joins all threads, when that
-- does not hold, and enters the root fiber, where there is one, exactly when the scheduler is not
-- yet stopping.
pub stop-Stops :
    (t : Threads) (is_current : Bool) (r : Runner)
    → IsSized t
    → Stops t is_current r (stop is_current t r)
stop-Stops t is_current r sized = more (stop is_current t r) (stop-Cases t is_current r)
  where
    more : (o : Stopped) → Cases t is_current r o → Stops t is_current r o
    more (at_once r') (ended, stops, rests) =
        (ended, stops, rests, no_threads t.threads t.threads_count sized rests.0)
    more assertion h = h
    more (joins enters ids t' r') h = h

-- After a stop that goes on to join the threads, a loop of run with no active thread and an idle
-- fiber that waits, whose tasks are callbacks for this thread that return, yield not and schedule
-- nothing, ends two rounds after the last task: no task is left, and the callbacks have been
-- entered in order.
pub run-stop :
    (program : Program)
    → IsFinishing program
    → (q : ℕ) (r : Runner) → IsSettled q r
    → IsIdle r
    → others_of r.thread r.tasks ≡ []
    → r.active ≡ 0
    → (t : Threads) (is_current : Bool) → is_current ≡ is_set t.root_thread
    → (enters : Bool) (ids : List ℕ) (t' : Threads) (r' : Runner)
    → stop is_current t r ≡ joins enters ids t' r'
    → (r'' : Runner) × (run program (length (queue_of r.thread r.tasks) + 2) r' ≡ finished r'')
      × (r''.tasks ≡ [])
      × (r''.entered ≡ r.entered ++ callbacks (queue_of r.thread r.tasks))
run-stop program finishing q r settled idle alone quiet t is_current here enters ids t' r' e =
    let (_, ended, _, _, _, _) = subst (Cases t is_current r) e (stop-Cases t is_current r) in
    let r0 : Runner = record r { is_stopping = true; auto_stop = true; notified = ended.0 } in
    let settled0 : IsSettled q r0 = record {
      scheduler = settled.scheduler;
      ready = settled.ready;
      apart = settled.apart;
      calls = settled.calls;
    } in
    let idle0 : IsIdle r0 = record { rests = idle.rests; lives = idle.lives; cb = idle.cb } in
    let (r'', rounds, empty, all) =
      run-finished program finishing q r0 settled0 idle0 alone refl refl quiet in
    (r'', ap (run program (length (queue_of r.thread r.tasks) + 2)) ended.1 ∙ rounds, empty, all)
