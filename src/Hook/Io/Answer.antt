-- ===== src/Hook/Io/Answer.antt =====
-- The loop of io gives the first answer of the system that is not to be tried again, or -1 for a wait
-- that timed out or could not start.
use lo_netfw.Base.{
  ◌≡◌, ◌≢◌, refl, sym, ap, ◌∙◌, ◌⊎◌, inl, inr, Bool, true, false, ◌&&◌, ◌||◌, List, [], ◌∷◌, ◌++◌,
  none, All, Bool-cases, if_true, if_false,
}
use lo_netfw.Base.Int.{ℤ, pos, negsuc}
use lo_netfw.Hook.Io.{
  Hooked, Step, Waiter, Result, gave, pending, stopped, minus_one, etimedout, called, has_timer,
  arm, with_timers, disarm, woken, registered, is_interrupted, would_block, io_loop,
}
use lo_netfw.Scheduler.Io.Defs.{add_event, IoScheduler}
use lo_netfw.Scheduler.Timer.Defs.{cancel, Manager}
use lo_netfw.Scheduler.Io.Defs as Io
use lo_netfw.Scheduler.Timer.Defs as Timers
use mathlib.Core.Path.{subst}

-- The answer is EINTR or EAGAIN.
abbrev pub is_retried : Step → Bool
is_retried a = is_interrupted a || would_block a

abbrev pub IsRetried : Step → Type 0
IsRetried a = is_retried a ≡ true

module _ (c : Waiter) (timeout : ℤ) where
  -- The timer of a wait behind the answer `a`, and what addEvent then answers.
  abbrev pub armed : Step → Hooked → Hooked
  armed a w = arm c timeout a (called a w)

  abbrev pub adds : Step → Hooked → Io.Outcome Bool
  adds a w = add_event a.epoll_ctl c.scheduler c.fiber true c.fd c.event none (armed a w).ios

  -- addEvent took the event, and the program went on until the fiber came back, or it refused it.
  abbrev pub Went : Bool → Step → Hooked → Hooked → Type 0
  Went true a w u =
      (s : IoScheduler) × (adds a w ≡ Io.ok true s) × (u ≡ a.back (record (armed a w) { ios = s }))
  Went false a w u =
      (s : IoScheduler) × (adds a w ≡ Io.ok false s) × (u ≡ record (armed a w) { ios = s })

  -- The timer, where there is one, is cancelled, or cannot be.
  abbrev pub Disarms : ℤ → Step → Hooked → Hooked → Type 0
  Disarms (pos ms) a u v =
      (b : Bool) × (m : Manager) × (cancel a.timer u.timers ≡ Timers.ok b m)
      × (v ≡ record u { timers = m })
  Disarms (negsuc n) a u v = v ≡ u

  abbrev pub Breaks : ℤ → Step → Hooked → Type 0
  Breaks (pos ms) a u = cancel a.timer u.timers ≡ Timers.fault
  Breaks (negsuc n) a u = ⊥

  abbrev pub ran : Step → Bool
  ran a = a.timer_ran && has_timer timeout

  -- From one state to another the loop makes these calls, and each of them is to be tried again: it
  -- was interrupted, or it would block and the wait behind it did not time out.
  pub data Retries : List Step → Hooked → Hooked → Type 0 where
    no_call : {w : Hooked} → Retries [] w w
    interrupted :
        {a : Step} {more : List Step} {w w' : Hooked}
        → is_interrupted a ≡ true
        → Retries more (called a w) w'
        → Retries (a ∷ more) w w'
    blocked :
        {a : Step} {more : List Step} {w u v w' : Hooked}
        → would_block a ≡ true
        → Went true a w u
        → Disarms timeout a u v
        → ran a ≡ false
        → Retries more v w'
        → Retries (a ∷ more) w w'

  -- The call gives `x` for the answer `a`, and leaves `w'`: it is another answer, or a wait timed out,
  -- or addEvent refused the event.
  abbrev pub Decides : Step → Hooked → ℤ → Hooked → Type 0
  Decides a w x w' =
      ((is_retried a ≡ false) × (x ≡ a.ret) × (w' ≡ called a w))
      ⊎ ((would_block a ≡ true)
          × (x ≡ minus_one)
          × (u : Hooked) × (v : Hooked) × Disarms timeout a u v
          × ((Went true a w u × (ran a ≡ true) × (w' ≡ record v { errno = etimedout }))
              ⊎ (Went false a w u × (w' ≡ v))))

  -- The wait behind `a` fails: addEvent does, or the timer is gone.
  abbrev pub Fails : Step → Hooked → Type 0
  Fails a w =
      (adds a w ≡ Io.assertion)
      ⊎ ((adds a w ≡ Io.fault) ⊎ ((b : Bool) × (u : Hooked) × Went b a w u × Breaks timeout a u))

  abbrev pub Explains : List Step → Hooked → Result → Type 0
  Explains steps w (pending w') = Retries steps w w'
  Explains steps w (gave x w') =
      (before : List Step) × (a : Step) × (after : List Step) × (w1 : Hooked) × (steps
        ≡ before ++ a ∷ after)
      × Retries before w w1
      × Decides a w1 x w'
  Explains steps w stopped =
      (before : List Step) × (a : Step) × (after : List Step) × (w1 : Hooked) × (steps
        ≡ before ++ a ∷ after)
      × Retries before w w1
      × (would_block a ≡ true)
      × Fails a w1

  further :
      (a : Step) (more : List Step) (w v : Hooked)
      → ((before : List Step) (w1 : Hooked) → Retries before v w1 → Retries (a ∷ before) w w1)
      → (r : Result) → Explains more v r
      → Explains (a ∷ more) w r
  further a more w v step (pending w') g = step more w' g
  further a more w v step (gave x w') (before, b, after, w1, e, g, d) =
      (a ∷ before, b, after, w1, ap (λ xs. a ∷ xs) e, step before w1 g, d)
  further a more w v step stopped (before, b, after, w1, e, g, d, f) =
      (a ∷ before, b, after, w1, ap (λ xs. a ∷ xs) e, step before w1 g, d, f)

  module _ (a : Step) (more : List Step) (w : Hooked) (blocks : would_block a ≡ true) where
    disarm-Explains :
        (t : ℤ) (b : Bool) (u : Hooked) (go : Hooked → Result)
        → Went b a w u
        → (Breaks t a u → Breaks timeout a u)
        → ((v : Hooked) → Disarms t a u v → Explains (a ∷ more) w (go v))
        → Explains (a ∷ more) w (disarm t a go u)
    disarm-Explains (pos ms) b u go went same h = cancelled (cancel a.timer u.timers) refl
      where
        cancelled :
            (o : Timers.Outcome Bool)
            → cancel a.timer u.timers ≡ o
            → Explains (a ∷ more) w (with_timers go u o)
        cancelled (Timers.ok d m) e = h _ (d, m, e, refl)
        cancelled Timers.fault e =
            ([], a, more, w, refl, no_call, blocks, inr (inr (b, u, went, same e)))
    disarm-Explains (negsuc n) b u go went same h = h u refl

    module _ (go : Hooked → Result) (h : (v : Hooked) → Explains more v (go v)) where
      woken-Explains :
          (u v : Hooked)
          → Went true a w u
          → Disarms timeout a u v
          → Explains (a ∷ more) w (woken timeout a go v)
      woken-Explains u v went off = elim (Bool-cases (ran a)) [
        | inl e ↦
            subst (Explains (a ∷ more) w) (sym (if_true _ _ (go v) e))
              ([], a, more, w, refl, no_call, inr (blocks, refl, u, v, off, inl (went, e, refl)))
        | inr e ↦
            subst (Explains (a ∷ more) w) (sym (if_false _ _ (go v) e))
              (further a more w v (λ before w1 g. blocked blocks went off e g) (go v) (h v))
      ]

      registered-Explains :
          (o : Io.Outcome Bool)
          → adds a w ≡ o
          → Explains (a ∷ more) w (registered c timeout a go (armed a w) o)
      registered-Explains (Io.ok true s) e =
          disarm-Explains timeout true _ (woken timeout a go) (s, e, refl) (λ x. x)
            (λ v off. woken-Explains _ v (s, e, refl) off)
      registered-Explains (Io.ok false s) e =
          disarm-Explains timeout false _ (gave minus_one) (s, e, refl) (λ x. x)
            (λ v off. (
              [],
              a,
              more,
              w,
              refl,
              no_call,
              inr (blocks, refl, _, v, off, inr ((s, e, refl), refl)),
            ))
      registered-Explains Io.assertion e = ([], a, more, w, refl, no_call, blocks, inl e)
      registered-Explains Io.fault e = ([], a, more, w, refl, no_call, blocks, inr (inl e))

  -- For any answers of the system and of epoll_ctl, and whatever the program does in the waits,
  -- the loop of io makes its calls one after the other, each from the state that the one before
  -- left: those before the last were interrupted, or would have blocked where addEvent took the
  -- event, the program went on and the timer of the wait, cancelled then, had not run. Where the
  -- loop gives a value, the last answer is neither EINTR nor EAGAIN and is the value; or it is
  -- EAGAIN and the value is -1, since the timer ran, with ETIMEDOUT, or addEvent refused the event
  -- in the state of that wait, the timer being cancelled. Where it stops, addEvent does so behind
  -- an EAGAIN, or the timer is gone; where it still waits, there is no last answer yet.
  pub io_loop-Explains :
      (steps : List Step) (w : Hooked) → Explains steps w (io_loop c timeout steps w)
  unfolding io_loop
  io_loop-Explains [] w = no_call
  io_loop-Explains (a ∷ more) w =
      let go : Hooked → Result = λ w'. io_loop c timeout more w' in
      elim (Bool-cases (is_interrupted a)) [
        | inl e ↦ subst (Explains (a ∷ more) w) (sym (if_true _ _ _ e)) (
            further a more w (called a w) (λ before w1 g. interrupted e g) _
              (io_loop-Explains more (called a w)))
        | inr e ↦ elim (Bool-cases (would_block a)) [
          | inl b ↦
              subst (Explains (a ∷ more) w) (sym (if_false _ _ _ e ∙ if_true _ _ _ b))
                (registered-Explains a more w b go (λ v. io_loop-Explains more v) _ refl)
          | inr b ↦
              subst (Explains (a ∷ more) w) (sym (if_false _ _ _ e ∙ if_false _ _ _ b))
                ([], a, more, w, refl, no_call, inl (rw (e, b) refl, refl, refl))
        ]
      ]

  or_true : (a : Bool) → (a || true) ≡ true
  or_true true = refl
  or_true false = refl

  Retries-All : (steps : List Step) (w w' : Hooked) → Retries steps w w' → All IsRetried steps
  Retries-All _ _ _ no_call = tt
  Retries-All _ _ _ (interrupted {a} {more} e g) =
      (ap (λ b. b || would_block a) e, Retries-All _ _ _ g)
  Retries-All _ _ _ (blocked {a} {more} e went off late g) =
      (ap (λ b. is_interrupted a || b) e ∙ or_true (is_interrupted a), Retries-All _ _ _ g)

All-at :
    (before : List Step) (a : Step) (after : List Step)
    → All IsRetried (before ++ a ∷ after)
    → IsRetried a
All-at [] a after h = h.0
All-at (b ∷ before) a after h = All-at before a after h.1

-- The loop does not wait behind an answer that ends it.
io_loop_ends :
    (c : Waiter) (timeout : ℤ) (before : List Step) (a : Step) (after : List Step) (w w' : Hooked)
    → is_retried a ≡ false
    → io_loop c timeout (before ++ a ∷ after) w ≢ pending w'
io_loop_ends c timeout before a after w w' final e =
    let steps : List Step = before ++ a ∷ after in
    let h : All IsRetried steps =
      Retries-All c timeout steps w w'
        (subst (Explains c timeout steps w) e (io_loop-Explains c timeout steps w)) in
    absurd (cc (sym (All-at before a after h) ∙ final))
