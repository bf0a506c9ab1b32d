-- ===== src/Scheduler/Tasks/Pick.antt =====
-- The search takes the first task that the thread can run, and no other task.
use lo_netfw.Base.{
  ℕ, ◌≡◌, refl, sym, ap, ◌∙◌, ◌⊎◌, inl, inr, Bool, true, false, not, ◌&&◌, ◌||◌, List, [], ◌∷◌,
  ◌++◌, All, Bool-cases, if_true, if_false,
}
use lo_netfw.Fiber.{State}
use lo_netfw.Scheduler.Tasks.{
  Task, has_work, is_elsewhere, is_running, Picked, picked, nothing, passed, pick,
}
use mathlib.Core.Path.{subst}

abbrev pub HasWork : Task → Type 0
HasWork t = has_work t ≡ true

-- Whether a task of the list is for another thread.
abbrev pub any_elsewhere : ℕ → List Task → Bool
any_elsewhere thread [] = false
any_elsewhere thread (t ∷ ts) = is_elsewhere thread t.thread_id || any_elsewhere thread ts

module _ (state_of : ℕ → State) (thread : ℕ) where
  -- The thread can run the task now.
  abbrev pub is_eligible : Task → Bool
  is_eligible t = not (is_elsewhere thread t.thread_id) && not (is_running state_of t.fiber)

  abbrev pub Waits : Task → Type 0
  Waits t = is_eligible t ≡ false

  -- `t` is the first task of `ts` that the thread can run, `rest` are the others, in their order, and
  -- `notifies` tells whether a task before it is for another thread.
  pub record First (ts : List Task) (notifies : Bool) (t : Task) (rest : List Task) : Type 0 where
    pub before : List Task
    pub after : List Task
    pub all : ts ≡ before ++ t ∷ after
    pub others : rest ≡ before ++ after
    pub wait : All Waits before
    pub eligible : is_eligible t ≡ true
    pub notified : notifies ≡ any_elsewhere thread before

  abbrev pub Finds : List Task → Picked → Type 0
  Finds ts o =
      ((n : Bool) × (t : Task) × (rest : List Task) × (o ≡ picked n t rest) × First ts n t rest)
      ⊎ ((o ≡ nothing (any_elsewhere thread ts)) × All Waits ts)

  passed-Finds :
      (t : Task) (ts : List Task) (o : Picked)
      → is_eligible t ≡ false
      → Finds ts o
      → Finds (t ∷ ts) (passed (is_elsewhere thread t.thread_id) t o)
  passed-Finds t ts o waits (inl (n, t', rest, e, f)) = inl (
    is_elsewhere thread t.thread_id || n,
    t',
    t ∷ rest,
    ap (passed (is_elsewhere thread t.thread_id) t) e,
    record {
      before = t ∷ f.before;
      after = f.after;
      all = ap (λ xs. t ∷ xs) f.all;
      others = ap (λ xs. t ∷ xs) f.others;
      wait = (waits, f.wait);
      eligible = f.eligible;
      notified = ap (λ b. is_elsewhere thread t.thread_id || b) f.notified;
    },
  )
  passed-Finds t ts o waits (inr (e, w)) =
      inr (ap (passed (is_elsewhere thread t.thread_id) t) e, (waits, w))

  -- Among tasks that all hold work, the search of run takes the first task that is neither for
  -- another thread nor a fiber that runs, and leaves the others in their order, or takes none when
  -- there is no such task; it notifies exactly when a task it passed over is for another thread.
  pub pick-Finds : (ts : List Task) → All HasWork ts → Finds ts (pick state_of thread ts)
  unfolding pick
  pick-Finds [] h = inr (refl, tt)
  pick-Finds (t ∷ ts) h =
      let Next : Bool → Type 0 = λ b. Finds (t ∷ ts) (passed b t (pick state_of thread ts)) in
      let skips : is_eligible t ≡ false → Next (is_elsewhere thread t.thread_id) =
        λ w. passed-Finds t ts _ w (pick-Finds ts h.1) in
      elim (Bool-cases (is_elsewhere thread t.thread_id)) [
        | inl e ↦
            subst (Finds (t ∷ ts)) (sym (if_true _ _ _ e))
              (subst Next e (skips (ap (λ b. not b && not (is_running state_of t.fiber)) e)))
        | inr e ↦ elim (Bool-cases (is_running state_of t.fiber)) [
          | inl r ↦
              subst (Finds (t ∷ ts))
                (sym (if_false _ _ _ e ∙ if_false _ _ _ (ap not h.0) ∙ if_true _ _ _ r))
                (subst Next e (skips (rw (e, r) refl)))
          | inr r ↦
              subst (Finds (t ∷ ts))
                (sym (if_false _ _ _ e ∙ if_false _ _ _ (ap not h.0) ∙ if_false _ _ _ r))
                (inl (
                  false,
                  t,
                  ts,
                  refl,
                  record {
                    before = [];
                    after = ts;
                    all = refl;
                    others = refl;
                    wait = tt;
                    eligible = rw (e, r) refl;
                    notified = refl;
                  },
                ))
        ]
      ]
