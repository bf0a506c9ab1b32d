-- ===== src/Scheduler/Io/Invariant.antt =====
-- The io scheduler stays valid: no call stops at an assertion or follows a null pointer, and the count
-- is that of the registered events.
use lo_netfw.Base.{
  ℕ, ◌+◌, ◌-◌, ◌≤◌, ◌≡◌, refl, sym, ap, ◌∙◌, arith, Bool, true, false, not, [], ◌∷◌, ◌++◌, All,
  some, length, length-append, length-set, get_elem?, set, sub64, if_false, Bool-cases,
  Option-cases, inl, inr, le→leb,
}
use lo_netfw.Scheduler.Io.Defs.{
  Event, read, write, has, without, empty_context, FdContext, get_context, put_context, IoScheduler,
  Outcome, ok, EpollCtl, from_context, op_after, del_at, del_event,
}
use lo_netfw.Scheduler.Io.Handle.{after_trigger, trigger_at, done, cancel_at, cancel_event}
use lo_netfw.Scheduler.Io.Contexts.{
  IsSound, work_in, opposite, events_of, pending, IsValid, get-IsSound, set-IsSound, get-set,
  pending-set, events_of-le, trigger_event-TriggersOne, events_of-without,
}
use mathlib.Core.Path.{subst}

module _ (s : IoScheduler) (v : IsValid s) (fd : ℕ) (ctx : FdContext) where
  -- A context is replaced, and the count follows.
  pub replaced-IsValid :
      get_elem? s.contexts fd ≡ some ctx
      → (ctx' : FdContext) → IsSound ctx'
      → (t : IoScheduler) → t.contexts ≡ set s.contexts fd ctx'
      → t.waiting + events_of ctx ≡ s.waiting + events_of ctx'
      → IsValid t
  replaced-IsValid e ctx' g t here n = record {
    sound = subst (All IsSound) (sym here) (set-IsSound s.contexts fd ctx' v.sound g);
    counted = omega (arith, v.counted, pending-set s.contexts fd ctx ctx' e, ap pending here);
    room = omega (arith, ap length here, length-set s.contexts fd ctx', v.room);
  }

  pub count_down :
      get_elem? s.contexts fd ≡ some ctx → 1 ≤ events_of ctx → sub64 s.waiting 1 ≡ s.waiting - 1
  count_down e some_event =
      rw (le→leb 1 s.waiting (omega (arith, v.counted, events_of-le s.contexts fd ctx e))) refl

  -- The state after a trigger of `event`, before what follows.
  abbrev pub Fires : Event → (FdContext → IoScheduler → Outcome Bool) → Outcome Bool → Type 0
  Fires event next o =
      (ctx' : FdContext) × (t : IoScheduler) × (o ≡ next ctx' t)
      × IsValid t
      × (get_elem? t.contexts fd ≡ some ctx')
      × (ctx'.event ≡ without ctx.event event)
      × (length t.tasks ≡ length s.tasks + 1)
      × (t.tasks ≡ s.tasks ++ work_in (get_context ctx event))
      × (get_context ctx' (opposite event) ≡ get_context ctx (opposite event))

  pub trigger_at-Fires :
      (event : Event) (next : FdContext → IoScheduler → Outcome Bool)
      → get_elem? s.contexts fd ≡ some ctx
      → has ctx.event event ≡ true
      → Fires event next (trigger_at fd event ctx s next)
  unfolding trigger_at
  trigger_at-Fires event next e set_event =
      let h : IsSound ctx = get-IsSound s.contexts fd ctx v.sound e in
      let (ctx', task, r, g, left, work, other) =
        trigger_event-TriggersOne ctx s.tasks h event set_event in
      let one : events_of ctx' + 1 ≡ events_of ctx =
        events_of-without event ctx ctx' set_event left in
      let down : sub64 s.waiting 1 ≡ s.waiting - 1 = count_down e (omega arith) in
      (
        ctx',
        record s {
          waiting = sub64 s.waiting 1;
          contexts = set s.contexts fd ctx';
          tasks = s.tasks ++ task ∷ [];
        },
        ap (after_trigger fd s next) r,
        replaced-IsValid e ctx' g _ refl
            (omega (arith, down, v.counted, events_of-le s.contexts fd ctx e)),
        get-set s.contexts fd ctx ctx' e,
        left,
        length-append s.tasks (task ∷ []),
        ap (λ w. s.tasks ++ w) (sym work),
        other,
      )

-- What a call gives: it returns and the state is valid; when it gives false the state is as it was,
-- when it gives true the state is as `After` says.
abbrev pub Returns : IoScheduler → (IoScheduler → Type 0) → Outcome Bool → Type 0
Returns s After o =
    (b : Bool) × (t : IoScheduler) × (o ≡ ok b t)
    × IsValid t
    × (b ≡ false → t ≡ s)
    × (b ≡ true → After t)

pub unchanged :
    (s : IoScheduler) (After : IoScheduler → Type 0) (o : Outcome Bool)
    → IsValid s
    → o ≡ ok false s
    → Returns s After o
unchanged s After o v e = (false, s, e, v, λ _. refl, λ f. absurd (cc (f)))

-- The context of `fd` has lost `event`, and `n` tasks have been handed over.
abbrev pub Dropped : IoScheduler → ℕ → Event → ℕ → IoScheduler → Type 0
Dropped s fd event n t =
    (ctx : FdContext) × (ctx' : FdContext) × (get_elem? s.contexts fd ≡ some ctx)
    × (get_elem? t.contexts fd ≡ some ctx')
    × (ctx'.event ≡ without ctx.event event)
    × (has ctx.event event ≡ true)
    × (length t.tasks ≡ length s.tasks + n)

abbrev emptied : FdContext → Event → FdContext
emptied ctx event = record (put_context ctx event empty_context) { event = without ctx.event event }

emptied-IsSound : (ctx : FdContext) (event : Event) → IsSound ctx → IsSound (emptied ctx event)
emptied-IsSound ctx read h = record { reader = refl; writer = h.writer }
emptied-IsSound ctx write h = record { reader = h.reader; writer = refl }

-- In a valid io scheduler, cancelEvent returns and the io scheduler stays valid; when it gives
-- true the event was registered, is taken out, and one task more is handed over; when it gives
-- false nothing has changed.
cancel_event-Returns :
    (epoll_ctl : EpollCtl) (fd : ℕ) (event : Event) (s : IoScheduler)
    → IsValid s
    → Returns s (Dropped s fd event 1) (cancel_event epoll_ctl fd event s)
unfolding cancel_event
cancel_event-Returns epoll_ctl fd event s v = elim (Option-cases (get_elem? s.contexts fd)) [
  | inl e ↦ unchanged s _ _ v (ap (from_context (cancel_at epoll_ctl fd event) s) e)
  | inr (ctx, e) ↦ elim (Bool-cases (has ctx.event event)) [
    | inr off ↦
        unchanged s _ _ v (ap (from_context (cancel_at epoll_ctl fd event) s) e ∙ rw off refl)
    | inl on ↦
        elim (Bool-cases
          (epoll_ctl (op_after (without ctx.event event)) fd (without ctx.event event))) [
            | inr refused ↦
                unchanged s _ _ v
                  (ap (from_context (cancel_at epoll_ctl fd event) s) e ∙ rw (on, refused) refl)
            | inl accepted ↦
                let (ctx', t, r, w, at, left, more, _, _) =
                  trigger_at-Fires s v fd ctx event done e on in
                (
                  true,
                  t,
                  ap (from_context (cancel_at epoll_ctl fd event) s) e
                      ∙ if_false _ _ _ (ap not on)
                      ∙ if_false _ _ _ (ap not accepted)
                      ∙ r,
                  w,
                  λ f. absurd (cc (f)),
                  λ _. (ctx, ctx', e, at, left, on, more),
                )
          ]
  ]
]

-- In a valid io scheduler, delEvent returns and the io scheduler stays valid; when it gives true
-- the event was registered, is taken out, and no task is handed over; when it gives false nothing
-- has changed.
del_event-Returns :
    (epoll_ctl : EpollCtl) (fd : ℕ) (event : Event) (s : IoScheduler)
    → IsValid s
    → Returns s (Dropped s fd event 0) (del_event epoll_ctl fd event s)
unfolding del_event
del_event-Returns epoll_ctl fd event s v = elim (Option-cases (get_elem? s.contexts fd)) [
  | inl e ↦ unchanged s _ _ v (ap (from_context (del_at epoll_ctl fd event) s) e)
  | inr (ctx, e) ↦ elim (Bool-cases (has ctx.event event)) [
    | inr off ↦ unchanged s _ _ v (ap (from_context (del_at epoll_ctl fd event) s) e ∙ rw off refl)
    | inl on ↦
        elim (Bool-cases
          (epoll_ctl (op_after (without ctx.event event)) fd (without ctx.event event))) [
            | inr refused ↦
                unchanged s _ _ v
                  (ap (from_context (del_at epoll_ctl fd event) s) e ∙ rw (on, refused) refl)
            | inl accepted ↦
                let h : IsSound ctx = get-IsSound s.contexts fd ctx v.sound e in
                let one : events_of (emptied ctx event) + 1 ≡ events_of ctx =
                  events_of-without event ctx (emptied ctx event) on refl in
                let down : sub64 s.waiting 1 ≡ s.waiting - 1 =
                  count_down s v fd ctx e (omega arith) in
                (
                  true,
                  record s {
                    waiting = sub64 s.waiting 1;
                    contexts = set s.contexts fd (emptied ctx event);
                  },
                  ap (from_context (del_at epoll_ctl fd event) s) e ∙ rw (on, accepted) refl,
                  replaced-IsValid s v fd ctx e (emptied ctx event) (emptied-IsSound ctx event h) _
                      refl (omega (arith, down, v.counted, events_of-le s.contexts fd ctx e)),
                  λ f. absurd (cc (f)),
                  λ _. (
                    ctx,
                    emptied ctx event,
                    e,
                    get-set s.contexts fd ctx (emptied ctx event) e,
                    refl,
                    on,
                    omega arith,
                  ),
                )
          ]
  ]
]
