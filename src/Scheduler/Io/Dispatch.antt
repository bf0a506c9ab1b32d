-- ===== src/Scheduler/Io/Dispatch.antt =====
-- What IOScheduler::idle does with an event that `epoll_wait` reports.
use lo_netfw.Base.{
  ℕ, ◌≡◌, refl, sym, ap, ◌∙◌, Bool, true, false, not, ◌&&◌, ◌||◌, List, [], ◌++◌, if◌then◌else◌,
  none, some, get_elem?, if_true, if_false, Bool-cases, inl, inr,
}
use lo_netfw.Scheduler.Io.Defs.{
  read, write, Events, is_any, Work, FdContext, IoScheduler, Outcome, Op, ok, assertion, fault,
  EpollCtl, op_after, trigger_event,
}
use lo_netfw.Scheduler.Io.Handle.{
  after_trigger, trigger_at, trigger_if, done, EpollEvent, real_event, left_event, handle_at,
  handle_event,
}
use lo_netfw.Scheduler.Io.Contexts.{work_in, IsValid}
use lo_netfw.Scheduler.Io.Invariant.{trigger_at-Fires}
use mathlib.Core.Path.{ap₂, subst}
use mathlib.Core.List.{append-nil, append_assoc}

-- The reported events are among the registered ones.
abbrev pub Within : Events → Events → Type 0
Within real events =
    (real.reads ≡ true → events.reads ≡ true) × (real.writes ≡ true → events.writes ≡ true)

-- What the contexts of the reported events wait to hand over, READ first.
abbrev pub work_of : FdContext → Events → List (ℕ × Work)
work_of ctx real =
    (if real.reads then work_in ctx.r_event else [])
    ++ (if real.writes then work_in ctx.w_event else [])

-- The context of `fd` keeps the events that were not reported, and the work of the reported ones is
-- handed over behind the tasks that are there.
abbrev pub Resumes : IoScheduler → ℕ → FdContext → Events → IoScheduler → Type 0
Resumes s fd ctx real t =
    (ctx' : FdContext) × (get_elem? t.contexts fd ≡ some ctx')
    × (ctx'.event ≡ left_event ctx.event real)
    × (t.tasks ≡ s.tasks ++ work_of ctx real)

keep_off : (a b : Bool) → b ≡ false → a ≡ (a && not b)
keep_off true b h = ap not (sym h)
keep_off false b h = refl

take_off : (a b : Bool) → b ≡ true → false ≡ (a && not b)
take_off true b h = ap not (sym h)
take_off false b h = refl

abbrev events_eq : Bool → Bool → Events
events_eq a b = record { reads = a; writes = b }

-- A trigger of WRITE, if reported, ends the dispatch.
dispatch_write :
    (s : IoScheduler) (fd : ℕ) (ctx : FdContext) (reported : Bool)
    → IsValid s
    → get_elem? s.contexts fd ≡ some ctx
    → (reported ≡ true → ctx.event.writes ≡ true)
    → (t : IoScheduler) × (trigger_if reported fd write ctx s done ≡ ok true t)
      × IsValid t
      × (ctx' : FdContext) × (get_elem? t.contexts fd ≡ some ctx')
      × (ctx'.event ≡ events_eq ctx.event.reads (ctx.event.writes && not reported))
      × (t.tasks ≡ s.tasks ++ (if reported then work_in ctx.w_event else []))
unfolding trigger_if
dispatch_write s fd ctx true v e within =
    let (ctx', t, r, w, at, left, _, tasks, _) =
      trigger_at-Fires s v fd ctx write done e (within refl) in
    (
      t,
      r,
      w,
      ctx',
      at,
      left ∙ ap (events_eq ctx.event.reads) (take_off ctx.event.writes true refl),
      tasks,
    )
dispatch_write s fd ctx false v e within = (
  s,
  refl,
  v,
  ctx,
  e,
  ap (events_eq ctx.event.reads) (keep_off ctx.event.writes false refl),
  sym (append-nil s.tasks),
)

-- A trigger of READ, if reported, and then that of WRITE.
dispatch_both :
    (s : IoScheduler) (fd : ℕ) (ctx : FdContext) (r w : Bool)
    → IsValid s
    → get_elem? s.contexts fd ≡ some ctx
    → (r ≡ true → ctx.event.reads ≡ true)
    → (w ≡ true → ctx.event.writes ≡ true)
    → (t : IoScheduler) × (trigger_if r fd read ctx s
          (λ ctx' s'. trigger_if w fd write ctx' s' done)
        ≡ ok true t)
      × IsValid t
      × (ctx' : FdContext) × (get_elem? t.contexts fd ≡ some ctx')
      × (ctx'.event ≡ events_eq (ctx.event.reads && not r) (ctx.event.writes && not w))
      × (t.tasks ≡ s.tasks ++ work_of ctx (events_eq r w))
unfolding trigger_if
dispatch_both s fd ctx true w v e reads writes =
    let (ctx', t, r, x, at, left, _, first, other) =
      trigger_at-Fires s v fd ctx read (λ c u. trigger_if w fd write c u done) e (reads refl) in
    let same : ctx'.event.writes ≡ ctx.event.writes = ap (λ a. a.writes) left in
    let (u, q, y, c, there, events, tasks) =
      dispatch_write t fd ctx' w x at (λ h. same ∙ writes h) in
    (
      u,
      r ∙ q,
      y,
      c,
      there,
      events
          ∙ ap₂ (λ a b. events_eq a (b && not w))
              (ap (λ a. a.reads) left ∙ take_off ctx.event.reads true refl) same,
      tasks
          ∙ ap₂ (λ ts c'. ts ++ (if w then work_in c' else [])) first other
          ∙ append_assoc s.tasks (work_in ctx.r_event) (if w then work_in ctx.w_event else []),
    )
dispatch_both s fd ctx false w v e reads writes =
    let (u, q, y, c, there, events, tasks) = dispatch_write s fd ctx w v e writes in
    (
      u,
      q,
      y,
      c,
      there,
      events
          ∙ ap (λ a. events_eq a (ctx.event.writes && not w)) (keep_off ctx.event.reads false refl),
      tasks,
    )

module _ (epoll_ctl : EpollCtl) (fd : ℕ) (e : EpollEvent) (s : IoScheduler) (ctx : FdContext) where
  enters :
      get_elem? s.contexts fd ≡ some ctx
      → handle_event epoll_ctl fd e s ≡ handle_at epoll_ctl fd e ctx s
  unfolding handle_event
  enters at = ap (λ o. elim o [ none ↦ fault | some c ↦ handle_at epoll_ctl fd e c s ]) at

  -- The body gives the answer `b`.
  abbrev pub Ends : Bool → Outcome Bool → Type 0
  Ends b o =
      (t : IoScheduler) × (o ≡ ok b t)
      × IsValid t
      × (if b then Resumes s fd ctx (real_event e ctx.event) t else t ≡ s)

  -- In a valid io scheduler, an event that is reported for a context and registered there fails no
  -- assertion, and the io scheduler stays valid: the body runs to its end exactly when READ or
  -- WRITE is reported and epoll_ctl accepts the events that are left, and then the context keeps
  -- just those, and the callback or the fiber that waits for each reported event is handed to its
  -- scheduler behind the tasks that are there, READ first; else nothing changes.
  pub handle_event-Ends :
      IsValid s
      → get_elem? s.contexts fd ≡ some ctx
      → Within (real_event e ctx.event) ctx.event
      → let left = left_event ctx.event (real_event e ctx.event) in
        Ends
          (is_any (real_event e ctx.event) && epoll_ctl (op_after left) fd left)
          (handle_event epoll_ctl fd e s)
  handle_event-Ends v at within = elim (Bool-cases (is_any (real_event e ctx.event))) [
    | inr miss ↦
        answers false (ap (λ b. b && accepts) miss)
          (s, enters at ∙ if_true _ _ _ (ap not (hit ∙ miss)), v, refl)
    | inl some_hit ↦ elim (Bool-cases accepts) [
      | inr failed ↦ answers false (ap (λ b. b && accepts) some_hit ∙ failed) (
        s,
        enters at ∙ if_false _ _ _ (ap not (hit ∙ some_hit)) ∙ if_true _ _ _ (ap not failed),
        v,
        refl,
      )
      | inl accepted ↦
          let (t, r, w, ctx', there, events, tasks) =
            dispatch_both s fd ctx (real_event e ctx.event).reads (real_event e ctx.event).writes v
              at within.0 within.1 in
          answers true (ap (λ b. b && accepts) some_hit ∙ accepted) (
            t,
            enters at
                ∙ if_false _ _ _ (ap not (hit ∙ some_hit))
                ∙ if_false _ _ _ (ap not accepted)
                ∙ r,
            w,
            (ctx', there, events, tasks),
          )
    ]
  ]
    where
      accepts : Bool
      accepts =
          let left = left_event ctx.event (real_event e ctx.event) in
          epoll_ctl (op_after left) fd left

      answers :
          (b : Bool)
          → (is_any (real_event e ctx.event) && accepts) ≡ b
          → Ends b (handle_event epoll_ctl fd e s)
          → Ends (is_any (real_event e ctx.event) && accepts) (handle_event epoll_ctl fd e s)
      answers b same = subst (λ c. Ends c (handle_event epoll_ctl fd e s)) (sym same)

      covered : (a b : Bool) → (b ≡ true → a ≡ true) → (a && b) ≡ b
      covered true b h = refl
      covered false true h = h refl
      covered false false h = refl

      hit :
          ((ctx.event.reads && (real_event e ctx.event).reads)
            || (ctx.event.writes && (real_event e ctx.event).writes))
          ≡ is_any (real_event e ctx.event)
      hit =
          ap₂ (λ a b. a || b) (covered ctx.event.reads (real_event e ctx.event).reads within.0)
            (covered ctx.event.writes (real_event e ctx.event).writes within.1)

  -- In a valid io scheduler, an event with EPOLLIN and EPOLLOUT that is reported for a context
  -- where only READ is registered stops at the assertion of triggerEvent once epoll_ctl has
  -- succeeded.
  handle_event_unregistered :
      IsValid s
      → get_elem? s.contexts fd ≡ some ctx
      → ctx.event ≡ record { reads = true; writes = false }
      → e.epoll_in ≡ true
      → e.epoll_out ≡ true
      → ((op : Op) (events : Events) → epoll_ctl op fd events ≡ true)
      → handle_event epoll_ctl fd e s ≡ assertion
  unfolding trigger_if trigger_at trigger_event
  handle_event_unregistered v at only i o accepts =
      enters at
      ∙ if_false _ _ _ (ap not hit)
      ∙ if_false _ _ _ (ap not (accepts _ _))
      ∙ ap₂ (λ a b. trigger_if a fd read ctx s (λ c u. trigger_if b fd write c u done)) reads writes
      ∙ stops
    where
      reads : (real_event e ctx.event).reads ≡ true
      reads = ap (λ b. b || (e.epoll_err && ctx.event.reads)) i

      writes : (real_event e ctx.event).writes ≡ true
      writes = ap (λ b. b || (e.epoll_err && ctx.event.writes)) o

      hit :
          ((ctx.event.reads && (real_event e ctx.event).reads)
            || (ctx.event.writes && (real_event e ctx.event).writes))
          ≡ true
      hit =
          ap₂ (λ (a : Bool) b. (a && b) || (ctx.event.writes && (real_event e ctx.event).writes))
            (ap (λ x. x.reads) only) reads

      stops : trigger_at fd read ctx s (λ c u. trigger_if true fd write c u done) ≡ assertion
      stops =
          let (ctx', t, r, w, there, left, _, _, _) =
            trigger_at-Fires s v fd ctx read (λ c u. trigger_if true fd write c u done) at
              (ap (λ x. x.reads) only) in
          let off : ctx'.event.writes ≡ false = ap (λ x. x.writes) left ∙ ap (λ x. x.writes) only in
          r ∙ ap (after_trigger fd t done) (if_false _ _ _ off)
