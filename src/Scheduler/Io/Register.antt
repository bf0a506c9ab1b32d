-- ===== src/Scheduler/Io/Register.antt =====
-- IOScheduler::addEvent keeps the io scheduler valid, and when the io scheduler may stop.
use lo_netfw.Base.{
  and_parts, ℕ, ◌+◌, ◌-◌, ◌*◌, ◌/◌, ◌^◌, ◌≤◌, ◌<◌, ◌≡◌, refl, sym, ap, ◌∙◌, arith, Bool, true,
  false, not, ◌&&◌, ◌||◌, List, [], ◌∷◌, All, Option, none, some, length, get_elem?, set, ltb, ◌==◌,
  if◌then◌else◌, if_true, if_false, Bool-cases, inl, inr, ltb→lt, ltb→le, ==_iff,
}
use lo_netfw.Scheduler.Io.Defs.{
  Event, read, write, Events, has, with_event, is_any, FdContext, put_context, get_context, is_set,
  is_empty, load, IoScheduler, Outcome, ok, EpollCtl, ctl_add, ctl_mod, add_to, add_in, add_event,
  with_room, context_resize, create,
}
use lo_netfw.Scheduler.Io.Handle.{stopping}
use lo_netfw.Scheduler.Io.Contexts.{
  Loaded, Slot, IsSound, bit, events_of, pending, IsValid, get-IsSound, get-set, resized,
  get_elem-some,
}
use lo_netfw.Scheduler.Io.Invariant.{replaced-IsValid}
use mathlib.Core.Path.{subst}

with_room-IsValid :
    (fd : ℕ) (s : IoScheduler)
    → IsValid s
    → IsValid (with_room fd s) × (fd < length (with_room fd s).contexts)
unfolding with_room context_resize
with_room-IsValid fd s v = elim (Bool-cases (ltb fd (length s.contexts))) [
  | inl inside ↦
      subst (λ x. IsValid x × (fd < length x.contexts)) (sym (if_true _ _ _ inside))
        (v, ltb→lt fd (length s.contexts) inside)
  | inr outside ↦
      let le : length s.contexts ≤ fd = ltb→le fd (length s.contexts) outside in
      let (a, b, c) = resized s.contexts (fd * 3 / 2) v.sound (omega (arith, v.room)) in
      subst (λ x. IsValid x × (fd < length x.contexts)) (sym (if_false _ _ _ outside))
        (
          record { sound = a; counted = v.counted ∙ sym b; room = omega (arith, c, v.room) },
          omega (arith, c, v.room),
        )
]

-- A new io scheduler is valid.
pub create-IsValid : IsValid create
unfolding create context_resize
create-IsValid =
    let (a, b, c) = resized [] 32 tt (omega arith) in
    record { sound = a; counted = sym b; room = omega (arith, c) }

with_room-waiting : (fd : ℕ) (s : IoScheduler) → (with_room fd s).waiting ≡ s.waiting
unfolding with_room context_resize
with_room-waiting fd s = elim (Bool-cases (ltb fd (length s.contexts))) [
  | inl inside ↦ ap (λ (x : IoScheduler). x.waiting) (if_true _ _ _ inside)
  | inr outside ↦ ap (λ (x : IoScheduler). x.waiting) (if_false _ _ _ outside)
]

load-Loaded : (current fiber : ℕ) (cb : Option ℕ) → Loaded (load (some current) fiber cb)
load-Loaded current fiber none = (current, fiber, inr refl)
load-Loaded current fiber (some f) = (current, f, inl refl)

abbrev loaded : FdContext → Event → ℕ → ℕ → Option ℕ → FdContext
loaded ctx event current fiber cb = record (put_context ctx event (load (some current) fiber cb)) {
  event = with_event ctx.event event;
}

loaded-IsSound :
    (ctx : FdContext) (event : Event) (current fiber : ℕ) (cb : Option ℕ)
    → IsSound ctx
    → IsSound (loaded ctx event current fiber cb)
loaded-IsSound ctx read current fiber cb h = record {
  reader = load-Loaded current fiber cb;
  writer = h.writer;
}
loaded-IsSound ctx write current fiber cb h = record {
  reader = h.reader;
  writer = load-Loaded current fiber cb;
}

free_context :
    (ctx : FdContext) (event : Event)
    → IsSound ctx
    → has ctx.event event ≡ false
    → is_empty (get_context ctx event) ≡ true
free_context ctx read h off = ap is_empty (subst (λ b. Slot b ctx.r_event) off h.reader)
free_context ctx write h off = ap is_empty (subst (λ b. Slot b ctx.w_event) off h.writer)

has_with : (events : Events) (event : Event) → has (with_event events event) event ≡ true
has_with events read = refl
has_with events write = refl

loaded_count :
    (ctx : FdContext) (event : Event) (current fiber : ℕ) (cb : Option ℕ)
    → has ctx.event event ≡ false
    → events_of (loaded ctx event current fiber cb) ≡ events_of ctx + 1
loaded_count ctx read current fiber cb off =
    let none_yet : bit ctx.event.reads ≡ 0 = ap bit off in omega (arith, none_yet)
loaded_count ctx write current fiber cb off =
    let none_yet : bit ctx.event.writes ≡ 0 = ap bit off in omega (arith, none_yet)

-- What addEvent gives: it returns, the io scheduler is valid, and when the result is true the event is
-- registered and counted.
abbrev pub Adds : ℕ → Event → IoScheduler → Outcome Bool → Type 0
Adds fd event s o =
    (b : Bool) × (t : IoScheduler) × (o ≡ ok b t)
    × IsValid t
    × (b ≡ true
        → (t.waiting ≡ s.waiting + 1)
          × (ctx : FdContext) × (get_elem? t.contexts fd ≡ some ctx)
          × (has ctx.event event ≡ true))

refused :
    (fd : ℕ) (event : Event) (s t : IoScheduler) (o : Outcome Bool)
    → IsValid t
    → o ≡ ok false t
    → Adds fd event s o
refused fd event s t o v e = (false, t, e, v, λ f. absurd (cc (f)))

module _ (epoll_ctl : EpollCtl) (current fiber : ℕ) (is_exec : Bool) (fd : ℕ) (event : Event)
    (cb : Option ℕ) where
  add_to-Adds :
      (ctx : FdContext) (s : IoScheduler)
      → IsValid s
      → get_elem? s.contexts fd ≡ some ctx
      → (is_set cb || is_exec) ≡ true
      → Adds fd event s (add_to epoll_ctl (some current) fiber is_exec fd event cb ctx s)
  add_to-Adds ctx s v e able = elim (Bool-cases (has ctx.event event)) [
    | inl twice ↦ refused fd event s s _ v (if_true _ _ _ twice)
    | inr off ↦
        elim (Bool-cases (
          epoll_ctl (if is_any ctx.event then ctl_mod else ctl_add) fd
            (with_event ctx.event event))) [
              | inr failed ↦
                  refused fd event s s _ v (if_false _ _ _ off ∙ if_true _ _ _ (ap not failed))
              | inl accepted ↦
                  let h : IsSound ctx = get-IsSound s.contexts fd ctx v.sound e in
                  let ctx' : FdContext = loaded ctx event current fiber cb in
                  (
                    true,
                    record s { waiting = s.waiting + 1; contexts = set s.contexts fd ctx' },
                    if_false _ _ _ off
                        ∙ if_false _ _ _ (ap not accepted)
                        ∙ if_false _ _ _ (ap not (free_context ctx event h off))
                        ∙ if_false _ _ _ (fit (is_set cb) is_exec able),
                    replaced-IsValid s v fd ctx e ctx' (loaded-IsSound ctx event current fiber cb h)
                        _ refl (omega (arith, loaded_count ctx event current fiber cb off)),
                    λ _. (refl, ctx', get-set s.contexts fd ctx ctx' e, seen ctx event),
                  )
            ]
  ]
    where
      fit : (a b : Bool) → (a || b) ≡ true → (not a && not b) ≡ false
      fit true b h = refl
      fit false true h = refl
      fit false false h = absurd (cc (h))

      seen : (c : FdContext) (ev : Event) → has (loaded c ev current fiber cb).event ev ≡ true
      seen c ev = has_with c.event ev

  -- In a valid io scheduler, addEvent with a callback or from a running fiber, on a thread of some
  -- scheduler, returns at no failed assertion, whatever the descriptor; the io scheduler stays
  -- valid, and when the result is 0 the event is registered and counted.
  pub add_event-Adds :
      (s : IoScheduler)
      → IsValid s
      → (is_set cb || is_exec) ≡ true
      → Adds fd event s (add_event epoll_ctl (some current) fiber is_exec fd event cb s)
  unfolding add_event
  add_event-Adds s v able =
      let (w, inside) = with_room-IsValid fd s v in
      let (ctx, e) = get_elem-some (with_room fd s).contexts fd inside in
      let (b, t, r, x, rest) = add_to-Adds ctx (with_room fd s) w e able in
      (
        b,
        t,
        ap (add_in epoll_ctl (some current) fiber is_exec fd event cb (with_room fd s)) e ∙ r,
        x,
        λ f.
            let (n, c, at, there) = rest f in
            (n ∙ ap (λ (k : ℕ). k + 1) (with_room-waiting fd s), c, at, there),
      )

none_pending : (cs : List FdContext) → pending cs ≡ 0 → All (λ c. is_any c.event ≡ false) cs
none_pending [] h = tt
none_pending (c ∷ cs) h =
    (quiet c.event.reads c.event.writes (omega arith), none_pending cs (omega arith))
  where
    quiet : (a b : Bool) → bit a + bit b ≡ 0 → (a || b) ≡ false
    quiet true b g = absurd (omega arith)
    quiet false true g = absurd (omega arith)
    quiet false false g = refl

-- A valid io scheduler stops only when no context has an event registered, the time to the next
-- timer is 2^64-1, and the scheduler itself is ready to stop.
stopping_quiet :
    (timeout : ℕ) (scheduler_stopping : Bool) (s : IoScheduler)
    → IsValid s
    → stopping timeout scheduler_stopping s ≡ true
    → All (λ c. is_any c.event ≡ false) s.contexts
      × (timeout ≡ 2 ^ 64 - 1)
      × (scheduler_stopping ≡ true)
unfolding stopping
stopping_quiet timeout scheduler_stopping s v h =
    let (a, bc) = and_parts (timeout == 2 ^ 64 - 1) (s.waiting == 0 && scheduler_stopping) h in
    let (b, c) = and_parts (s.waiting == 0) scheduler_stopping bc in
    (
      none_pending s.contexts (sym v.counted ∙ (==_iff s.waiting 0).0 b),
      (==_iff timeout (2 ^ 64 - 1)).0 a,
      c,
    )
