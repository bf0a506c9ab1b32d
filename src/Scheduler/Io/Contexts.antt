-- ===== src/Scheduler/Io/Contexts.antt =====
-- When the contexts of an io scheduler are well formed, and the count of the events they wait for.
use lo_netfw.Base.{
  ℕ, zero, suc, ◌+◌, ◌-◌, ◌≤◌, ◌<◌, ◌≡◌, ◌⊎◌, refl, ap, ◌∙◌, arith, Bool, true, false, List, [],
  ◌∷◌, ◌++◌, All, Option, none, some, length, get_elem?, set, take, replicate, inl, inr,
  length-append, length-replicate,
}
use lo_netfw.Scheduler.Io.Defs.{
  Event, read, write, has, without, EventContext, empty_context, FdContext, fresh_context, Work,
  call, resume, get_context, Triggered, triggered, trigger_event, IoScheduler,
}
use mathlib.Core.Path.{subst}
use mathlib.Core.Option.{some-injective}

-- A context that waits: it has a scheduler, and either a callback or a fiber.
abbrev pub Loaded : EventContext → Type 0
Loaded c =
    (s : ℕ) × (f : ℕ) × ((c ≡ record { scheduler = some s; fiber = none; cb = some f })
      ⊎ (c ≡ record { scheduler = some s; fiber = some f; cb = none }))

abbrev pub Slot : Bool → EventContext → Type 0
Slot true c = Loaded c
Slot false c = c ≡ empty_context

-- The context of an event is loaded when the event is registered, and empty when it is not.
pub record IsSound (ctx : FdContext) : Type 0 where
  pub reader : Slot ctx.event.reads ctx.r_event
  pub writer : Slot ctx.event.writes ctx.w_event

abbrev pub bit : Bool → ℕ
bit true = 1
bit false = 0

abbrev pub events_of : FdContext → ℕ
events_of ctx = bit ctx.event.reads + bit ctx.event.writes

-- How many events are registered in all.
abbrev pub pending : List FdContext → ℕ
pending [] = 0
pending (c ∷ cs) = events_of c + pending cs

-- Every context is sound, and the count is that of the registered events. The table has room for
-- the descriptors up to 31 at least, as the constructor makes it.
pub record IsValid (s : IoScheduler) : Type 0 where
  pub sound : All IsSound s.contexts
  pub counted : s.waiting ≡ pending s.contexts
  pub room : 32 ≤ length s.contexts

pub get-IsSound :
    (cs : List FdContext) (i : ℕ) (c : FdContext)
    → All IsSound cs
    → get_elem? cs i ≡ some c
    → IsSound c
get-IsSound [] i c h e = absurd (cc (e))
get-IsSound (d ∷ ds) zero c h e = subst IsSound (some-injective d c e) h.0
get-IsSound (d ∷ ds) (suc i) c h e = get-IsSound ds i c h.1 e

pub set-IsSound :
    (cs : List FdContext) (i : ℕ) (c : FdContext)
    → All IsSound cs
    → IsSound c
    → All IsSound (set cs i c)
set-IsSound [] i c h g = tt
set-IsSound (d ∷ ds) zero c h g = (g, h.1)
set-IsSound (d ∷ ds) (suc i) c h g = (h.0, set-IsSound ds i c h.1 g)

pub get-set :
    (cs : List FdContext) (i : ℕ) (c d : FdContext)
    → get_elem? cs i ≡ some c
    → get_elem? (set cs i d) i ≡ some d
get-set [] i c d e = absurd (cc (e))
get-set (x ∷ xs) zero c d e = refl
get-set (x ∷ xs) (suc i) c d e = get-set xs i c d e

pub pending-set :
    (cs : List FdContext) (i : ℕ) (c d : FdContext)
    → get_elem? cs i ≡ some c
    → pending (set cs i d) + events_of c ≡ pending cs + events_of d
pending-set [] i c d e = absurd (cc (e))
pending-set (x ∷ xs) zero c d e =
    let same : events_of x ≡ events_of c = ap events_of (some-injective x c e) in
    omega (arith, same)
pending-set (x ∷ xs) (suc i) c d e = omega (arith, pending-set xs i c d e)

take_all : (cs : List FdContext) (n : ℕ) → length cs ≤ n → take n cs ≡ cs
take_all [] zero h = refl
take_all [] (suc n) h = refl
take_all (c ∷ cs) zero h = absurd (omega arith)
take_all (c ∷ cs) (suc n) h = ap (◌∷◌ c) (take_all cs n (omega arith))

fresh_end :
    (cs : List FdContext) (k : ℕ)
    → All IsSound cs
    → All IsSound (cs ++ replicate k fresh_context)
      × (pending (cs ++ replicate k fresh_context) ≡ pending cs)
fresh_end [] zero h = (tt, refl)
fresh_end [] (suc k) h =
    let (a, b) = fresh_end [] k tt in
    ((record { reader = refl; writer = refl }, a), omega (arith, b))
fresh_end (c ∷ cs) k h = let (a, b) = fresh_end cs k h.1 in ((h.0, a), omega (arith, b))

-- A larger table holds the old contexts and then fresh ones.
pub resized :
    (cs : List FdContext) (n : ℕ)
    → All IsSound cs
    → length cs ≤ n
    → All IsSound (take n cs ++ replicate (n - length cs) fresh_context)
      × (pending (take n cs ++ replicate (n - length cs) fresh_context) ≡ pending cs)
      × (length (take n cs ++ replicate (n - length cs) fresh_context) ≡ n)
resized cs n h le =
    let (a, b) = fresh_end cs (n - length cs) h in
    rw (take_all cs n le) (
      a,
      b,
      omega (
        arith,
        length-append cs (replicate (n - length cs) fresh_context),
        length-replicate (n - length cs) fresh_context,
      ),
    )

pub get_elem-some :
    (cs : List FdContext) (i : ℕ) → i < length cs → (c : FdContext) × (get_elem? cs i ≡ some c)
get_elem-some [] i h = absurd (omega arith)
get_elem-some (c ∷ cs) zero h = (c, refl)
get_elem-some (c ∷ cs) (suc i) h = get_elem-some cs i (omega arith)

pub events_of-le :
    (cs : List FdContext) (i : ℕ) (c : FdContext)
    → get_elem? cs i ≡ some c
    → events_of c ≤ pending cs
events_of-le [] i c e = absurd (cc (e))
events_of-le (x ∷ xs) zero c e =
    let same : events_of x ≡ events_of c = ap events_of (some-injective x c e) in
    omega (arith, same)
events_of-le (x ∷ xs) (suc i) c e = omega (arith, events_of-le xs i c e)

-- The task that a context waits to hand over, to the scheduler of the context: its callback, or the
-- fiber that waits.
abbrev work_for : Option ℕ → Option ℕ → Option ℕ → List (ℕ × Work)
work_for none fiber cb = []
work_for (some s) none none = []
work_for (some s) (some f) none = (s, resume f) ∷ []
work_for (some s) fiber (some f) = (s, call f) ∷ []

abbrev pub work_in : EventContext → List (ℕ × Work)
work_in c = work_for c.scheduler c.fiber c.cb

abbrev pub opposite : Event → Event
opposite read = write
opposite write = read

-- Triggering a registered event of a sound context hands its work to its scheduler, and leaves the
-- context sound, without the event.
abbrev pub TriggersOne : Event → FdContext → List (ℕ × Work) → Triggered → Type 0
TriggersOne event ctx tasks o =
    (ctx' : FdContext) × (task : ℕ × Work) × (o ≡ triggered ctx' (tasks ++ task ∷ []))
    × IsSound ctx'
    × (ctx'.event ≡ without ctx.event event)
    × (work_in (get_context ctx event) ≡ task ∷ [])
    × (get_context ctx' (opposite event) ≡ get_context ctx (opposite event))

module _ (ctx : FdContext) (tasks : List (ℕ × Work)) (h : IsSound ctx) where
  trigger_read : ctx.event.reads ≡ true → TriggersOne read ctx tasks (trigger_event read ctx tasks)
  unfolding trigger_event
  trigger_read set =
      let (s, f, which) : Loaded ctx.r_event = subst (λ b. Slot b ctx.r_event) set h.reader in
      elim which [
        | inl e ↦ (
          _,
          (s, call f),
          rw (set, e) refl,
          record { reader = refl; writer = h.writer },
          refl,
          ap work_in e,
          refl,
        )
        | inr e ↦ (
          _,
          (s, resume f),
          rw (set, e) refl,
          record { reader = refl; writer = h.writer },
          refl,
          ap work_in e,
          refl,
        )
      ]

  trigger_write :
      ctx.event.writes ≡ true → TriggersOne write ctx tasks (trigger_event write ctx tasks)
  unfolding trigger_event
  trigger_write set =
      let (s, f, which) : Loaded ctx.w_event = subst (λ b. Slot b ctx.w_event) set h.writer in
      elim which [
        | inl e ↦ (
          _,
          (s, call f),
          rw (set, e) refl,
          record { reader = h.reader; writer = refl },
          refl,
          ap work_in e,
          refl,
        )
        | inr e ↦ (
          _,
          (s, resume f),
          rw (set, e) refl,
          record { reader = h.reader; writer = refl },
          refl,
          ap work_in e,
          refl,
        )
      ]

  pub trigger_event-TriggersOne :
      (event : Event)
      → has ctx.event event ≡ true
      → TriggersOne event ctx tasks (trigger_event event ctx tasks)
  trigger_event-TriggersOne read set = trigger_read set
  trigger_event-TriggersOne write set = trigger_write set

-- An event that is taken out counts one less.
pub events_of-without :
    (event : Event) (c d : FdContext)
    → has c.event event ≡ true
    → d.event ≡ without c.event event
    → events_of d + 1 ≡ events_of c
events_of-without read c d set e =
    ap (λ x. bit x.reads + bit x.writes + 1) e ∙ (rw set (omega arith))
events_of-without write c d set e =
    ap (λ x. bit x.reads + bit x.writes + 1) e ∙ (rw set (omega arith))
