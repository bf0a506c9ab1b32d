-- ===== src/Scheduler/Timer/Expired.antt =====
-- What getExpiredCbsList hands out, and that it keeps the invariant.
use lo_netfw.Base.{
  ℕ, ◌≡◌, ◌⊎◌, refl, sym, ap, ◌∙◌, arith, Bool, true, false, ◌||◌, List, [], ◌∷◌, map, All, Option,
  none, ◌==◌, if◌then◌else◌, Bool-cases, inl, inr,
}
use lo_netfw.Scheduler.Timer.Defs.{Callback, Timer, Manager, add64, update, insert, is_set}
use lo_netfw.Scheduler.Timer.Expiry.{collect}
use lo_netfw.Scheduler.Timer.Sorted.{contains, Ordered, insert-Ordered, contains-insert, behind}
use lo_netfw.Scheduler.Timer.Invariant.{IsValid, update_other, update-Ordered}
use mathlib.Core.Path.{ap₂, subst}

abbrev pub Distinct : List ℕ → Type 0
Distinct [] = Unit {0}
Distinct (p ∷ ps) = (contains p ps ≡ false) × Distinct ps

-- The callbacks of the timers of a list.
abbrev pub callbacks : (ℕ → Timer) → List ℕ → List (Option Callback)
callbacks heap ps = map (λ p. (heap p).cb) ps

-- The timers of `ps` are none of the set, and with it they are all that have a callback.
pub record Pending (ps : List ℕ) (m : Manager) : Type 0 where
  pub ordered : Ordered m.heap m.timers
  pub distinct : Distinct ps
  pub outside : All (λ q. contains q m.timers ≡ false) ps
  pub armed : (q : ℕ) → is_set (m.heap q).cb ≡ true → (contains q ps || contains q m.timers) ≡ true

callbacks-update :
    (heap : ℕ → Timer) (p : ℕ) (t : Timer) (ps : List ℕ)
    → contains p ps ≡ false
    → callbacks (update heap p t) ps ≡ callbacks heap ps
callbacks-update heap p t [] out = refl
callbacks-update heap p t (q ∷ qs) out = elim (Bool-cases (p == q)) [
  | inl e ↦ let there : ((p == q) || contains p qs) ≡ true = rw e refl in absurd (cc (out, there))
  | inr e ↦
      let on : contains p qs ≡ false = ap (λ b. b || contains p qs) (sym e) ∙ out in
      let other : (q == p) ≡ false = ground arith in
      ap₂ ◌∷◌ (ap (λ x. x.cb) (update_other heap p t q other)) (callbacks-update heap p t qs on)
]

module _ (now p : ℕ) (ps : List ℕ) (m : Manager) (h : Pending (p ∷ ps) m) where
  abbrev looped : Manager
  looped = record m {
    heap = update m.heap p (record (m.heap p) { next = add64 now (m.heap p).ms });
    timers =
        insert (update m.heap p (record (m.heap p) { next = add64 now (m.heap p).ms })) p m.timers;
  }

  abbrev finished : Manager
  finished = record m { heap = update m.heap p (record (m.heap p) { cb = none }) }

  later_outside :
      (t : Timer) (qs : List ℕ)
      → contains p qs ≡ false
      → All (λ q. contains q m.timers ≡ false) qs
      → All (λ q. contains q (insert (update m.heap p t) p m.timers) ≡ false) qs
  later_outside t [] out g = tt
  later_outside t (q ∷ qs) out g = elim (Bool-cases (p == q)) [
    | inl e ↦ let there : ((p == q) || contains p qs) ≡ true = rw e refl in absurd (cc (out, there))
    | inr e ↦
        let on : contains p qs ≡ false = ap (λ b. b || contains p qs) (sym e) ∙ out in
        let other : (q == p) ≡ false = ground arith in
        (
          contains-insert (update m.heap p t) p q m.timers ∙ rw (other, g.0) refl,
          later_outside t qs on g.1,
        )
  ]

  armed_other :
      (t : Timer) (q : ℕ)
      → (q == p) ≡ false
      → is_set (update m.heap p t q).cb ≡ true
      → (contains q ps || contains q m.timers) ≡ true
  armed_other t q other set =
      ap (λ b. (b || contains q ps) || contains q m.timers) (sym other)
      ∙ h.armed q (ap (λ x. is_set x.cb) (sym (update_other m.heap p t q other)) ∙ set)

  looped-Pending : Pending ps looped
  looped-Pending = record {
    ordered =
        insert-Ordered (update m.heap p t) p m.timers
          (update-Ordered m.heap p t m.timers h.outside.0 h.ordered);
    distinct = h.distinct.1;
    outside = later_outside t ps h.distinct.0 h.outside.1;
    armed = λ q set.
        ap (λ b. contains q ps || b) (contains-insert (update m.heap p t) p q m.timers)
        ∙ split q set (Bool-cases (q == p));
  }
    where
      t : Timer
      t = record (m.heap p) { next = add64 now (m.heap p).ms }

      or_true : (a : Bool) → (a || true) ≡ true
      or_true true = refl
      or_true false = refl

      split :
          (q : ℕ)
          → is_set (update m.heap p t q).cb ≡ true
          → ((q == p) ≡ true) ⊎ ((q == p) ≡ false)
          → (contains q ps || ((q == p) || contains q m.timers)) ≡ true
      split q set (inl e) = rw e (or_true (contains q ps))
      split q set (inr e) = rw e (armed_other t q e set)

  finished-Pending : Pending ps finished
  finished-Pending = record {
    ordered = update-Ordered m.heap p t m.timers h.outside.0 h.ordered;
    distinct = h.distinct.1;
    outside = h.outside.1;
    armed = λ q set. split q set (Bool-cases (q == p));
  }
    where
      t : Timer
      t = record (m.heap p) { cb = none }

      split :
          (q : ℕ)
          → is_set (update m.heap p t q).cb ≡ true
          → ((q == p) ≡ true) ⊎ ((q == p) ≡ false)
          → (contains q ps || contains q m.timers) ≡ true
      split q set (inl e) =
          let off : is_set (update m.heap p t q).cb ≡ false = rw e refl in absurd (cc (off, set))
      split q set (inr e) = armed_other t q e set

-- What a round leaves for the next, for a timer that repeats when `again` is true.
abbrev round : ℕ → ℕ → List ℕ → Manager → Bool → List (Option Callback) × Manager
round now p ps m again =
    let t = m.heap p in
    let heap' =
      update m.heap p
        (if again then record t { next = add64 now t.ms } else record t { cb = none }) in
    let timers' = if again then insert heap' p m.timers else m.timers in
    let r = collect now ps (record m { heap = heap'; timers = timers' }) in (t.cb ∷ r.0, r.1)

abbrev pub HandsOut : (ℕ → Timer) → List ℕ → List (Option Callback) × Manager → Type 0
HandsOut heap ps r = (r.0 ≡ callbacks heap ps) × IsValid r.1

-- The loop hands out the callbacks of its timers and leaves a valid manager.
pub collect-HandsOut :
    (now : ℕ) (ps : List ℕ) (m : Manager) → Pending ps m → HandsOut m.heap ps (collect now ps m)
unfolding collect
collect-HandsOut now [] m h = (refl, record { ordered = h.ordered; armed = h.armed })
collect-HandsOut now (p ∷ ps) m h = elim (Bool-cases (m.heap p).is_loop) [
  | inl again ↦
      let (cbs, v) = collect-HandsOut now ps (looped now p ps m h) (looped-Pending now p ps m h) in
      subst (HandsOut m.heap (p ∷ ps)) (sym (ap (round now p ps m) again))
        (ap (◌∷◌ (m.heap p).cb) (cbs ∙ callbacks-update m.heap p _ ps h.distinct.0), v)
  | inr once ↦
      let (cbs, v) =
        collect-HandsOut now ps (finished now p ps m h) (finished-Pending now p ps m h) in
      subst (HandsOut m.heap (p ∷ ps)) (sym (ap (round now p ps m) once))
        (ap (◌∷◌ (m.heap p).cb) (cbs ∙ callbacks-update m.heap p _ ps h.distinct.0), v)
]

pub Ordered-Distinct : (heap : ℕ → Timer) (ps : List ℕ) → Ordered heap ps → Distinct ps
Ordered-Distinct heap [] h = tt
Ordered-Distinct heap (p ∷ ps) h = (behind heap p ps h.0, Ordered-Distinct heap ps h.1)
