-- ===== src/Scheduler/Timer/Due.antt =====
-- Which timers expire: those whose time has come, all of them after the clock was put back.
use lo_netfw.Base.{
  ℕ, ◌+◌, ◌≤◌, ◌<◌, ◌≡◌, refl, sym, ap, arith, true, false, List, [], ◌∷◌, All, leb, ◌==◌,
  if◌then◌else◌, Bool-cases, inl, inr, leb→lt, lt→leb,
}
use lo_netfw.Scheduler.Timer.Defs.{Timer, key_before, before}
use lo_netfw.Scheduler.Timer.Expiry.{lower_bound, skip_due, split_expired}
use lo_netfw.Scheduler.Timer.Sorted.{Ordered, All-map}
use mathlib.Core.Path.{ap₂}

-- The timers whose time has come, and the others.
abbrev pub due : (ℕ → Timer) → ℕ → List ℕ → List ℕ
due heap now [] = []
due heap now (p ∷ ps) = if leb (heap p).next now then p ∷ due heap now ps else due heap now ps

abbrev pub later : (ℕ → Timer) → ℕ → List ℕ → List ℕ
later heap now [] = []
later heap now (p ∷ ps) = if leb (heap p).next now then later heap now ps else p ∷ later heap now ps

module _ (heap : ℕ → Timer) (now : ℕ) where
  pub none_due :
      (ps : List ℕ)
      → All (λ q. now < (heap q).next) ps
      → (due heap now ps ≡ []) × (later heap now ps ≡ ps)
  none_due [] h = (refl, refl)
  none_due (p ∷ ps) h =
      let (d, l) = none_due ps h.1 in
      let e : leb (heap p).next now ≡ false = lt→leb (heap p).next now h.0 in
      (rw e d, rw e (ap (◌∷◌ p) l))

  -- A timer that is not before one in the order is not due before it.
  pub behind_time :
      (p t : ℕ) (ps : List ℕ)
      → t ≤ (heap p).next
      → All (λ q. before heap p q ≡ true) ps
      → All (λ q. t ≤ (heap q).next) ps
  behind_time p t [] h g = tt
  behind_time p t (q ∷ qs) h g = (ground (arith, g.0), behind_time p t qs h g.1)

  skip_due-due :
      (ps : List ℕ)
      → Ordered heap ps
      → All (λ q. now ≤ (heap q).next) ps
      → skip_due heap now ps ≡ (due heap now ps, later heap now ps)
  unfolding skip_due
  skip_due-due [] h g = refl
  skip_due-due (p ∷ ps) h g = elim (Bool-cases (leb (heap p).next now)) [
    | inl come ↦
        let e : ((heap p).next == now) ≡ true = ground (arith, g.0) in
        rw (come, e) (ap (λ r. (p ∷ r.0, r.1)) (skip_due-due ps h.1 g.1))
    | inr ahead ↦
        let lt : now < (heap p).next = leb→lt (heap p).next now ahead in
        let e : ((heap p).next == now) ≡ false = ground arith in
        let (d, l) = none_due ps (
          All-map (λ q. now + 1 ≤ (heap q).next) _ ps (λ q g. omega arith)
            (behind_time p (now + 1) ps (omega arith) h.0)) in
        rw (ahead, e) (ap₂ (λ a b. (a, p ∷ b)) (sym d) (sym l))
  ]

  -- The address of the timer that the code searches with does not matter.
  pub split_expired-due :
      (a : ℕ) (ps : List ℕ)
      → Ordered heap ps
      → split_expired false heap now a ps ≡ (due heap now ps, later heap now ps)
  unfolding split_expired lower_bound
  split_expired-due a [] h = unfold skip_due in refl
  split_expired-due a (p ∷ ps) h = elim (Bool-cases (key_before (heap p).next p now a)) [
    | inl front ↦
        let e : leb (heap p).next now ≡ true = ground arith in
        rw (front, e) (ap (λ r. (p ∷ r.0, r.1)) (split_expired-due a ps h.1))
    | inr back ↦
        let le : now ≤ (heap p).next = ground arith in
        rw back (skip_due-due (p ∷ ps) h (le, behind_time p now ps le h.0))
  ]
