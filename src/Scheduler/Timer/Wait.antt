-- ===== src/Scheduler/Timer/Wait.antt =====
-- How long the io scheduler may wait for the timers.
use lo_netfw.Base.{
  ℕ, ◌+◌, ◌-◌, ◌^◌, ◌≤◌, ◌<◌, ◌≡◌, length, refl, ap, arith, List, [], ◌∷◌, All, leb, Bool-cases,
  inl, inr, leb→lt,
}
use lo_netfw.Scheduler.Timer.Defs.{Timer, Manager}
use lo_netfw.Scheduler.Timer.Expiry.{time_until, get_next_timer_time_ms}
use lo_netfw.Scheduler.Timer.Sorted.{Ordered, All-map}
use lo_netfw.Scheduler.Timer.Invariant.{IsValid}
use lo_netfw.Scheduler.Timer.Due.{due, none_due, behind_time}

-- After a wait of `time` no timer of the list is later than it should be: none of them comes due
-- before it is over.
abbrev pub NoneMissed : ℕ → ℕ → (ℕ → Timer) → List ℕ → Type 0
NoneMissed now time heap ps = All (λ q. time ≤ (heap q).next - now) ps

weaken :
    (heap : ℕ → Timer) (now t time : ℕ) (ps : List ℕ)
    → time ≤ t - now
    → All (λ q. t ≤ (heap q).next) ps
    → NoneMissed now time heap ps
weaken heap now t time [] h g = tt
weaken heap now t time (p ∷ ps) h g = (omega (arith, g.0), weaken heap now t time ps h g.1)

first_bounds :
    (heap : ℕ → Timer) (now : ℕ) (ps : List ℕ)
    → Ordered heap ps
    → NoneMissed now (time_until now heap ps) heap ps
first_bounds heap now [] h = tt
first_bounds heap now (p ∷ ps) h =
    let le : time_until now heap (p ∷ ps) ≤ (heap p).next - now = ground arith in
    (
      le,
      weaken heap now (heap p).next _ ps le
          (behind_time heap now p (heap p).next ps (omega arith) h.0),
    )

zero_means_due :
    (heap : ℕ → Timer) (now : ℕ) (ps : List ℕ)
    → Ordered heap ps
    → (time_until now heap ps ≡ 0 → 1 ≤ length (due heap now ps))
      × (1 ≤ length (due heap now ps) → time_until now heap ps ≡ 0)
zero_means_due heap now [] h = (λ e. absurd (omega arith), λ e. absurd (omega arith))
zero_means_due heap now (p ∷ ps) h = elim (Bool-cases (leb (heap p).next now)) [
  | inl come ↦ rw come (λ e. omega arith, λ e. refl)
  | inr ahead ↦
      let lt : now < (heap p).next = leb→lt (heap p).next now ahead in
      let (d, l) = none_due heap now ps (
        All-map (λ q. now + 1 ≤ (heap q).next) _ ps (λ q g. omega arith)
          (behind_time heap now p (now + 1) ps (omega arith) h.0)) in
      rw ahead (λ e. absurd (omega arith), λ e. absurd (omega (arith, ap length d)))
]

-- In a valid manager getNextTimerTimeMs gives a time before whose end no timer comes due; it is 0
-- just when some timer is due now, and 2^64-1 when there is none.
get_next_timer_time_ms-NoneMissed :
    (now : ℕ) (m : Manager)
    → IsValid m
    → NoneMissed now (get_next_timer_time_ms now m).0 m.heap m.timers
      × ((get_next_timer_time_ms now m).0 ≡ 0 → 1 ≤ length (due m.heap now m.timers))
      × (1 ≤ length (due m.heap now m.timers) → (get_next_timer_time_ms now m).0 ≡ 0)
      × (m.timers ≡ [] → (get_next_timer_time_ms now m).0 ≡ 2 ^ 64 - 1)
unfolding get_next_timer_time_ms
get_next_timer_time_ms-NoneMissed now m v =
    let (a, b) = zero_means_due m.heap now m.timers v.ordered in
    (first_bounds m.heap now m.timers v.ordered, a, b, λ e. ap (time_until now m.heap) e)
