-- ===== src/Scheduler/Timer/Runs.antt =====
-- Runs of a TimerManager: any calls, in any order, at any times of the clock.
use lo_netfw.Base.{
  ℕ, ◌≡◌, refl, sym, ap, ◌∙◌, Bool, false, not, ◌&&◌, [], Option, ◌==◌, Bool-cases, inl, inr,
}
use lo_netfw.Scheduler.Timer.Defs.{
  Callback, Timer, Manager, Outcome, ok, is_set, add_timer, cancel, refresh, reset,
}
use lo_netfw.Scheduler.Timer.Expiry.{get_next_timer_time_ms, get_expired_cbs_list}
use lo_netfw.Scheduler.Timer.Sorted.{contains}
use lo_netfw.Scheduler.Timer.Invariant.{IsValid, add_timer-IsValid, cancel-Cancelled}
use lo_netfw.Scheduler.Timer.Requeue.{refresh-Requeued, reset-Requeued}
use lo_netfw.Scheduler.Timer.Handed.{get_expired_cbs_list-HandsOut}
use mathlib.Core.Path.{subst}

-- TimerManager::TimerManager: no timer, and no object with a callback at any address.
unfoldable pub initial : ℕ → (ℕ → Timer) → Manager
initial now heap = record { heap = heap; timers = []; notified = false; previous_time = now }

-- One call. A new timer gets an address that no timer of the set has; `now` is the clock.
pub data Step : Manager → Manager → Type 0 where
  step_add :
      (now p ms : ℕ) (cb : Option Callback) (is_loop : Bool) (m : Manager)
      → contains p m.timers ≡ false
      → Step m (add_timer now p ms cb is_loop m).1
  step_cancel : (p : ℕ) (b : Bool) (m n : Manager) → cancel p m ≡ ok b n → Step m n
  step_refresh : (now p : ℕ) (m : Manager) → Step m (refresh now p m).1
  step_reset :
      (now new_ms : ℕ) (from_now : Bool) (p : ℕ) (m : Manager)
      → Step m (reset now new_ms from_now p m).2
  step_next : (now : ℕ) (m : Manager) → Step m (get_next_timer_time_ms now m).1
  step_expire : (now p : ℕ) (m : Manager) → Step m (get_expired_cbs_list now p m).1

pub data Run : Manager → Manager → Type 0 where
  start : (m : Manager) → Run m m
  one_more : (m n o : Manager) → Run m n → Step n o → Run m o

refresh-IsValid : (now p : ℕ) (m : Manager) → IsValid m → IsValid (refresh now p m).1
refresh-IsValid now p m v = elim (Bool-cases (is_set (m.heap p).cb)) [
  | inl set ↦
      let (n, e, r) = (refresh-Requeued now p m v).0 set in
      subst IsValid (sym (ap (λ o. o.1) e)) r.valid
  | inr unset ↦ subst IsValid (sym (ap (λ o. o.1) ((refresh-Requeued now p m v).1 unset))) v
]

reset-IsValid :
    (now new_ms : ℕ) (from_now : Bool) (p : ℕ) (m : Manager)
    → IsValid m
    → IsValid (reset now new_ms from_now p m).2
reset-IsValid now new_ms from_now p m v =
    let (same, unarmed, armed) = reset-Requeued now new_ms from_now p m v in
    elim (Bool-cases (new_ms == (m.heap p).ms && not from_now)) [
      | inl e ↦ subst IsValid (sym (ap (λ o. o.2) (same e))) v
      | inr e ↦ elim (Bool-cases (is_set (m.heap p).cb)) [
        | inl set ↦
            let (front, n, f, r) = armed e set in subst IsValid (sym (ap (λ o. o.2) f)) r.valid
        | inr unset ↦ subst IsValid (sym (ap (λ o. o.2) (unarmed e unset))) v
      ]
    ]

state_of : (p : ℕ) (b : Bool) (m n : Manager) → IsValid m → cancel p m ≡ ok b n → IsValid n
state_of p b m n v e =
    let (k, d, c) = cancel-Cancelled p m v in subst IsValid (ap left_state (sym d ∙ e)) c.valid
  where
    left_state : Outcome Bool → Manager
    left_state (ok b o) = o
    left_state _ = m

Step-IsValid : (m n : Manager) → Step m n → IsValid m → IsValid n
Step-IsValid _ _ (step_add now p ms cb is_loop m fresh) v =
    add_timer-IsValid now p ms cb is_loop m fresh v
Step-IsValid _ _ (step_cancel p b m n e) v = state_of p b m n v e
Step-IsValid _ _ (step_refresh now p m) v = refresh-IsValid now p m v
Step-IsValid _ _ (step_reset now new_ms from_now p m) v = reset-IsValid now new_ms from_now p m v
Step-IsValid _ _ (step_next now m) v =
    unfold get_next_timer_time_ms in record { ordered = v.ordered; armed = v.armed }
Step-IsValid _ _ (step_expire now p m) v = (get_expired_cbs_list-HandsOut now p m v).1

-- Every manager that calls lead to from a new one, in any order and at any times, is valid: its
-- timers are in the order of the comparator without repetition, and every timer with a callback is
-- among them.
pub Run-IsValid :
    (now : ℕ) (heap : ℕ → Timer)
    → ((p : ℕ) → is_set (heap p).cb ≡ false)
    → (m : Manager) → Run (initial now heap) m
    → IsValid m
unfolding initial
Run-IsValid now heap unset _ (start _) = record {
  ordered = tt;
  armed = λ p set. absurd (cc (set, unset p));
}
Run-IsValid now heap unset m (one_more _ n _ run step) =
    Step-IsValid n m step (Run-IsValid now heap unset n run)

-- After any calls on a new manager, cancel erases no end of the set: it returns and tells whether
-- the timer had a callback, and a second cancel then returns false and changes nothing.
pub cancel-Run :
    (now : ℕ) (heap : ℕ → Timer)
    → ((p : ℕ) → is_set (heap p).cb ≡ false)
    → (m : Manager) → Run (initial now heap) m
    → (p : ℕ)
    → (n : Manager) × (cancel p m ≡ ok (is_set (m.heap p).cb) n) × (cancel p n ≡ ok false n)
cancel-Run now heap unset m run p =
    let v : IsValid m = Run-IsValid now heap unset m run in
    let (n, e, c) = cancel-Cancelled p m v in (n, e, unfold cancel in rw c.disarmed refl)
