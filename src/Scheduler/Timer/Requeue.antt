-- ===== src/Scheduler/Timer/Requeue.antt =====
-- Timer::refresh and Timer::reset give a timer a new time and put it where it belongs.
use lo_netfw.Base.{
  ℕ, ◌≡◌, refl, sym, ap, ◌∙◌, Bool, true, false, not, ◌&&◌, ◌||◌, ◌==◌, sub64, if◌then◌else◌,
}
use lo_netfw.Scheduler.Timer.Defs.{
  Timer, Manager, add64, update, insert, erase, is_set, insert_timer, refresh, reset,
}
use lo_netfw.Scheduler.Timer.Sorted.{
  contains, member-contains, contains-insert, erase-Ordered, contains-erase,
}
use lo_netfw.Scheduler.Timer.Invariant.{
  IsValid, update_this, update_other, update-Ordered, erased, eq_self, insert_timer-IsValid,
}

-- What a new start leaves: the timer is `t` and in the set, and every other timer is as it was.
pub record Requeued (p : ℕ) (t : Timer) (m n : Manager) : Type 0 where
  pub valid : IsValid n
  pub this : n.heap p ≡ t
  pub queued : contains p n.timers ≡ true
  pub others : (q : ℕ) → (q == p) ≡ false → n.heap q ≡ m.heap q
  pub kept : (q : ℕ) → (q == p) ≡ false → contains q n.timers ≡ contains q m.timers

module _ (m : Manager) (p : ℕ) (t : Timer) (v : IsValid m) where
  abbrev moved : Manager
  moved = record m { heap = update m.heap p t; timers = erase m.heap p m.timers }

  kept_out : (q : ℕ) → (q == p) ≡ false → contains q (erase m.heap p m.timers) ≡ contains q m.timers
  kept_out q other =
      contains-erase m.heap p q m.timers v.ordered ∙ ap (λ b. not b && contains q m.timers) other

  back_in-IsValid : IsValid (insert_timer p moved).1
  back_in-IsValid =
      insert_timer-IsValid moved p
        (update-Ordered m.heap p t (erase m.heap p m.timers) (erased m.heap p m.timers v.ordered)
          (erase-Ordered m.heap p m.timers v.ordered))
        (λ q other set.
          kept_out q other
          ∙ v.armed q (ap (λ x. is_set x.cb) (sym (update_other m.heap p t q other)) ∙ set))

  back_in :
      (q : ℕ)
      → contains q (insert (update m.heap p t) p (erase m.heap p m.timers))
        ≡ ((q == p) || contains q (erase m.heap p m.timers))
  back_in q = contains-insert (update m.heap p t) p q (erase m.heap p m.timers)

  reset-Requeued_state : Requeued p t m (insert_timer p moved).1
  unfolding insert_timer
  reset-Requeued_state = record {
    valid = back_in-IsValid;
    this = update_this m.heap p t;
    queued = back_in p ∙ ap (λ b. b || contains p (erase m.heap p m.timers)) (eq_self p);
    others = update_other m.heap p t;
    kept = λ q other.
        back_in q ∙ ap (λ b. b || contains q (erase m.heap p m.timers)) other ∙ kept_out q other;
  }

  refresh-Requeued_state : Requeued p t m (record m {
    heap = update m.heap p t;
    timers = insert (update m.heap p t) p (erase m.heap p m.timers);
  })
  unfolding insert_timer
  refresh-Requeued_state = record {
    valid = record { ordered = back_in-IsValid.ordered; armed = back_in-IsValid.armed };
    this = reset-Requeued_state.this;
    queued = reset-Requeued_state.queued;
    others = reset-Requeued_state.others;
    kept = reset-Requeued_state.kept;
  }

-- In a valid manager refresh of a timer with a callback returns true and starts its period anew
-- from now, the other timers as they were; of a timer without one it returns false and changes
-- nothing.
pub refresh-Requeued :
    (now p : ℕ) (m : Manager)
    → IsValid m
    → (is_set (m.heap p).cb ≡ true
        → (n : Manager) × (refresh now p m ≡ (true, n))
          × Requeued p (record (m.heap p) { next = add64 now (m.heap p).ms }) m n)
      × (is_set (m.heap p).cb ≡ false → refresh now p m ≡ (false, m))
unfolding refresh
refresh-Requeued now p m v = (
  λ set. (
    record m {
      heap = update m.heap p t;
      timers = insert (update m.heap p t) p (erase m.heap p m.timers);
    },
    rw (set, member-contains m.heap p m.timers, v.armed p set) refl,
    refresh-Requeued_state m p t v,
  ),
  λ unset. rw unset refl,
)
  where
    t : Timer
    t = record (m.heap p) { next = add64 now (m.heap p).ms }

-- A timer with another period, counted from now or from when the running period began.
abbrev pub restarted : ℕ → ℕ → Bool → Timer → Timer
restarted now new_ms from_now t = record t {
  ms = new_ms;
  next = add64 (if from_now then now else sub64 t.next t.ms) new_ms;
}

-- In a valid manager reset returns true and changes nothing when the period is the old one and
-- does not start anew; else it gives a timer with a callback the new period and returns true, and
-- of a timer without one it returns false and changes nothing.
pub reset-Requeued :
    (now new_ms : ℕ) (from_now : Bool) (p : ℕ) (m : Manager)
    → IsValid m
    → ((new_ms == (m.heap p).ms && not from_now) ≡ true
        → reset now new_ms from_now p m ≡ (true, false, m))
      × ((new_ms == (m.heap p).ms && not from_now) ≡ false
          → is_set (m.heap p).cb ≡ false
          → reset now new_ms from_now p m ≡ (false, false, m))
      × ((new_ms == (m.heap p).ms && not from_now) ≡ false
          → is_set (m.heap p).cb ≡ true
          → (front : Bool) × (n : Manager) × (reset now new_ms from_now p m ≡ (true, front, n))
            × Requeued p (restarted now new_ms from_now (m.heap p)) m n)
unfolding reset
reset-Requeued now new_ms from_now p m v = (
  λ same. rw same refl,
  λ other unset. rw (other, unset) refl,
  λ other set. (
    (insert_timer p (moved m p t v)).0,
    (insert_timer p (moved m p t v)).1,
    rw (other, set, member-contains m.heap p m.timers, v.armed p set) refl,
    reset-Requeued_state m p t v,
  ),
)
  where
    t : Timer
    t = restarted now new_ms from_now (m.heap p)
