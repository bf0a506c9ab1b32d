-- ===== src/Scheduler/Timer/Invariant.antt =====
-- The invariant of a TimerManager, and that adding, cancelling, refreshing and resetting keep it.
use lo_netfw.Base.{
  ℕ, ◌≡◌, ◌⊎◌, refl, sym, ap, ◌∙◌, arith, Bool, true, false, not, ◌&&◌, ◌||◌, List, [], ◌∷◌, All,
  Option, none, ◌==◌, Bool-cases, inl, inr, ==_iff,
}
use lo_netfw.Scheduler.Timer.Defs.{
  Callback, Timer, Manager, ok, add64, update, erase, is_set, insert_timer, add_timer, cancel,
}
use lo_netfw.Scheduler.Timer.Sorted.{
  contains, Ordered, member-contains, insert-Ordered, contains-insert, erase-Ordered,
  contains-erase, Ordered-cong, All-others,
}

-- The timers are in order and without repetition, and those with a callback are among them.
pub record IsValid (m : Manager) : Type 0 where
  pub ordered : Ordered m.heap m.timers
  pub armed : (p : ℕ) → is_set (m.heap p).cb ≡ true → contains p m.timers ≡ true

pub eq_self : (p : ℕ) → (p == p) ≡ true
eq_self p = ground arith

module _ (heap : ℕ → Timer) (p : ℕ) (t : Timer) where
  pub update_this : update heap p t p ≡ t
  update_this = rw (eq_self p) refl

  pub update_other : (q : ℕ) → (q == p) ≡ false → update heap p t q ≡ heap q
  update_other q h = rw h refl

  -- A timer that is not in the list may change its time.
  pub update-Ordered :
      (ps : List ℕ) → contains p ps ≡ false → Ordered heap ps → Ordered (update heap p t) ps
  update-Ordered ps out h =
      Ordered-cong heap (update heap p t) ps
        (All-others _ p ps out (λ q e. ap (λ x. x.next) (update_other q e))) h

  -- One in the list may change everything but its time.
  same_time-Ordered :
      (ps : List ℕ) → t.next ≡ (heap p).next → Ordered heap ps → Ordered (update heap p t) ps
  same_time-Ordered ps e h = Ordered-cong heap (update heap p t) ps (all ps) h
    where
      time :
          (q : ℕ)
          → ((q == p) ≡ true) ⊎ ((q == p) ≡ false)
          → (update heap p t q).next ≡ (heap q).next
      time q (inl this) = rw this (e ∙ ap (λ x. (heap x).next) (sym ((==_iff q p).0 this)))
      time q (inr other) = rw other refl

      all : (qs : List ℕ) → All (λ q. (update heap p t q).next ≡ (heap q).next) qs
      all [] = tt
      all (q ∷ qs) = (time q (Bool-cases (q == p)), all qs)

-- `erase` takes the timer out.
pub erased :
    (heap : ℕ → Timer) (p : ℕ) (ps : List ℕ)
    → Ordered heap ps
    → contains p (erase heap p ps) ≡ false
erased heap p ps h = contains-erase heap p p ps h ∙ ap (λ b. not b && contains p ps) (eq_self p)

module _ (m : Manager) (p : ℕ) where
  -- An insertion makes the list hold the timer, and keeps the rest.
  pub insert_timer-IsValid :
      Ordered m.heap m.timers
      → ((q : ℕ) → (q == p) ≡ false → is_set (m.heap q).cb ≡ true → contains q m.timers ≡ true)
      → IsValid (insert_timer p m).1
  unfolding insert_timer
  insert_timer-IsValid h a = record {
    ordered = insert-Ordered m.heap p m.timers h;
    armed = λ q set. contains-insert m.heap p q m.timers ∙ split q set (Bool-cases (q == p));
  }
    where
      split :
          (q : ℕ)
          → is_set (m.heap q).cb ≡ true
          → ((q == p) ≡ true) ⊎ ((q == p) ≡ false)
          → ((q == p) || contains q m.timers) ≡ true
      split q set (inl e) = rw e refl
      split q set (inr e) = rw e (a q e set)

-- Adding a timer at an address that no timer of the set has keeps the invariant.
pub add_timer-IsValid :
    (now p ms : ℕ) (cb : Option Callback) (is_loop : Bool) (m : Manager)
    → contains p m.timers ≡ false
    → IsValid m
    → IsValid (add_timer now p ms cb is_loop m).1
unfolding add_timer
add_timer-IsValid now p ms cb is_loop m fresh v =
    insert_timer-IsValid (record m { heap = update m.heap p t }) p
      (update-Ordered m.heap p t m.timers fresh v.ordered)
      (λ q other set.
        v.armed q (ap (λ x. is_set x.cb) (sym (update_other m.heap p t q other)) ∙ set))
  where
    t : Timer
    t = record { cb = cb; is_loop = is_loop; ms = ms; next = add64 now ms }

-- What cancelling leaves: the timer has no callback, it is in the set only if it had none before,
-- and no other timer has changed.
pub record Cancelled (p : ℕ) (m n : Manager) : Type 0 where
  pub valid : IsValid n
  pub disarmed : is_set (n.heap p).cb ≡ false
  pub taken_out : is_set (m.heap p).cb ≡ true → contains p n.timers ≡ false
  pub others : (q : ℕ) → (q == p) ≡ false → n.heap q ≡ m.heap q
  pub kept : (q : ℕ) → (q == p) ≡ false → contains q n.timers ≡ contains q m.timers

module _ (p : ℕ) (m : Manager) (v : IsValid m) (set : is_set (m.heap p).cb ≡ true) where
  off : Timer
  off = record (m.heap p) { cb = none }

  cancelled : Manager
  cancelled = record m {
    heap = update m.heap p off;
    timers = erase (update m.heap p off) p m.timers;
  }

  cancelled-Ordered : Ordered (update m.heap p off) m.timers
  unfolding off
  cancelled-Ordered = same_time-Ordered m.heap p off m.timers refl v.ordered

  keeps :
      (q : ℕ)
      → (q == p) ≡ false
      → contains q (erase (update m.heap p off) p m.timers) ≡ contains q m.timers
  keeps q other =
      contains-erase (update m.heap p off) p q m.timers cancelled-Ordered
      ∙ ap (λ b. not b && contains q m.timers) other

  cancelled-Cancelled : Cancelled p m cancelled
  unfolding cancelled
  cancelled-Cancelled = record {
    valid = record {
      ordered = erase-Ordered (update m.heap p off) p m.timers cancelled-Ordered;
      armed = λ q h. armed q h (Bool-cases (q == p));
    };
    disarmed = unfold off in ap (λ x. is_set x.cb) (update_this m.heap p off);
    taken_out = λ _. erased (update m.heap p off) p m.timers cancelled-Ordered;
    others = update_other m.heap p off;
    kept = keeps;
  }
    where
      armed :
          (q : ℕ)
          → is_set (update m.heap p off q).cb ≡ true
          → ((q == p) ≡ true) ⊎ ((q == p) ≡ false)
          → contains q (erase (update m.heap p off) p m.timers) ≡ true
      armed q h (inl this) =
          let gone : is_set (update m.heap p off q).cb ≡ false = unfold off in rw this refl in
          absurd (cc (h, gone))
      armed q h (inr other) =
          keeps q other
          ∙ v.armed q (ap (λ x. is_set x.cb) (sym (update_other m.heap p off q other)) ∙ h)

-- In a valid manager cancel returns and tells whether the timer had a callback; it leaves the
-- timer without one and, if it had one, outside the set, and every other timer as it was.
pub cancel-Cancelled :
    (p : ℕ) (m : Manager)
    → IsValid m
    → (n : Manager) × (cancel p m ≡ ok (is_set (m.heap p).cb) n) × Cancelled p m n
unfolding cancel
cancel-Cancelled p m v = elim (Bool-cases (is_set (m.heap p).cb)) [
  | inl set ↦ (
    cancelled p m v set,
    unfold cancelled off in
        rw
          (
            set,
            member-contains (update m.heap p (record (m.heap p) { cb = none })) p m.timers,
            v.armed p set,
          )
          refl,
    cancelled-Cancelled p m v set,
  )
  | inr unset ↦ (
    m,
    rw unset refl,
    record {
      valid = v;
      disarmed = unset;
      taken_out = λ set. absurd (cc (set, unset));
      others = λ q other. refl;
      kept = λ q other. refl;
    },
  )
]
