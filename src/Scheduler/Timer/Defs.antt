-- ===== src/Scheduler/Timer/Defs.antt =====
-- The timers of a TimerManager. A `Timer::Ptr` is the address of the timer, a number; `heap` gives
-- the object at an address. `m_timers` is the list of its addresses in the order of
-- Timer::Comparator, which is how a `std::set` stores them. The time of the clock is an argument of
-- every call that reads it. The calls run under the lock of the manager, one after the other.
use lo_netfw.Base.{
  ℕ, ◌+◌, ◌%◌, ◌^◌, Bool, true, false, not, ◌&&◌, List, [], ◌∷◌, Option, none, some, ltb, ◌==◌,
  sub64, if◌then◌else◌,
}

-- A callback, or one that `addConditionTimer` has bound to a weak reference.
pub data Callback : Type 0 where
  plain : ℕ → Callback
  guarded : ℕ → ℕ → Callback

-- What a call of the callback runs, given which objects are still alive.
unfoldable pub on_timer : (ℕ → Bool) → Callback → Option ℕ
on_timer alive (plain cb) = some cb
on_timer alive (guarded cond cb) = if alive cond then some cb else none

pub record Timer : Type 0 where
  pub cb : Option Callback
  pub is_loop : Bool
  pub ms : ℕ
  pub next : ℕ

pub record Manager : Type 0 where
  pub heap : ℕ → Timer
  pub timers : List ℕ
  pub notified : Bool
  pub previous_time : ℕ

-- Sum of two `uint64_t`.
abbrev pub add64 : ℕ → ℕ → ℕ
add64 a b = (a + b) % 2 ^ 64

abbrev pub update : (ℕ → Timer) → ℕ → Timer → ℕ → Timer
update heap p t q = if q == p then t else heap q

-- Timer::Comparator on a time and an address each.
abbrev pub key_before : ℕ → ℕ → ℕ → ℕ → Bool
key_before next p next' q =
    if ltb next next' then true else if ltb next' next then false else ltb p q

-- Timer::Comparator; `none` is a null pointer.
unfoldable pub comparator : (ℕ → Timer) → Option ℕ → Option ℕ → Bool
comparator heap none none = false
comparator heap none (some q) = true
comparator heap (some p) none = false
comparator heap (some p) (some q) = key_before (heap p).next p (heap q).next q

abbrev pub before : (ℕ → Timer) → ℕ → ℕ → Bool
before heap p q = key_before (heap p).next p (heap q).next q

-- `std::set`: two elements are the same when neither is before the other.
abbrev pub same_key : (ℕ → Timer) → ℕ → ℕ → Bool
same_key heap p q = not (before heap p q) && not (before heap q p)

unfoldable pub insert : (ℕ → Timer) → ℕ → List ℕ → List ℕ
insert heap p [] = p ∷ []
insert heap p (q ∷ qs) =
    let rest = insert heap p qs in
    if before heap p q then p ∷ q ∷ qs else if before heap q p then q ∷ rest else q ∷ qs

-- `find(...) != end()`
unfoldable pub member : (ℕ → Timer) → ℕ → List ℕ → Bool
member heap p [] = false
member heap p (q ∷ qs) = let rest = member heap p qs in if same_key heap p q then true else rest

-- `erase(find(...))`
unfoldable pub erase : (ℕ → Timer) → ℕ → List ℕ → List ℕ
erase heap p [] = []
erase heap p (q ∷ qs) = let rest = erase heap p qs in if same_key heap p q then qs else q ∷ rest

-- `it == m_timers.begin()`
abbrev pub is_first : ℕ → List ℕ → Bool
is_first p [] = false
is_first p (q ∷ qs) = p == q

-- What a call gives: its result and the new state, or an iterator to the end that is erased.
pub data Outcome (A : Type 0) : Type 0 where
  ok : A → Manager → Outcome A
  fault : Outcome A

-- TimerManager::addTimer(const Timer::Ptr &, ...). The result tells whether onTimerInsertAtFront is
-- called.
unfoldable pub insert_timer : ℕ → Manager → Bool × Manager
unfolding insert
insert_timer p m =
    let timers = insert m.heap p m.timers in
    let is_front = is_first p timers && not m.notified in
    (is_front, record m { timers = timers; notified = if is_front then true else m.notified })

-- TimerManager::addTimer, for a timer that is allocated at the address `p`.
unfoldable pub add_timer : ℕ → ℕ → ℕ → Option Callback → Bool → Manager → Bool × Manager
unfolding insert_timer
add_timer now p ms cb is_loop m = insert_timer p (record m {
  heap = update m.heap p (record { cb = cb; is_loop = is_loop; ms = ms; next = add64 now ms });
})

-- TimerManager::addConditionTimer
unfoldable pub add_condition_timer : ℕ → ℕ → ℕ → ℕ → ℕ → Bool → Manager → Bool × Manager
unfolding add_timer
add_condition_timer now p ms cb cond is_loop m =
    add_timer now p ms (some (guarded cond cb)) is_loop m

abbrev pub is_set {ℓ} : {A : Type ℓ} → Option A → Bool
is_set none = false
is_set (some a) = true

-- Timer::cancel
unfoldable pub cancel : ℕ → Manager → Outcome Bool
unfolding member erase
cancel p m =
    let heap' = update m.heap p (record (m.heap p) { cb = none }) in
    if is_set (m.heap p).cb
    then if member heap' p m.timers
      then ok true (record m { heap = heap'; timers = erase heap' p m.timers })
      else fault
    else ok false m

-- Timer::refresh
unfoldable pub refresh : ℕ → ℕ → Manager → Bool × Manager
unfolding member erase insert
refresh now p m =
    let heap' = update m.heap p (record (m.heap p) { next = add64 now (m.heap p).ms }) in
    if not (is_set (m.heap p).cb)
    then (false, m)
    else if not (member m.heap p m.timers)
    then (false, m)
    else (true, record m { heap = heap'; timers = insert heap' p (erase m.heap p m.timers) })

-- Timer::reset. The first part of the result is its value, the second tells whether
-- onTimerInsertAtFront is called.
unfoldable pub reset : ℕ → ℕ → Bool → ℕ → Manager → Bool × Bool × Manager
unfolding member erase insert_timer
reset now new_ms from_now p m =
    let t = m.heap p in
    let start = if from_now then now else sub64 t.next t.ms in
    let moved = record m {
      heap = update m.heap p (record t { ms = new_ms; next = add64 start new_ms });
      timers = erase m.heap p m.timers;
    } in
    let (front, m') = insert_timer p moved in
    if new_ms == t.ms && not from_now
    then (true, false, m)
    else if not (is_set t.cb)
    then (false, false, m)
    else if not (member m.heap p m.timers)
    then (false, false, m)
    else (true, front, m')
