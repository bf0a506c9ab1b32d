-- ===== src/Scheduler/Timer/Expiry.antt =====
-- The rest of class TimerManager: the time to wait, and the timers that are due.
use lo_netfw.Base.{
  ℕ, ◌-◌, ◌*◌, ◌^◌, Bool, true, false, not, ◌&&◌, List, [], ◌∷◌, ◌++◌, Option, none, ltb, leb, ◌==◌,
  sub64, if◌then◌else◌,
}
use lo_netfw.Scheduler.Timer.Defs.{Callback, Timer, Manager, add64, update, key_before, insert}

-- `~0ull`
abbrev pub no_timer : ℕ
no_timer = 2 ^ 64 - 1

-- TimerManager::hasTimer
unfoldable pub has_timer : Manager → Bool
has_timer m = elim m.timers [ [] ↦ false | p ∷ ps ↦ true ]

abbrev pub time_until : ℕ → (ℕ → Timer) → List ℕ → ℕ
time_until now heap [] = no_timer
time_until now heap (p ∷ ps) = if leb (heap p).next now then 0 else (heap p).next - now

-- TimerManager::getNextTimerTimeMs
unfoldable pub get_next_timer_time_ms : ℕ → Manager → ℕ × Manager
get_next_timer_time_ms now m = (time_until now m.heap m.timers, record m { notified = false })

-- TimerManager::detectTimeModified
unfoldable pub detect_time_modified : ℕ → Manager → Bool × Manager
detect_time_modified now m = (
  ltb now m.previous_time && ltb now (sub64 m.previous_time (60 * 60 * 1000)),
  record m { previous_time = now },
)

-- `lower_bound` of a timer at the address `p` that is due now: what stands before it, and the rest.
unfoldable pub lower_bound : (ℕ → Timer) → ℕ → ℕ → List ℕ → List ℕ × List ℕ
lower_bound heap now p [] = ([], [])
lower_bound heap now p (q ∷ qs) =
    let (front, back) = lower_bound heap now p qs in
    if key_before (heap q).next q now p then (q ∷ front, back) else ([], q ∷ qs)

-- `while (it != m_timers.end() && (*it)->m_next == now_ms) ++it;`
unfoldable pub skip_due : (ℕ → Timer) → ℕ → List ℕ → List ℕ × List ℕ
skip_due heap now [] = ([], [])
skip_due heap now (q ∷ qs) =
    let (front, back) = skip_due heap now qs in
    if (heap q).next == now then (q ∷ front, back) else ([], q ∷ qs)

-- The timers that expire, and those that stay.
unfoldable pub split_expired : Bool → (ℕ → Timer) → ℕ → ℕ → List ℕ → List ℕ × List ℕ
unfolding lower_bound skip_due
split_expired is_modified heap now p timers =
    let (front, back) = lower_bound heap now p timers in
    let (due, rest) = skip_due heap now back in
    if is_modified then (timers, []) else (front ++ due, rest)

-- The loop over the expired timers.
unfoldable pub collect : ℕ → List ℕ → Manager → List (Option Callback) × Manager
unfolding insert
collect now [] m = ([], m)
collect now (p ∷ ps) m =
    let t = m.heap p in
    let heap' =
      update m.heap p
        (if t.is_loop then record t { next = add64 now t.ms } else record t { cb = none }) in
    let timers' = if t.is_loop then insert heap' p m.timers else m.timers in
    let (cbs, m') = collect now ps (record m { heap = heap'; timers = timers' }) in (t.cb ∷ cbs, m')

abbrev pub first_after : ℕ → (ℕ → Timer) → List ℕ → Bool
first_after now heap [] = false
first_after now heap (p ∷ ps) = ltb now (heap p).next

-- TimerManager::getExpiredCbsList: what it adds to `cbs`. `p` is the address of `now_timer`.
unfoldable pub get_expired_cbs_list : ℕ → ℕ → Manager → List (Option Callback) × Manager
unfolding has_timer detect_time_modified split_expired collect
get_expired_cbs_list now p m =
    let (is_modified, m') = detect_time_modified now m in
    let (expired, rest) = split_expired is_modified m.heap now p m.timers in
    let result = collect now expired (record m' { timers = rest }) in
    if not (has_timer m)
    then ([], m)
    else if not is_modified && first_after now m.heap m.timers
    then ([], m')
    else result
