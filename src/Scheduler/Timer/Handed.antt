-- ===== src/Scheduler/Timer/Handed.antt =====
-- TimerManager::getExpiredCbsList as a whole.
use lo_netfw.Base.{
  ℕ, ◌+◌, ◌≤◌, ◌<◌, ◌≡◌, refl, sym, ap, ◌∙◌, arith, Bool, true, false, not, ◌&&◌, ◌||◌, List, [],
  ◌∷◌, Option, All, leb, ltb, ◌==◌, if◌then◌else◌, if_true, if_false, Bool-cases, inl, inr, ltb→lt,
  leb→le, leb→lt, ==_iff,
}
use lo_netfw.Scheduler.Timer.Defs.{Callback, Timer, Manager}
use lo_netfw.Scheduler.Timer.Expiry.{
  has_timer, detect_time_modified, split_expired, collect, first_after, get_expired_cbs_list,
}
use lo_netfw.Scheduler.Timer.Sorted.{contains, Ordered, All-map}
use lo_netfw.Scheduler.Timer.Invariant.{IsValid}
use lo_netfw.Scheduler.Timer.Due.{due, later, none_due, behind_time, split_expired-due}
use lo_netfw.Scheduler.Timer.Expired.{Pending, HandsOut, collect-HandsOut, Ordered-Distinct}
use mathlib.Core.Path.{subst}

module _ (heap : ℕ → Timer) (now : ℕ) where
  All-due {κ} : (P : ℕ → Type κ) (ps : List ℕ) → All P ps → All P (due heap now ps)
  All-due P [] h = tt
  All-due P (p ∷ ps) h = elim (Bool-cases (leb (heap p).next now)) [
    | inl e ↦ rw e (h.0, All-due P ps h.1)
    | inr e ↦ rw e (All-due P ps h.1)
  ]

  All-later {κ} : (P : ℕ → Type κ) (ps : List ℕ) → All P ps → All P (later heap now ps)
  All-later P [] h = tt
  All-later P (p ∷ ps) h = elim (Bool-cases (leb (heap p).next now)) [
    | inl e ↦ rw e (All-later P ps h.1)
    | inr e ↦ rw e (h.0, All-later P ps h.1)
  ]

  due-Ordered : (ps : List ℕ) → Ordered heap ps → Ordered heap (due heap now ps)
  due-Ordered [] h = tt
  due-Ordered (p ∷ ps) h = elim (Bool-cases (leb (heap p).next now)) [
    | inl e ↦ rw e (All-due _ ps h.0, due-Ordered ps h.1)
    | inr e ↦ rw e (due-Ordered ps h.1)
  ]

  later-Ordered : (ps : List ℕ) → Ordered heap ps → Ordered heap (later heap now ps)
  later-Ordered [] h = tt
  later-Ordered (p ∷ ps) h = elim (Bool-cases (leb (heap p).next now)) [
    | inl e ↦ rw e (later-Ordered ps h.1)
    | inr e ↦ rw e (All-later _ ps h.0, later-Ordered ps h.1)
  ]

  -- No timer is lost and none is doubled.
  contains_parts :
      (q : ℕ) (ps : List ℕ)
      → (contains q (due heap now ps) || contains q (later heap now ps)) ≡ contains q ps
  contains_parts q [] = refl
  contains_parts q (p ∷ ps) = elim (Bool-cases (leb (heap p).next now)) [
    | inl e ↦ rw e (
        assoc (q == p) (contains q (due heap now ps)) (contains q (later heap now ps))
        ∙ ap (λ b. (q == p) || b) (contains_parts q ps))
    | inr e ↦ rw e (
        swap (q == p) (contains q (due heap now ps)) (contains q (later heap now ps))
        ∙ ap (λ b. (q == p) || b) (contains_parts q ps))
  ]
    where
      assoc : (a b c : Bool) → ((a || b) || c) ≡ (a || (b || c))
      assoc true b c = refl
      assoc false b c = refl

      or_true : (a : Bool) → true ≡ (a || true)
      or_true true = refl
      or_true false = refl

      swap : (a b c : Bool) → (b || (a || c)) ≡ (a || (b || c))
      swap a true c = or_true a
      swap a false c = refl

  not_later : (q : ℕ) (ps : List ℕ) → (heap q).next ≤ now → contains q (later heap now ps) ≡ false
  not_later q [] h = refl
  not_later q (p ∷ ps) h = elim (Bool-cases (leb (heap p).next now)) [
    | inl e ↦ rw e (not_later q ps h)
    | inr e ↦ elim (Bool-cases (q == p)) [
      | inl same ↦
          let t : (heap q).next ≡ (heap p).next = ap (λ x. (heap x).next) ((==_iff q p).0 same) in
          absurd (omega (arith, leb→lt (heap p).next now e))
      | inr other ↦ rw (e, other) (not_later q ps h)
    ]
  ]

  due_apart : (ps qs : List ℕ) → All (λ q. contains q (later heap now qs) ≡ false) (due heap now ps)
  due_apart [] qs = tt
  due_apart (p ∷ ps) qs = elim (Bool-cases (leb (heap p).next now)) [
    | inl e ↦ rw e (not_later p qs (leb→le (heap p).next now e), due_apart ps qs)
    | inr e ↦ rw e (due_apart ps qs)
  ]

-- The timers that expire: all when the clock was put back, else those whose time has come.
abbrev pub expiring : Bool → (ℕ → Timer) → ℕ → List ℕ → List ℕ
expiring jumped heap now ps = if jumped then ps else due heap now ps

module _ (now : ℕ) (m : Manager) (v : IsValid m) where
  due-Pending :
      Pending
        (due m.heap now m.timers)
        (record m { previous_time = now; timers = later m.heap now m.timers })
  due-Pending = record {
    ordered = later-Ordered m.heap now m.timers v.ordered;
    distinct = Ordered-Distinct m.heap _ (due-Ordered m.heap now m.timers v.ordered);
    outside = due_apart m.heap now m.timers m.timers;
    armed = λ q set. contains_parts m.heap now q m.timers ∙ v.armed q set;
  }

  all-Pending : Pending m.timers (record m { previous_time = now; timers = [] })
  all-Pending = record {
    ordered = tt;
    distinct = Ordered-Distinct m.heap m.timers v.ordered;
    outside = nothing m.timers;
    armed = λ q set. ap (λ b. b || false) (v.armed q set);
  }
    where
      nothing : (ps : List ℕ) → All (λ q. false ≡ false) ps
      nothing [] = tt
      nothing (p ∷ ps) = (refl, nothing ps)

empty_timers : (m : Manager) → has_timer m ≡ false → m.timers ≡ []
unfolding has_timer
empty_timers m h = go m.timers h
  where
    go : (ps : List ℕ) → (elim ps [ [] ↦ false | p ∷ ps' ↦ true ]) ≡ false → ps ≡ []
    go [] e = refl
    go (p ∷ ps) e = absurd (cc (e))

none_expiring :
    (heap : ℕ → Timer) (now : ℕ) (ps : List ℕ)
    → Ordered heap ps
    → first_after now heap ps ≡ true
    → due heap now ps ≡ []
none_expiring heap now [] h e = refl
none_expiring heap now (p ∷ ps) h e =
    (none_due heap now (p ∷ ps) (
      lt,
      All-map (λ q. now + 1 ≤ (heap q).next) _ ps (λ q g. omega arith)
          (behind_time heap now p (now + 1) ps (omega (arith, lt)) h.0),
    )).0
  where
    lt : now < (heap p).next
    lt = ltb→lt now (heap p).next e

-- The clock shows an earlier time than before, by more than an hour, or the time before was in the
-- first hour.
abbrev pub put_back : ℕ → ℕ → Bool
put_back now previous = ltb now previous && (ltb previous 3600000 || ltb (now + 3600000) previous)

detect-put_back :
    (now : ℕ) (m : Manager) → (detect_time_modified now m).0 ≡ put_back now m.previous_time
unfolding detect_time_modified
detect-put_back now m = ground arith

module _ (now p : ℕ) (m : Manager) (v : IsValid m) where
  abbrev jumped : Bool
  jumped = (detect_time_modified now m).0

  abbrev split : List ℕ × List ℕ
  split = split_expired jumped m.heap now p m.timers

  abbrev Goal : List (Option Callback) × Manager → Type 0
  Goal r = HandsOut m.heap (expiring jumped m.heap now m.timers) r

  nothing_left : HandsOut m.heap [] ([], record m { previous_time = now })
  nothing_left = (refl, record { ordered = v.ordered; armed = v.armed })

  -- The run that takes the expired timers out of the set.
  takes_out : Goal (collect now split.0 (record m { previous_time = now; timers = split.1 }))
  unfolding split_expired
  takes_out = elim (Bool-cases jumped) [
    | inl modified ↦ subst Out (sym (ap (λ b. split_of b) modified)) (
        subst
          (λ b.
            HandsOut m.heap (expiring b m.heap now m.timers)
              (collect now m.timers (record m { timers = []; previous_time = now })))
          (sym modified) (collect-HandsOut now m.timers _ (all-Pending now m v)))
    | inr steady ↦
        subst Out
          (sym (ap (λ b. split_of b) steady ∙ split_expired-due m.heap now p m.timers v.ordered))
          (subst
            (λ b. HandsOut m.heap (expiring b m.heap now m.timers) (
              collect now (due m.heap now m.timers)
                (record m { timers = later m.heap now m.timers; previous_time = now })))
            (sym steady) (collect-HandsOut now (due m.heap now m.timers) _ (due-Pending now m v)))
  ]
    where
      split_of : Bool → List ℕ × List ℕ
      split_of b = split_expired b m.heap now p m.timers

      Out : List ℕ × List ℕ → Type 0
      Out r = Goal (collect now r.0 (record m { previous_time = now; timers = r.1 }))

  none_now :
      (not jumped && first_after now m.heap m.timers) ≡ true
      → expiring jumped m.heap now m.timers ≡ []
  none_now h = go jumped (first_after now m.heap m.timers) h refl
    where
      go :
          (a b : Bool)
          → (not a && b) ≡ true
          → b ≡ first_after now m.heap m.timers
          → expiring a m.heap now m.timers ≡ []
      go true b e f = absurd (cc (e))
      go false b e f = none_expiring m.heap now m.timers v.ordered (sym f ∙ e)

  none_at_all : (a : Bool) → m.timers ≡ [] → expiring a m.heap now m.timers ≡ []
  none_at_all true e = e
  none_at_all false e = ap (λ ps. due m.heap now ps) e

  get_expired-Goal : Goal (get_expired_cbs_list now p m)
  unfolding get_expired_cbs_list
  get_expired-Goal = elim (Bool-cases (has_timer m)) [
    | inr empty ↦ subst Goal (sym (if_true (not (has_timer m)) _ _ (ap not empty))) (
        subst (λ ps. HandsOut m.heap ps ([], m)) (sym (none_at_all jumped (empty_timers m empty)))
          (refl, v))
    | inl some ↦
        subst Goal (sym (if_false (not (has_timer m)) _ _ (ap not some)))
          (elim (Bool-cases (not jumped && first_after now m.heap m.timers)) [
            | inl quiet ↦
                subst Goal (sym (if_true (not jumped && first_after now m.heap m.timers) _ _ quiet))
                  (subst (λ ps. HandsOut m.heap ps ([], record m { previous_time = now }))
                    (sym (none_now quiet)) nothing_left)
            | inr busy ↦
                subst Goal (sym (if_false (not jumped && first_after now m.heap m.timers) _ _ busy))
                  (unfold detect_time_modified in takes_out)
          ])
  ]

  pub get_expired_cbs_list-HandsOut :
      HandsOut m.heap
        (expiring (put_back now m.previous_time) m.heap now m.timers)
        (get_expired_cbs_list now p m)
  get_expired_cbs_list-HandsOut =
      subst (λ b. HandsOut m.heap (expiring b m.heap now m.timers) (get_expired_cbs_list now p m))
        (detect-put_back now m) get_expired-Goal
