-- ===== src/Log/Logger/Handed.antt =====
-- To which appenders a logger hands an event.
use mathlib.Core.Path.{subst, ap₂}
use mathlib.Core.List.{map-append}
use lo_netfw.Base.{
  ℕ, zero, suc, ◌<◌, ◌≡◌, ◌≢◌, refl, sym, ap, ◌∙◌, arith, List, [], ◌∷◌, ◌++◌, map, Option, none,
  some, length, length-set, get_elem?, set, ltb, ◌==◌, ==_iff, if◌then◌else◌, All, Bool-cases, inl,
  inr,
}
use lo_netfw.Util.Text.{Text}
use lo_netfw.Log.{Level, rank, LogEvent, LogFormatter, DateTime, create}
use lo_netfw.Log.Logger.{
  Target, LogAppender, Output, formatted, append, Appenders, Logger, logger, both, append_at,
  append_all, log, or_else, with_formatter, add_appender, del_first, del_appender, clear_appenders,
  set_level, set_level_name,
}

-- The calls of a Logger besides log.
pub data Action : Type 0 where
  add_call : ℕ → Action
  del_call : ℕ → Action
  clear_call : Action
  level_call : Level → Action
  level_name_call : Text → Action

abbrev pub act : Action → Appenders → Logger → Appenders × Logger
act (add_call p) heap l = add_appender p heap l
act (del_call p) heap l = (heap, del_appender p l)
act clear_call heap l = (heap, clear_appenders l)
act (level_call level) heap l = (heap, set_level level l)
act (level_name_call name) heap l = (heap, set_level_name name l)

abbrev pub act_all : List Action → Appenders → Logger → Appenders × Logger
act_all [] heap l = (heap, l)
act_all (a ∷ more) heap l = act_all more (act a heap l).0 (act a heap l).1

-- Every appender that is added is there.
abbrev pub Exists : ℕ → Action → Type 0
Exists n (add_call p) = p < n
Exists n (del_call p) = Unit
Exists n clear_call = Unit
Exists n (level_call level) = Unit
Exists n (level_name_call name) = Unit

-- An appender is there and has a formatter.
record Ready (heap : Appenders) (p : ℕ) : Type 0 where
  appender : LogAppender
  there : get_elem? heap p ≡ some appender
  formatter : LogFormatter
  has : appender.formatter ≡ some formatter

record IsReady (heap : Appenders) (l : Logger) : Type 0 where
  own : LogFormatter
  has_own : l.formatter ≡ some own
  ready : All (Ready heap) l.appenders

set_same :
    (xs : Appenders) (p : ℕ) (v : LogAppender) → p < length xs → get_elem? (set xs p v) p ≡ some v
set_same [] p v h = absurd (omega arith)
set_same (x ∷ xs) zero v h = refl
set_same (x ∷ xs) (suc p) v h = set_same xs p v (omega arith)

set_other :
    (xs : Appenders) (p q : ℕ) (v : LogAppender) → q ≢ p → get_elem? (set xs p v) q ≡ get_elem? xs q
set_other [] p q v h = refl
set_other (x ∷ xs) zero zero v h = absurd (h refl)
set_other (x ∷ xs) zero (suc q) v h = refl
set_other (x ∷ xs) (suc p) zero v h = refl
set_other (x ∷ xs) (suc p) (suc q) v h = set_other xs p q v (λ e. h (ap suc e))

in_range : (xs : Appenders) (p : ℕ) → p < length xs → (a : LogAppender) × (get_elem? xs p ≡ some a)
in_range [] p h = absurd (omega arith)
in_range (x ∷ xs) zero h = (x, refl)
in_range (x ∷ xs) (suc p) h = in_range xs p (omega arith)

or_else-some :
    (f : LogFormatter) (o : Option LogFormatter)
    → (g : LogFormatter) × (or_else o (some f) ≡ some g)
or_else-some f none = (f, refl)
or_else-some f (some g) = (g, refl)

module _ (heap : Appenders) (p : ℕ) (a : LogAppender) (f : LogFormatter)
    (inside : p < length heap) where
  set-Ready : Ready (set heap p (with_formatter (some f) a)) p
  set-Ready =
      let (g, h) = or_else-some f a.formatter in
      record {
        appender = with_formatter (some f) a;
        there = set_same heap p _ inside;
        formatter = g;
        has = h;
      }

  keep-Ready : (q : ℕ) → Ready heap q → Ready (set heap p (with_formatter (some f) a)) q
  keep-Ready q r = elim (Bool-cases (q == p)) [
    | inl e ↦
        subst (Ready (set heap p (with_formatter (some f) a))) (sym ((==_iff q p).0 e)) set-Ready
    | inr e ↦ record {
      appender = r.appender;
      there = set_other heap p q _ (λ k. absurd (cc ((==_iff q p).1 k, e))) ∙ r.there;
      formatter = r.formatter;
      has = r.has;
    }
  ]

  All_keep :
      (ps : List ℕ)
      → All (Ready heap) ps
      → All (Ready (set heap p (with_formatter (some f) a))) (ps ++ p ∷ [])
  All_keep [] h = (set-Ready, tt)
  All_keep (q ∷ qs) (h, hs) = (keep-Ready q h, All_keep qs hs)

del_first-All :
    (heap : Appenders) (p : ℕ) (ps : List ℕ)
    → All (Ready heap) ps
    → All (Ready heap) (del_first p ps)
del_first-All heap p [] h = tt
del_first-All heap p (q ∷ qs) (h, hs) = elim (Bool-cases (q == p)) [
  | inl e ↦ rw e hs
  | inr e ↦ rw e (h, del_first-All heap p qs hs)
]

act-IsReady :
    (c : Action) (heap : Appenders) (l : Logger)
    → Exists (length heap) c
    → IsReady heap l
    → IsReady (act c heap l).0 (act c heap l).1 × (length (act c heap l).0 ≡ length heap)
unfolding add_appender del_appender clear_appenders set_level set_level_name
act-IsReady (add_call p) heap l h r =
    let (a, at) = in_range heap p h in
    rw (at, r.has_own)
      (
        record {
          own = r.own;
          has_own = refl;
          ready = All_keep heap p a r.own h l.appenders r.ready;
        },
        length-set heap p _,
      )
act-IsReady (del_call p) heap l h r = (
  record { own = r.own; has_own = r.has_own; ready = del_first-All heap p l.appenders r.ready },
  refl,
)
act-IsReady clear_call heap l h r = (record { own = r.own; has_own = r.has_own; ready = tt }, refl)
act-IsReady (level_call level) heap l h r =
    (record { own = r.own; has_own = r.has_own; ready = r.ready }, refl)
act-IsReady (level_name_call name) heap l h r =
    (record { own = r.own; has_own = r.has_own; ready = r.ready }, refl)

all-IsReady :
    (n : ℕ) (calls : List Action) (heap : Appenders) (l : Logger)
    → length heap ≡ n
    → All (Exists n) calls
    → IsReady heap l
    → IsReady (act_all calls heap l).0 (act_all calls heap l).1
all-IsReady n [] heap l e h r = r
all-IsReady n (c ∷ more) heap l e (h, hs) r =
    let (r', e') = act-IsReady c heap l (subst (λ k. Exists k c) (sym e) h) r in
    all-IsReady n more _ _ (e' ∙ e) hs r'

-- The appenders whose level lets an event of a level pass, in order.
abbrev pub passing : Level → Option LogAppender → List Target
passing level none = []
passing level (some a) = if ltb (rank level) (rank a.level) then [] else a.target ∷ []

abbrev pub wanted : Level → Appenders → List ℕ → List Target
wanted level heap [] = []
wanted level heap (p ∷ ps) = passing level (get_elem? heap p) ++ wanted level heap ps

abbrev pub target_of : Output → Target
target_of o = o.target

abbrev pub Writes : List Target → Option (List Output) → Type 0
Writes ts o = (outs : List Output) × (o ≡ some outs) × (map target_of outs ≡ ts)

module _ (dt : DateTime) (heap : Appenders) (level : Level) (e : LogEvent) where
  append-Writes :
      (name : Text) (p : ℕ)
      → Ready heap p
      → Writes (passing level (get_elem? heap p)) (append_at dt name level e (get_elem? heap p))
  unfolding append
  append-Writes name p r =
      rw r.there (elim (Bool-cases (ltb (rank level) (rank r.appender.level))) [
        | inl low ↦ rw low ([], refl, refl)
        | inr high ↦ rw high (_, ap (formatted dt r.appender.target name level e) r.has, refl)
      ])

  both-Writes :
      (ts us : List Target) (o q : Option (List Output))
      → Writes ts o
      → Writes us q
      → Writes (ts ++ us) (both o q)
  both-Writes ts us o q (xs, h, hs) (ys, g, gs) =
      (xs ++ ys, ap₂ both h g, map-append target_of xs ys ∙ ap₂ ◌++◌ hs gs)

  append_all-Writes :
      (name : Text) (ps : List ℕ)
      → All (Ready heap) ps
      → Writes (wanted level heap ps) (append_all dt heap name level e ps)
  append_all-Writes name [] r = ([], refl, refl)
  append_all-Writes name (p ∷ ps) (r, rs) =
      both-Writes _ _ _ _ (append-Writes name p r) (append_all-Writes name ps rs)

  log-Ready :
      (l : Logger)
      → IsReady heap l
      → Writes
          (if ltb (rank level) (rank l.level) then [] else wanted level heap l.appenders)
          (log dt heap level e l)
  unfolding log
  log-Ready l r = elim (Bool-cases (ltb (rank level) (rank l.level))) [
    | inl low ↦ rw low ([], refl, refl)
    | inr high ↦ simp high (append_all-Writes l.name l.appenders r.ready)
  ]

-- After any calls of addAppender, delAppender, clearAppenders and setLevel on a new logger, where
-- every appender that is added is there, log follows no null pointer, also where appenders came
-- without a formatter: an event below the level of the logger is written nowhere, and another one
-- once by each of the appenders that the logger then has, in order, whose own level lets it pass.
pub log-Handed :
    (dt : DateTime) (name : Text) (first level : Level) (e : LogEvent) (heap : Appenders)
    (calls : List Action)
    → All (Exists (length heap)) calls
    → let (heap', l) = act_all calls heap (logger name first) in
      Writes
        (if ltb (rank level) (rank l.level) then [] else wanted level heap' l.appenders)
        (log dt heap' level e l)
unfolding logger create
log-Handed dt name first level e heap calls h = log-Ready dt _ level e _ (
    all-IsReady (length heap) calls heap (logger name first) refl h
      (record { own = _; has_own = refl; ready = tt }))
