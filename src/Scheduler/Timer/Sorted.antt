-- ===== src/Scheduler/Timer/Sorted.antt =====
-- The list of timers as the set it stands for: in the order of the comparator, without repetition.
use lo_netfw.Base.{
  ℕ, ◌≡◌, ◌⊎◌, refl, sym, ap, ◌∙◌, arith, Bool, true, false, not, ◌&&◌, ◌||◌, List, [], ◌∷◌, All,
  ◌==◌, if◌then◌else◌, Bool-cases, inl, inr, ==_iff,
}
use lo_netfw.Scheduler.Timer.Defs.{Timer, before, same_key, insert, member, erase}

abbrev pub contains : ℕ → List ℕ → Bool
contains q [] = false
contains q (p ∷ ps) = (q == p) || contains q ps

-- Every timer is before those behind it.
abbrev pub Ordered : (ℕ → Timer) → List ℕ → Type 0
Ordered heap [] = Unit {0}
Ordered heap (p ∷ ps) = All (λ q. before heap p q ≡ true) ps × Ordered heap ps

before_trans :
    (heap : ℕ → Timer) (p q r : ℕ)
    → before heap p q ≡ true
    → before heap q r ≡ true
    → before heap p r ≡ true
before_trans heap p q r h g = ground arith

before_irrefl : (heap : ℕ → Timer) (p : ℕ) → before heap p p ≡ false
before_irrefl heap p = ground arith

-- Two elements of the set are the same just when they are one timer.
same_key-eq : (heap : ℕ → Timer) (p q : ℕ) → same_key heap p q ≡ (p == q)
same_key-eq heap p q = ground arith

pub All-map {ℓ κ ι} :
    {A : Type ℓ} (P : A → Type κ) (Q : A → Type ι) (xs : List A)
    → ((x : A) → P x → Q x)
    → All P xs
    → All Q xs
All-map P Q [] f h = tt
All-map P Q (x ∷ xs) f h = (f x h.0, All-map P Q xs f h.1)

pub member-contains : (heap : ℕ → Timer) (p : ℕ) (ps : List ℕ) → member heap p ps ≡ contains p ps
unfolding member
member-contains heap p [] = refl
member-contains heap p (q ∷ qs) =
    rw (same_key-eq heap p q, member-contains heap p qs) (if_or (p == q) (contains p qs))
  where
    if_or : (b c : Bool) → (if b then true else c) ≡ b || c
    if_or true c = refl
    if_or false c = refl

All-insert {κ} :
    (P : ℕ → Type κ) (heap : ℕ → Timer) (p : ℕ) (ps : List ℕ)
    → P p
    → All P ps
    → All P (insert heap p ps)
unfolding insert
All-insert P heap p [] hp h = (hp, tt)
All-insert P heap p (q ∷ qs) hp h = elim (Bool-cases (before heap p q)) [
  | inl here ↦ rw here (hp, h)
  | inr there ↦ elim (Bool-cases (before heap q p)) [
    | inl on ↦ rw (there, on) (h.0, All-insert P heap p qs hp h.1)
    | inr same ↦ rw (there, same) h
  ]
]

-- An insertion keeps the order.
pub insert-Ordered :
    (heap : ℕ → Timer) (p : ℕ) (ps : List ℕ) → Ordered heap ps → Ordered heap (insert heap p ps)
unfolding insert
insert-Ordered heap p [] h = (tt, tt)
insert-Ordered heap p (q ∷ qs) h = elim (Bool-cases (before heap p q)) [
  | inl here ↦ rw here ((here, All-map _ _ qs (λ r g. before_trans heap p q r here g) h.0), h)
  | inr there ↦ elim (Bool-cases (before heap q p)) [
    | inl on ↦ rw (there, on) (All-insert _ heap p qs on h.0, insert-Ordered heap p qs h.1)
    | inr same ↦ rw (there, same) h
  ]
]

or_swap : (a b c : Bool) → (a || (b || c)) ≡ (b || (a || c))
or_swap true true c = refl
or_swap true false c = refl
or_swap false b c = refl

pub contains-insert :
    (heap : ℕ → Timer) (p q : ℕ) (ps : List ℕ)
    → contains q (insert heap p ps) ≡ ((q == p) || contains q ps)
unfolding insert
contains-insert heap p q [] = refl
contains-insert heap p q (r ∷ rs) = elim (Bool-cases (before heap p r)) [
  | inl here ↦ rw here refl
  | inr there ↦ elim (Bool-cases (before heap r p)) [
    | inl on ↦
        rw (there, on)
          (ap (λ b. (q == r) || b) (contains-insert heap p q rs)
            ∙ or_swap (q == r) (q == p) (contains q rs))
    | inr same ↦
        let e : p ≡ r = ground arith in rw (there, same, e) (twice (q == r) (contains q rs))
  ]
]
  where
    twice : (b c : Bool) → (b || c) ≡ (b || (b || c))
    twice true c = refl
    twice false c = refl

All-erase {κ} :
    (P : ℕ → Type κ) (heap : ℕ → Timer) (p : ℕ) (ps : List ℕ) → All P ps → All P (erase heap p ps)
unfolding erase
All-erase P heap p [] h = tt
All-erase P heap p (q ∷ qs) h = elim (Bool-cases (same_key heap p q)) [
  | inl this ↦ rw this h.1
  | inr other ↦ rw other (h.0, All-erase P heap p qs h.1)
]

-- A removal keeps the order.
pub erase-Ordered :
    (heap : ℕ → Timer) (p : ℕ) (ps : List ℕ) → Ordered heap ps → Ordered heap (erase heap p ps)
unfolding erase
erase-Ordered heap p [] h = tt
erase-Ordered heap p (q ∷ qs) h = elim (Bool-cases (same_key heap p q)) [
  | inl this ↦ rw this h.1
  | inr other ↦ rw other (All-erase _ heap p qs h.0, erase-Ordered heap p qs h.1)
]

-- What stands behind a timer does not contain it.
pub behind :
    (heap : ℕ → Timer) (p : ℕ) (ps : List ℕ)
    → All (λ q. before heap p q ≡ true) ps
    → contains p ps ≡ false
behind heap p [] h = refl
behind heap p (q ∷ qs) h =
    let e : (p == q) ≡ false = ground (arith, h.0) in rw e (behind heap p qs h.1)

pub contains-erase :
    (heap : ℕ → Timer) (p q : ℕ) (ps : List ℕ)
    → Ordered heap ps
    → contains q (erase heap p ps) ≡ (not (q == p) && contains q ps)
unfolding erase
contains-erase heap p q [] h = and_false (not (q == p))
  where
    and_false : (b : Bool) → false ≡ (b && false)
    and_false true = refl
    and_false false = refl
contains-erase heap p q (r ∷ rs) h = elim (Bool-cases (p == r)) [
  | inl this ↦
      let e : p ≡ r = (==_iff p r).0 this in
      rw (same_key-eq heap p r, this, e) (gone (Bool-cases (q == r)))
  | inr other ↦
      rw (same_key-eq heap p r, other)
        (ap (λ b. (q == r) || b) (contains-erase heap p q rs h.1)
          ∙ stays (Bool-cases (q == r)) other)
]
  where
    gone :
        ((q == r) ≡ true) ⊎ ((q == r) ≡ false)
        → contains q rs ≡ (not (q == r) && ((q == r) || contains q rs))
    gone (inl e) = rw e (ap (λ x. contains x rs) ((==_iff q r).0 e) ∙ behind heap r rs h.0)
    gone (inr e) = rw e refl

    stays :
        ((q == r) ≡ true) ⊎ ((q == r) ≡ false)
        → (p == r) ≡ false
        → ((q == r) || (not (q == p) && contains q rs))
          ≡ (not (q == p) && ((q == r) || contains q rs))
    stays (inl e) n = let d : (q == p) ≡ false = ground arith in rw (e, d) refl
    stays (inr e) n = rw e refl

-- Only the times of the timers in the list matter for the order.
pub Ordered-cong :
    (heap heap' : ℕ → Timer) (ps : List ℕ)
    → All (λ q. (heap' q).next ≡ (heap q).next) ps
    → Ordered heap ps
    → Ordered heap' ps
Ordered-cong heap heap' [] e h = tt
Ordered-cong heap heap' (p ∷ ps) e h = (heads ps e.1 h.0, Ordered-cong heap heap' ps e.1 h.1)
  where
    heads :
        (qs : List ℕ)
        → All (λ q. (heap' q).next ≡ (heap q).next) qs
        → All (λ q. before heap p q ≡ true) qs
        → All (λ q. before heap' p q ≡ true) qs
    heads [] e' g = tt
    heads (q ∷ qs) e' g = (rw (e.0, e'.0) g.0, heads qs e'.1 g.1)

-- A fact about every timer but `p` is one about the members of a list without `p`.
pub All-others {κ} :
    (P : ℕ → Type κ) (p : ℕ) (ps : List ℕ)
    → contains p ps ≡ false
    → ((q : ℕ) → (q == p) ≡ false → P q)
    → All P ps
All-others P p [] h f = tt
All-others P p (q ∷ qs) h f = elim (Bool-cases (p == q)) [
  | inl e ↦ let there : ((p == q) || contains p qs) ≡ true = rw e refl in absurd (cc (h, there))
  | inr e ↦
      let on : contains p qs ≡ false = ap (λ b. b || contains p qs) (sym e) ∙ h in
      (f q (ground arith), All-others P p qs on f)
]
