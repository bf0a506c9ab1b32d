-- ===== src/Hook/Fd/Laws.antt =====
-- FdManager keeps one object for each descriptor.
use lo_netfw.Base.{
  ℕ, zero, suc, ◌≤◌, ◌<◌, ◌≡◌, ◌≢◌, ◌⊎◌, ◌==◌, ==_iff, refl, sym, ap, ◌∙◌, arith, Bool, true, false,
  ◌||◌, List, [], ◌∷◌, Option, none, some, length, length-replicate, length-set, get_elem?, set,
  leb, if_true, if_false, Bool-cases, inl, inr, leb→le, leb→lt,
}
use lo_netfw.Hook.Fd.{
  Fd, Fstat, create, FdManager, ok, fault, flat, lookup, is_set, insert_new, get, del, manager,
}
use mathlib.Core.Path.{subst}
use lo_netfw.Hook.Fd.Table.{IsValid, none_at_end, set_same, set_other, insert_new-Inserted}

-- What FdManager::get gives for `n`: the object that then stands there, which is the old one where
-- there was one; with creation there is one, without it nothing changes; the other descriptors keep
-- theirs.
pub record Got (n : ℕ) (auto_create : Bool) (m : FdManager) (r : Option Fd) (t : FdManager)
    : Type 0 where
  pub valid : IsValid t
  pub stands : lookup t n ≡ r
  pub kept : is_set (lookup m n) ≡ true → r ≡ lookup m n
  pub made : auto_create ≡ true → is_set r ≡ true
  pub still : auto_create ≡ false → (r ≡ lookup m n) × (t ≡ m)
  pub others : (q : ℕ) → q ≢ n → lookup t q ≡ lookup m q

outside_none : (fs : List (Option Fd)) (n : ℕ) → length fs ≤ n → flat (get_elem? fs n) ≡ none
outside_none [] n h = refl
outside_none (f ∷ fs) zero h = absurd (omega arith)
outside_none (f ∷ fs) (suc n) h = outside_none fs n (omega arith)

module _ (fstat : Fstat) (n : ℕ) (m : FdManager) (v : IsValid m) where
  insert_new-Got :
      lookup m n ≡ none
      → (t : FdManager) × (insert_new fstat n m ≡ ok (some (create fstat n)) t)
        × Got n true m (some (create fstat n)) t
  insert_new-Got empty =
      let (t, e, i) = insert_new-Inserted fstat n m v in
      (
        t,
        e,
        record {
          valid = i.valid;
          stands = i.there;
          kept = λ set. absurd (cc (set, ap is_set empty));
          made = λ _. refl;
          still = λ f. absurd (cc (f));
          others = i.others;
        },
      )

  lookup-Got :
      (auto_create : Bool)
      → (auto_create ≡ true → is_set (lookup m n) ≡ true)
      → Got n auto_create m (lookup m n) m
  lookup-Got auto_create h = record {
    valid = v;
    stands = refl;
    kept = λ _. refl;
    made = h;
    still = λ _. (refl, refl);
    others = λ q _. refl;
  }

  -- In a valid manager, FdManager::get uses no index out of range; it gives the object that then
  -- stands at the descriptor, the old one where there was one; with creation there is one, without
  -- it nothing changes; the other descriptors keep their objects, and the manager stays valid.
  get-Got :
      (auto_create : Bool)
      → (r : Option Fd) × (t : FdManager) × (get fstat n auto_create m ≡ ok r t)
        × Got n auto_create m r t
  unfolding get
  get-Got false = elim (Bool-cases (leb m.size n)) [
    | inl outside ↦
        let empty : lookup m n ≡ none =
          outside_none m.fds n (omega (arith, v.sized, leb→le m.size n outside)) in
        (
          lookup m n,
          m,
          if_true _ _ _ outside ∙ ap (λ r. ok r m) (sym empty),
          lookup-Got false (λ f. absurd (cc (f))),
        )
    | inr inside ↦ (
      lookup m n,
      m,
      if_false _ _ _ inside ∙ if_true _ _ _ (or_true (is_set (lookup m n))),
      lookup-Got false (λ f. absurd (cc (f))),
    )
  ]
    where
      or_true : (b : Bool) → (b || true) ≡ true
      or_true true = refl
      or_true false = refl
  get-Got true = elim (Bool-cases (leb m.size n)) [
    | inl outside ↦
        let (t, e, g) =
          insert_new-Got (outside_none m.fds n (omega (arith, v.sized, leb→le m.size n outside))) in
        (some (create fstat n), t, if_true _ _ _ outside ∙ e, g)
    | inr inside ↦ elim (Bool-cases (is_set (lookup m n))) [
      | inl present ↦ (
        lookup m n,
        m,
        if_false _ _ _ inside ∙ if_true _ _ _ (ap (λ b. b || false) present),
        lookup-Got true (λ _. present),
      )
      | inr absent ↦
          let (t, e, g) = insert_new-Got (unset (lookup m n) absent) in
          (
            some (create fstat n),
            t,
            if_false _ _ _ inside ∙ if_false _ _ _ (ap (λ b. b || false) absent) ∙ e,
            g,
          )
    ]
  ]
    where
      unset : (o : Option Fd) → is_set o ≡ false → o ≡ none
      unset none h = refl
      unset (some f) h = absurd (cc (h))

-- What del leaves: no object at `n`, and those of the others.
pub record Deleted (n : ℕ) (m t : FdManager) : Type 0 where
  pub valid : IsValid t
  pub gone : lookup t n ≡ none
  pub others : (q : ℕ) → q ≢ n → lookup t q ≡ lookup m q

-- In a valid manager, FdManager::del leaves no object at the descriptor, inside the table or not;
-- the other descriptors keep their objects, and the manager stays valid.
pub del-Deleted : (n : ℕ) (m : FdManager) → IsValid m → Deleted n m (del n m)
unfolding del
del-Deleted n m v = elim (Bool-cases (leb m.size n)) [
  | inl outside ↦ subst (Deleted n m) (sym (if_true _ _ _ outside)) (record {
    valid = v;
    gone = outside_none m.fds n (omega (arith, v.sized, leb→le m.size n outside));
    others = λ q h. refl;
  })
  | inr inside ↦
      let lt : n < length m.fds = omega (arith, v.sized, leb→lt m.size n inside) in
      let gone : lookup emptied n ≡ none = set_same m.fds n none lt in
      subst (Deleted n m) (sym (if_false _ _ _ inside)) (record {
        valid = record {
          sized = v.sized ∙ sym (length-set m.fds n none);
          room = omega (arith, length-set m.fds n none, v.room);
          own = λ q f e. owner gone q f e (Bool-cases (q == n));
        };
        gone = gone;
        others = λ q h. set_other m.fds n q none h;
      })
]
  where
    emptied : FdManager
    emptied = record m { fds = set m.fds n none }

    owner :
        lookup emptied n ≡ none
        → (q : ℕ) (f : Fd) → lookup emptied q ≡ some f
        → ((q == n) ≡ true) ⊎ ((q == n) ≡ false)
        → f.fd ≡ q
    owner gone q f e (inl this) =
        absurd (cc (sym gone ∙ ap (lookup emptied) (sym ((==_iff q n).0 this)) ∙ e))
    owner gone q f e (inr other) =
        let differ : q ≢ n = λ p. cc (other, (==_iff q n).1 p) in
        v.own q f (sym (set_other m.fds n q none differ) ∙ e)

-- A new manager for two descriptors at least is valid.
pub manager-IsValid : (size : ℕ) → 2 ≤ size → IsValid (manager size)
unfolding manager
manager-IsValid size h = record {
  sized = sym (length-replicate {A = Option Fd} size none);
  room = omega (arith, length-replicate {A = Option Fd} size none);
  own = λ n f e. absurd (cc (sym (none_at_end [] size n) ∙ e));
}

-- A manager that is made for fewer than two descriptors uses an index out of range when it is
-- asked to make one that has no place and is below two.
get_small :
    (fstat : Fstat) (size n : ℕ) → size ≤ n → n < 2 → get fstat n true (manager size) ≡ fault
unfolding get insert_new manager
get_small fstat zero zero h g = refl
get_small fstat zero (suc zero) h g = refl
get_small fstat (suc zero) (suc zero) h g = refl
get_small fstat (suc (suc size)) n h g = absurd (omega arith)
get_small fstat size (suc (suc n)) h g = absurd (omega arith)
get_small fstat (suc zero) zero h g = absurd (omega arith)
