-- ===== src/Hook/Fd/Table.antt =====
-- The table of FdManager: when it is well formed, and that it is after a new object is put in.
use lo_netfw.Base.{
  ℕ, zero, suc, ◌-◌, ◌*◌, ◌/◌, ◌≤◌, ◌<◌, ◌≡◌, ◌≢◌, ◌⊎◌, ◌==◌, ==_iff, refl, sym, ap, ◌∙◌, arith,
  Bool, true, false, List, [], ◌∷◌, ◌++◌, Option, none, some, length, length-append,
  length-replicate, length-set, get_elem?, set, take, replicate, leb, if_true, if_false, Bool-cases,
  inl, inr, lt→ltb, leb→le, leb→lt,
}
use lo_netfw.Hook.Fd.{
  Fd, Fstat, blank, opened, init, create, FdManager, ok, flat, lookup, grown, insert_new,
}
use mathlib.Core.Path.{subst}
use mathlib.Core.Option.{some-injective}

-- The size is that of the table, which has two places at least, and an object stands at its own
-- descriptor.
pub record IsValid (m : FdManager) : Type 0 where
  pub sized : m.size ≡ length m.fds
  pub room : 2 ≤ length m.fds
  pub own : (n : ℕ) (f : Fd) → lookup m n ≡ some f → f.fd ≡ n

take_all : (fs : List (Option Fd)) (n : ℕ) → length fs ≤ n → take n fs ≡ fs
take_all [] zero h = refl
take_all [] (suc n) h = refl
take_all (f ∷ fs) zero h = absurd (omega arith)
take_all (f ∷ fs) (suc n) h = ap (◌∷◌ f) (take_all fs n (omega arith))

pub none_at_end :
    (fs : List (Option Fd)) (k n : ℕ)
    → flat (get_elem? (fs ++ replicate k none) n) ≡ flat (get_elem? fs n)
none_at_end [] zero n = refl
none_at_end [] (suc k) zero = refl
none_at_end [] (suc k) (suc n) = none_at_end [] k n
none_at_end (f ∷ fs) k zero = refl
none_at_end (f ∷ fs) k (suc n) = none_at_end fs k n

pub set_same :
    (fs : List (Option Fd)) (n : ℕ) (o : Option Fd)
    → n < length fs
    → flat (get_elem? (set fs n o) n) ≡ o
set_same [] n o h = absurd (omega arith)
set_same (f ∷ fs) zero o h = refl
set_same (f ∷ fs) (suc n) o h = set_same fs n o (omega arith)

pub set_other :
    (fs : List (Option Fd)) (n q : ℕ) (o : Option Fd)
    → q ≢ n
    → flat (get_elem? (set fs n o) q) ≡ flat (get_elem? fs q)
set_other [] n q o h = refl
set_other (f ∷ fs) zero zero o h = absurd (h refl)
set_other (f ∷ fs) zero (suc q) o h = refl
set_other (f ∷ fs) (suc n) zero o h = refl
set_other (f ∷ fs) (suc n) (suc q) o h = set_other fs n q o (λ e. h (ap suc e))

-- A table with a place for `n`, that gives the old objects.
record Grows (n : ℕ) (m t : FdManager) : Type 0 where
  sized : t.size ≡ length t.fds
  room : 2 ≤ length t.fds
  place : n < length t.fds
  same : (q : ℕ) → lookup t q ≡ lookup m q

grown-Grows : (n : ℕ) (m : FdManager) → IsValid m → Grows n m (grown n m)
grown-Grows n m v = elim (Bool-cases (leb (length m.fds) n)) [
  | inr inside ↦ subst (Grows n m) (sym (if_false _ _ _ inside)) (record {
    sized = v.sized;
    room = v.room;
    place = leb→lt (length m.fds) n inside;
    same = λ q. refl;
  })
  | inl outside ↦
      subst (Grows n m) (sym (if_true _ _ _ outside)) (wider (leb→le (length m.fds) n outside))
]
  where
    k : ℕ
    k = n * 3 / 2 - length m.fds

    fds' : List (Option Fd)
    fds' = take (n * 3 / 2) m.fds ++ replicate k none

    wider : length m.fds ≤ n → Grows n m (record { fds = fds'; size = length fds' })
    wider le =
        let e : fds' ≡ m.fds ++ replicate k none =
          ap (λ fs. fs ++ replicate k none) (take_all m.fds (n * 3 / 2) (omega arith)) in
        let l : length fds' ≡ n * 3 / 2 =
          ap length e
          ∙ length-append m.fds (replicate k none)
          ∙ omega (arith, length-replicate {A = Option Fd} k none) in
        record {
          sized = refl;
          room = omega (arith, v.room);
          place = omega (arith, v.room);
          same = λ q. ap (λ fs. flat (get_elem? fs q)) e ∙ none_at_end m.fds k q;
        }

create-fd : (fstat : Fstat) (n : ℕ) → (create fstat n).fd ≡ n
unfolding create init
create-fd fstat n = go (fstat n)
  where
    go : (o : Option Bool) → (opened (blank n) o).fd ≡ n
    go none = refl
    go (some b) = refl

-- The table after a new object has been put in the place of `n`.
pub record Inserted (n : ℕ) (f : Fd) (m t : FdManager) : Type 0 where
  pub valid : IsValid t
  pub there : lookup t n ≡ some f
  pub others : (q : ℕ) → q ≢ n → lookup t q ≡ lookup m q

pub insert_new-Inserted :
    (fstat : Fstat) (n : ℕ) (m : FdManager)
    → IsValid m
    → (t : FdManager) × (insert_new fstat n m ≡ ok (some (create fstat n)) t)
      × Inserted n (create fstat n) m t
unfolding insert_new
insert_new-Inserted fstat n m v =
    let g : Grows n m (grown n m) = grown-Grows n m v in
    let here : lookup placed n ≡ some (create fstat n) =
      set_same (grown n m).fds n (some (create fstat n)) g.place in
    let others : (q : ℕ) → q ≢ n → lookup placed q ≡ lookup m q =
      λ q h. set_other (grown n m).fds n q (some (create fstat n)) h ∙ g.same q in
    (
      placed,
      if_true _ _ _ (lt→ltb n (length (grown n m).fds) g.place),
      record {
        valid = record {
          sized = g.sized ∙ sym (length-set (grown n m).fds n (some (create fstat n)));
          room = omega (arith, length-set (grown n m).fds n (some (create fstat n)), g.room);
          own = λ q f e. owner here others q f e (Bool-cases (q == n));
        };
        there = here;
        others = others;
      },
    )
  where
    placed : FdManager
    placed = record (grown n m) { fds = set (grown n m).fds n (some (create fstat n)) }

    owner :
        lookup placed n ≡ some (create fstat n)
        → ((q : ℕ) → q ≢ n → lookup placed q ≡ lookup m q)
        → (q : ℕ) (f : Fd) → lookup placed q ≡ some f
        → ((q == n) ≡ true) ⊎ ((q == n) ≡ false)
        → f.fd ≡ q
    owner here others q f e (inl this) =
        let same : q ≡ n = (==_iff q n).0 this in
        ap (λ (x : Fd). x.fd)
          (some-injective f (create fstat n) (sym e ∙ ap (lookup placed) same ∙ here))
        ∙ create-fd fstat n
        ∙ sym same
    owner here others q f e (inr other) =
        let differ : q ≢ n = λ p. cc (other, (==_iff q n).1 p) in
        v.own q f (sym (others q differ) ∙ e)
