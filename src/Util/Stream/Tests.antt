-- ===== src/Util/Stream/Tests.antt =====
-- Runs of the theorems about Stream on a stream that moves a byte at a time. Its state is the bytes it
-- has taken and those that are to come.
use lo_netfw.Base.{
  ℕ, zero, suc, ◌≤◌, ◌≡◌, refl, sym, ap, ◌∙◌, arith, List, [], ◌∷◌, ◌++◌, length, take,
}
use lo_netfw.Base.Int.{ℤ, pos, negsuc}
use lo_netfw.Util.Stream.{Stream, write_f}
use lo_netfw.Util.Stream.Whole.{Documented, Sends, write_f-Sends}
use mathlib.Core.List.{append-nil}
use mathlib.Core.Path.{subst}

abbrev Pipe : Type 0
Pipe = List ℕ × List ℕ

abbrev put_one : List ℕ → Pipe → ℤ × Pipe
put_one [] s = (pos 0, s)
put_one (x ∷ more) s = (pos 1, (s.0 ++ x ∷ [], s.1))

abbrev get_one : ℕ → Pipe → ℤ × List ℕ × Pipe
get_one zero s = (pos 0, [], s)
get_one (suc len) (taken, []) = (pos 0, [], (taken, []))
get_one (suc len) (taken, x ∷ more) = (pos 1, x ∷ [], (taken, more))

abbrev pipe : Stream Pipe
pipe = record {
  read = get_one;
  write = put_one;
  read_array = λ len s. (pos 0, s);
  write_array = λ len s. (pos 0, s);
}

abbrev number : ℤ → ℕ
number (pos n) = n
number (negsuc n) = n

takes_one :
    (buf : List ℕ) (s : Pipe) (n : ℕ) (s' : Pipe)
    → put_one buf s ≡ (pos n, s')
    → (n ≤ length buf) × (s'.0 ≡ s.0 ++ take n buf)
takes_one [] s n s' e =
    let count : 0 ≡ n = ap (λ (a : ℤ × Pipe). number a.0) e in
    let state : s.0 ≡ s'.0 = ap (λ (a : ℤ × Pipe). a.1.0) e in
    (omega (arith, count), sym state ∙ sym (append-nil s.0) ∙ ap (λ k. s.0 ++ take k []) count)
takes_one (x ∷ more) s n s' e =
    let count : 1 ≡ n = ap (λ (a : ℤ × Pipe). number a.0) e in
    let state : s.0 ++ x ∷ [] ≡ s'.0 = ap (λ (a : ℤ × Pipe). a.1.0) e in
    (omega (arith, count), sym state ∙ ap (λ k. s.0 ++ take k (x ∷ more)) count)

takes_nothing :
    (buf : List ℕ) (s : Pipe) (n : ℕ) (s' : Pipe) → put_one buf s ≡ (negsuc n, s') → s'.0 ≡ s.0
takes_nothing [] s n s' e = absurd (cc (ap (λ (a : ℤ × Pipe). a.0) e))
takes_nothing (x ∷ more) s n s' e = absurd (cc (ap (λ (a : ℤ × Pipe). a.0) e))

abbrev Given : ℤ × List ℕ × Pipe → List ℕ → ℕ → Type 0
Given a coming len = (number a.0 ≤ len) × (length a.1 ≡ number a.0) × (coming ≡ a.1 ++ a.2.1)

gives_one : (len : ℕ) (s : Pipe) → Given (get_one len s) s.1 len
gives_one zero s = (omega arith, refl, refl)
gives_one (suc len) (taken, []) = (omega arith, refl, refl)
gives_one (suc len) (taken, x ∷ more) = (omega arith, refl, refl)

gives_nothing :
    (len : ℕ) (s : Pipe) (n : ℕ) (bytes : List ℕ) (s' : Pipe)
    → get_one len s ≡ (negsuc n, bytes, s')
    → s.1 ≡ s'.1
gives_nothing zero s n bytes s' e = absurd (cc (ap (λ (a : ℤ × List ℕ × Pipe). a.0) e))
gives_nothing (suc len) (taken, []) n bytes s' e =
    absurd (cc (ap (λ (a : ℤ × List ℕ × Pipe). a.0) e))
gives_nothing (suc len) (taken, x ∷ more) n bytes s' e =
    absurd (cc (ap (λ (a : ℤ × List ℕ × Pipe). a.0) e))

pipe-Documented : Documented pipe
pipe-Documented = record {
  accepted = λ s. s.0;
  coming = λ s. s.1;
  takes = takes_one;
  takes_none = takes_nothing;
  gives = λ len s n bytes s' e. subst (λ a. Given a s.1 len) e (gives_one len s);
  gives_none = gives_nothing;
}

write_f-Sends_example :
    Sends pipe pipe-Documented 3
      (7 ∷ 8 ∷ 9 ∷ [])
      ([], 5 ∷ [])
      (write_f pipe (7 ∷ 8 ∷ 9 ∷ []) ([], 5 ∷ []))
write_f-Sends_example = write_f-Sends pipe pipe-Documented (7 ∷ 8 ∷ 9 ∷ []) ([], 5 ∷ [])
