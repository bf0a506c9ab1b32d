-- ===== src/Util/Stream/Whole.antt =====
-- writeF and readF move all bytes, or give the answer that stopped them.
use lo_netfw.Base.{
  ℕ, zero, suc, ◌-◌, ◌≤◌, ◌≡◌, ◌⊎◌, inl, inr, refl, sym, ap, ◌∙◌, arith, Bool, true, false, List,
  [], ◌∷◌, ◌++◌, Option, some, length, take, drop, length-drop, length-append,
}
use lo_netfw.Base.Int.{ℤ, pos, negsuc}
use lo_netfw.Util.Stream.{Stream, after_write, write_loop, write_f, after_read, read_loop, read_f}
use mathlib.Core.List.{append-nil, append_assoc}

-- What a stream does with the bytes it takes and gives, as its calls of the system have it: it takes
-- or gives at most the bytes asked for, those in front, and none when it gives no positive number.
pub record Documented {S : Type 0} (stream : Stream S) : Type 0 where
  pub accepted : S → List ℕ
  pub coming : S → List ℕ
  pub takes :
      (buf : List ℕ) (s : S) (n : ℕ) (s' : S)
      → stream.write buf s ≡ (pos n, s')
      → (n ≤ length buf) × (accepted s' ≡ accepted s ++ take n buf)
  pub takes_none :
      (buf : List ℕ) (s : S) (n : ℕ) (s' : S)
      → stream.write buf s ≡ (negsuc n, s')
      → accepted s' ≡ accepted s
  pub gives :
      (len : ℕ) (s : S) (n : ℕ) (bytes : List ℕ) (s' : S)
      → stream.read len s ≡ (pos n, bytes, s')
      → (n ≤ len) × (length bytes ≡ n) × (coming s ≡ bytes ++ coming s')
  pub gives_none :
      (len : ℕ) (s : S) (n : ℕ) (bytes : List ℕ) (s' : S)
      → stream.read len s ≡ (negsuc n, bytes, s')
      → coming s ≡ coming s'

abbrev pub is_positive : ℤ → Bool
is_positive (pos zero) = false
is_positive (pos (suc n)) = true
is_positive (negsuc n) = false

take-drop : (n : ℕ) (xs : List ℕ) → take n xs ++ drop n xs ≡ xs
take-drop zero xs = refl
take-drop (suc n) [] = refl
take-drop (suc n) (x ∷ xs) = ap (λ ys. x ∷ ys) (take-drop n xs)

module _ {S : Type 0} (stream : Stream S) (manual : Documented stream) where
  -- Of `buf`, `front` has been taken: all of it, and the result is `len`, or the result is not positive.
  abbrev pub Sends : ℕ → List ℕ → S → Option (ℤ × S) → Type 0
  Sends len buf s o =
      (r : ℤ) × (s' : S) × (front : List ℕ) × (back : List ℕ) × (o ≡ some (r, s'))
      × (buf ≡ front ++ back)
      × (manual.accepted s' ≡ manual.accepted s ++ front)
      × (((back ≡ []) × (r ≡ pos len)) ⊎ (is_positive r ≡ false))

  stops_at :
      (len : ℕ) (buf : List ℕ) (s : S) (r : ℤ) (s' : S)
      → manual.accepted s' ≡ manual.accepted s
      → is_positive r ≡ false
      → Sends len buf s (some (r, s'))
  stops_at len buf s r s' same stop =
      (r, s', [], buf, refl, refl, same ∙ sym (append-nil (manual.accepted s)), inr stop)

  write_loop-Sends :
      (len rounds : ℕ) (buf : List ℕ) (s : S)
      → length buf ≤ rounds
      → Sends len buf s (write_loop stream len rounds buf s)
  write_loop-Sends len rounds [] s h =
      (pos len, s, [], [], refl, refl, sym (append-nil (manual.accepted s)), inl (refl, refl))
  write_loop-Sends len zero (x ∷ xs) s h = absurd (omega arith)
  write_loop-Sends len (suc rounds) (x ∷ xs) s h =
      next (stream.write (x ∷ xs) s) refl (λ n s'. write_loop-Sends len rounds (drop n (x ∷ xs)) s')
    where
      next :
          (a : ℤ × S)
          → stream.write (x ∷ xs) s ≡ a
          → ((n : ℕ) (s' : S)
              → length (drop n (x ∷ xs)) ≤ rounds
              → Sends len (drop n (x ∷ xs)) s' (write_loop stream len rounds (drop n (x ∷ xs)) s'))
          → Sends len
              (x ∷ xs)
              s
              (after_write stream (λ n s'. write_loop stream len rounds (drop n (x ∷ xs)) s') a)
      next (negsuc n, s') e more =
          stops_at len (x ∷ xs) s (negsuc n) s' (manual.takes_none _ _ _ _ e) refl
      next (pos zero, s') e more =
          stops_at len (x ∷ xs) s (pos zero) s'
            ((manual.takes _ _ _ _ e).1 ∙ append-nil (manual.accepted s)) refl
      next (pos (suc n), s') e more =
          let (fits, took) = manual.takes (x ∷ xs) s (suc n) s' e in
          let (r, s'', front, back, done, split, sum, why) =
            more (suc n) s' (omega (arith, length-drop (suc n) (x ∷ xs), h)) in
          (
            r,
            s'',
            take (suc n) (x ∷ xs) ++ front,
            back,
            done,
            sym (take-drop (suc n) (x ∷ xs))
                ∙ ap (λ ys. take (suc n) (x ∷ xs) ++ ys) split
                ∙ sym (append_assoc (take (suc n) (x ∷ xs)) front back),
            sum
                ∙ ap (λ ys. ys ++ front) took
                ∙ append_assoc (manual.accepted s) (take (suc n) (x ∷ xs)) front,
            why,
          )

  -- On a stream whose write takes a front part of the bytes it is offered when it gives a positive
  -- number, and none else, writeF returns after as many rounds as there are bytes: all bytes have
  -- been taken, in order, and the result is their number, or a front part of them and the result
  -- is not positive.
  pub write_f-Sends : (buf : List ℕ) (s : S) → Sends (length buf) buf s (write_f stream buf s)
  unfolding write_f
  write_f-Sends buf s = write_loop-Sends (length buf) (length buf) buf s (omega arith)

no_bytes : (xs : List ℕ) → length xs ≡ 0 → xs ≡ []
no_bytes [] e = refl
no_bytes (x ∷ xs) e = absurd (omega (arith, e))

module _ {S : Type 0} (stream : Stream S) (manual : Documented stream) where
  -- The buffer holds `got` and then the bytes `bytes` that came: `left` bytes, and the result is `len`,
  -- or the result is not positive.
  abbrev pub Receives : ℕ → ℕ → List ℕ → S → Option (ℤ × List ℕ × S) → Type 0
  Receives len left got s o =
      (r : ℤ) × (s' : S) × (bytes : List ℕ) × (o ≡ some (r, got ++ bytes, s'))
      × (manual.coming s ≡ bytes ++ manual.coming s')
      × (((length bytes ≡ left) × (r ≡ pos len)) ⊎ (is_positive r ≡ false))

  ends_at :
      (len left : ℕ) (got : List ℕ) (s : S) (r : ℤ) (s' : S)
      → manual.coming s ≡ manual.coming s'
      → ((left ≡ 0) × (r ≡ pos len)) ⊎ (is_positive r ≡ false)
      → Receives len left got s (some (r, got, s'))
  ends_at len left got s r s' same (inl (none_left, whole)) = (
    r,
    s',
    [],
    ap (λ xs. some (r, xs, s')) (sym (append-nil got)),
    same,
    inl (sym none_left, whole),
  )
  ends_at len left got s r s' same (inr stop) =
      (r, s', [], ap (λ xs. some (r, xs, s')) (sym (append-nil got)), same, inr stop)

  read_loop-Receives :
      (len rounds left : ℕ) (got : List ℕ) (s : S)
      → left ≤ rounds
      → Receives len left got s (read_loop stream len rounds left got s)
  read_loop-Receives len rounds zero got s h =
      ends_at len 0 got s (pos len) s refl (inl (refl, refl))
  read_loop-Receives len zero (suc left) got s h = absurd (omega arith)
  read_loop-Receives len (suc rounds) (suc left) got s h =
      next (stream.read (suc left) s) refl
        (λ n got' s'. read_loop-Receives len rounds (suc left - n) got' s')
    where
      next :
          (a : ℤ × List ℕ × S)
          → stream.read (suc left) s ≡ a
          → ((n : ℕ) (got' : List ℕ) (s' : S)
              → suc left - n ≤ rounds
              → Receives len
                  (suc left - n)
                  got'
                  s'
                  (read_loop stream len rounds (suc left - n) got' s'))
          → Receives len (suc left) got s (
              after_read stream got
                (λ n got' s'. read_loop stream len rounds (suc left - n) got' s')
                a)
      next (negsuc n, bytes, s') e more =
          ends_at len (suc left) got s (negsuc n) s' (manual.gives_none _ _ _ _ _ e) (inr refl)
      next (pos zero, bytes, s') e more =
          let (fits, size, came) = manual.gives (suc left) s 0 bytes s' e in
          ends_at len (suc left) got s (pos zero) s'
            (came ∙ ap (λ xs. xs ++ manual.coming s') (no_bytes bytes size)) (inr refl)
      next (pos (suc n), bytes, s') e more =
          let (fits, size, came) = manual.gives (suc left) s (suc n) bytes s' e in
          let (r, s'', rest, done, came', why) =
            more (suc n) (got ++ bytes) s' (omega (arith, h)) in
          (
            r,
            s'',
            bytes ++ rest,
            done ∙ ap (λ xs. some (r, xs, s'')) (append_assoc got bytes rest),
            came ∙ ap (λ xs. bytes ++ xs) came' ∙ sym (append_assoc bytes rest (manual.coming s'')),
            elim why [
              | inl (count, whole) ↦
                  inl (omega (arith, length-append bytes rest, count, size, fits), whole)
              | inr stop ↦ inr stop
            ],
          )

  -- On a stream whose read gives the next bytes, as many as it says and at most those asked for,
  -- and none when it gives no positive number, readF returns after as many rounds as bytes are
  -- asked for: the buffer holds the next bytes of the stream, in order, as many as asked for, and
  -- the result is that number, or the result is not positive.
  read_f-Receives : (len : ℕ) (s : S) → Receives len len [] s (read_f stream len s)
  unfolding read_f
  read_f-Receives len s = read_loop-Receives len len len [] s (omega arith)
