-- ===== src/Util/ByteArray/Codec.antt =====
-- How reads and writes compose: a call that emits bytes, a call that parses them, and what a parser
-- makes of what was emitted.
use lo_netfw.Base.{
  ℕ, ◌+◌, ◌^◌, ◌≤◌, ◌<◌, ◌≡◌, refl, sym, ap, ◌∙◌, arith, List, [], ◌∷◌, ◌++◌, length, length-append,
  take, drop, fun_ext,
}
use lo_netfw.Util.Endian.{Endian}
use lo_netfw.Util.ByteArray.Defs.{ByteArray, ok, M, bind, ◌>>=◌, ◌>>◌, CeilFloat, write}
use lo_netfw.Util.ByteArray.Access.{set_position, read}
use lo_netfw.Util.ByteArray.Cells.{byte, slice, slice-append, patched, patched_twice, length-slice}
use lo_netfw.Util.ByteArray.Invariant.{IsValid}
use lo_netfw.Util.ByteArray.Write.{Stored, write-Stored}
use lo_netfw.Util.ByteArray.Reading.{Consumed, passed, read-slice}
use lo_netfw.Util.ByteArray.Seek.{set_position-Moved}
use lo_netfw.Util.ByteArray.RoundTrip.{Rewound, set_position-Rewound}
use mathlib.Core.Path.{ap₂}

-- In byte order `e` the call writes `bytes` at the position.
abbrev pub Emits : Endian → M (Unit {0}) → List ℕ → Type 0
Emits e op bytes =
    (s : ByteArray)
    → IsValid s
    → s.ba_endian ≡ e
    → s.node_size < 2 ^ 24
    → (t : ByteArray) × (op s ≡ ok tt t) × Stored s bytes t

-- In byte order `e` the call reads `bytes` off the position and returns `v`.
abbrev pub Parses : {A : Type 0} → Endian → M A → List ℕ → A → Type 0
Parses e op bytes v =
    (s : ByteArray)
    → IsValid s
    → s.ba_endian ≡ e
    → s.position + length bytes ≤ s.data_size
    → slice (byte s) s.position (length bytes) ≡ bytes
    → (t : ByteArray) × (op s ≡ ok v t) × Consumed s (length bytes) t

pub write-Emits :
    (fl : CeilFloat) (e : Endian) (bytes : List ℕ)
    → length bytes < 2 ^ 24
    → Emits e (write fl bytes) bytes
write-Emits fl e bytes h s v order small = write-Stored fl bytes s v h small

pub take-append : (xs ys : List ℕ) → take (length xs) (xs ++ ys) ≡ xs
take-append [] ys = refl
take-append (x ∷ xs) ys = ap (◌∷◌ x) (take-append xs ys)

drop-append : (xs ys : List ℕ) → drop (length xs) (xs ++ ys) ≡ ys
drop-append [] ys = refl
drop-append (x ∷ xs) ys = drop-append xs ys

patched-append :
    (f : ℕ → ℕ) (pos : ℕ) (xs ys : List ℕ) (p : ℕ)
    → patched (patched f pos xs) (pos + length xs) ys p ≡ patched f pos (xs ++ ys) p
patched-append f pos xs ys p =
    ap₂ (λ a b. patched (patched f pos a) (pos + length xs) b p) (sym (take-append xs ys))
      (sym (drop-append xs ys))
    ∙ patched_twice f pos (length xs) (xs ++ ys) p (omega (arith, length-append xs ys))

Stored-append :
    (s t u : ByteArray) (xs ys : List ℕ) → Stored s xs t → Stored t ys u → Stored s (xs ++ ys) u
Stored-append s t u xs ys a b = record {
  valid = b.valid;
  same_node_size = b.same_node_size ∙ a.same_node_size;
  same_endian = b.same_endian ∙ a.same_endian;
  moved = omega (arith, b.moved, a.moved, length-append xs ys);
  covered = omega (arith, b.covered, a.covered, b.moved);
  bytes_at = λ p.
      b.bytes_at p
      ∙ ap₂ (λ f q. patched f q ys p) (fun_ext a.bytes_at) a.moved
      ∙ patched-append (byte s) s.position xs ys p;
}

-- One call after the other emits the bytes of both.
pub >>-Emits :
    (e : Endian) (op next : M (Unit {0})) (xs ys : List ℕ)
    → Emits e op xs
    → Emits e next ys
    → Emits e (op >> next) (xs ++ ys)
>>-Emits e op next xs ys first second s v order small =
    let (t, p, a) = first s v order small in
    let (u, q, b) = second t a.valid (a.same_endian ∙ order) (rw a.same_node_size small) in
    (u, ap (λ o. bind o (λ _. next)) p ∙ q, Stored-append s t u xs ys a b)

append_split :
    (xs ys zs ws : List ℕ) → length xs ≡ length zs → xs ++ ys ≡ zs ++ ws → (xs ≡ zs) × (ys ≡ ws)
append_split [] ys [] ws n e = (refl, e)
append_split [] ys (z ∷ zs) ws n e = absurd (omega arith)
append_split (x ∷ xs) ys [] ws n e = absurd (omega arith)
append_split (x ∷ xs) ys (z ∷ zs) ws n e =
    let (p, q) = append_split xs ys zs ws (omega arith) (cc) in (cc, q)

Consumed-trans :
    (s t u : ByteArray) (m n k : ℕ) → m + n ≡ k → Consumed s m t → Consumed t n u → Consumed s k u
Consumed-trans s t u m n k e a b = record {
  valid = b.valid;
  same =
      b.same
      ∙ ap (λ x. passed x n u.cur) a.same
      ∙ ap (λ p. record s { cur = u.cur; position = p }) (omega arith);
}

pub read-Parses : (e : Endian) (bytes : List ℕ) → Parses e (read (length bytes)) bytes bytes
read-Parses e bytes s v order room holds =
    let (t, p, c) = read-slice (length bytes) s v room in (t, p ∙ ap (λ b. ok b t) holds, c)

-- A call and what it continues with parse the bytes of both.
pub >>=-Parses :
    {A B : Type 0} (e : Endian) (op : M A) (next : A → M B) (xs ys : List ℕ) (a : A) (b : B)
    → Parses e op xs a
    → Parses e (next a) ys b
    → Parses e (op >>= next) (xs ++ ys) b
>>=-Parses e op next xs ys a b first second s v order room holds =
    let (t, p, c) = first s v order (omega (arith, length-append xs ys)) parts.0 in
    let (u, q, d) =
      second t c.valid (ap (λ x. x.ba_endian) c.same ∙ order)
        (omega
          (arith, length-append xs ys, ap (λ x. x.position) c.same, ap (λ x. x.data_size) c.same))
        (ap₂ (λ f r. slice f r (length ys)) (ap byte c.same) (ap (λ x. x.position) c.same)
          ∙ parts.1) in
    (
      u,
      ap (λ o. bind o next) p ∙ q,
      Consumed-trans s t u (length xs) (length ys) (length (xs ++ ys)) (sym (length-append xs ys)) c
          d,
    )
  where
    parts :
        (slice (byte s) s.position (length xs) ≡ xs)
        × (slice (byte s) (s.position + length xs) (length ys) ≡ ys)
    parts = append_split _ _ xs ys (length-slice (byte s) s.position (length xs)) (
        ap (λ n. slice (byte s) s.position (length xs) ++ slice (byte s) (s.position + length xs) n)
          (omega (arith, length-append xs ys))
        ∙ sym (
            slice-append (byte s) s.position (length xs) (length (xs ++ ys))
              (omega (arith, length-append xs ys)))
        ∙ holds)

-- What is emitted and then parsed from where it began gives the value, and the array stays valid.
pub Parses-Emits :
    {A : Type 0} (e : Endian) (op : M (Unit {0})) (next : M A) (bytes : List ℕ) (a : A)
    → Emits e op bytes
    → Parses e next bytes a
    → (s : ByteArray) → IsValid s
    → s.ba_endian ≡ e
    → s.node_size < 2 ^ 24
    → (t : ByteArray) × ((op >> set_position s.position >> next) s ≡ ok a t) × IsValid t
Parses-Emits e op next bytes a emits parses s v order small =
    let (t, p, w) = emits s v order small in
    let (u, q, m) =
      set_position-Moved s.position t w.valid
        (omega (arith, w.moved, w.valid.in_data, w.valid.data_fits)) in
    let r : Rewound s bytes u = set_position-Rewound s t u bytes w m in
    let (x, d, c) = parses u r.valid (r.same_endian ∙ order) r.room r.holds in
    (
      x,
      ap (λ o. bind (bind o (λ _. set_position s.position)) (λ _. next)) p
          ∙ ap (λ o. bind o (λ _. next)) q
          ∙ d,
      c.valid,
    )
