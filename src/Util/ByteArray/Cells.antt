-- ===== src/Util/ByteArray/Cells.antt =====
-- The nodes seen as one run of bytes: byte `p` of the array is byte `p % node_size` of node
-- `p / node_size`.
use lo_netfw.Base.{
  ℕ, zero, suc, ◌+◌, ◌-◌, ◌*◌, ◌/◌, ◌%◌, ◌≤◌, ◌<◌, ◌≡◌, refl, sym, ap, ◌∙◌, ◌&&◌, arith, List, [],
  ◌∷◌, ◌++◌, length, take, drop, get_or, ltb, leb, if◌then◌else◌, length-take, length-drop, lt→ltb,
  le→leb, max,
}
use lo_netfw.Util.ByteArray.Defs.{ByteArray, fill, fetch}
use mathlib.Core.Path.{ap₂}
use native.Mathlib.Nat.{div-add-mod', mod-lt, div-eq_of_lt-le, mul-add-mod_self_right, mod-eq_of_lt}

row_le : (i c n : ℕ) → i < c → i * n + n ≤ c * n
row_le i c n h = grind arith

pub row_lt : (i c n : ℕ) → i * n < c * n → i < c
row_lt i c n h = grind arith

abbrev pub view : (ℕ → ℕ → ℕ) → ℕ → ℕ → ℕ
view mem n p = mem (p / n) (p % n)

abbrev pub byte : ByteArray → ℕ → ℕ
byte s p = view s.mem s.node_size p

-- The bytes `f` with `bytes` laid over them from `pos` on.
abbrev pub patched : (ℕ → ℕ) → ℕ → List ℕ → ℕ → ℕ
patched f pos bytes p =
    if leb pos p && ltb p (pos + length bytes) then get_or bytes (p - pos) 0 else f p

-- The bytes from `p` on.
abbrev pub slice : (ℕ → ℕ) → ℕ → ℕ → List ℕ
slice f p zero = []
slice f p (suc k) = f p ∷ slice f (p + 1) k

module _ (n : ℕ) (pos : 0 < n) where
  view-row : (mem : ℕ → ℕ → ℕ) (i j : ℕ) → j < n → view mem n (i * n + j) ≡ mem i j
  view-row mem i j h =
      ap (λ a. mem a ((i * n + j) % n)) (div-eq_of_lt-le n (omega arith) (omega arith))
      ∙ ap (mem i) (mul-add-mod_self_right i n j ∙ mod-eq_of_lt h)

  -- A copy into one node is a patch of the run.
  pub view-fill :
      (mem : ℕ → ℕ → ℕ) (node at : ℕ) (bytes : List ℕ) (p : ℕ)
      → at + length bytes ≤ n
      → view (fill mem node at bytes) n p ≡ patched (view mem n) (node * n + at) bytes p
  view-fill mem node at bytes p h =
      ground (arith, div-add-mod' p n, mod-lt p pos, row_le (p / n) node n, row_le node (p / n) n)

  pub fetch-slice :
      (mem : ℕ → ℕ → ℕ) (node at k : ℕ)
      → at + k ≤ n
      → fetch mem node at k ≡ slice (view mem n) (node * n + at) k
  unfolding fetch
  fetch-slice mem node at zero h = refl
  fetch-slice mem node at (suc k) h = ap₂ ◌∷◌ (sym (view-row mem node at (omega arith))) (
      fetch-slice mem node (at + 1) k (omega arith)
      ∙ ap (λ a. slice (view mem n) a k) (omega arith))

pub length-slice : (f : ℕ → ℕ) (p k : ℕ) → length (slice f p k) ≡ k
length-slice f p zero = refl
length-slice f p (suc k) = ap suc (length-slice f (p + 1) k)

-- A run of `n` bytes is its first `k` bytes and the others.
pub slice-append :
    (f : ℕ → ℕ) (p k n : ℕ) → k ≤ n → slice f p n ≡ slice f p k ++ slice f (p + k) (n - k)
slice-append f p zero n h = ap₂ (slice f) (omega arith) (omega arith)
slice-append f p (suc k) zero h = absurd (omega arith)
slice-append f p (suc k) (suc n) h = ap (◌∷◌ (f p)) (
    slice-append f (p + 1) k n (omega arith)
    ∙ ap (◌++◌ (slice f (p + 1) k)) (ap₂ (slice f) (omega arith) (omega arith)))

slice-ext :
    (f g : ℕ → ℕ) (p k : ℕ) → ((q : ℕ) → p ≤ q → q < p + k → f q ≡ g q) → slice f p k ≡ slice g p k
slice-ext f g p zero h = refl
slice-ext f g p (suc k) h =
    ap₂ ◌∷◌ (h p (omega arith) (omega arith))
      (slice-ext f g (p + 1) k (λ q lo hi. h q (omega arith) (omega arith)))

slice-list :
    (f : ℕ → ℕ) (pos : ℕ) (bytes : List ℕ)
    → ((i : ℕ) → i < length bytes → f (pos + i) ≡ get_or bytes i 0)
    → slice f pos (length bytes) ≡ bytes
slice-list f pos [] h = refl
slice-list f pos (b ∷ bs) h =
    ap₂ ◌∷◌ (ap f (omega arith) ∙ h 0 (omega arith))
      (slice-list f (pos + 1) bs (λ i lt. ap f (omega arith) ∙ h (suc i) (omega arith)))

-- What was laid over a run is read back from there.
pub slice-patched :
    (f : ℕ → ℕ) (pos : ℕ) (bytes : List ℕ) → slice (patched f pos bytes) pos (length bytes) ≡ bytes
slice-patched f pos bytes = slice-list (patched f pos bytes) pos bytes λ i h.
    rw (le→leb pos (pos + i) (omega arith), lt→ltb (pos + i) (pos + length bytes) (omega arith))
      (ap (λ j. get_or bytes j 0) (omega arith))

get_or-take : (k i : ℕ) (bs : List ℕ) → i < k → get_or (take k bs) i 0 ≡ get_or bs i 0
get_or-take zero i bs h = absurd (omega arith)
get_or-take (suc k) i [] h = refl
get_or-take (suc k) zero (b ∷ bs) h = refl
get_or-take (suc k) (suc i) (b ∷ bs) h = get_or-take k i bs (omega arith)

get_or-drop : (k i : ℕ) (bs : List ℕ) → get_or (drop k bs) i 0 ≡ get_or bs (k + i) 0
get_or-drop zero i bs = ap (λ j. get_or bs j 0) (omega arith)
get_or-drop (suc k) i [] = refl
get_or-drop (suc k) i (b ∷ bs) = get_or-drop k i bs ∙ ap (λ j. get_or (b ∷ bs) j 0) step
  where
    step : suc (k + i) ≡ suc k + i
    step = omega arith

-- Laying down the first `k` bytes and then the others lays down all.
pub patched_twice :
    (f : ℕ → ℕ) (pos k : ℕ) (bytes : List ℕ) (p : ℕ)
    → k ≤ length bytes
    → patched (patched f pos (take k bytes)) (pos + k) (drop k bytes) p ≡ patched f pos bytes p
patched_twice f pos k bytes p h = ground (
  arith,
  length-take k bytes,
  length-drop k bytes,
  get_or-take k (p - pos) bytes,
  get_or-drop k (p - (pos + k)) bytes,
  ap (λ j. get_or bytes j 0) (rejoin p),
)
  where
    rejoin : (q : ℕ) → k + (q - (pos + k)) ≡ max k (q - pos)
    rejoin q = omega arith
