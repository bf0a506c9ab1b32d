-- ===== src/Util/ByteArray/RoundTrip.antt =====
-- What a ByteArray is given it gives back.
use lo_netfw.Base.{ℕ, ◌+◌, ◌^◌, ◌≤◌, ◌<◌, ◌≡◌, ap, ◌∙◌, arith, List, length, fun_ext}
use lo_netfw.Util.ByteArray.Defs.{ByteArray, ok, bind, ◌>>◌, CeilFloat, write}
use lo_netfw.Util.ByteArray.Access.{set_position, read}
use lo_netfw.Util.ByteArray.Cells.{byte, slice, slice-patched}
use lo_netfw.Util.ByteArray.Invariant.{IsValid}
use lo_netfw.Util.ByteArray.Write.{Stored, write-Stored}
use lo_netfw.Util.ByteArray.Reading.{read-slice}
use lo_netfw.Util.ByteArray.Seek.{Moved, set_position-Moved}

-- After a write and a move back to where it began, the bytes stand at the position.
pub record Rewound (s : ByteArray) (bytes : List ℕ) (u : ByteArray) : Type 0 where
  pub valid : IsValid u
  pub same_endian : u.ba_endian ≡ s.ba_endian
  pub back : u.position ≡ s.position
  pub room : u.position + length bytes ≤ u.data_size
  pub holds : slice (byte u) u.position (length bytes) ≡ bytes

pub set_position-Rewound :
    (s t u : ByteArray) (bytes : List ℕ)
    → Stored s bytes t
    → Moved t s.position u
    → Rewound s bytes u
set_position-Rewound s t u bytes w m = record {
  valid = m.valid;
  same_endian = ap (λ x. x.ba_endian) m.same ∙ w.same_endian;
  back = back;
  room = omega (arith, back, ap (λ x. x.data_size) m.same, w.covered, w.moved);
  holds =
      ap (λ p. slice (byte u) p (length bytes)) back
      ∙ ap (λ f. slice f s.position (length bytes)) (same_bytes ∙ fun_ext w.bytes_at)
      ∙ slice-patched (byte s) s.position bytes;
}
  where
    back : u.position ≡ s.position
    back = ap (λ x. x.position) m.same

    same_bytes : byte u ≡ byte t
    same_bytes = ap byte m.same

write-Rewound :
    (fl : CeilFloat) (bytes : List ℕ) (s : ByteArray)
    → IsValid s
    → length bytes < 2 ^ 24
    → s.node_size < 2 ^ 24
    → (u : ByteArray) × ((write fl bytes >> set_position s.position) s ≡ ok tt u)
      × Rewound s bytes u
write-Rewound fl bytes s v h small =
    let (t, e, w) = write-Stored fl bytes s v h small in
    let (u, d, m) =
      set_position-Moved s.position t w.valid
        (omega (arith, w.moved, w.valid.in_data, w.valid.data_fits)) in
    (u, ap (λ o. bind o (λ _. set_position s.position)) e ∙ d, set_position-Rewound s t u bytes w m)

-- For a valid array, data and nodes below 2^24 bytes, bytes that are written and read from where
-- they were written come back, and the array stays valid.
pub read-write :
    (fl : CeilFloat) (bytes : List ℕ) (s : ByteArray)
    → IsValid s
    → length bytes < 2 ^ 24
    → s.node_size < 2 ^ 24
    → (t : ByteArray) × ((write fl bytes >> set_position s.position >> read (length bytes)) s
        ≡ ok bytes t)
      × IsValid t
read-write fl bytes s v h small =
    let (u, e, r) = write-Rewound fl bytes s v h small in
    let (t, d, c) = read-slice (length bytes) u r.valid r.room in
    (t, ap (λ o. bind o (λ _. read (length bytes))) e ∙ d ∙ ap (λ b. ok b t) r.holds, c.valid)
