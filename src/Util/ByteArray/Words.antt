-- ===== src/Util/ByteArray/Words.antt =====
-- Integers of fixed width: their bytes in the order of the array, whatever the order of the host.
use lo_netfw.Base.{ℕ, ◌^◌, ◌<◌, ◌≡◌, refl, sym, ap, ◌∙◌, List, [], ◌∷◌, get_or}
use lo_netfw.Util.Endian.{Endian, memory, of_memory}
use lo_netfw.Util.Endian.Laws.{memory-in_order, in_order, in_order-of_memory, length-memory}
use lo_netfw.Util.ByteArray.Defs.{ByteArray, ok, bind, ◌>>◌, M, CeilFloat, write}
use lo_netfw.Util.ByteArray.Access.{set_position, read}
use lo_netfw.Util.ByteArray.Invariant.{IsValid}
use lo_netfw.Util.ByteArray.Typed.{write_word, read_word, read_f_uint8}
use lo_netfw.Util.ByteArray.Codec.{Emits, Parses, write-Emits, read-Parses, Parses-Emits}

-- A word goes out as its bytes in the order of the array.
pub write_word-Emits :
    (fl : CeilFloat) (host e : Endian) (k v : ℕ)
    → k < 2 ^ 24
    → Emits e (write_word fl host k v) (memory e k v)
unfolding write_word
write_word-Emits fl host e k v h s valid order small =
    let (t, p, w) =
      write-Emits fl e (memory e k v) (rw (length-memory e k v) h) s valid order small in
    (t, ap (λ bytes. write fl bytes s) bytes_out ∙ p, w)
  where
    bytes_out : memory host k (in_order s.ba_endian host k v) ≡ memory e k v
    bytes_out = memory-in_order s.ba_endian host k v ∙ ap (λ o. memory o k v) order

pub read_word-Parses :
    (host e : Endian) (k v : ℕ) → v < 256 ^ k → Parses e (read_word host k) (memory e k v) v
unfolding read_word
read_word-Parses host e k v h s valid order room holds =
    let (t, p, c) = read-Parses e (memory e k v) s valid order room holds in
    (
      t,
      ap (λ n. bind (read n s) decode) (sym (length-memory e k v))
          ∙ ap (λ o. bind o decode) p
          ∙ ap (λ x. ok x t)
              (ap (λ o. in_order o host k (of_memory host (memory e k v)))
                  (ap (λ x. x.ba_endian) c.same ∙ order)
                ∙ in_order-of_memory e host k v h),
      c,
    )
  where
    decode : List ℕ → M ℕ
    decode bytes t = ok (in_order t.ba_endian host k (of_memory host bytes)) t

pub read_f_uint8-Parses : (e : Endian) (b : ℕ) → Parses e read_f_uint8 (b ∷ []) b
unfolding read_f_uint8
read_f_uint8-Parses e b s valid order room holds =
    let (t, p, c) = read-Parses e (b ∷ []) s valid order room holds in
    (t, ap (λ o. bind o (λ bytes. ok (get_or bytes 0 0))) p, c)

-- For a valid array with nodes below 2^24 bytes, a word of k bytes (k below 2^24) that a host of
-- one byte order writes is read back from there by a host of any byte order, whatever the order of
-- the array, and the array stays valid.
read_word-write_word :
    (fl : CeilFloat) (writer reader : Endian) (k v : ℕ) (s : ByteArray)
    → k < 2 ^ 24
    → v < 256 ^ k
    → IsValid s
    → s.node_size < 2 ^ 24
    → (t : ByteArray) × ((write_word fl writer k v >> set_position s.position >> read_word reader k)
          s
        ≡ ok v t)
      × IsValid t
read_word-write_word fl writer reader k v s small fits valid node =
    Parses-Emits s.ba_endian (write_word fl writer k v) (read_word reader k)
      (memory s.ba_endian k v) v (write_word-Emits fl writer s.ba_endian k v small)
      (read_word-Parses reader s.ba_endian k v fits) s valid refl node
