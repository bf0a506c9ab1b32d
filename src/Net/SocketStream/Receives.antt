-- ===== src/Net/SocketStream/Receives.antt =====
-- What SocketStream::read stores in a ByteArray.
use lo_netfw.Base.{
  ℕ, zero, suc, ◌+◌, ◌-◌, ◌^◌, ◌≤◌, ◌<◌, ◌≡◌, refl, sym, ap, ◌∙◌, arith, true, ◌&&◌, List, [], ◌∷◌,
  map, Option, none, some, length, take, drop, get_or, leb, ltb, if◌then◌else◌, Bool-cases, inl,
  inr, leb→le, leb→lt, length-drop, All, fun_ext,
}
use lo_netfw.Base.Int.{ℤ, pos, negsuc}
use lo_netfw.Util.ByteArray.Defs.{ByteArray, ok, fill, bind, CeilFloat, add_total_size}
use lo_netfw.Util.ByteArray.Access.{Iovec, get_write_buffers}
use lo_netfw.Util.ByteArray.Cells.{byte, view, view-fill, patched, patched_twice}
use lo_netfw.Util.ByteArray.Invariant.{IsValid}
use lo_netfw.Util.ByteArray.Growth.{Roomy}
use lo_netfw.Util.ByteArray.Write.{Stored}
use lo_netfw.Util.ByteArray.Buffers.{Buffers, Consecutive, Inside, get_write_buffers-Buffers}
use lo_netfw.Util.ByteArray.Seek.{set_position-Moved}
use lo_netfw.Net.Socket.{Socket}
use lo_netfw.Net.Socket.Transfer.{Wire, first}
use lo_netfw.Net.SocketStream.{
  SocketStream, Moved, advanced, scatter, received, len_of, receive_into, read_array,
}

abbrev pub total : List ℕ → ℕ
total [] = 0
total (n ∷ ns) = n + total ns

abbrev pub bytes_in : Option (List ℕ) → List ℕ
bytes_in none = []
bytes_in (some bytes) = bytes

abbrev pub answer_of : Option (List ℕ) → ℤ
answer_of none = negsuc 0
answer_of (some bytes) = pos (length bytes)

-- As its manual has it, recvmsg leaves at most as many bytes as its buffers are long.
pub record ReceivesWithin {S : Type 0} (wire : Wire S) : Type 0 where
  pub within :
      (n : Option ℕ) (lens : List ℕ) (src : Option ℕ) (flags : ℕ) (w : S)
      → length (bytes_in (first (wire.recvmsg n lens src flags w).0)) ≤ total lens

total-Consecutive :
    (k from n : ℕ) (bufs : List Iovec) → Consecutive k from n bufs → total (map len_of bufs) ≡ n
total-Consecutive k from n [] c = sym c
total-Consecutive k from n (v ∷ vs) (e, h, c) =
    omega (arith, total-Consecutive k (from + v.len) (n - v.len) vs c)

patched-nil : (f : ℕ → ℕ) (from p : ℕ) → patched f from [] p ≡ f p
patched-nil f from p = ground arith

patched-ext :
    (f g : ℕ → ℕ) (from : ℕ) (bytes : List ℕ) (p : ℕ)
    → f p ≡ g p
    → patched f from bytes p ≡ patched g from bytes p
patched-ext f g from bytes p e =
    ap (λ x. if leb from p && ltb p (from + length bytes) then get_or bytes (p - from) 0 else x) e

take_all : (k : ℕ) (bytes : List ℕ) → length bytes ≤ k → take k bytes ≡ bytes
take_all zero [] h = refl
take_all zero (b ∷ bs) h = absurd (omega arith)
take_all (suc k) [] h = refl
take_all (suc k) (b ∷ bs) h = ap (◌∷◌ b) (take_all k bs (omega arith))

drop_all : (k : ℕ) (bytes : List ℕ) → length bytes ≤ k → drop k bytes ≡ []
drop_all zero [] h = refl
drop_all zero (b ∷ bs) h = absurd (omega arith)
drop_all (suc k) [] h = refl
drop_all (suc k) (b ∷ bs) h = drop_all k bs (omega arith)

pub length-take-le : (k : ℕ) (bytes : List ℕ) → length (take k bytes) ≤ k
length-take-le zero bytes = omega arith
length-take-le (suc k) [] = omega arith
length-take-le (suc k) (b ∷ bs) = omega (arith, length-take-le k bs)

-- Two parts laid down one behind the other, the first as long as a buffer at most.
joined_patch :
    (f : ℕ → ℕ) (from k : ℕ) (bytes : List ℕ) (p : ℕ)
    → patched (patched f from (take k bytes)) (from + k) (drop k bytes) p ≡ patched f from bytes p
joined_patch f from k bytes p = elim (Bool-cases (leb k (length bytes))) [
  | inl h ↦ patched_twice f from k bytes p (leb→le k (length bytes) h)
  | inr h ↦
      let short : length bytes ≤ k = omega (arith, leb→lt k (length bytes) h) in
      rw (drop_all k bytes short, take_all k bytes short)
        (patched-nil (patched f from bytes) (from + k) p)
]

-- Bytes that are put into consecutive buffers are laid over the run from the first of them on.
scatter-patched :
    (a : ByteArray) (bufs : List Iovec) (mem : ℕ → ℕ → ℕ) (from n : ℕ) (bytes : List ℕ) (p : ℕ)
    → 0 < a.node_size
    → All (Inside a) bufs
    → Consecutive a.node_size from n bufs
    → length bytes ≤ n
    → view (scatter mem bufs bytes) a.node_size p ≡ patched (view mem a.node_size) from bytes p
scatter-patched a [] mem from n [] p size i c h = sym (patched-nil (view mem a.node_size) from p)
scatter-patched a [] mem from n (b ∷ bs) p size i c h = absurd (omega arith)
scatter-patched a (v ∷ vs) mem from n bytes p size (inside, more) (e, l, c) h =
    let front = take v.len bytes in
    scatter-patched a vs (fill mem v.node v.base front) (from + v.len) (n - v.len)
      (drop v.len bytes) p size more c (omega (arith, length-drop v.len bytes))
    ∙ patched-ext (view (fill mem v.node v.base front) a.node_size)
        (patched (view mem a.node_size) from front) (from + v.len) (drop v.len bytes) p
        (view-fill a.node_size size mem v.node v.base front p
            (omega (arith, inside.1, length-take-le v.len bytes))
          ∙ ap (λ q. patched (view mem a.node_size) q front p) e)
    ∙ joined_patch (view mem a.node_size) from v.len bytes p

module _ (s g : ByteArray) (bufs : List Iovec) (bytes : List ℕ) (len : ℕ) (r : Roomy s len g)
    (i : All (Inside g) bufs) (c : Consecutive g.node_size g.position len bufs)
    (h : length bytes ≤ len) where
  stored_mem : ByteArray
  stored_mem = record g { mem = scatter g.mem bufs bytes }

  stored_byte : (p : ℕ) → byte stored_mem p ≡ patched (byte s) s.position bytes p
  unfolding stored_mem
  stored_byte p =
      scatter-patched g bufs g.mem g.position len bytes p r.valid.node_pos i c h
      ∙ ap (λ a. patched (byte g) a bytes p) r.same_position
      ∙ ap (λ f. patched f s.position bytes p) (fun_ext r.same_bytes)

  -- The array after the buffers were filled and the position was moved.
  received-Stored :
      (t : ByteArray) × (received bufs (some bytes) g ≡ ok (pos (length bytes)) t)
      × Stored s bytes t
  unfolding stored_byte stored_mem
  received-Stored = of (length bytes) refl
    where
      v : IsValid stored_mem
      v = record {
        node_pos = r.valid.node_pos;
        some_node = r.valid.some_node;
        total = r.valid.total;
        data_fits = r.valid.data_fits;
        in_data = r.valid.in_data;
        cur_from = r.valid.cur_from;
        cur_to = r.valid.cur_to;
      }

      of :
          (n : ℕ)
          → n ≡ length bytes
          → (t : ByteArray) × (advanced (pos n) stored_mem ≡ ok (pos n) t) × Stored s bytes t
      of zero e = (
        stored_mem,
        refl,
        record {
          valid = v;
          same_node_size = r.same_node_size;
          same_endian = r.same_endian;
          moved = r.same_position ∙ omega arith;
          covered = omega (arith, r.same_data_size, r.valid.in_data);
          bytes_at = stored_byte;
        },
      )
      of (suc n) e =
          let (t, f, m) =
            set_position-Moved (g.position + suc n) stored_mem v
              (omega (arith, r.room, r.valid.total)) in
          (
            t,
            ap (λ o. bind o (λ _. ok (pos (suc n)))) f,
            record {
              valid = m.valid;
              same_node_size = ap (λ b. b.node_size) m.same ∙ r.same_node_size;
              same_endian = ap (λ b. b.ba_endian) m.same ∙ r.same_endian;
              moved = ap (λ b. b.position) m.same ∙ omega (arith, r.same_position);
              covered =
                  ap (λ b. b.data_size) m.same
                  ∙ omega (arith, r.same_data_size, ap (λ b. b.position) m.same);
              bytes_at = λ p. ap (λ b. byte b p) m.same ∙ stored_byte p;
            },
          )

Roomy-Stored : (s g : ByteArray) (len : ℕ) → Roomy s len g → Stored s [] g
Roomy-Stored s g len r = record {
  valid = r.valid;
  same_node_size = r.same_node_size;
  same_endian = r.same_endian;
  moved = omega (arith, r.same_position);
  covered = omega (arith, r.same_data_size, r.valid.in_data);
  bytes_at = λ p. r.same_bytes p ∙ sym (patched-nil (byte s) s.position p);
}

-- One call of recvmsg, with buffers for `len` bytes, and what is done after it.
pub record Got {S : Type 0} (wire : Wire S) (s : Socket) (w : S) (a : ByteArray) (len : ℕ)
    (m : Moved S) : Type 0 where
  pub lens : List ℕ
  pub room : total lens ≡ len
  pub system : m.system ≡ (wire.recvmsg s.sockfd lens none 0 w).1
  pub after : ByteArray
  pub answered : m.outcome ≡ ok (answer_of (first (wire.recvmsg s.sockfd lens none 0 w).0)) after
  pub stored : Stored a (bytes_in (first (wire.recvmsg s.sockfd lens none 0 w).0)) after

-- On a connected socket, where recvmsg leaves at most the bytes there is room for, and for a valid
-- ByteArray, len and nodes below 2^24 bytes, read makes one call of recvmsg with room for just len
-- bytes and gives its answer; the array is as if the bytes that came had been written to it.
pub read_array-Got :
    {S : Type 0} (wire : Wire S) (manual : ReceivesWithin wire) (fl : CeilFloat) (len : ℕ)
    (s : Socket) (st : SocketStream) (a : ByteArray) (w : S)
    → st.socket ≡ some s
    → s.is_connected ≡ true
    → IsValid a
    → len < 2 ^ 24
    → a.node_size < 2 ^ 24
    → Got wire s w a len (read_array wire fl len st a w)
unfolding read_array
read_array-Got wire manual fl len s st a w there up v small nodes =
    rw there (simp up (go (get_write_buffers-Buffers fl len a v small nodes)))
  where
    g : ByteArray
    g = add_total_size fl len a

    go :
        Roomy a len g × Buffers g g.position len (get_write_buffers fl len a)
        → Got wire s w a len (receive_into wire s w (get_write_buffers fl len a))
    go (r, (bufs, e, q, i, c)) = rw e (
        simp up (
          let lens = map len_of bufs in
          let came = wire.recvmsg s.sockfd lens none 0 w in
          let room : total lens ≡ len = total-Consecutive g.node_size g.position len bufs c in
          let (t, f, b) =
            of (first came.0) (omega (arith, manual.within s.sockfd lens none 0 w, room)) in
          record { lens = lens; room = room; system = refl; after = t; answered = f; stored = b }))
      where
        of :
            (o : Option (List ℕ))
            → length (bytes_in o) ≤ len
            → (t : ByteArray) × (received bufs o g ≡ ok (answer_of o) t) × Stored a (bytes_in o) t
        of none h = (g, refl, Roomy-Stored a g len r)
        of (some bytes) h = received-Stored a g bufs bytes len r i c h
