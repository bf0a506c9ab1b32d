-- ===== src/Net/SocketStream/Sends.antt =====
-- What SocketStream::write sends of a ByteArray.
use lo_netfw.Base.{
  ℕ, zero, suc, ◌+◌, ◌-◌, ◌≤◌, ◌≡◌, refl, ap, ◌∙◌, arith, true, List, [], ◌∷◌, ◌++◌, map, Option,
  none, some, length, min,
}
use lo_netfw.Base.Int.{ℤ, pos, negsuc}
use lo_netfw.Util.ByteArray.Defs.{ByteArray, ok, bind}
use lo_netfw.Util.ByteArray.Access.{Iovec, get_read_buffers}
use lo_netfw.Util.ByteArray.Cells.{byte, slice, length-slice}
use lo_netfw.Util.ByteArray.Invariant.{IsValid}
use lo_netfw.Util.ByteArray.Buffers.{gather, Buffers, get_read_buffers-Buffers}
use lo_netfw.Util.ByteArray.Seek.{set_position-Moved}
use lo_netfw.Net.Socket.{Socket}
use lo_netfw.Net.Socket.Transfer.{Wire}
use lo_netfw.Net.SocketStream.{SocketStream, Moved, advanced, bytes_of, send_from, write_array}

abbrev pub joined : List (List ℕ) → List ℕ
joined [] = []
joined (b ∷ bs) = b ++ joined bs

-- The number of bytes that an answer stands for.
abbrev pub amount : ℤ → ℕ
amount (pos n) = n
amount (negsuc n) = 0

-- As its manual has it, sendmsg sends at most the bytes of its buffers.
pub record SendsWithin {S : Type 0} (wire : Wire S) : Type 0 where
  pub within :
      (n : Option ℕ) (bufs : List (List ℕ)) (dst : Option (List ℕ)) (flags : ℕ) (w : S)
      → amount (wire.sendmsg n bufs dst flags w).0 ≤ length (joined bufs)

joined-gather :
    (mem : ℕ → ℕ → ℕ) (bufs : List Iovec) → joined (map (bytes_of mem) bufs) ≡ gather mem bufs
joined-gather mem [] = refl
joined-gather mem (v ∷ vs) = ap (◌++◌ (bytes_of mem v)) (joined-gather mem vs)

-- The array after so many of its bytes went: it stands behind them and is else the same.
pub record Behind (a : ByteArray) (n : ℕ) (t : ByteArray) : Type 0 where
  pub valid : IsValid t
  pub moved : t.position ≡ a.position + n
  pub same_size : t.data_size ≡ a.data_size
  pub same_bytes : (p : ℕ) → byte t p ≡ byte a p

advanced-Behind :
    (r : ℤ) (a : ByteArray)
    → IsValid a
    → a.position + amount r ≤ a.data_size
    → (t : ByteArray) × (advanced r a ≡ ok r t) × Behind a (amount r) t
advanced-Behind (negsuc n) a v h =
    (a, refl, record { valid = v; moved = omega arith; same_size = refl; same_bytes = λ p. refl })
advanced-Behind (pos zero) a v h =
    (a, refl, record { valid = v; moved = omega arith; same_size = refl; same_bytes = λ p. refl })
advanced-Behind (pos (suc n)) a v h =
    let (t, e, m) = set_position-Moved (a.position + suc n) a v (omega (arith, v.data_fits)) in
    (
      t,
      ap (λ o. bind o (λ _. ok (pos (suc n)))) e,
      record {
        valid = m.valid;
        moved = ap (λ b. b.position) m.same;
        same_size = ap (λ b. b.data_size) m.same ∙ omega arith;
        same_bytes = λ p. ap (λ b. byte b p) m.same;
      },
    )

-- One call of sendmsg, with buffers that hold just the bytes `bytes`, and what is done after it.
pub record Sent {S : Type 0} (wire : Wire S) (s : Socket) (w : S) (a : ByteArray) (bytes : List ℕ)
    (m : Moved S) : Type 0 where
  pub bufs : List (List ℕ)
  pub holds : joined bufs ≡ bytes
  pub system : m.system ≡ (wire.sendmsg s.sockfd bufs none 0 w).1
  pub after : ByteArray
  pub answered : m.outcome ≡ ok (wire.sendmsg s.sockfd bufs none 0 w).0 after
  pub stands : Behind a (amount (wire.sendmsg s.sockfd bufs none 0 w).0) after

-- On a connected socket, where sendmsg sends at most the bytes it is offered, write of a valid
-- ByteArray makes one call of sendmsg, with just the next bytes of the array, len of them at most,
-- gives its answer, and leaves the array valid with the same bytes and size, behind as many bytes
-- as the answer says.
pub write_array-Sent :
    {S : Type 0} (wire : Wire S) (manual : SendsWithin wire) (len : ℕ) (s : Socket)
    (st : SocketStream) (a : ByteArray) (w : S)
    → st.socket ≡ some s
    → s.is_connected ≡ true
    → IsValid a
    → Sent wire s w a
        (slice (byte a) a.position (min len (a.data_size - a.position)))
        (write_array wire len st a w)
unfolding write_array
write_array-Sent wire manual len s st a w there up v =
    rw there (simp up (go (get_read_buffers-Buffers len a v)))
  where
    left : ℕ
    left = min len (a.data_size - a.position)

    go :
        Buffers a a.position left (get_read_buffers len a)
        → Sent wire s w a
            (slice (byte a) a.position left)
            (send_from wire s w (get_read_buffers len a))
    go (bufs, e, g, i, c) = rw e (
        simp up (
          let out = map (bytes_of a.mem) bufs in
          let holds : joined out ≡ slice (byte a) a.position left = joined-gather a.mem bufs ∙ g in
          let (t, f, b) = advanced-Behind (wire.sendmsg s.sockfd out none 0 w).0 a v (
            omega (
              arith,
              manual.within s.sockfd out none 0 w,
              ap length holds,
              length-slice (byte a) a.position left,
              v.in_data,
            )) in
          record { bufs = out; holds = holds; system = refl; after = t; answered = f; stands = b }))
