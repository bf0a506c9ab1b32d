-- ===== src/Util/ByteArray/Invariant.antt =====
-- When a ByteArray is well formed; a new one and a cleared one are.
use lo_netfw.Base.{ℕ, ◌+◌, ◌*◌, ◌≤◌, ◌<◌, ◌≡◌, refl, arith}
use lo_netfw.Util.ByteArray.Defs.{ByteArray, ok, create, clear}

-- `cur` is the node of `position`: a null pointer exactly when the position is the total size.
pub record IsValid (s : ByteArray) : Type 0 where
  pub node_pos : 0 < s.node_size
  pub some_node : 1 ≤ s.count
  pub total : s.total_size ≡ s.count * s.node_size
  pub data_fits : s.data_size ≤ s.total_size
  pub in_data : s.position ≤ s.data_size
  pub cur_from : s.cur * s.node_size ≤ s.position
  pub cur_to : s.position < s.cur * s.node_size + s.node_size

pub create-IsValid : (mem : ℕ → ℕ → ℕ) (n : ℕ) → 0 < n → IsValid (create mem n)
unfolding create
create-IsValid mem n h = omega arith

-- `clear` leaves an array without data, valid, with the nodes of the old size.
clear-IsValid :
    (s : ByteArray)
    → IsValid s
    → (t : ByteArray) × (clear s ≡ ok tt t)
      × IsValid t
      × (t.data_size ≡ 0)
      × (t.node_size ≡ s.node_size)
unfolding clear
clear-IsValid s v = (
  record s { position = 0; data_size = 0; total_size = s.node_size; count = 1; cur = 0 },
  refl,
  omega (arith, v.node_pos),
  refl,
  refl,
)
