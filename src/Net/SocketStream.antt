-- ===== src/Net/SocketStream.antt =====
-- The class SocketStream of net/socketstream.cpp: a Socket as a stream of bytes, from and into a
-- ByteArray or plain memory. The socket of a stream may be a null pointer.
pub mod Sends
pub mod Receives
mod Tests
use lo_netfw.Base.{
  ℕ, zero, suc, ◌+◌, Bool, true, false, ◌&&◌, List, [], ◌∷◌, Option, none, some, map, length, take,
  drop, if◌then◌else◌,
}
use lo_netfw.Base.Int.{ℤ, pos, negsuc}
use lo_netfw.Util.ByteArray.Defs.{
  ByteArray, Outcome, ok, thrown, fault, unfinished, bind, fill, fetch, CeilFloat,
}
use lo_netfw.Util.ByteArray.Access.{Iovec, get_read_buffers, get_write_buffers, set_position}
use lo_netfw.Net.Socket.{Socket, System, close}
use lo_netfw.Net.Socket.Transfer.{Wire, send, send_bufs, recv, recv_bufs}

pub record SocketStream : Type 0 where
  pub socket : Option Socket
  pub proxy : Bool
  pub eof : Bool

-- SocketStream::SocketStream
abbrev pub stream : Option Socket → Bool → SocketStream
stream socket proxy = record { socket = socket; proxy = proxy; eof = false }

-- SocketStream::isConnected
abbrev pub socket_connected : Option Socket → Bool
socket_connected none = false
socket_connected (some s) = s.is_connected

abbrev pub is_connected : SocketStream → Bool
is_connected st = socket_connected st.socket

-- What a call on a ByteArray gives, with the array, and the state of the system.
pub record Moved (S : Type 0) : Type 0 where
  pub outcome : Outcome ℤ
  pub system : S

-- `if (ret > 0) buf->setPosition(buf->getPosition() + ret); return ret;`
abbrev pub advanced : ℤ → ByteArray → Outcome ℤ
advanced (pos zero) a = ok (pos zero) a
advanced (pos (suc n)) a = bind (set_position (a.position + suc n) a) (λ _. ok (pos (suc n)))
advanced (negsuc n) a = ok (negsuc n) a

-- The bytes that a buffer points at, and received bytes put into the buffers, in order.
abbrev pub bytes_of : (ℕ → ℕ → ℕ) → Iovec → List ℕ
bytes_of mem v = fetch mem v.node v.base v.len

abbrev pub len_of : Iovec → ℕ
len_of v = v.len

abbrev pub scatter : (ℕ → ℕ → ℕ) → List Iovec → List ℕ → ℕ → ℕ → ℕ
scatter mem [] bytes = mem
scatter mem (v ∷ vs) bytes =
    scatter (fill mem v.node v.base (take v.len bytes)) vs (drop v.len bytes)

abbrev pub received : List Iovec → Option (List ℕ) → ByteArray → Outcome ℤ
received bufs none a = ok (negsuc 0) a
received bufs (some bytes) a =
    advanced (pos (length bytes)) (record a { mem = scatter a.mem bufs bytes })

module _ {S : Type 0} (wire : Wire S) where
  -- The read and the write of plain memory, on a socket that is there.
  abbrev pub read_on : Option Socket → ℕ → S → Option (List ℕ) × S
  read_on none len w = (none, w)
  read_on (some s) len w = if s.is_connected then recv wire len 0 s w else (none, w)

  unfoldable pub read : ℕ → SocketStream → S → Option (List ℕ) × S
  unfolding recv
  read len st w = read_on st.socket len w

  abbrev pub write_on : Option Socket → List ℕ → S → ℤ × S
  write_on none bytes w = (negsuc 0, w)
  write_on (some s) bytes w = if s.is_connected then send wire bytes 0 s w else (negsuc 0, w)

  unfoldable pub write : List ℕ → SocketStream → S → ℤ × S
  unfolding send
  write bytes st w = write_on st.socket bytes w

  -- SocketStream::write(ByteArray)
  abbrev pub sent : ℤ × S → ByteArray → Moved S
  sent (r, w) a = record { outcome = advanced r a; system = w }

  abbrev pub send_from : Socket → S → Outcome (List Iovec) → Moved S
  send_from s w (ok bufs a) = sent (send_bufs wire (map (bytes_of a.mem) bufs) 0 s w) a
  send_from s w (thrown a) = record { outcome = thrown a; system = w }
  send_from s w fault = record { outcome = fault; system = w }
  send_from s w unfinished = record { outcome = unfinished; system = w }

  abbrev pub write_array_on : Option Socket → ℕ → ByteArray → S → Moved S
  write_array_on none len a w = record { outcome = ok (negsuc 0) a; system = w }
  write_array_on (some s) len a w =
      let go = send_from s w (get_read_buffers len a) in
      if s.is_connected then go else record { outcome = ok (negsuc 0) a; system = w }

  unfoldable pub write_array : ℕ → SocketStream → ByteArray → S → Moved S
  unfolding send_bufs get_read_buffers set_position
  write_array len st a w = write_array_on st.socket len a w

  -- SocketStream::read(ByteArray)
  abbrev pub got : List Iovec → Option (List ℕ) × S → ByteArray → Moved S
  got bufs (r, w) a = record { outcome = received bufs r a; system = w }

  abbrev pub receive_into : Socket → S → Outcome (List Iovec) → Moved S
  receive_into s w (ok bufs a) = got bufs (recv_bufs wire (map len_of bufs) 0 s w) a
  receive_into s w (thrown a) = record { outcome = thrown a; system = w }
  receive_into s w fault = record { outcome = fault; system = w }
  receive_into s w unfinished = record { outcome = unfinished; system = w }

  abbrev pub read_array_on : CeilFloat → Option Socket → ℕ → ByteArray → S → Moved S
  read_array_on fl none len a w = record { outcome = ok (negsuc 0) a; system = w }
  read_array_on fl (some s) len a w =
      let go = receive_into s w (get_write_buffers fl len a) in
      if s.is_connected then go else record { outcome = ok (negsuc 0) a; system = w }

  unfoldable pub read_array : CeilFloat → ℕ → SocketStream → ByteArray → S → Moved S
  unfolding recv_bufs get_write_buffers set_position
  read_array fl len st a w = read_array_on fl st.socket len a w

module _ {S : Type 0} (sys : System S) where
  -- SocketStream::close, and the destructor.
  abbrev pub close_on : Option Socket → S → Option Socket × S
  close_on none w = (none, w)
  close_on (some s) w = let d = close sys s w in (some d.socket, d.system)

  unfoldable pub close_stream : SocketStream → S → SocketStream × S
  unfolding close
  close_stream st w = let (o, w') = close_on st.socket w in (record st { socket = o }, w')

  unfoldable pub destroy : SocketStream → S → SocketStream × S
  unfolding close_stream
  destroy st w = if st.proxy then close_stream st w else (st, w)
