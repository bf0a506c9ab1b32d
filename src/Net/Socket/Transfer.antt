-- ===== src/Net/Socket/Transfer.antt =====
-- The calls of Socket that move bytes. A list of buffers stands for an array of `iovec`; `none` from the
-- system is -1. What a call receives is the bytes that it leaves in the caller's buffers, one after
-- the other.
use lo_netfw.Base.{ℕ, List, Option, none, some, if◌then◌else◌}
use lo_netfw.Base.Int.{ℤ, negsuc}
use lo_netfw.Net.Socket.{Socket}

-- The system's send, sendto, sendmsg, recv, recvfrom and recvmsg, with the flags last. An address is
-- given with the bytes of a datagram, and got with them.
pub record Wire (S : Type 0) : Type 0 where
  pub send : Option ℕ → List ℕ → ℕ → S → ℤ × S
  pub sendto : Option ℕ → List ℕ → List ℕ → ℕ → S → ℤ × S
  pub sendmsg : Option ℕ → List (List ℕ) → Option (List ℕ) → ℕ → S → ℤ × S
  pub recv : Option ℕ → ℕ → ℕ → S → Option (List ℕ) × S
  pub recvfrom : Option ℕ → ℕ → ℕ → ℕ → S → Option (List ℕ × List ℕ) × S
  pub recvmsg : Option ℕ → List ℕ → Option ℕ → ℕ → S → Option (List ℕ × List ℕ) × S

-- What was received, and where a datagram came from.
abbrev pub first : Option (List ℕ × List ℕ) → Option (List ℕ)
first none = none
first (some (bytes, src)) = some bytes

module _ {S : Type 0} (wire : Wire S) where
  -- `if (!isConnected()) return -1;`
  abbrev pub if_connected : {A : Type 0} → Socket → A → S → A × S → A × S
  if_connected s failed w r = if s.is_connected then r else (failed, w)

  unfoldable pub send : List ℕ → ℕ → Socket → S → ℤ × S
  send bytes flags s w = if_connected s (negsuc 0) w (wire.send s.sockfd bytes flags w)

  unfoldable pub send_bufs : List (List ℕ) → ℕ → Socket → S → ℤ × S
  send_bufs bufs flags s w = if_connected s (negsuc 0) w (wire.sendmsg s.sockfd bufs none flags w)

  unfoldable pub sendto : List ℕ → List ℕ → ℕ → Socket → S → ℤ × S
  sendto bytes dst flags s w = if_connected s (negsuc 0) w (wire.sendto s.sockfd bytes dst flags w)

  unfoldable pub sendto_bufs : List (List ℕ) → List ℕ → ℕ → Socket → S → ℤ × S
  sendto_bufs bufs dst flags s w =
      if_connected s (negsuc 0) w (wire.sendmsg s.sockfd bufs (some dst) flags w)

  unfoldable pub recv : ℕ → ℕ → Socket → S → Option (List ℕ) × S
  recv len flags s w = if_connected s none w (wire.recv s.sockfd len flags w)

  unfoldable pub recv_bufs : List ℕ → ℕ → Socket → S → Option (List ℕ) × S
  recv_bufs lens flags s w =
      let (r, w') = wire.recvmsg s.sockfd lens none flags w in if_connected s none w (first r, w')

  -- `src` is the length of the caller's address.
  unfoldable pub recvfrom : ℕ → ℕ → ℕ → Socket → S → Option (List ℕ × List ℕ) × S
  recvfrom len src flags s w = if_connected s none w (wire.recvfrom s.sockfd len src flags w)

  unfoldable pub recvfrom_bufs : List ℕ → ℕ → ℕ → Socket → S → Option (List ℕ × List ℕ) × S
  recvfrom_bufs lens src flags s w =
      if_connected s none w (wire.recvmsg s.sockfd lens (some src) flags w)
