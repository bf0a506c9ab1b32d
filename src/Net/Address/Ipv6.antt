-- ===== src/Net/Address/Ipv6.antt =====
-- The addresses of networks in net/address.h and net/address.cpp: IPv6Address, in the build for Linux.
-- A prefix is counted in bits from the front.
pub mod Prefix
pub mod Mask
pub mod Network
use lo_netfw.Base.{
  ℕ, zero, suc, ◌+◌, ◌-◌, ◌^◌, ◌/◌, ◌%◌, bit_and, bit_or, bit_xor, List, [], ◌∷◌, Option, none,
  some, replicate,
}

-- createMask<uint8_t>, for at most 8 bits: `1 << 8 - bits` is an int.
unfoldable pub create_mask : ℕ → ℕ
create_mask bits = (2 ^ (8 - bits) - 1) % 2 ^ 8

-- The sockaddr_in6 of an IPv6Address, with the 16 bytes of the address.
pub record Ipv6Address : Type 0 where
  pub sin6_addr : List ℕ
  pub sin6_port : ℕ
  pub sin6_flowinfo : ℕ
  pub sin6_scope_id : ℕ

-- `bytes[i] = f(bytes[i])`; `none` is an access behind the array.
abbrev pub with_front : ℕ → Option (List ℕ) → Option (List ℕ)
with_front b none = none
with_front b (some bs) = some (b ∷ bs)

abbrev pub set_byte : ℕ → (ℕ → ℕ) → List ℕ → Option (List ℕ)
set_byte i f [] = none
set_byte zero f (b ∷ bs) = some (f b ∷ bs)
set_byte (suc i) f (b ∷ bs) = with_front b (set_byte i f bs)

-- The loops that set the bytes from `i` on, and before `i`, to 0xff.
abbrev pub fill_from : ℕ → List ℕ → List ℕ
fill_from i [] = []
fill_from zero (b ∷ bs) = 255 ∷ fill_from zero bs
fill_from (suc i) (b ∷ bs) = b ∷ fill_from i bs

abbrev pub fill_to : ℕ → List ℕ → List ℕ
fill_to i [] = []
fill_to zero (b ∷ bs) = b ∷ bs
fill_to (suc i) (b ∷ bs) = 255 ∷ fill_to i bs

abbrev pub filled_from : ℕ → Option (List ℕ) → Option (List ℕ)
filled_from i none = none
filled_from i (some bs) = some (fill_from i bs)

abbrev pub filled_to : ℕ → Option (List ℕ) → Option (List ℕ)
filled_to i none = none
filled_to i (some bs) = some (fill_to i bs)

abbrev pub at_bytes : Ipv6Address → Option (List ℕ) → Option Ipv6Address
at_bytes a none = none
at_bytes a (some bs) = some (record a { sin6_addr = bs })

-- IPv6Address::broadcastAddress
unfoldable pub broadcast_address : ℕ → Ipv6Address → Option Ipv6Address
broadcast_address prefix_len a = at_bytes a (
    filled_from (suc (prefix_len / 8))
      (set_byte (prefix_len / 8) (λ b. bit_or b (create_mask (prefix_len % 8))) a.sin6_addr))

-- IPv6Address::networkAddress
unfoldable pub network_address : ℕ → Ipv6Address → Option Ipv6Address
network_address prefix_len a =
    at_bytes a
      (set_byte (prefix_len / 8) (λ b. bit_and b (create_mask (prefix_len % 8))) a.sin6_addr)

-- IPv6Address::subnetMask
unfoldable pub subnet_mask : ℕ → Ipv6Address → Option Ipv6Address
subnet_mask prefix_len a =
    at_bytes (record a { sin6_flowinfo = 0; sin6_scope_id = 0 })
      (filled_to (prefix_len / 8) (
        set_byte (prefix_len / 8) (λ b. bit_xor (create_mask (prefix_len % 8)) 255)
          (replicate 16 0)))
