-- ===== src/Net/Address/Ipv6/Network.antt =====
-- What broadcastAddress and subnetMask of an IPv6Address give.
use lo_netfw.Base.{
  ℕ, suc, ◌+◌, ◌-◌, ◌^◌, ◌/◌, ◌%◌, ◌<◌, ◌≤◌, ◌≡◌, refl, sym, ap, ◌∙◌, arith, none, some, length,
  ltb, ltb→lt, ltb→le, Bool-cases, All, ◌⊎◌, inl, inr, bit_and, bit_or, bit_xor, replicate,
}
use lo_netfw.Util.Endian.Laws.{IsByte}
use lo_netfw.Net.Address.Ipv6.{
  Ipv6Address, create_mask, filled_from, filled_to, at_bytes, broadcast_address, network_address,
  subnet_mask,
}
use lo_netfw.Net.Address.Ipv6.Prefix.{value, IsLast, set_byte-IsLast, hosts_lem, pow_bytes}
use lo_netfw.Net.Address.Ipv6.Mask.{set_byte-out, front_ones}
use mathlib.Core.Path.{subst}

-- The two addresses of a prefix of `p` bits, with `2 ^ (128 - p)` addresses behind it.
pub record Inside (p : ℕ) (a : Ipv6Address) : Type 0 where
  pub last : Ipv6Address
  pub mask : Ipv6Address
  pub broadcasts : broadcast_address p a ≡ some last
  pub masks : subnet_mask p a ≡ some mask
  pub is_last : IsLast (2 ^ (128 - p)) (value a.sin6_addr) (value last.sin6_addr)
  pub front : value mask.sin6_addr + 2 ^ (128 - p) ≡ 2 ^ 128
  pub ports : (last.sin6_port ≡ a.sin6_port) × (mask.sin6_port ≡ a.sin6_port)

-- The calls that write behind the array.
abbrev pub Outside : ℕ → Ipv6Address → Type 0
Outside p a =
    (128 ≤ p)
    × (broadcast_address p a ≡ none)
    × (network_address p a ≡ none)
    × (subnet_mask p a ≡ none)

module _ (p : ℕ) (a : Ipv6Address) (sized : length a.sin6_addr ≡ 16)
    (bytes : All IsByte a.sin6_addr) where
  inside : p < 128 → Inside p a
  unfolding broadcast_address subnet_mask
  inside l =
      let (out, e, same, last) =
        set_byte-IsLast (p / 8) (p % 8) a.sin6_addr (omega arith) bytes (omega (arith, sized)) in
      let (off, f, same', sum) = front_ones (p / 8) (p % 8) 16 (omega arith) (omega arith) in
      record {
        last = record a { sin6_addr = out };
        mask = record a { sin6_addr = off; sin6_flowinfo = 0; sin6_scope_id = 0 };
        broadcasts = ap (at_bytes a) e;
        masks = ap (at_bytes (record a { sin6_flowinfo = 0; sin6_scope_id = 0 })) f;
        is_last =
            subst (λ k. IsLast k (value a.sin6_addr) (value out)) (hosts_lem p a.sin6_addr l sized)
              last;
        front =
            ap (λ (t : ℕ). value off + t) (sym (hosts_lem p (replicate 16 0) l refl))
            ∙ sum
            ∙ pow_bytes 16;
        ports = (refl, refl);
      }

  outside : 128 ≤ p → Outside p a
  unfolding broadcast_address network_address subnet_mask
  outside l = (
    l,
    ap (λ o. at_bytes a (filled_from (suc (p / 8)) o))
        (set_byte-out (p / 8) (λ b. bit_or b (create_mask (p % 8))) a.sin6_addr
          (omega (arith, sized))),
    ap (at_bytes a) (
        set_byte-out (p / 8) (λ b. bit_and b (create_mask (p % 8))) a.sin6_addr
          (omega (arith, sized))),
    ap (λ o. at_bytes (record a { sin6_flowinfo = 0; sin6_scope_id = 0 }) (filled_to (p / 8) o))
        (set_byte-out (p / 8) (λ b. bit_xor (create_mask (p % 8)) 255) (replicate 16 0)
          (omega arith)),
  )

  -- For an IPv6Address of 16 bytes and a prefix of p bits: when p is below 128, broadcastAddress
  -- gives the greatest of the 2^(128-p) addresses with the same first p bits, subnetMask the
  -- address of p ones and 128-p zeros, both with the port; else both, and networkAddress, write
  -- behind the 16 bytes.
  pub broadcast_address-Inside : Inside p a ⊎ Outside p a
  broadcast_address-Inside = elim (Bool-cases (ltb p 128)) [
    | inl l ↦ inl (inside (ltb→lt p 128 l))
    | inr l ↦ inr (outside (ltb→le p 128 l))
  ]
