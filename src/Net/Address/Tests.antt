-- ===== src/Net/Address/Tests.antt =====
-- Runs of the theorems about the order on two addresses of
-- which one begins the other, and about the first 61 bits of 2001:db8::1.
use lo_netfw.Base.{refl, arith, ◌⊎◌, [], ◌∷◌, All}
use lo_netfw.Net.Address.Ipv6.{Ipv6Address}
use lo_netfw.Net.Address.Ipv6.Network.{Inside, Outside, broadcast_address-Inside}
use lo_netfw.Util.Endian.Laws.{IsByte}
use lo_netfw.Net.Address.Order.{Ordered, less_than-Ordered}

less_than-Ordered_example : Ordered (2 ∷ 0 ∷ 80 ∷ []) (2 ∷ 0 ∷ [])
less_than-Ordered_example = less_than-Ordered (2 ∷ 0 ∷ 80 ∷ []) (2 ∷ 0 ∷ [])

abbrev documentation : Ipv6Address
documentation = record {
  sin6_addr = 32 ∷ 1 ∷ 13 ∷ 184 ∷ 0 ∷ 0 ∷ 0 ∷ 0 ∷ 0 ∷ 0 ∷ 0 ∷ 0 ∷ 0 ∷ 0 ∷ 0 ∷ 1 ∷ [];
  sin6_port = 80;
  sin6_flowinfo = 0;
  sin6_scope_id = 0;
}

documentation-IsByte : All IsByte documentation.sin6_addr
documentation-IsByte = (
  omega arith,
  (
    omega arith,
    (
      omega arith,
      (
        omega arith,
        (
          omega arith,
          (
            omega arith,
            (
              omega arith,
              (
                omega arith,
                (
                  omega arith,
                  (
                    omega arith,
                    (
                      omega arith,
                      (omega arith, (omega arith, (omega arith, (omega arith, (omega arith, tt))))),
                    ),
                  ),
                ),
              ),
            ),
          ),
        ),
      ),
    ),
  ),
)

broadcast_address-Inside_example : Inside 61 documentation ⊎ Outside 61 documentation
broadcast_address-Inside_example =
    broadcast_address-Inside 61 documentation refl documentation-IsByte
