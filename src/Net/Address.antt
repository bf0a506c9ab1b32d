-- ===== src/Net/Address.antt =====
-- Of net/address.cpp: how Address::parse takes a host apart before it looks the parts up, and how
-- addresses are compared. A text is the
-- list of its bytes, none of them 0.
-- An address that exists is the list of the `getAddrLen` bytes at its `getAddr`.
pub mod Host
pub mod Ipv6
pub mod Order
mod Tests
use lo_netfw.Base.{
  ℕ, zero, suc, min, ◌&&◌, length, ltb, Bool, true, false, List, [], ◌∷◌, Option, none, some, ◌==◌,
  if◌then◌else◌,
}
use lo_netfw.Util.Text.{Text}

abbrev pub with_front : ℕ → Option (Text × Text) → Option (Text × Text)
with_front x none = none
with_front x (some (front, back)) = some (x ∷ front, back)

-- `memchr`: what stands before the first such byte, and what behind it.
abbrev pub split_at : ℕ → Text → Option (Text × Text)
split_at ch [] = none
split_at ch (x ∷ more) =
    let rest = split_at ch more in if x == ch then some ([], more) else with_front x rest

-- The two arguments of `getaddrinfo`; `none` is a null pointer.
pub record Target : Type 0 where
  pub node : Text
  pub service : Option Text

abbrev pub or_host : Text → Text → Text
or_host host [] = host
or_host host (x ∷ node) = x ∷ node

-- Where no address in brackets was found: the first colon, and whether another one follows.
abbrev pub one_colon : Text → Text → Text → Option (Text × Text) → Target
one_colon host front back none = record { node = or_host host front; service = some back }
one_colon host front back (some p) = record { node = host; service = some (58 ∷ back) }

abbrev pub plain_host : Text → Option (Text × Text) → Target
plain_host host none = record { node = host; service = none }
plain_host host (some (front, back)) = one_colon host front back (split_at 58 back)

-- The service behind a closing bracket.
abbrev pub behind_bracket : Text → Option Text
behind_bracket [] = none
behind_bracket (x ∷ more) = if x == 58 then some more else none

abbrev pub in_brackets : Text → Text → Option (Text × Text) → Target
in_brackets host inner none = plain_host host (split_at 58 host)
in_brackets host inner (some (front, back)) = record {
  node = 91 ∷ front;
  service = behind_bracket back;
}

-- Address::parse, up to the call of `getaddrinfo`.
unfoldable pub parse_host : Text → Target
parse_host [] = plain_host [] none
parse_host (x ∷ more) =
    let plain = plain_host (x ∷ more) (split_at 58 (x ∷ more)) in
    let bracket = in_brackets (x ∷ more) more (split_at 93 more) in
    if x == 91 then bracket else plain

-- The sign of what `memcmp` gives.
pub data Compared : Type 0 where
  below : Compared
  same : Compared
  above : Compared

abbrev pub memcmp : ℕ → List ℕ → List ℕ → Compared
memcmp zero a b = Compared.same
memcmp (suc n) [] b = Compared.same
memcmp (suc n) (x ∷ xs) [] = Compared.same
memcmp (suc n) (x ∷ xs) (y ∷ ys) =
    let rest = memcmp n xs ys in
    if ltb x y then Compared.below else if ltb y x then Compared.above else rest

abbrev pub or_shorter : Compared → Bool → Bool
or_shorter Compared.below shorter = true
or_shorter Compared.same shorter = shorter
or_shorter Compared.above shorter = false

abbrev pub is_same : Compared → Bool
is_same Compared.below = false
is_same Compared.same = true
is_same Compared.above = false

-- Address::operator< and Address::operator==
unfoldable pub less_than : List ℕ → List ℕ → Bool
less_than a b = or_shorter (memcmp (min (length a) (length b)) a b) (ltb (length a) (length b))

unfoldable pub equals : List ℕ → List ℕ → Bool
equals a b = (length a == length b) && is_same (memcmp (length a) a b)
