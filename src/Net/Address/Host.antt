-- ===== src/Net/Address/Host.antt =====
-- What Address::parse looks up for a host with a port, and for addresses with colons.
use lo_netfw.Base.{
  ℕ, ◌≡◌, refl, ap, ◌∙◌, false, [], ◌∷◌, ◌++◌, none, some, All, ◌==◌, if_true, if_false, ==_iff,
}
use lo_netfw.Util.Text.{Text}
use lo_netfw.Net.Address.{with_front, split_at, one_colon, plain_host, in_brackets, parse_host}

-- The text has no such byte.
abbrev pub Without : ℕ → Text → Type 0
Without ch xs = All (λ x. (x == ch) ≡ false) xs

split_at-found :
    (ch : ℕ) (front back : Text)
    → Without ch front
    → split_at ch (front ++ ch ∷ back) ≡ some (front, back)
split_at-found ch [] back h = if_true _ _ _ ((==_iff ch ch).1 refl)
split_at-found ch (x ∷ front) back h =
    if_false _ _ _ h.0 ∙ ap (with_front x) (split_at-found ch front back h.1)

split_at-none : (ch : ℕ) (xs : Text) → Without ch xs → split_at ch xs ≡ none
split_at-none ch [] h = refl
split_at-none ch (x ∷ xs) h = if_false _ _ _ h.0 ∙ ap (with_front x) (split_at-none ch xs h.1)

module _ (x : ℕ) (name : Text) (no_bracket : (x == 91) ≡ false)
    (no_colon : Without 58 (x ∷ name)) where
  plain_of :
      (back : Text)
      → parse_host (x ∷ name ++ 58 ∷ back)
        ≡ one_colon (x ∷ name ++ 58 ∷ back) (x ∷ name) back (split_at 58 back)
  unfolding parse_host
  plain_of back =
      if_false _ _ _ no_bracket
      ∙ ap (plain_host (x ∷ name ++ 58 ∷ back)) (split_at-found 58 (x ∷ name) back no_colon)

  parse_host-port :
      (port : Text)
      → Without 58 port
      → parse_host (x ∷ name ++ 58 ∷ port) ≡ record { node = x ∷ name; service = some port }
  parse_host-port port h =
      plain_of port
      ∙ ap (one_colon (x ∷ name ++ 58 ∷ port) (x ∷ name) port) (split_at-none 58 port h)

  parse_host-colons :
      (front back : Text)
      → Without 58 front
      → parse_host (x ∷ name ++ 58 ∷ (front ++ 58 ∷ back)) ≡ record {
        node = x ∷ name ++ 58 ∷ (front ++ 58 ∷ back);
        service = some (58 ∷ (front ++ 58 ∷ back));
      }
  parse_host-colons front back h =
      let rest : Text = front ++ 58 ∷ back in
      plain_of rest
      ∙ ap (one_colon (x ∷ name ++ 58 ∷ rest) (x ∷ name) rest) (split_at-found 58 front back h)

-- For a host in brackets with a port, the closing bracket being the first one, Address::parse
-- looks up the text inside together with the opening bracket, and the port.
parse_host-brackets :
    (inner port : Text)
    → Without 93 inner
    → parse_host (91 ∷ inner ++ 93 ∷ 58 ∷ port) ≡ record { node = 91 ∷ inner; service = some port }
unfolding parse_host
parse_host-brackets inner port h =
    ap (in_brackets (91 ∷ inner ++ 93 ∷ 58 ∷ port) (inner ++ 93 ∷ 58 ∷ port))
      (split_at-found 93 inner (58 ∷ port) h)
