-- ===== src/AllowList/Tests.antt =====
-- Addresses, entries and what matches.
use nodejs_wss_tunnel.Prelude.{ℕ, ◌-◌, ◌==◌, ◌≡◌, refl, some, none, List, [], ◌∷◌, true}
use nodejs_wss_tunnel.Prelude.Text.{split_on}
use nodejs_wss_tunnel.AllowList.Numbers.{octet, and_bits, parse_int}
use nodejs_wss_tunnel.AllowList.Masks.{high_bits, match_cidr-high_bits}
use nodejs_wss_tunnel.AllowList.{
  match_cidr, same_network, mask, prefix_bits, range_of, ip_to_int, is_valid_ip_or_cidr,
}

-- 10.0.0.7 and 10.0.0.9/28.
abbrev address : List ℕ
address = 49 ∷ 48 ∷ 46 ∷ 48 ∷ 46 ∷ 48 ∷ 46 ∷ 55 ∷ []

abbrev entry : List ℕ
entry = 49 ∷ 48 ∷ 46 ∷ 48 ∷ 46 ∷ 48 ∷ 46 ∷ 57 ∷ 47 ∷ 50 ∷ 56 ∷ []

match_cidr-entry : match_cidr address entry ≡ true
unfolding match_cidr same_network mask prefix_bits range_of ip_to_int split_on octet and_bits
    parse_int
match_cidr-entry = refl

-- "..." is taken for an address.
is_valid_ip_or_cidr-dots : is_valid_ip_or_cidr (46 ∷ 46 ∷ 46 ∷ []) ≡ true
unfolding is_valid_ip_or_cidr ip_to_int split_on octet
is_valid_ip_or_cidr-dots = refl

-- "0x1F" and "1.5e1" and "-1".
octet-hex : octet (48 ∷ 120 ∷ 49 ∷ 70 ∷ []) ≡ some 31
unfolding octet
octet-hex = refl

octet-exp : octet (49 ∷ 46 ∷ 53 ∷ 101 ∷ 49 ∷ []) ≡ some 15
unfolding octet
octet-exp = refl

octet-negative : octet (45 ∷ 49 ∷ []) ≡ none
unfolding octet
octet-negative = refl

match_cidr-high_bits_example :
    match_cidr address entry ≡ (high_bits (32 - 28) 0x0a000007 == high_bits (32 - 28) 0x0a000009)
unfolding prefix_bits range_of ip_to_int split_on octet parse_int
match_cidr-high_bits_example =
    match_cidr-high_bits address entry 28 0x0a000007 0x0a000009 refl refl refl refl
