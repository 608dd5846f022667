-- ===== src/AllowList.antt =====
-- src/shared/ipAllowlist.js. Addresses and entries are texts of code units.
pub mod Numbers
pub mod Masks
mod Tests
use nodejs_wss_tunnel.Prelude.{
  ℕ, suc, ◌+◌, ◌-◌, ◌*◌, ◌%◌, ◌^◌, Bool, true, false, not, ◌&&◌, ◌||◌, Option, none, some, is_some,
  List, [], ◌∷◌, ltb, leb, ◌==◌, if◌then◌else◌, drop,
}
use nodejs_wss_tunnel.Prelude.Text.{is_empty, split_on, same_text, includes, first_part}
use Numbers.{octet, and_bits, parse_int, Signed}

-- The four parts as the bytes of a number; any other count of parts is no address.
unfoldable pub of_parts : List (Option ℕ) → Option ℕ
of_parts (some a ∷ some b ∷ some c ∷ some d ∷ []) = some (a * 2 ^ 24 + b * 2 ^ 16 + c * 2 ^ 8 + d)
of_parts _ = none

unfoldable pub octets : List (List ℕ) → List (Option ℕ)
octets [] = []
octets (part ∷ parts) = octet part ∷ octets parts

-- `ipToInt`.
unfoldable pub ip_to_int : List ℕ → Option ℕ
unfolding of_parts octets
ip_to_int ip = of_parts (octets (split_on 46 ip))

-- `normalizeIp`: "::ffff:" goes.
starts_with : List ℕ → List ℕ → Bool
starts_with [] s = true
starts_with (c ∷ prefix) [] = false
starts_with (c ∷ prefix) (d ∷ s) = c == d && starts_with prefix s

unfoldable pub normalize_ip : List ℕ → List ℕ
unfolding starts_with
normalize_ip addr =
    if starts_with (58 ∷ 58 ∷ 102 ∷ 102 ∷ 102 ∷ 102 ∷ 58 ∷ []) addr then drop 7 addr else addr

-- `[range, bitsStr] = cidr.split('/')`: what is behind a second slash is not looked at.
unfoldable pub second_part : List (List ℕ) → List ℕ
second_part [] = []
second_part (range ∷ parts) = first_part parts

-- `parseInt(bitsStr, 10)`, or `none` where it is NaN, less than 0 or more than 32.
unfoldable pub in_range : Option Signed → Option ℕ
in_range none = none
in_range (some n) =
    if (n.negative && not (n.magnitude == 0)) || ltb 32 n.magnitude then none else some n.magnitude

unfoldable pub prefix_bits : List ℕ → Option ℕ
unfolding second_part in_range
prefix_bits cidr = in_range (parse_int (second_part (split_on 47 cidr)))

unfoldable pub range_of : List ℕ → Option ℕ
range_of cidr = ip_to_int (first_part (split_on 47 cidr))

-- `bits === 0 ? 0 : (~0 << (32 - bits)) >>> 0`.
unfoldable pub mask : ℕ → ℕ
mask bits = if bits == 0 then 0 else (0xffffffff * 2 ^ (32 - bits)) % 2 ^ 32

-- `(ipInt & mask) === (rangeInt & mask)`.
unfoldable pub same_network : ℕ → ℕ → ℕ → Bool
same_network bits ip range = and_bits 32 ip (mask bits) == and_bits 32 range (mask bits)

unfoldable pub compare_ranges : Option ℕ → Option ℕ → Option ℕ → Bool
compare_ranges (some bits) (some ip) (some range) = same_network bits ip range
compare_ranges _ _ _ = false

-- `matchCidr`.
unfoldable pub match_cidr : List ℕ → List ℕ → Bool
unfolding compare_ranges
match_cidr ip cidr =
    if not (includes 47 cidr)
    then same_text ip cidr
    else compare_ranges (prefix_bits cidr) (ip_to_int ip) (range_of cidr)

some_match : List ℕ → List (List ℕ) → Bool
some_match ip [] = false
some_match ip (entry ∷ entries) = match_cidr ip entry || some_match ip entries

-- `isIpAllowed`; a missing address is the empty text.
unfoldable pub is_ip_allowed : List ℕ → List (List ℕ) → Bool
unfolding some_match
is_ip_allowed addr [] = true
is_ip_allowed addr (entry ∷ entries) = some_match (normalize_ip addr) (entry ∷ entries)

-- `isValidIpOrCidr` on a text.
unfoldable pub is_valid_ip_or_cidr : List ℕ → Bool
is_valid_ip_or_cidr entry =
    if is_empty entry
    then false
    else if not (includes 47 entry)
    then is_some (ip_to_int entry)
    else is_some (prefix_bits entry) && is_some (range_of entry)
