-- ===== src/AllowList/Numbers.antt =====
-- `Number`, `Number.parseInt` and `&` of ECMAScript, as src/shared/ipAllowlist.js uses them. The
-- rounding of a decimal to a double is not modelled.
use nodejs_wss_tunnel.Prelude.{
  ℕ, zero, suc, ◌+◌, ◌-◌, ◌*◌, ◌/◌, ◌%◌, ◌^◌, ◌≤◌, ◌≡◌, arith, Bool, true, false, not, ◌&&◌, ◌||◌,
  Option, none, some, List, [], ◌∷◌, ltb, leb, ◌==◌, if◌then◌else◌,
}
use native.Mathlib.Nat.{div-le_of_le-mul}
use nodejs_wss_tunnel.Prelude.Text.{is_empty, trim, trim_start}

pub record Signed : Type 0 where
  pub negative : Bool
  pub magnitude : ℕ

-- The finite number `magnitude / 10 ^ places`, with its sign.
pub record Decimal : Type 0 where
  pub negative : Bool
  pub magnitude : ℕ
  pub places : ℕ

-- The digits at the front of a text: their number after `n`, how many they are, and the rest.
abbrev scan : (ℕ → Bool) → ℕ → ℕ → ℕ → List ℕ → ℕ × ℕ × List ℕ
scan is_digit base n count [] = (n, count, [])
scan is_digit base n count (c ∷ s) =
    let rest = scan is_digit base (n * base + digit c) (count + 1) s in
    if is_digit c then rest else (n, count, c ∷ s)
  where
    digit : ℕ → ℕ
    digit c = if leb c 57 then c - 48 else if leb c 70 then c - 55 else c - 87

is_decimal : ℕ → Bool
is_decimal c = leb 48 c && leb c 57

is_hex : ℕ → Bool
is_hex c = leb 48 c && leb c 57 || leb 65 c && leb c 70 || leb 97 c && leb c 102

is_octal : ℕ → Bool
is_octal c = leb 48 c && leb c 55

is_binary : ℕ → Bool
is_binary c = c == 48 || c == 49

-- A whole text of digits in a base, one at least.
radix : ℕ × ℕ × List ℕ → Option Decimal
radix (n, count, rest) =
    if is_empty rest && not (count == 0)
    then some (record { negative = false; magnitude = n; places = 0 })
    else none

-- The part behind a decimal point, where there is one.
fraction : ℕ → List ℕ → ℕ × ℕ × List ℕ
unfolding is_decimal
fraction n [] = (n, 0, [])
fraction n (c ∷ s) = if c == 46 then scan is_decimal 10 n 0 s else (n, 0, c ∷ s)

-- A sign and the text behind it.
sign : List ℕ → Bool × List ℕ
sign [] = (false, [])
sign (c ∷ s) = if c == 45 then (true, s) else if c == 43 then (false, s) else (false, c ∷ s)

whole : Bool → ℕ × ℕ × List ℕ → Option Signed
whole negative (n, count, rest) =
    if is_empty rest && not (count == 0)
    then some (record { negative = negative; magnitude = n })
    else none

exponent : List ℕ → Option Signed
unfolding is_decimal sign whole
exponent [] = some (record { negative = false; magnitude = 0 })
exponent (c ∷ s) =
    let (negative, digits) = sign s in
    if c == 101 || c == 69 then whole negative (scan is_decimal 10 0 0 digits) else none

-- Moves the decimal point.
scaled : Bool → ℕ → ℕ → Option Signed → Option Decimal
scaled negative n places none = none
scaled negative n places (some e) =
    if e.negative
    then some (record { negative = negative; magnitude = n; places = places + e.magnitude })
    else some (record {
      negative = negative;
      magnitude = n * 10 ^ (e.magnitude - places);
      places = places - e.magnitude;
    })

decimal_number : Bool × List ℕ → Option Decimal
unfolding is_decimal fraction scaled exponent
decimal_number (negative, s) =
    let (n, whole_digits, rest) = scan is_decimal 10 0 0 s in
    let (m, places, rest') = fraction n rest in
    if whole_digits + places == 0 then none else scaled negative m places (exponent rest')

-- `Number(text)` without its white space, or `none` where it is NaN or infinite.
unfoldable pub number_of : List ℕ → Option Decimal
unfolding radix is_hex is_octal is_binary decimal_number sign
number_of [] = some (record { negative = false; magnitude = 0; places = 0 })
number_of (c ∷ []) = decimal_number (sign (c ∷ []))
number_of (c ∷ d ∷ s) =
    if c == 48 && (d == 120 || d == 88)
    then radix (scan is_hex 16 0 0 s)
    else if c == 48 && (d == 111 || d == 79)
    then radix (scan is_octal 8 0 0 s)
    else if c == 48 && (d == 98 || d == 66)
    then radix (scan is_binary 2 0 0 s)
    else decimal_number (sign (c ∷ d ∷ s))

-- What `p << n` takes of a number `p` with `0 <= p` and `p <= 255`.
byte_of : Option Decimal → Option ℕ
byte_of none = none
byte_of (some p) =
    if (p.negative && not (p.magnitude == 0)) || ltb (255 * 10 ^ p.places) p.magnitude
    then none
    else some (p.magnitude / 10 ^ p.places)

-- A part of an address, as a byte; `none` where the source refuses it.
unfoldable pub octet : List ℕ → Option ℕ
unfolding byte_of number_of
octet part = byte_of (number_of (trim part))

-- `Number.parseInt(text, 10)`, or `none` where it is NaN.
some_digits : Bool → ℕ × ℕ × List ℕ → Option Signed
some_digits negative (n, count, rest) =
    if count == 0 then none else some (record { negative = negative; magnitude = n })

unfoldable pub parse_int : List ℕ → Option Signed
unfolding sign some_digits is_decimal
parse_int text =
    let (negative, digits) = sign (trim_start text) in
    some_digits negative (scan is_decimal 10 0 0 digits)

-- `a & b` on the lowest `w` bits.
unfoldable pub and_bits : ℕ → ℕ → ℕ → ℕ
and_bits zero a b = 0
and_bits (suc w) a b = (a % 2) * (b % 2) + 2 * and_bits w (a / 2) (b / 2)

pub octet-le : (part : List ℕ) (b : ℕ) → octet part ≡ some b → b ≤ 255
unfolding octet byte_of
octet-le part b e = byte_of-le (number_of (trim part)) b e
  where
    quotient : (m k : ℕ) → m ≤ 255 * k → m / k ≤ 255
    quotient m k h = div-le_of_le-mul k (omega (arith, h))

    byte_of-le : (n : Option Decimal) (b : ℕ) → byte_of n ≡ some b → b ≤ 255
    byte_of-le none b e = ground arith
    byte_of-le (some p) b e = ground (arith, quotient p.magnitude (10 ^ p.places))
