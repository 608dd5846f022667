-- ===== src/Prelude/Text.antt =====
-- Texts as the lists of their code units, with the methods of `String` that the program calls.
use Prim.Native.Nat.{ℕ, ◌+◌, ◌-◌, ◌*◌}
use mathlib.Core.Bool.{Bool, true, false, ◌&&◌, ◌||◌}
use mathlib.Core.List.{List, [], ◌∷◌}
use nodejs_wss_tunnel.Prelude.Tests.{◌==◌, leb, if◌then◌else◌}

-- What `trim` removes: white space and line ends of ECMAScript.
abbrev is_space : ℕ → Bool
is_space c =
    leb 9 c && leb c 13
    || c == 32
    || c == 160
    || c == 0x1680
    || leb 0x2000 c && leb c 0x200a
    || c == 0x2028
    || c == 0x2029
    || c == 0x202f
    || c == 0x205f
    || c == 0x3000
    || c == 0xfeff

abbrev pub trim_start : List ℕ → List ℕ
trim_start [] = []
trim_start (c ∷ s) = if is_space c then trim_start s else c ∷ s

abbrev trim_end : List ℕ → List ℕ
trim_end [] = []
trim_end (c ∷ s) = cut c (trim_end s)
  where
    cut : ℕ → List ℕ → List ℕ
    cut c [] = if is_space c then [] else c ∷ []
    cut c (d ∷ rest) = c ∷ d ∷ rest

abbrev pub trim : List ℕ → List ℕ
trim s = trim_end (trim_start s)

abbrev pub begin_with : ℕ → List (List ℕ) → List (List ℕ)
begin_with c [] = (c ∷ []) ∷ []
begin_with c (token ∷ tokens) = (c ∷ token) ∷ tokens

-- `text.split(sep)`, where `sep` is one code unit.
unfoldable pub split_on : ℕ → List ℕ → List (List ℕ)
split_on sep [] = [] ∷ []
split_on sep (c ∷ s) = if c == sep then [] ∷ split_on sep s else begin_with c (split_on sep s)

-- `/^\d+$/` on a text that is not empty.
abbrev pub all_digits : List ℕ → Bool
all_digits [] = true
all_digits (c ∷ s) = leb 48 c && leb c 57 && all_digits s

-- `Number(token)` for digits, up to the rounding of numbers that are out of range.
abbrev pub decimal_from : ℕ → List ℕ → ℕ
decimal_from n [] = n
decimal_from n (c ∷ s) = decimal_from (n * 10 + (c - 48)) s

abbrev pub decimal : List ℕ → ℕ
decimal s = decimal_from 0 s

abbrev pub is_empty : List ℕ → Bool
is_empty [] = true
is_empty (c ∷ s) = false

-- `===`.
abbrev pub same_text : List ℕ → List ℕ → Bool
same_text [] [] = true
same_text (c ∷ s) (d ∷ t) = c == d && same_text s t
same_text _ _ = false

-- `text.includes(c)`, where `c` is one code unit.
abbrev pub includes : ℕ → List ℕ → Bool
includes c [] = false
includes c (d ∷ s) = d == c || includes c s

-- `array.includes(text)` and `set.has(text)`.
abbrev pub includes_text : List ℕ → List (List ℕ) → Bool
includes_text t [] = false
includes_text t (s ∷ ss) = same_text s t || includes_text t ss

-- `text.toLowerCase()` on ASCII.
abbrev pub lower : List ℕ → List ℕ
lower [] = []
lower (c ∷ s) = (if leb 65 c && leb c 90 then c + 32 else c) ∷ lower s

-- The first part of a split text.
abbrev pub first_part : List (List ℕ) → List ℕ
first_part [] = []
first_part (s ∷ ss) = s
