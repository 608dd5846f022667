-- ===== src/Config/Integers.antt =====
-- The numbers that src/shared/config.js and src/shared/runtime-config.js read.
use nodejs_wss_tunnel.Prelude.{
  ℕ, ◌≤◌, ◌≡◌, ◌↔◌, subst, ◌⊎◌, inl, inr, Bool, true, false, Bool-cases, Option, none, some, List,
  arith,
}
use nodejs_wss_tunnel.Prelude.Text.{is_empty, trim}
use nodejs_wss_tunnel.AllowList.Numbers.{Signed}
use nodejs_wss_tunnel.Config.{
  value, minus, to_integer, max_safe_integer, is_below, is_above, in_bounds, read_integer,
}

abbrev pub IsAtMost : Option ℕ → ℕ → Type 0
IsAtMost none n = Unit
IsAtMost (some max) n = n ≤ max

-- An integer from `min` to `max`, where there is a `max`; the zero may be a negative one.
pub record IsWithin (min : ℕ) (max : Option ℕ) (n : Signed) : Type 0 where
  pub not_less_than_zero : (n.negative ≡ false) ⊎ (n.magnitude ≡ 0)
  pub not_below : min ≤ n.magnitude
  pub not_above : IsAtMost max n.magnitude

within :
    (min : ℕ) (max : Option ℕ) (negative : Bool) (magnitude : ℕ)
    → is_below (record { negative = negative; magnitude = magnitude }) (some min) ≡ false
    → is_above (record { negative = negative; magnitude = magnitude }) max ≡ false
    → IsWithin min max (record { negative = negative; magnitude = magnitude })
within min none negative magnitude b a = record {
  not_less_than_zero = ground arith;
  not_below = ground arith;
  not_above = tt;
}
within min (some max) negative magnitude b a = record {
  not_less_than_zero = ground arith;
  not_below = ground arith;
  not_above = ground arith;
}

in_bounds-IsWithin :
    (safe : Bool) (min : ℕ) (max : Option ℕ) (o : Option Signed) (n : Signed)
    → in_bounds safe (some min) max o ≡ value n
    → IsWithin min max n
unfolding in_bounds
in_bounds-IsWithin safe min max none n e = ground arith
in_bounds-IsWithin safe min max (some m) n e =
    subst (IsWithin min max) same
      (within min max m.negative m.magnitude (ground arith) (ground arith))
  where
    same : m ≡ n
    same = ground arith

-- Of both readers: an integer that is read is from `min` to `max`, where there is a `max`, or it is
-- the default of a variable that is not set.
pub read_integer-IsWithin :
    (safe : Bool) (raw : List ℕ) (default_value min : ℕ) (max : Option ℕ) (n : Signed)
    → read_integer safe raw default_value (some min) max ≡ value n
    → ((is_empty raw ≡ true) × (n ≡ record { negative = false; magnitude = default_value }))
      ⊎ ((is_empty raw ≡ false) × IsWithin min max n)
unfolding read_integer
read_integer-IsWithin safe raw default_value min max n e = elim (Bool-cases (is_empty raw)) [
  | inl h ↦ inl (h, ground arith)
  | inr h ↦
      inr (h, in_bounds-IsWithin safe min max (to_integer (minus (trim raw))) n (ground arith))
]

in_bounds-safe :
    (min max : Option ℕ) (o : Option Signed) (n : Signed)
    → in_bounds true min max o ≡ value n
    → in_bounds false min max o ≡ value n
unfolding in_bounds
in_bounds-safe min max none n e = ground arith
in_bounds-safe min max (some m) n e = ground arith

in_bounds-unsafe :
    (min max : Option ℕ) (o : Option Signed) (n : Signed)
    → in_bounds false min max o ≡ value n
    → n.magnitude ≤ max_safe_integer
    → in_bounds true min max o ≡ value n
unfolding in_bounds
in_bounds-unsafe min max none n e h = ground arith
in_bounds-unsafe min max (some m) n e h = ground arith

-- The two readers agree: a number up to 2^53 - 1 is what the reader of runtime-config.js reads exactly
-- if it is what that of config.js reads, for any text, default and bounds.
pub read_integer-mirrors :
    (raw : List ℕ) (default_value : ℕ) (min max : Option ℕ) (n : Signed)
    → n.magnitude ≤ max_safe_integer
    → (read_integer true raw default_value min max ≡ value n)
      ↔ (read_integer false raw default_value min max ≡ value n)
unfolding read_integer
read_integer-mirrors raw default_value min max n h = (
  λ e. ground (arith, in_bounds-safe min max (to_integer (minus (trim raw))) n),
  λ e. ground (arith, in_bounds-unsafe min max (to_integer (minus (trim raw))) n),
)
