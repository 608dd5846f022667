-- ===== src/Config.antt =====
-- The readers and checks of src/shared/config.js, and those of src/shared/runtime-config.js. A
-- variable is the text of its code units; one that is not set is the empty text.
pub mod Lists
pub mod Addresses
pub mod Integers
pub mod Limits
pub mod Load
pub mod Loading
pub mod Configured
mod LoadTests
mod Tests
use nodejs_wss_tunnel.Prelude.{
  ℕ, ◌+◌, Bool, true, false, not, ◌&&◌, ◌||◌, Option, none, some, List, [], ◌∷◌, ◌++◌, ltb, leb,
  ◌==◌, ◌^◌, ◌-◌, if◌then◌else◌,
}
use nodejs_wss_tunnel.Prelude.Text.{
  is_empty, trim, split_on, all_digits, decimal, same_text, includes_text,
}
use nodejs_wss_tunnel.Ports.{has_port}
use nodejs_wss_tunnel.AllowList.Numbers.{Signed}
use nodejs_wss_tunnel.AllowList.{is_valid_ip_or_cidr}

pub data ReadInteger : Type 0 where
  value : Signed → ReadInteger
  invalid below above : ReadInteger

-- A minus sign at the front, and the text behind it.
abbrev pub minus : List ℕ → Bool × List ℕ
minus [] = (false, [])
minus (c ∷ s) = if c == 45 then (true, s) else (false, c ∷ s)

-- The text is `-?\d+`; the rounding of a number above 2^53 is not modelled.
abbrev pub to_integer : Bool × List ℕ → Option Signed
to_integer (negative, digits) =
    if not (is_empty digits) && all_digits digits
    then some (record { negative = negative; magnitude = decimal digits })
    else none

abbrev pub max_safe_integer : ℕ
max_safe_integer = 0x1fffffffffffff

-- `n < min` and `n > max`, where the caller gives them.
abbrev pub is_below : Signed → Option ℕ → Bool
is_below n none = false
is_below n (some min) = (n.negative && not (n.magnitude == 0 && min == 0)) || ltb n.magnitude min

abbrev pub is_above : Signed → Option ℕ → Bool
is_above n none = false
is_above n (some max) = not n.negative && ltb max n.magnitude

unfoldable pub in_bounds : Bool → Option ℕ → Option ℕ → Option Signed → ReadInteger
in_bounds safe min max none = invalid
in_bounds safe min max (some n) =
    if safe && ltb max_safe_integer n.magnitude
    then invalid
    else if is_below n min
    then below
    else if is_above n max
    then above
    else value n

-- `readInteger` of config.js, and with `safe` that of runtime-config.js.
unfoldable pub read_integer : Bool → List ℕ → ℕ → Option ℕ → Option ℕ → ReadInteger
read_integer safe raw default_value min max =
    if is_empty raw
    then value (record { negative = false; magnitude = default_value })
    else in_bounds safe min max (to_integer (minus (trim raw)))

-- "true" and "false".
abbrev true_text : List ℕ
true_text = 116 ∷ 114 ∷ 117 ∷ 101 ∷ []

abbrev false_text : List ℕ
false_text = 102 ∷ 97 ∷ 108 ∷ 115 ∷ 101 ∷ []

-- `readBoolean`, or `none` where it throws.
unfoldable pub read_boolean : List ℕ → Bool → Option Bool
read_boolean raw default_value =
    if is_empty raw
    then some default_value
    else if same_text raw true_text || same_text raw (49 ∷ [])
    then some true
    else if same_text raw false_text || same_text raw (48 ∷ [])
    then some false
    else none

-- One round of `readPortList`, where `none` is a throw; `seen` and `ports` of the source have the same
-- elements.
unfoldable pub next_port : Option (List ℕ) → List ℕ → Option (List ℕ)
next_port none token = none
next_port (some seen) token =
    if is_empty token
    then some seen
    else if not (all_digits token)
    then none
    else if ltb (decimal token) 1 || ltb 65535 (decimal token)
    then none
    else if has_port seen (decimal token)
    then some seen
    else some (seen ++ decimal token ∷ [])

unfoldable pub read_ports : Option (List ℕ) → List (List ℕ) → Option (List ℕ)
read_ports seen [] = seen
read_ports seen (raw ∷ tokens) = read_ports (next_port seen (trim raw)) tokens

-- `readPortList`.
unfoldable pub read_port_list : List ℕ → Option (List ℕ)
read_port_list raw = if is_empty raw then some [] else read_ports (some []) (split_on 44 raw)

-- One round of `readIpList`.
unfoldable pub next_ip : Option (List (List ℕ)) → List ℕ → Option (List (List ℕ))
next_ip none token = none
next_ip (some entries) token =
    if is_empty token
    then some entries
    else if not (is_valid_ip_or_cidr token)
    then none
    else if includes_text token entries
    then some entries
    else some (entries ++ token ∷ [])

unfoldable pub read_ips : Option (List (List ℕ)) → List (List ℕ) → Option (List (List ℕ))
read_ips entries [] = entries
read_ips entries (raw ∷ tokens) = read_ips (next_ip entries (trim raw)) tokens

-- `readIpList`.
unfoldable pub read_ip_list : List ℕ → Option (List (List ℕ))
read_ip_list raw = if is_empty raw then some [] else read_ips (some []) (split_on 44 raw)

-- `list.split(',').map(trim).filter(Boolean)`.
unfoldable pub trimmed : List (List ℕ) → List (List ℕ)
trimmed [] = []
trimmed (raw ∷ tokens) =
    let rest = trimmed tokens in if is_empty (trim raw) then rest else trim raw ∷ rest

unfoldable pub read_list : List ℕ → List (List ℕ)
read_list raw = trimmed (split_on 44 raw)

-- The constants that `validateConfig` looks at.
pub record Constants : Type 0 where
  pub username : List ℕ
  pub password : List ℕ
  pub ws_low_water : ℕ
  pub ws_high_water : ℕ
  pub tunnel_path : List ℕ
  pub agent_path : List ℕ
  pub max_frame_payload : ℕ
  pub ws_max_payload : ℕ

pub data Fatal : Type 0 where
  no_credentials water_marks same_paths frame_too_large : Fatal

abbrev pub protocol_overhead : ℕ
protocol_overhead = 64

-- `validateConfig`, or `none` where the process goes on.
unfoldable pub validate_config : Constants → Option Fatal
validate_config c =
    if is_empty c.username || is_empty c.password
    then some no_credentials
    else if leb c.ws_high_water c.ws_low_water
    then some water_marks
    else if same_text c.tunnel_path c.agent_path
    then some same_paths
    -- On integers: `MAX_FRAME_PAYLOAD > WS_MAX_PAYLOAD - PROTOCOL_OVERHEAD`.
    else if ltb c.ws_max_payload (c.max_frame_payload + protocol_overhead)
    then some frame_too_large
    else none
