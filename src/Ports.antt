-- ===== src/Ports.antt =====
-- `parseAgentPorts` of src/shared/port-parser.js. A text is the list of its code units, which are what
-- `split`, `trim` and the regular expression look at.
pub mod Listed
mod Tests
use nodejs_wss_tunnel.Prelude.{
  ℕ, ◌+◌, ◌-◌, ◌*◌, Bool, true, false, not, ◌&&◌, ◌||◌, ◌==◌, Option, none, some, List, [], ◌∷◌,
  ◌++◌, ltb, leb, if◌then◌else◌,
}
use nodejs_wss_tunnel.Prelude.Text.{is_empty, trim, split_on, all_digits, decimal}

pub data PortError : Type 0 where
  required empty_entry : PortError
  non_numeric out_of_range : List ℕ → PortError
  duplicate : ℕ → PortError

pub data ParsedPorts : Type 0 where
  ports : List ℕ → ParsedPorts
  failed : PortError → ParsedPorts

-- `raw.split(',')`.
abbrev pub split : List ℕ → List (List ℕ)
split raw = split_on 44 raw

abbrev pub has_port : List ℕ → ℕ → Bool
has_port [] p = false
has_port (q ∷ qs) p = q == p || has_port qs p

-- The checks of one token against the ports seen before it.
unfoldable pub check_token : List ℕ → List ℕ → Option PortError
check_token seen token =
    if is_empty token
    then some empty_entry
    else if not (all_digits token)
    then some (non_numeric token)
    else if ltb (decimal token) 1 || ltb 65535 (decimal token)
    then some (out_of_range token)
    else if has_port seen (decimal token)
    then some (duplicate (decimal token))
    else none

-- A token's error ends the loop.
abbrev pub next_token : Option PortError → ParsedPorts → ParsedPorts
next_token none later = later
next_token (some error) later = failed error

-- The loop; `seen` and `ports` of the source have the same elements.
unfoldable pub parse_tokens : List ℕ → List (List ℕ) → ParsedPorts
parse_tokens seen [] = ports seen
parse_tokens seen (raw ∷ tokens) =
    next_token (check_token seen (trim raw)) (parse_tokens (seen ++ decimal (trim raw) ∷ []) tokens)

unfoldable pub parse_agent_ports : List ℕ → ParsedPorts
parse_agent_ports raw = if is_empty (trim raw) then failed required else parse_tokens [] (split raw)
