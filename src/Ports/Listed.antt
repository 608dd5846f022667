-- ===== src/Ports/Listed.antt =====
-- The ports that `parseAgentPorts` returns.
use nodejs_wss_tunnel.Prelude.{
  ℕ, ◌≤◌, ◌≡◌, refl, sym, ◌∙◌, Bool, true, false, if◌then◌else◌, Option, none, some, List, [], ◌∷◌,
  ◌++◌, map, append-nil, append_assoc, arith, All,
}
use nodejs_wss_tunnel.Prelude.Text.{trim, decimal}
use nodejs_wss_tunnel.Ports.{
  PortError, required, next_token, ParsedPorts, ports, failed, split, has_port, check_token,
  parse_tokens, parse_agent_ports,
}

abbrev pub IsPort : ℕ → Type 0
IsPort p = (1 ≤ p) × (p ≤ 65535)

abbrev pub IsDistinct : List ℕ → Type 0
IsDistinct [] = Unit
IsDistinct (p ∷ ps) = (has_port ps p ≡ false) × IsDistinct ps

-- What a result says: the ports are valid, all different, and those of the tokens in order.
abbrev pub IsListed : List (List ℕ) → ParsedPorts → Type 0
IsListed tokens (failed e) = Unit
IsListed tokens (ports ps) =
    All IsPort ps × IsDistinct ps × (ps ≡ map (λ t. decimal (trim t)) tokens)

check_token-IsPort :
    (seen token : List ℕ)
    → check_token seen token ≡ none
    → IsPort (decimal token) × (has_port seen (decimal token) ≡ false)
unfolding check_token
check_token-IsPort seen token e = ground arith

has_port-append :
    (qs : List ℕ) (p q : ℕ)
    → has_port qs q ≡ false
    → (p ≡ q → ⊥)
    → has_port (qs ++ p ∷ []) q ≡ false
has_port-append [] p q h d = ground arith
has_port-append (r ∷ qs) p q h d = ground (arith, has_port-append qs p q)

pub IsPort-append : (qs : List ℕ) (p : ℕ) → All IsPort qs → IsPort p → All IsPort (qs ++ p ∷ [])
IsPort-append [] p h k = (k, tt)
IsPort-append (q ∷ qs) p (h, hs) k = (h, IsPort-append qs p hs k)

pub IsDistinct-append :
    (qs : List ℕ) (p : ℕ) → IsDistinct qs → has_port qs p ≡ false → IsDistinct (qs ++ p ∷ [])
IsDistinct-append [] p h k = (refl, tt)
IsDistinct-append (q ∷ qs) p (h, hs) k =
    (has_port-append qs p q h (λ e. ground arith), IsDistinct-append qs p hs (ground arith))

-- The loop, with the ports that it has: its result is theirs and those of the tokens.
abbrev IsContinued : List ℕ → List (List ℕ) → ParsedPorts → Type 0
IsContinued seen tokens (failed e) = Unit
IsContinued seen tokens (ports ps) =
    All IsPort ps × IsDistinct ps × (ps ≡ seen ++ map (λ t. decimal (trim t)) tokens)

shifted-IsContinued :
    (seen raw : List ℕ) (tokens : List (List ℕ)) (later : ParsedPorts)
    → IsContinued (seen ++ decimal (trim raw) ∷ []) tokens later
    → IsContinued seen (raw ∷ tokens) later
shifted-IsContinued seen raw tokens (failed e) h = tt
shifted-IsContinued seen raw tokens (ports ps) (valid, distinct, same) =
    (valid, distinct, same ∙ append_assoc seen (decimal (trim raw) ∷ []) _)

next_token-IsContinued :
    (seen : List ℕ) (tokens : List (List ℕ)) (o : Option PortError) (later : ParsedPorts)
    → (o ≡ none → IsContinued seen tokens later)
    → IsContinued seen tokens (next_token o later)
next_token-IsContinued seen tokens none later h = h refl
next_token-IsContinued seen tokens (some error) later h = tt

parse_tokens-IsContinued :
    (seen : List ℕ) (tokens : List (List ℕ))
    → All IsPort seen
    → IsDistinct seen
    → IsContinued seen tokens (parse_tokens seen tokens)
unfolding parse_tokens
parse_tokens-IsContinued seen [] valid distinct = (valid, distinct, sym (append-nil seen))
parse_tokens-IsContinued seen (raw ∷ tokens) valid distinct =
    next_token-IsContinued seen (raw ∷ tokens) (check_token seen (trim raw)) _ (λ good.
      let (port, fresh) = check_token-IsPort seen (trim raw) good in
      shifted-IsContinued seen raw tokens _ (
        parse_tokens-IsContinued (seen ++ decimal (trim raw) ∷ []) tokens
          (IsPort-append seen (decimal (trim raw)) valid port)
          (IsDistinct-append seen (decimal (trim raw)) distinct fresh)))

required-IsListed :
    (b : Bool) (tokens : List (List ℕ)) (result : ParsedPorts)
    → IsListed tokens result
    → IsListed tokens (if b then failed required else result)
required-IsListed true tokens result h = tt
required-IsListed false tokens result h = h

continued-IsListed :
    (tokens : List (List ℕ)) (result : ParsedPorts)
    → IsContinued [] tokens result
    → IsListed tokens result
continued-IsListed tokens (failed e) h = tt
continued-IsListed tokens (ports ps) h = h

-- For any text: the ports that are returned are from 1 to 65535, all different, and the numbers of the
-- tokens between the commas, in their order.
pub parse_agent_ports-IsListed : (raw : List ℕ) → IsListed (split raw) (parse_agent_ports raw)
unfolding parse_agent_ports
parse_agent_ports-IsListed raw = required-IsListed _ (split raw) (parse_tokens [] (split raw)) (
    continued-IsListed (split raw) (parse_tokens [] (split raw))
      (parse_tokens-IsContinued [] (split raw) tt tt))
