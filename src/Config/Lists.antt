-- ===== src/Config/Lists.antt =====
-- The lists of ports that src/shared/config.js reads.
use nodejs_wss_tunnel.Prelude.{
  ℕ, ◌≡◌, refl, subst, ◌⊎◌, Bool-cases, Bool, true, false, if◌then◌else◌, Option, inl, inr,
  Option-cases, none, some, List, [], ◌∷◌, ◌++◌, arith, All,
}
use nodejs_wss_tunnel.Prelude.Text.{is_empty, trim, split_on, decimal}
use nodejs_wss_tunnel.Ports.{
  PortError, ParsedPorts, ports, failed, has_port, required, next_token, check_token, parse_tokens,
  parse_agent_ports,
}
use nodejs_wss_tunnel.Ports.Listed.{IsPort, IsDistinct, IsPort-append, IsDistinct-append}
use nodejs_wss_tunnel.Config.{next_port, read_ports, read_port_list}

next_port-some :
    (seen token : List ℕ)
    → check_token seen token ≡ none
    → next_port (some seen) token ≡ some (seen ++ decimal token ∷ [])
unfolding next_port check_token
next_port-some seen token e = ground arith

next_token-ports :
    (o : Option PortError) (later : ParsedPorts) (ps : List ℕ)
    → next_token o later ≡ ports ps
    → (o ≡ none) × (later ≡ ports ps)
next_token-ports none later ps e = (refl, e)
next_token-ports (some error) later ps e = ground arith

read_ports-same :
    (seen ps : List ℕ) (tokens : List (List ℕ))
    → parse_tokens seen tokens ≡ ports ps
    → read_ports (some seen) tokens ≡ some ps
unfolding read_ports parse_tokens
read_ports-same seen ps [] e = ground arith
read_ports-same seen ps (raw ∷ tokens) e =
    let (good, later) = next_token-ports (check_token seen (trim raw)) _ ps e in
    rw (next_port-some seen (trim raw) good)
      (read_ports-same (seen ++ decimal (trim raw) ∷ []) ps tokens later)

-- Ports that the agent's `parseAgentPorts` takes, the server's `readPortList` reads as the same list.
pub read_port_list-parse_agent_ports :
    (raw ps : List ℕ) → parse_agent_ports raw ≡ ports ps → read_port_list raw ≡ some ps
unfolding read_port_list parse_agent_ports
read_port_list-parse_agent_ports [] ps e = ground arith
read_port_list-parse_agent_ports (c ∷ raw) ps e =
    read_ports-same [] ps (split_on 44 (c ∷ raw)) (taken (is_empty (trim (c ∷ raw))) _ e)
  where
    taken :
        (b : Bool) (result : ParsedPorts)
        → (if b then failed required else result) ≡ ports ps
        → result ≡ ports ps
    taken true result e = ground arith
    taken false result e = e

-- A list of ports that are valid and all different, or a throw.
abbrev pub IsPortList : Option (List ℕ) → Type 0
IsPortList none = Unit
IsPortList (some ps) = All IsPort ps × IsDistinct ps

next_port-cases :
    (seen token ps : List ℕ)
    → next_port (some seen) token ≡ some ps
    → (seen ≡ ps)
      ⊎ ((seen ++ decimal token ∷ [] ≡ ps)
          × IsPort (decimal token)
          × (has_port seen (decimal token) ≡ false))
unfolding next_port
next_port-cases seen token ps e = ground arith

next_port-none : (token : List ℕ) → next_port none token ≡ none
unfolding next_port
next_port-none token = refl

next_port-IsPortList :
    (seen : Option (List ℕ)) (token : List ℕ) → IsPortList seen → IsPortList (next_port seen token)
next_port-IsPortList none token h = rw (next_port-none token) tt
next_port-IsPortList (some seen) token (valid, distinct) =
    elim (Option-cases (next_port (some seen) token)) [
      | inl e ↦ rw e tt
      | inr (ps, e) ↦ rw e (elim (next_port-cases seen token ps e) [
        | inl same ↦ subst (λ qs. IsPortList (some qs)) same (valid, distinct)
        | inr (same, port, fresh) ↦
            subst (λ qs. IsPortList (some qs)) same
              (
                IsPort-append seen (decimal token) valid port,
                IsDistinct-append seen (decimal token) distinct fresh,
              )
      ])
    ]

read_ports-IsPortList :
    (tokens : List (List ℕ)) (seen : Option (List ℕ))
    → IsPortList seen
    → IsPortList (read_ports seen tokens)
unfolding read_ports
read_ports-IsPortList [] seen h = h
read_ports-IsPortList (raw ∷ tokens) seen h =
    read_ports-IsPortList tokens (next_port seen (trim raw))
      (next_port-IsPortList seen (trim raw) h)

-- Any list of ports that `readPortList` returns has ports from 1 to 65535, all different.
pub read_port_list-IsPortList : (raw : List ℕ) → IsPortList (read_port_list raw)
unfolding read_port_list
read_port_list-IsPortList raw = elim (Bool-cases (is_empty raw)) [
  | inl e ↦ rw e (tt, tt)
  | inr e ↦ rw e (read_ports-IsPortList (split_on 44 raw) (some []) (tt, tt))
]
