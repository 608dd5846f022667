-- ===== src/Server/Headers.antt =====
-- `sanitizeHeaders` of src/shared/utils.js, on headers whose values are texts.
use nodejs_wss_tunnel.Prelude.{
  Bool, false, ◌&&◌, ◌||◌, String, List, [], ◌∷◌, if◌then◌else◌, str_eq,
}

-- `HOP_BY_HOP_HEADERS`.
abbrev pub hop_by_hop_headers : List String
hop_by_hop_headers =
    "connection" ∷ "keep-alive" ∷ "proxy-authenticate" ∷ "proxy-authorization" ∷ "te" ∷ "trailer"
    ∷ "transfer-encoding" ∷ "upgrade" ∷ "proxy-connection" ∷ []

abbrev pub contains : List String → String → Bool
contains [] s = false
contains (t ∷ ts) s = str_eq t s || contains ts s

-- Whether a header is left out.
abbrev pub is_dropped : (String → String) → Bool → String → Bool
is_dropped to_lower_case remove_host key =
    contains hop_by_hop_headers (to_lower_case key)
    || (remove_host && str_eq (to_lower_case key) "host")

-- `sanitizeHeaders(headers, { removeHost })`.
unfoldable pub sanitize_headers :
    (String → String) → Bool → List (String × String) → List (String × String)
sanitize_headers to_lower_case remove_host [] = []
sanitize_headers to_lower_case remove_host ((key, value) ∷ headers) =
    let rest = sanitize_headers to_lower_case remove_host headers in
    if is_dropped to_lower_case remove_host key then rest else (key, value) ∷ rest
