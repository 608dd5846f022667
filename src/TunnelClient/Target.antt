-- ===== src/TunnelClient/Target.antt =====
-- The target of a local request in `handleReqMeta` of serve/client.js.
use nodejs_wss_tunnel.Prelude.{ℕ, ◌==◌, Option, none, some, List, [], ◌∷◌, ◌++◌, if◌then◌else◌}
use nodejs_wss_tunnel.Prelude.Text.{is_empty, same_text}
use nodejs_wss_tunnel.Config.Load.{or_standard, is_rooted}
use nodejs_wss_tunnel.TunnelClient.Start.{Origin}

-- The text before the first '?' and the one from there.
unfoldable pub at_question : List ℕ → List ℕ × List ℕ
at_question [] = ([], [])
at_question (c ∷ s) =
    let (before, query) = at_question s in if c == 63 then ([], c ∷ s) else (c ∷ before, query)

abbrev pub rooted : List ℕ → List ℕ
rooted path = if is_rooted path then path else 47 ∷ path

abbrev pub or_root : List ℕ → List ℕ
or_root path = if is_empty path then 47 ∷ [] else path

-- The path and the search of the request's URL, where `parsed` has those of
-- `new URL(rawUrl, TARGET_ORIGIN)` or is `none`, where that throws.
unfoldable pub request_parts : List ℕ → Option (List ℕ × List ℕ) → List ℕ × List ℕ
request_parts raw (some (pathname, search)) = (or_root pathname, search)
request_parts raw none = let (before, query) = at_question raw in (rooted before, query)

-- `text.replace(/\/$/, '')`.
unfoldable pub without_slash : List ℕ → List ℕ
without_slash [] = []
without_slash (c ∷ []) = if c == 47 then [] else c ∷ []
without_slash (c ∷ d ∷ s) = c ∷ without_slash (d ∷ s)

-- `basePath`.
unfoldable pub base_path : Origin → List ℕ
base_path origin = if same_text origin.pathname (47 ∷ []) then [] else without_slash origin.pathname

-- The host, the pathname and the search of `targetUrl`, which the request goes to.
pub record LocalTarget : Type 0 where
  pub host : List ℕ
  pub pathname : List ℕ
  pub search : List ℕ

-- `url` is that of the metadata, `resolve` is `new URL` with TARGET_ORIGIN as its base, and
-- `set_pathname` and `set_search` are the setters of `targetUrl`: what its pathname and its search are
-- once a text is assigned to them, since they parse it.
unfoldable pub local_target :
    (List ℕ → Option (List ℕ × List ℕ))
    → (List ℕ → List ℕ)
    → (List ℕ → List ℕ)
    → Origin
    → Option (List ℕ)
    → LocalTarget
local_target resolve set_pathname set_search origin url =
    let raw = or_standard url (47 ∷ []) in
    let (pathname, search) = request_parts raw (resolve raw) in
    record {
      host = origin.host;
      pathname = set_pathname (base_path origin ++ pathname);
      search = set_search search;
    }
