-- ===== src/TunnelClient/Targets.antt =====
-- What serve/client.js has made sure of when it connects, and where its local requests go.
use nodejs_wss_tunnel.Prelude.{
  ℕ, ◌≤◌, ◌<◌, ◌≡◌, refl, subst, ◌⊎◌, inl, inr, Bool, true, false, not, ◌||◌, Bool-cases, ◌==◌,
  if◌then◌else◌, Option, none, some, String, List, [], ◌∷◌, ◌++◌, arith,
}
use nodejs_wss_tunnel.Prelude.Text.{is_empty}
use nodejs_wss_tunnel.Prelude.Options.{>>=-some, guard, guard-true, none_of_three}
use nodejs_wss_tunnel.Config.Load.{or_standard, text_of, read_number, is_rooted}
use nodejs_wss_tunnel.Config.Loading.{read_number-le}
use nodejs_wss_tunnel.TunnelClient.Start.{
  http_scheme, standard_origin, begins_with, has_scheme, target_origin, Origin, ClientSettings,
  client_start,
}
use nodejs_wss_tunnel.TunnelClient.Target.{or_root, base_path, LocalTarget}

-- A text that is empty or begins with '?'.
abbrev pub is_search : List ℕ → Bool
is_search [] = true
is_search (c ∷ s) = c == 63

-- The parts of a URL that `new URL` does not take: the text itself, with a '/' in front if it has none.
record IsSplit (raw path search : List ℕ) : Type 0 where
  pub whole : (path ++ search ≡ raw) ⊎ (path ++ search ≡ 47 ∷ raw)
  pub query : is_search search ≡ true

module _ (resolve : List ℕ → Option (List ℕ × List ℕ)) (set_pathname set_search : List ℕ → List ℕ)
    (origin : Origin) where
  -- `new URL` gives a path and a search in normal form: the setters keep the search, and the path
  -- behind that of TARGET_ORIGIN, which is in normal form too.
  abbrev pub Keeps : Option (List ℕ × List ℕ) → Type 0
  Keeps none = Unit
  Keeps (some (pathname, search)) =
      (set_pathname (base_path origin ++ or_root pathname) ≡ base_path origin ++ or_root pathname)
      × (set_search search ≡ search)

  -- Where a local request goes, `raw` being the URL of the metadata: `new URL` takes it, and the
  -- request has the path of TARGET_ORIGIN before what `new URL` makes of it; or it does not, and the
  -- setters are given the path of TARGET_ORIGIN before the path of `raw`, and the search of `raw`.
  pub record IsAimed (raw : List ℕ) (t : LocalTarget) : Type 0 where
    same_host : t.host ≡ origin.host
    aimed :
        ((parts : List ℕ × List ℕ) × (resolve raw ≡ some parts)
          × (t.pathname ≡ base_path origin ++ or_root parts.0)
          × (t.search ≡ parts.1))
        ⊎ ((path : List ℕ) × (search : List ℕ) × (resolve raw ≡ none)
            × IsSplit raw path search
            × (is_rooted path ≡ true)
            × (t.pathname ≡ set_pathname (base_path origin ++ path))
            × (t.search ≡ set_search search))

prefixed : (raw : List ℕ) → has_scheme (if has_scheme raw then raw else http_scheme ++ raw) ≡ true
unfolding begins_with
prefixed raw = elim (Bool-cases (has_scheme raw)) [
  | inl is ↦ rw is is
  | inr is_not ↦ rw is_not refl
]

target_origin-has_scheme :
    (variable : String → Option (List ℕ)) → has_scheme (target_origin variable) ≡ true
unfolding target_origin
target_origin-has_scheme variable =
    prefixed (or_standard (variable "TARGET_ORIGIN") standard_origin)

-- The settings of a client that connects.
pub record IsReady (parse : List ℕ → Option Origin) (s : ClientSettings) : Type 0 where
  has_url : is_empty s.server_url ≡ false
  has_username : is_empty s.username ≡ false
  has_password : is_empty s.password ≡ false
  of_the_web : has_scheme s.origin_text ≡ true
  parsed : parse s.origin_text ≡ some s.target_base
  streams : 1 ≤ s.max_concurrent_streams
  frames : 1 ≤ s.max_frame_payload
  low : 512 ≤ s.ws_low_water
  high : s.ws_low_water < s.ws_high_water

-- A client that gets past its checks has a URL and credentials that are not empty, an origin with
-- http or https that `new URL` takes, and positive limits with the low water mark below the high one.
pub client_start-IsReady :
    (parse : List ℕ → Option Origin) (variable : String → Option (List ℕ)) (s : ClientSettings)
    → client_start parse variable ≡ some s
    → IsReady parse s
unfolding client_start
client_start-IsReady parse variable s e =
    let url = text_of variable "TUNNEL_SERVER_URL" in
    let username = text_of variable "TUNNEL_USERNAME" in
    let password = text_of variable "TUNNEL_PASSWORD" in
    let (streams, e0, r0) =
      >>=-some (read_number true variable "MAX_CONCURRENT_STREAMS" 200 1 none) _ s e in
    let (_, _, r1) =
      >>=-some (read_number true variable "STREAM_IDLE_TIMEOUT_MS" 120000 0 none) _ s r0 in
    let (_, _, r2) = >>=-some (read_number true variable "DRAIN_TIMEOUT_MS" 30000 0 none) _ s r1 in
    let (high, e3, r3) =
      >>=-some (read_number true variable "WS_HIGH_WATER_BYTES" 1048576 1024 none) _ s r2 in
    let (frame, e4, r4) =
      >>=-some (read_number true variable "MAX_FRAME_PAYLOAD_BYTES" 262144 1 none) _ s r3 in
    let (_, _, r5) =
      >>=-some (read_number true variable "LOCAL_REQUEST_TIMEOUT_MS" 0 0 none) _ s r4 in
    let (_, e6, r6) =
      >>=-some (guard (not (is_empty url || is_empty username || is_empty password))) _ s r5 in
    let (base, e7, r7) = >>=-some (parse (target_origin variable)) _ s r6 in
    let (_, _, r8) =
      >>=-some (read_number true variable "TCP_CONNECT_TIMEOUT_MS" 10000 0 none) _ s r7 in
    let big =
      read_number-le true variable "WS_HIGH_WATER_BYTES" 1048576 1024 high (omega arith) e3 in
    let (has_url, has_username, has_password) =
      none_of_three (is_empty url) (is_empty username) (is_empty password) (guard-true _ e6) in
    subst (IsReadyIf parse) r8 (record {
      has_url = has_url;
      has_username = has_username;
      has_password = has_password;
      of_the_web = target_origin-has_scheme variable;
      parsed = e7;
      streams =
          read_number-le true variable "MAX_CONCURRENT_STREAMS" 200 1 streams (omega arith) e0;
      frames =
          read_number-le true variable "MAX_FRAME_PAYLOAD_BYTES" 262144 1 frame (omega arith) e4;
      low = omega (arith, big);
      high = omega (arith, big);
    })
  where
    IsReadyIf : (List ℕ → Option Origin) → Option ClientSettings → Type 0
    IsReadyIf parse none = Unit
    IsReadyIf parse (some s) = IsReady parse s
