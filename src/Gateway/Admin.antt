-- ===== src/Gateway/Admin.antt =====
-- `_validateAdmin` and `_handleConfigRequest` of src/server/HttpRouter.js.
use nodejs_wss_tunnel.Prelude.{
  ℕ, Bool, false, not, Option, none, some, String, List, [], ◌∷◌, ◌++◌, length, ltb, str_eq,
  if◌then◌else◌,
}
use nodejs_wss_tunnel.Prelude.Text.{is_empty}
use nodejs_wss_tunnel.Logging.{Format, LogState, Field, value, other, set_config, get_config}
use nodejs_wss_tunnel.Gateway.Auth.{Crypto, validate_hmac_signature}
use nodejs_wss_tunnel.Gateway.Upgrade.{Settings}
use nodejs_wss_tunnel.Gateway.Routes.{own_path, config_suffix}

-- What `JSON.parse` gives for the body, as far as it is read; `undefined` is a missing `logFormat`.
pub data LogFormatField : Type 0 where
  undefined invalid : LogFormatField
  valid : Format → LogFormatField

pub data Body : Type 0 where
  malformed null : Body
  -- The Boolean `verbose`, if it is one, and `logFormat`.
  object : Option Bool → LogFormatField → Body

pub record AdminRequest : Type 0 where
  pub method : String
  -- `expires` and `sig` of the URL's query, or `none` where the URL is not valid; a missing one is the
  -- empty text.
  pub query : Option (List ℕ × List ℕ)
  -- The decoded chunks of the body.
  pub chunks : List (List ℕ)

pub data ConfigAnswer : Type 0 where
  not_found method_not_allowed : ConfigAnswer
  current : Bool × Format → ConfigAnswer
  -- The request was destroyed, and its 'end' event never comes.
  destroyed : ConfigAnswer
  invalid_json invalid_verbose invalid_log_format : ConfigAnswer
  updated : Bool × Format → ConfigAnswer
  -- The listener throws a TypeError, which nothing catches.
  uncaught : ConfigAnswer

abbrev checked_query : Crypto → Settings → ℕ → Option (List ℕ × List ℕ) → Bool
checked_query crypto settings now none = false
checked_query crypto settings now (some (expires, sig)) =
    validate_hmac_signature crypto now (own_path settings config_suffix) settings.admin_secret
      expires sig

-- `_validateAdmin`, at a number of seconds.
unfoldable pub validate_admin : Crypto → Settings → ℕ → AdminRequest → Bool
validate_admin crypto settings now req =
    if is_empty settings.admin_secret then false else checked_query crypto settings now req.query

-- The 'data' listener over all chunks: the body, unless it ever has more than `max` code units.
unfoldable pub receive : ℕ → List ℕ → List (List ℕ) → Option (List ℕ)
receive max body [] = some body
receive max body (chunk ∷ chunks) =
    let rest = receive max (body ++ chunk) chunks in
    if ltb max (length (body ++ chunk)) then none else rest

abbrev pub max_body : ℕ
max_body = 1024

-- `setConfig` and the answer.
unfoldable pub update : LogState → Bool → Field Format → LogState × ConfigAnswer
update state verbose log_format =
    let state' = set_config (value verbose) log_format state in
    (state', updated (get_config state'))

-- The 'end' listener on the parsed body.
unfoldable pub on_body : LogState → Body → LogState × ConfigAnswer
on_body state malformed = (state, invalid_json)
on_body state null = (state, uncaught)
on_body state (object none log_format) = (state, invalid_verbose)
on_body state (object (some verbose) undefined) = update state verbose other
on_body state (object (some verbose) invalid) = (state, invalid_log_format)
on_body state (object (some verbose) (valid format)) = update state verbose (value format)

unfoldable pub on_end : (List ℕ → Body) → LogState → Option (List ℕ) → LogState × ConfigAnswer
on_end parse state none = (state, destroyed)
on_end parse state (some body) = on_body state (parse body)

-- `_handleConfigRequest`, with `JSON.parse`.
unfoldable pub handle_config_request :
    Crypto → Settings → ℕ → (List ℕ → Body) → LogState → AdminRequest → LogState × ConfigAnswer
unfolding on_end on_body
handle_config_request crypto settings now parse state req =
    if not (validate_admin crypto settings now req)
    then (state, not_found)
    else if str_eq req.method "GET"
    then (state, current (get_config state))
    else if not (str_eq req.method "POST")
    then (state, method_not_allowed)
    else on_end parse state (receive max_body [] req.chunks)
