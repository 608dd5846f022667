-- ===== src/Logging.antt =====
-- src/shared/logging.js: what the log says, and the settings that the configuration page changes. The
-- text of a line is not modelled.
use nodejs_wss_tunnel.Prelude.{
  Bool, false, ◌&&◌, ◌||◌, Option, none, some, String, List, [], ◌∷◌, if◌then◌else◌, str_eq,
}

pub data Format : Type 0 where
  json text : Format

-- `state`, where `none` is null, and what the environment says of VERBOSE and LOG_FORMAT.
pub record LogState : Type 0 where
  pub verbose : Option Bool
  pub log_format : Option Format
  pub env_verbose : Bool
  pub env_json : Bool

abbrev pub or_default {ℓ} : {A : Type ℓ} → Option A → A → A
or_default none standard = standard
or_default (some a) standard = a

-- `resolveVerbose`, `resolveLogFormat` and with them `getConfig`.
unfoldable pub resolve_verbose : LogState → Bool
resolve_verbose state = or_default state.verbose state.env_verbose

unfoldable pub resolve_log_format : LogState → Format
resolve_log_format state = or_default state.log_format (if state.env_json then json else text)

abbrev pub get_config : LogState → Bool × Format
get_config state = (resolve_verbose state, resolve_log_format state)

-- A field of the argument of `setConfig`: one of the values that it takes, null, or anything else.
pub data Field {ℓ} (A : Type ℓ) : Type ℓ where
  value : A → Field A
  null other : Field A

abbrev patched {ℓ} : {A : Type ℓ} → Field A → Option A → Option A
patched (value a) old = some a
patched null old = none
patched other old = old

-- `setConfig`.
unfoldable pub set_config : Field Bool → Field Format → LogState → LogState
set_config verbose log_format state = record state {
  verbose = patched verbose state.verbose;
  log_format = patched log_format state.log_format;
}

pub data Level : Type 0 where
  standard verbose error : Level

-- `CATEGORIES`.
abbrev categories : List String
categories =
    "ws" ∷ "http" ∷ "proxy" ∷ "stream" ∷ "heartbeat" ∷ "auth" ∷ "tcp" ∷ "client" ∷ "agent"
    ∷ "shutdown" ∷ []

abbrev is_in : List String → String → Bool
is_in [] cat = false
is_in (c ∷ cs) cat = str_eq c cat || is_in cs cat

-- Whether `logStandard`, `logVerbose` and `logError` write a line of a category.
unfoldable pub is_written : LogState → Level → String → Bool
is_written state verbose cat = resolve_verbose state && is_in categories cat
is_written state _ cat = is_in categories cat
