-- ===== src/Protocol/Json.antt =====
-- The JSON payloads of src/shared/protocol.js. A parsed document is what the handlers read of it.
use nodejs_wss_tunnel.Prelude.{
  ℕ, ◌*◌, Bool, Option, none, some, String, List, length, ltb, ◌==◌, if◌then◌else◌,
}

-- A parsed document, as far as the handlers read it. `message` is `none` where the field is no text,
-- and `port` is `none` where `Number(info.port)` is no natural number.
pub record Doc : Type 0 where
  pub is_null : Bool
  pub message : Option String
  pub host : String
  pub port : Option ℕ
  pub status_code : Option ℕ
  pub headers : List (String × String)
  -- `String(meta.method || 'GET').toUpperCase()`, and `meta.bodyLength > 0`.
  pub method : String
  pub has_body : Bool

pub data JsonError : Type 0 where
  empty_payload payload_too_large syntax_error : JsonError

pub data ParsedJson : Type 0 where
  doc : Doc → ParsedJson
  failed : JsonError → ParsedJson

of_option : Option Doc → ParsedJson
of_option none = failed syntax_error
of_option (some d) = doc d

-- `FrameCodec.parseJsonPayload`; the source's default for `limit` is `default_limit`.
abbrev pub default_limit : ℕ
default_limit = 64 * 1024

unfoldable pub parse_json_payload : (List ℕ → Option Doc) → List ℕ → ℕ → ParsedJson
unfolding of_option
parse_json_payload parse_json payload limit =
    if length payload == 0
    then failed empty_payload
    else if ltb limit (length payload)
    then failed payload_too_large
    else of_option (parse_json payload)

-- The objects that the program sends: `JSON.stringify` is applied to them.
pub data Obj : Type 0 where
  -- `{}`
  empty : Obj
  -- `{ message }`
  message : String → Obj
  -- `{ host, port }`
  target : String → ℕ → Obj
  -- `{ port }`
  port : ℕ → Obj
  -- `{ port, message }`
  rejection : ℕ → String → Obj
  -- `{ method, url, headers }`
  request : String → String → List (String × String) → Obj
  -- `{ statusCode, headers }`, with the status message left out.
  response : ℕ → List (String × String) → Obj

-- What a frame carries: bytes, or an object that is sent as its JSON text.
pub data Payload : Type 0 where
  raw : List ℕ → Payload
  json : Obj → Payload
