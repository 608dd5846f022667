-- ===== src/Config/Limits.antt =====
-- What `validateConfig` of src/shared/config.js ensures for the frames that are sent.
use nodejs_wss_tunnel.Prelude.{ℕ, ◌+◌, ◌≤◌, ◌≡◌, none, List, length, arith}
use nodejs_wss_tunnel.Protocol.{build_frame}
use nodejs_wss_tunnel.Config.{Constants, validate_config}

length-build_frame :
    (type id : ℕ) (payload : List ℕ) → length (build_frame type id payload) ≡ 6 + length payload
unfolding build_frame
length-build_frame type id payload = omega arith

-- With constants that `validateConfig` lets pass, a frame with a payload of at most
-- MAX_FRAME_PAYLOAD bytes is a message of at most WS_MAX_PAYLOAD bytes.
pub validate_config-frame_fits :
    (c : Constants) (type id : ℕ) (payload : List ℕ)
    → validate_config c ≡ none
    → length payload ≤ c.max_frame_payload
    → length (build_frame type id payload) ≤ c.ws_max_payload
unfolding validate_config
validate_config-frame_fits c type id payload valid short =
    ground (arith, length-build_frame type id payload)
