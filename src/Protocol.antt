-- ===== src/Protocol.antt =====
-- src/shared/protocol.js: the frame types and the binary codec of the tunnel. `JSON.parse` is the
-- parameter `parse_json` of the functions that use it.
pub mod Codec
pub mod Json
mod Tests
use nodejs_wss_tunnel.Prelude.{
  ℕ, ◌/◌, ◌%◌, ◌^◌, Option, none, some, List, [], ◌∷◌, ◌++◌, length, get_or, drop, ltb, ◌==◌,
  if◌then◌else◌, ◌+◌, ◌*◌,
}

-- The keys of `PROTO.TYPE`.
pub data FrameType : Type 0 where
  req_meta req_data req_end req_abort : FrameType
  res_meta res_data res_end res_abort : FrameType
  pause resume : FrameType
  tcp_open tcp_data tcp_close tcp_abort tcp_open_ack : FrameType
  tcp_connect tcp_connect_ack : FrameType

-- `PROTO.VERSION`.
abbrev pub version : ℕ
version = 1

-- The values of `PROTO.TYPE`.
abbrev pub code : FrameType → ℕ
code req_meta = 0x10
code req_data = 0x11
code req_end = 0x12
code req_abort = 0x13
code res_meta = 0x20
code res_data = 0x21
code res_end = 0x22
code res_abort = 0x23
code pause = 0x30
code resume = 0x31
code tcp_open = 0x40
code tcp_data = 0x41
code tcp_close = 0x42
code tcp_abort = 0x43
code tcp_open_ack = 0x44
code tcp_connect = 0x50
code tcp_connect_ack = 0x51

-- Which `case` of a `switch (type)` a type byte selects; `none` is `default`.
unfoldable pub of_code : ℕ → Option FrameType
of_code b =
    if b == 0x10
    then some req_meta
    else if b == 0x11
    then some req_data
    else if b == 0x12
    then some req_end
    else if b == 0x13
    then some req_abort
    else if b == 0x20
    then some res_meta
    else if b == 0x21
    then some res_data
    else if b == 0x22
    then some res_end
    else if b == 0x23
    then some res_abort
    else if b == 0x30
    then some pause
    else if b == 0x31
    then some resume
    else if b == 0x40
    then some tcp_open
    else if b == 0x41
    then some tcp_data
    else if b == 0x42
    then some tcp_close
    else if b == 0x43
    then some tcp_abort
    else if b == 0x44
    then some tcp_open_ack
    else if b == 0x50
    then some tcp_connect
    else if b == 0x51
    then some tcp_connect_ack
    else none

pub record Frame : Type 0 where
  pub type : ℕ
  pub stream_id : ℕ
  pub payload : List ℕ

pub data FrameError : Type 0 where
  frame_too_short : FrameError
  unsupported_version : ℕ → FrameError

pub data Parsed : Type 0 where
  ok : Frame → Parsed
  err : FrameError → Parsed

-- `writeUInt32BE(streamId >>> 0)`.
uint32_be : ℕ → List ℕ
uint32_be n =
    let id = n % 2 ^ 32 in
    id / 2 ^ 24 ∷ (id / 2 ^ 16) % 2 ^ 8 ∷ (id / 2 ^ 8) % 2 ^ 8 ∷ id % 2 ^ 8 ∷ []

-- `FrameCodec.buildFrame`. A byte that is stored in a `Buffer` keeps its low eight bits.
unfoldable pub build_frame : ℕ → ℕ → List ℕ → List ℕ
unfolding uint32_be
build_frame type stream_id payload = version ∷ type % 2 ^ 8 ∷ (uint32_be stream_id ++ payload)

-- `readUInt32BE(at)`.
read_uint32_be : List ℕ → ℕ → ℕ
read_uint32_be buf at =
    get_or buf at 0 * 2 ^ 24
    + get_or buf (at + 1) 0 * 2 ^ 16
    + get_or buf (at + 2) 0 * 2 ^ 8
    + get_or buf (at + 3) 0

-- `FrameCodec.parseFrame`.
unfoldable pub parse_frame : List ℕ → Parsed
unfolding read_uint32_be
parse_frame buf =
    if ltb (length buf) 6
    then err frame_too_short
    else if get_or buf 0 0 == version
    then ok
        (record { type = get_or buf 1 0; stream_id = read_uint32_be buf 2; payload = drop 6 buf })
    else err (unsupported_version (get_or buf 0 0))
