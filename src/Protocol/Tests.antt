-- ===== src/Protocol/Tests.antt =====
-- Runs of the codec.
use nodejs_wss_tunnel.Prelude.{ℕ, ◌≡◌, refl, List, [], ◌∷◌, arith}
use nodejs_wss_tunnel.Protocol.{ok, build_frame, parse_frame}
use nodejs_wss_tunnel.Protocol.Codec.{parse_frame-build_frame, parse_frame-Decodes, Decodes}

abbrev sample : List ℕ
sample = 1 ∷ 0x41 ∷ 0 ∷ 0 ∷ 1 ∷ 2 ∷ 9 ∷ []

build_frame-sample : build_frame 0x41 258 (9 ∷ []) ≡ sample
unfolding build_frame
build_frame-sample = refl

parse_frame-Decodes_example : Decodes sample (parse_frame sample)
parse_frame-Decodes_example = parse_frame-Decodes sample (omega arith)

parse_frame-build_frame_example :
    parse_frame (build_frame 0x41 258 (9 ∷ []))
    ≡ ok (record { type = 0x41; stream_id = 258; payload = 9 ∷ [] })
parse_frame-build_frame_example = parse_frame-build_frame 0x41 258 (9 ∷ [])
