-- ===== src/Protocol/Codec.antt =====
-- The codec of src/shared/protocol.js: what is built is parsed back, and only that.
use nodejs_wss_tunnel.Prelude.{
  ℕ, suc, ◌+◌, ◌%◌, ◌^◌, ◌≤◌, ◌<◌, ◌≡◌, refl, ◌≢◌, inl, inr, List, [], ◌∷◌, length, ltb, false,
  get_or, arith, All, some, Bool-cases, ==_iff, ◌==◌, ◌*◌,
}
use nodejs_wss_tunnel.Protocol.{
  Parsed, ok, err, frame_too_short, unsupported_version, version, FrameType, code, of_code,
  build_frame, parse_frame,
}

-- A frame that was built is parsed back as it was, the type cut to a byte and the stream id to 32
-- bits.
pub parse_frame-build_frame :
    (type stream_id : ℕ) (payload : List ℕ)
    → parse_frame (build_frame type stream_id payload)
      ≡ ok (record { type = type % 2 ^ 8; stream_id = stream_id % 2 ^ 32; payload = payload })
unfolding parse_frame build_frame
parse_frame-build_frame type stream_id payload = ground arith

abbrev pub IsBytes : List ℕ → Type 0
IsBytes = All (λ b. b < 2 ^ 8)

-- What a result of `parseFrame` says of the bytes.
abbrev pub Decodes : List ℕ → Parsed → Type 0
Decodes buf (ok f) = build_frame f.type f.stream_id f.payload ≡ buf
Decodes buf (err frame_too_short) = length buf < 6
Decodes buf (err (unsupported_version v)) = (6 ≤ length buf) × (v ≡ get_or buf 0 0) × (v ≢ version)

rebuilt :
    (a b c d e f : ℕ) (p : List ℕ)
    → a ≡ version
    → IsBytes (a ∷ b ∷ c ∷ d ∷ e ∷ f ∷ p)
    → build_frame b (c * 2 ^ 24 + d * 2 ^ 16 + e * 2 ^ 8 + f) p ≡ a ∷ b ∷ c ∷ d ∷ e ∷ f ∷ p
unfolding build_frame
rebuilt a b c d e f p v (_, (hb, (hc, (hd, (he, (hf, _)))))) = ground arith

six_or_more : (n : ℕ) → ltb (suc (suc (suc (suc (suc (suc n)))))) 6 ≡ false
six_or_more n = ground arith

-- For any list of bytes: a frame that is returned is built back to the same bytes; "too short" is
-- returned only for less than six bytes, and a bad version only for six or more bytes of which the
-- first is that version and not 1.
pub parse_frame-Decodes : (buf : List ℕ) → IsBytes buf → Decodes buf (parse_frame buf)
unfolding parse_frame build_frame
parse_frame-Decodes [] h = omega arith
parse_frame-Decodes (a ∷ []) h = omega arith
parse_frame-Decodes (a ∷ b ∷ []) h = omega arith
parse_frame-Decodes (a ∷ b ∷ c ∷ []) h = omega arith
parse_frame-Decodes (a ∷ b ∷ c ∷ d ∷ []) h = omega arith
parse_frame-Decodes (a ∷ b ∷ c ∷ d ∷ e ∷ []) h = omega arith
parse_frame-Decodes (a ∷ b ∷ c ∷ d ∷ e ∷ f ∷ p) h = elim (Bool-cases (a == version)) [
  | inl same ↦
      rw (six_or_more (length p), same) (rebuilt a b c d e f p ((==_iff a version).0 same) h)
  | inr other ↦ rw (six_or_more (length p), other) (omega arith, refl, λ e. ground arith)
]

-- Every type has a code of its own, and a `switch` finds it.
pub of_code-code : (t : FrameType) → of_code (code t) ≡ some t
unfolding of_code
of_code-code FrameType.req_meta = refl
of_code-code _ = refl
