-- ===== src/Gateway/Auth.antt =====
-- `safeEqual`, `verifyBasicAuth` and `validateHmacSignature` of src/shared/utils.js, on texts of code
-- units; a missing text is the empty one, which is as falsy.
use nodejs_wss_tunnel.Prelude.{
  ℕ, ◌*◌, ◌^◌, Bool, true, false, not, ◌&&◌, ◌||◌, Option, none, some, List, [], ◌∷◌, ◌++◌, leb,
  ◌==◌, if◌then◌else◌,
}
use nodejs_wss_tunnel.Prelude.Text.{is_empty, trim, split_on, same_text, lower}
use nodejs_wss_tunnel.AllowList.Numbers.{Decimal, number_of}

-- What `node:crypto` and `Buffer` give.
pub record Crypto : Type 0 where
  -- The SHA-256 digest of a text.
  pub digest : List ℕ → List ℕ
  -- `Buffer.from(text, 'base64').toString('utf8')`, which never throws.
  pub from_base64 : List ℕ → List ℕ
  -- `createHmac('sha256', secret).update(text).digest('hex')`.
  pub hmac : List ℕ → List ℕ → List ℕ
  -- `Buffer.from(text, 'hex')`.
  pub from_hex : List ℕ → List ℕ
  -- The template `${Number(text)}`.
  pub show_number : List ℕ → List ℕ

-- `safeEqual`.
unfoldable pub safe_equal : Crypto → List ℕ → List ℕ → Bool
safe_equal crypto a b = same_text (crypto.digest a) (crypto.digest b)

-- Another code unit in front of the user.
abbrev pub in_front : ℕ → Option (List ℕ × List ℕ) → Option (List ℕ × List ℕ)
in_front c none = none
in_front c (some (user, pass)) = some (c ∷ user, pass)

-- The text before the first colon and the one behind it.
unfoldable pub at_colon : List ℕ → Option (List ℕ × List ℕ)
at_colon [] = none
at_colon (c ∷ s) = if c == 58 then some ([], s) else in_front c (at_colon s)

unfoldable pub check_pair : Crypto → List ℕ → List ℕ → Option (List ℕ × List ℕ) → Bool
check_pair crypto username password none = false
check_pair crypto username password (some (user, pass)) =
    safe_equal crypto user username && safe_equal crypto pass password

-- "basic".
abbrev pub basic : List ℕ
basic = 98 ∷ 97 ∷ 115 ∷ 105 ∷ 99 ∷ []

-- The parts of the header.
unfoldable pub check_parts : Crypto → List ℕ → List ℕ → List (List ℕ) → Bool
check_parts crypto username password (scheme ∷ token ∷ []) =
    if not (same_text (lower scheme) basic)
    then false
    else check_pair crypto username password (at_colon (crypto.from_base64 token))
check_parts crypto username password _ = false

-- `verifyBasicAuth` with the request's `authorization` header.
unfoldable pub verify_basic_auth : Crypto → List ℕ → List ℕ → List ℕ → Bool
verify_basic_auth crypto authorization username password =
    if is_empty authorization
    then false
    else check_parts crypto username password (split_on 32 authorization)

-- `numExpires <= Math.floor(Date.now() / 1000)`, or no finite number.
unfoldable pub is_expired : ℕ → Option Decimal → Bool
is_expired now none = true
is_expired now (some n) =
    n.negative && not (n.magnitude == 0) || leb n.magnitude (now * 10 ^ n.places)

-- `validateHmacSignature`, at a number of seconds. Two buffers of different lengths make
-- `timingSafeEqual` throw, which is caught.
unfoldable pub validate_hmac_signature : Crypto → ℕ → List ℕ → List ℕ → List ℕ → List ℕ → Bool
validate_hmac_signature crypto now base_path secret expires sig =
    if is_empty secret || is_empty expires || is_empty sig
    then false
    else if is_expired now (number_of (trim expires))
    then false
    else same_text (crypto.from_hex sig)
        (crypto.from_hex (crypto.hmac secret (base_path ++ 124 ∷ crypto.show_number expires)))
