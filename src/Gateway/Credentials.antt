-- ===== src/Gateway/Credentials.antt =====
-- Which headers `verifyBasicAuth` of src/shared/utils.js accepts.
use nodejs_wss_tunnel.Prelude.{
  ℕ, ◌≡◌, refl, ap, ◌↔◌, inl, inr, true, false, ◌==◌, Bool-cases, Option, none, some, List, [], ◌∷◌,
  ◌++◌, arith,
}
use nodejs_wss_tunnel.Prelude.Text.{is_empty, split_on, includes, lower}
use nodejs_wss_tunnel.Prelude.Split.{same_text-≡, same_text_refl, split_on-two, split_on-append}
use nodejs_wss_tunnel.Gateway.Auth.{
  Crypto, basic, in_front, safe_equal, at_colon, check_pair, check_parts, verify_basic_auth,
}

-- The header is a scheme "basic" in any case, one space and a token that decodes to a user, a colon
-- and a password of the same digests.
pub record IsAuthorised (crypto : Crypto) (header username password : List ℕ) : Type 0 where
  scheme : List ℕ
  token : List ℕ
  user : List ℕ
  pass : List ℕ
  header_parts : header ≡ scheme ++ 32 ∷ token
  one_word : includes 32 scheme ≡ false
  one_token : includes 32 token ≡ false
  is_basic : lower scheme ≡ basic
  decoded : crypto.from_base64 token ≡ user ++ 58 ∷ pass
  first_colon : includes 58 user ≡ false
  same_user : crypto.digest user ≡ crypto.digest username
  same_pass : crypto.digest pass ≡ crypto.digest password

IsFirst : List ℕ → Option (List ℕ × List ℕ) → Type 0
IsFirst s none = includes 58 s ≡ false
IsFirst s (some (user, pass)) = (s ≡ user ++ 58 ∷ pass) × (includes 58 user ≡ false)

at_colon-IsFirst : (s : List ℕ) → IsFirst s (at_colon s)
unfolding at_colon IsFirst
at_colon-IsFirst [] = refl
at_colon-IsFirst (c ∷ s) = elim (Bool-cases (c == 58)) [
  | inl e ↦ rw e (ap (λ d. d ∷ s) (ground arith), refl)
  | inr n ↦ rw n (later n (at_colon s) (at_colon-IsFirst s))
]
  where
    later :
        (c == 58) ≡ false
        → (o : Option (List ℕ × List ℕ)) → IsFirst s o
        → IsFirst (c ∷ s) (in_front c o)
    later n none h = rw n h
    later n (some (user, pass)) (e, h) = (ap (λ t. c ∷ t) e, rw n h)

at_colon_first :
    (user pass : List ℕ)
    → includes 58 user ≡ false
    → at_colon (user ++ 58 ∷ pass) ≡ some (user, pass)
unfolding at_colon
at_colon_first [] pass h = refl
at_colon_first (c ∷ user) pass h = ground (arith, at_colon_first user pass)

check_pair-true :
    (crypto : Crypto) (s username password : List ℕ) (o : Option (List ℕ × List ℕ))
    → IsFirst s o
    → check_pair crypto username password o ≡ true
    → (user : List ℕ) × (pass : List ℕ) × (s ≡ user ++ 58 ∷ pass)
      × (includes 58 user ≡ false)
      × (crypto.digest user ≡ crypto.digest username)
      × (crypto.digest pass ≡ crypto.digest password)
unfolding check_pair safe_equal IsFirst
check_pair-true crypto s username password none h e = ground arith
check_pair-true crypto s username password (some (user, pass)) (split, first) e =
    (user, pass, split, first, same_text-≡ _ _ (ground arith), same_text-≡ _ _ (ground arith))

is_empty-append : (s : List ℕ) (c : ℕ) (t : List ℕ) → is_empty (s ++ c ∷ t) ≡ false
is_empty-append [] c t = refl
is_empty-append (d ∷ s) c t = refl

module _ (crypto : Crypto) (username password : List ℕ) where
  IsAccepted : List (List ℕ) → Type 0
  IsAccepted parts =
      (scheme : List ℕ) × (token : List ℕ) × (parts ≡ scheme ∷ token ∷ [])
      × (lower scheme ≡ basic)
      × (check_pair crypto username password (at_colon (crypto.from_base64 token)) ≡ true)

  check_parts-true :
      (parts : List (List ℕ)) → check_parts crypto username password parts ≡ true → IsAccepted parts
  unfolding check_parts IsAccepted
  check_parts-true (scheme ∷ token ∷ []) e =
      (scheme, token, refl, same_text-≡ _ _ (ground arith), ground arith)
  check_parts-true _ e = ground arith

  authorised :
      (header : List ℕ)
      → IsAccepted (split_on 32 header)
      → IsAuthorised crypto header username password
  unfolding IsAccepted
  authorised header (scheme, token, parts, is_basic, pair) =
      let (header_parts, one_word, one_token) = split_on-two 32 header scheme token parts in
      let (user, pass, decoded, first_colon, same_user, same_pass) =
        check_pair-true crypto (crypto.from_base64 token) username password
          (at_colon (crypto.from_base64 token)) (at_colon-IsFirst (crypto.from_base64 token))
          pair in
      record {
        scheme = scheme;
        token = token;
        user = user;
        pass = pass;
        header_parts = header_parts;
        one_word = one_word;
        one_token = one_token;
        is_basic = is_basic;
        decoded = decoded;
        first_colon = first_colon;
        same_user = same_user;
        same_pass = same_pass;
      }

  checked :
      (header : List ℕ)
      → verify_basic_auth crypto header username password ≡ true
      → IsAuthorised crypto header username password
  unfolding verify_basic_auth
  checked header e = authorised header (check_parts-true (split_on 32 header) (ground arith))

  accepted :
      (header : List ℕ)
      → IsAuthorised crypto header username password
      → verify_basic_auth crypto header username password ≡ true
  unfolding verify_basic_auth check_parts check_pair safe_equal
  accepted header h =
      rw
        (
          h.header_parts,
          is_empty-append h.scheme 32 h.token,
          split_on-append 32 h.scheme h.token h.one_word h.one_token,
          h.is_basic,
          h.decoded,
          at_colon_first h.user h.pass h.first_colon,
          h.same_user,
          h.same_pass,
          same_text_refl (crypto.digest username),
          same_text_refl (crypto.digest password),
        )
        refl

  -- For any hash and any decoding of base64: `verifyBasicAuth` accepts a header exactly if it is the
  -- word "basic", in any case, one space and a token without spaces that decodes to a user without a
  -- colon, a colon and a password, whose digests are those of the user name and the password that
  -- are asked for.
  pub verify_basic_auth-IsAuthorised :
      (header : List ℕ)
      → (verify_basic_auth crypto header username password ≡ true)
        ↔ IsAuthorised crypto header username password
  verify_basic_auth-IsAuthorised header = (checked header, accepted header)
