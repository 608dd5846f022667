-- ===== src/Gateway/Updates.antt =====
-- What `_handleConfigRequest` of src/server/HttpRouter.js changes, and for whom.
use nodejs_wss_tunnel.Prelude.{
  ℕ, ◌≤◌, ◌≡◌, refl, ◌⊎◌, inl, inr, Bool, true, false, Bool-cases, Option, none, some, List, [],
  ◌∷◌, ◌++◌, length, str_eq, arith,
}
use nodejs_wss_tunnel.Prelude.Text.{is_empty, trim}
use nodejs_wss_tunnel.Prelude.Split.{same_text-≡}
use nodejs_wss_tunnel.AllowList.Numbers.{number_of}
use nodejs_wss_tunnel.Logging.{
  LogState, Format, get_config, resolve_log_format, resolve_verbose, set_config,
}
use nodejs_wss_tunnel.Gateway.Auth.{Crypto, is_expired, validate_hmac_signature}
use nodejs_wss_tunnel.Gateway.Upgrade.{Settings}
use nodejs_wss_tunnel.Gateway.Routes.{own_path, config_suffix}
use nodejs_wss_tunnel.Gateway.Admin.{
  Body, LogFormatField, object, malformed, null, undefined, invalid, valid, AdminRequest,
  validate_admin, max_body, receive, update, on_body, on_end, handle_config_request,
}

-- The format after an update with this field.
abbrev pub format_after : LogState → LogFormatField → Format
format_after state undefined = resolve_log_format state
format_after state invalid = resolve_log_format state
format_after state (valid format) = format

-- The body asks for these settings, and they are in force.
pub record IsApplied (before after : LogState) (body : Body) : Type 0 where
  verbose : Bool
  log_format : LogFormatField
  asked : body ≡ object (some verbose) log_format
  in_force : get_config after ≡ (verbose, format_after before log_format)

on_body-IsApplied :
    (state : LogState) (body : Body)
    → ((on_body state body).0 ≡ state) ⊎ IsApplied state (on_body state body).0 body
unfolding on_body update set_config resolve_verbose resolve_log_format
on_body-IsApplied state malformed = inl refl
on_body-IsApplied state null = inl refl
on_body-IsApplied state (object none f) = inl refl
on_body-IsApplied state (object (some v) undefined) =
    inr (record { verbose = v; log_format = undefined; asked = refl; in_force = refl })
on_body-IsApplied state (object (some v) invalid) = inl refl
on_body-IsApplied state (object (some v) (valid format)) =
    inr (record { verbose = v; log_format = valid format; asked = refl; in_force = refl })

-- The body is as short as it may be at every chunk, and so at the end.
receive-short :
    (max : ℕ) (body result : List ℕ) (chunks : List (List ℕ))
    → length body ≤ max
    → receive max body chunks ≡ some result
    → length result ≤ max
unfolding receive
receive-short max body result [] h e = ground arith
receive-short max body result (chunk ∷ chunks) h e =
    ground (arith, receive-short max (body ++ chunk) result chunks)

module _ (crypto : Crypto) (settings : Settings) (now : ℕ) where
  -- The query has a signature of the page's path and of a time to come, made with a secret.
  pub record IsSigned (req : AdminRequest) : Type 0 where
    expires : List ℕ
    sig : List ℕ
    in_query : req.query ≡ some (expires, sig)
    has_secret : is_empty settings.admin_secret ≡ false
    in_time : is_expired now (number_of (trim expires)) ≡ false
    signed :
        crypto.from_hex sig
        ≡ crypto.from_hex (
            crypto.hmac settings.admin_secret
              (own_path settings config_suffix ++ 124 ∷ crypto.show_number expires))

  -- A signed POST whose body is short and was applied.
  pub record IsUpdate (parse : List ℕ → Body) (req : AdminRequest) (before after : LogState)
      : Type 0 where
    is_signed : IsSigned req
    posted : str_eq req.method "POST" ≡ true
    body : List ℕ
    received : receive max_body [] req.chunks ≡ some body
    is_short : length body ≤ max_body
    is_applied : IsApplied before after (parse body)

  validate_admin-IsSigned :
      (req : AdminRequest) (query : Option (List ℕ × List ℕ))
      → req.query ≡ query
      → validate_admin crypto settings now req ≡ true
      → IsSigned req
  unfolding validate_admin validate_hmac_signature
  validate_admin-IsSigned req none q e = ground arith
  validate_admin-IsSigned req (some (expires, sig)) q e = record {
    expires = expires;
    sig = sig;
    in_query = q;
    has_secret = ground arith;
    in_time = ground arith;
    signed = same_text-≡ _ _ (ground arith);
  }

  posted-IsUpdate :
      (parse : List ℕ → Body) (state : LogState) (req : AdminRequest)
      → IsSigned req
      → str_eq req.method "POST" ≡ true
      → (body : Option (List ℕ)) → receive max_body [] req.chunks ≡ body
      → ((on_end parse state body).0 ≡ state) ⊎ IsUpdate parse req state (on_end parse state body).0
  unfolding on_end
  posted-IsUpdate parse state req signed post none r = inl refl
  posted-IsUpdate parse state req signed post (some body) r =
      elim (on_body-IsApplied state (parse body)) [
        | inl e ↦ inl e
        | inr h ↦ inr (record {
          is_signed = signed;
          posted = post;
          body = body;
          received = r;
          is_short = receive-short max_body [] body req.chunks (omega arith) r;
          is_applied = h;
        })
      ]

  -- For any state of the log and any request of the configuration page: the log's settings are what
  -- they were, or the request is a POST whose query has an unexpired signature of the page's path by
  -- the secret, its body is of at most 1024 code units and asks for a Boolean `verbose`, and the
  -- settings are now those of the body, with the log format unchanged where the body has none.
  pub handle_config_request-IsUpdate :
      (parse : List ℕ → Body) (state : LogState) (req : AdminRequest)
      → ((handle_config_request crypto settings now parse state req).0 ≡ state)
        ⊎ IsUpdate parse req state (handle_config_request crypto settings now parse state req).0
  unfolding handle_config_request
  handle_config_request-IsUpdate parse state req =
      elim (Bool-cases (validate_admin crypto settings now req)) [
        | inr n ↦ rw n (inl refl)
        | inl v ↦ elim (Bool-cases (str_eq req.method "GET")) [
          | inl g ↦ rw (v, g) (inl refl)
          | inr g ↦ elim (Bool-cases (str_eq req.method "POST")) [
            | inr p ↦ rw (v, g, p) (inl refl)
            | inl p ↦
                rw (v, g, p)
                  (posted-IsUpdate parse state req (validate_admin-IsSigned req req.query refl v) p
                    (receive max_body [] req.chunks) refl)
          ]
        ]
      ]
