-- ===== src/Config/Configured.antt =====
-- What src/shared/config.js ensures of the constants of a server that starts.
use nodejs_wss_tunnel.Prelude.{
  ◌+◌, ◌≤◌, ◌<◌, ◌≡◌, ◌≢◌, refl, sym, ◌∙◌, subst, false, Option, none, some, arith,
}
use nodejs_wss_tunnel.Prelude.Text.{is_empty}
use nodejs_wss_tunnel.Prelude.Split.{same_text-≢}
use nodejs_wss_tunnel.Prelude.Options.{>>=-some}
use nodejs_wss_tunnel.Config.{Fatal, validate_config}
use nodejs_wss_tunnel.Config.Load.{
  Outside, text_of, Sizes, load_sizes, Counts, load_counts, Routes, load_routes, load_texts, Loaded,
  load, constants_of, when_valid, configure,
}
use nodejs_wss_tunnel.Config.Loading.{
  or_standard-some, IsSized, load_sizes-IsSized, IsCounted, load_counts-IsCounted, IsRouted,
  load_routes-IsRouted,
}

-- The constants that `validateConfig` lets pass.
pub record IsValidated (l : Loaded) : Type 0 where
  credentials : (is_empty l.texts.username ≡ false) × (is_empty l.texts.password ≡ false)
  agent_credentials :
      (is_empty l.texts.tcp_agent_username ≡ false) × (is_empty l.texts.tcp_agent_password ≡ false)
  water : l.sizes.ws_low_water < l.sizes.ws_high_water
  paths : l.routes.tunnel_path ≢ l.routes.tcp_agent_path
  frames : l.sizes.max_frame_payload + 64 ≤ l.sizes.ws_max_payload

pub record IsConfigured (out : Outside) (l : Loaded) : Type 0 where
  sized : IsSized l.sizes
  counted : IsCounted l.counts
  routed : IsRouted out l.routes
  validated : IsValidated l

load_texts-agent :
    (out : Outside)
    → is_empty (load_texts out).username ≡ false
    → is_empty (load_texts out).password ≡ false
    → (is_empty (load_texts out).tcp_agent_username ≡ false)
      × (is_empty (load_texts out).tcp_agent_password ≡ false)
unfolding load_texts
load_texts-agent out user pass = (
  or_standard-some (out.variable "TCP_AGENT_USERNAME") (text_of out.variable "TUNNEL_USERNAME")
      user,
  or_standard-some (out.variable "TCP_AGENT_PASSWORD") (text_of out.variable "TUNNEL_PASSWORD")
      pass,
)

validated :
    (out : Outside) (s : Sizes) (c : Counts) (r : Routes)
    → validate_config
        (constants_of (record { sizes = s; counts = c; routes = r; texts = load_texts out }))
      ≡ none
    → IsValidated (record { sizes = s; counts = c; routes = r; texts = load_texts out })
unfolding validate_config
validated out s c r e =
    let user : is_empty (load_texts out).username ≡ false = ground arith in
    let pass : is_empty (load_texts out).password ≡ false = ground arith in
    record {
      credentials = (user, pass);
      agent_credentials = load_texts-agent out user pass;
      water = ground arith;
      paths = same_text-≢ r.tunnel_path r.tcp_agent_path (ground arith);
      frames = ground arith;
    }

when_valid-some :
    (l l' : Loaded) (o : Option Fatal) → when_valid l o ≡ some l' → (o ≡ none) × (l ≡ l')
when_valid-some l l' none e = (refl, ground arith)
when_valid-some l l' (some fatal) e = ground arith

-- Whatever the environment's variables are, the constants of a server that starts are sound: the
-- port is one; at least one stream and one client are allowed; the water marks and the sizes are
-- positive, the low mark below the high one, and a frame fits into a message; both paths begin with
-- '/' and differ; the host has an http or https URL; the lists of ports have valid ports, all
-- different, and that of proxies valid entries, all different; and no credential is empty, neither the
-- clients' nor the agents'.
pub configure-IsConfigured :
    (out : Outside) (l : Loaded) → configure out ≡ some l → IsConfigured out l
unfolding configure load
configure-IsConfigured out l e =
    let (l', loads, valid) = >>=-some (load out) _ l e in
    let (c, e0, r0) = >>=-some (load_counts out) _ l' loads in
    let (s, e1, r1) = >>=-some (load_sizes out) _ l' r0 in
    let (r, e2, r2) = >>=-some (load_routes out c.port) _ l' r1 in
    let built : Loaded = record { sizes = s; counts = c; routes = r; texts = load_texts out } in
    let same : built ≡ l' = ground arith in
    let (passes, whole) = when_valid-some l' l (validate_config (constants_of l')) valid in
    subst (IsConfigured out) (same ∙ whole) (record {
      sized = load_sizes-IsSized out s e1;
      counted = load_counts-IsCounted out c e0;
      routed = load_routes-IsRouted out c.port r e2;
      validated =
          validated out s c r
            (subst (λ k. validate_config (constants_of k) ≡ none) (sym same) passes);
    })
