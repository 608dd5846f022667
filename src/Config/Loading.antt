-- ===== src/Config/Loading.antt =====
-- What the readers of src/shared/config.js ensure of the constants that they make.
use nodejs_wss_tunnel.Prelude.{
  ℕ, Bool, ◌/◌, ◌≤◌, ◌≡◌, refl, sym, ◌∙◌, ap, subst, inl, inr, true, false, Bool-cases, Option,
  none, some, String, List, [], ◌++◌, arith, All, if◌then◌else◌,
}
use nodejs_wss_tunnel.Prelude.Text.{is_empty}
use nodejs_wss_tunnel.Prelude.Options.{>>=-some}
use nodejs_wss_tunnel.Ports.Listed.{IsPort, IsDistinct}
use nodejs_wss_tunnel.AllowList.Numbers.{Signed}
use nodejs_wss_tunnel.Config.{
  ReadInteger, value, invalid, below, above, read_integer, read_port_list, read_ip_list,
  read_boolean,
}
use nodejs_wss_tunnel.Config.Integers.{IsAtMost, read_integer-IsWithin}
use nodejs_wss_tunnel.Config.Lists.{IsPortList, read_port_list-IsPortList}
use nodejs_wss_tunnel.Config.Addresses.{IsIpList, read_ip_list-IsIpList}
use nodejs_wss_tunnel.Config.Load.{
  Outside, or_standard, text_of, magnitude_of, read_number, is_web, checked_url, read_url,
  is_rooted, read_path, read_low_water, Sizes, load_sizes, Counts, load_counts, Routes, load_routes,
  local_url, standard_tunnel_path, standard_agent_path,
}

magnitude_of-some :
    (r : ReadInteger) (n : ℕ)
    → magnitude_of r ≡ some n
    → (s : Signed) × (r ≡ value s) × (s.magnitude ≡ n)
magnitude_of-some (value s) n e = (s, refl, ground arith)
magnitude_of-some invalid n e = ground arith
magnitude_of-some below n e = ground arith
magnitude_of-some above n e = ground arith

-- A number that is read, where the standard one is in the bounds.
pub read_number-IsWithin :
    (safe : Bool) (variable : String → Option (List ℕ)) (name : String) (standard min : ℕ)
    (max : Option ℕ) (n : ℕ)
    → (is_empty (text_of variable name) ≡ true → (min ≤ standard) × IsAtMost max standard)
    → read_number safe variable name standard min max ≡ some n
    → (min ≤ n) × IsAtMost max n
unfolding read_number
read_number-IsWithin safe variable name standard min max n usual e =
    let (s, reads, same) =
      magnitude_of-some (read_integer safe (text_of variable name) standard (some min) max) n e in
    elim (read_integer-IsWithin safe (text_of variable name) standard min max s reads) [
      | inl (unset, is) ↦
          subst (λ k. (min ≤ k) × IsAtMost max k) (ap (λ t. t.magnitude) (sym is) ∙ same)
            (usual unset)
      | inr (_, within) ↦
          subst (λ k. (min ≤ k) × IsAtMost max k) same (within.not_below, within.not_above)
    ]

-- One without an upper bound.
pub read_number-le :
    (safe : Bool) (variable : String → Option (List ℕ)) (name : String) (standard min n : ℕ)
    → min ≤ standard
    → read_number safe variable name standard min none ≡ some n
    → min ≤ n
read_number-le safe variable name standard min n low e =
    (read_number-IsWithin safe variable name standard min none n (λ unset. (low, tt)) e).0

read_path-is_rooted :
    (out : Outside) (name : String) (standard path : List ℕ)
    → read_path out name standard ≡ some path
    → is_rooted path ≡ true
unfolding read_path
read_path-is_rooted out name standard path e = ground arith

-- A text that is an address of the web.
abbrev pub IsWeb : Outside → List ℕ → Type 0
IsWeb out raw =
    (protocol : List ℕ) × (out.protocol_of raw ≡ some protocol) × (is_web protocol ≡ true)

pub or_standard-some :
    (o : Option (List ℕ)) (standard : List ℕ)
    → is_empty standard ≡ false
    → is_empty (or_standard o standard) ≡ false
or_standard-some none standard there = there
or_standard-some (some raw) standard there = ground (arith, there)

read_url-IsWeb :
    (out : Outside) (name : String) (standard raw : List ℕ)
    → is_empty standard ≡ false
    → read_url out name standard ≡ some raw
    → IsWeb out raw
unfolding read_url
read_url-IsWeb out name standard raw there e =
    let text = or_standard (out.variable name) standard in
    checked text (out.protocol_of text) refl (or_standard-some (out.variable name) standard there) e
  where
    checked :
        (text : List ℕ) (o : Option (List ℕ))
        → out.protocol_of text ≡ o
        → is_empty text ≡ false
        → (if is_empty text then some [] else checked_url o text) ≡ some raw
        → (protocol : List ℕ) × (out.protocol_of raw ≡ some protocol) × (is_web protocol ≡ true)
    checked text none is full e = ground arith
    checked text (some protocol) is full e = (protocol, ground arith, ground arith)

-- The sizes.
pub record IsSized (s : Sizes) : Type 0 where
  pub frames : 1 ≤ s.max_frame_payload
  pub messages : 1024 ≤ s.ws_max_payload
  pub buffers : 1024 ≤ s.max_dest_buffer_bytes
  pub low : 1 ≤ s.ws_low_water

read_low_water-le :
    (out : Outside) (high low : ℕ) → 1024 ≤ high → read_low_water out high ≡ some low → 1 ≤ low
unfolding read_low_water
read_low_water-le out high low big e =
    elim (Bool-cases (is_empty (text_of out.variable "WS_LOW_WATER"))) [
      | inl unset ↦ half (ground (arith, e, unset))
      | inr there ↦
          (read_number-IsWithin false out.variable "WS_LOW_WATER" 0 1 none low
            (λ unset. absurd (ground (arith, unset, there))) (ground (arith, e, there))).0
    ]
  where
    half : high / 2 ≡ low → 1 ≤ low
    half e = omega (arith, e, big)

pub load_sizes-IsSized : (out : Outside) (s : Sizes) → load_sizes out ≡ some s → IsSized s
unfolding load_sizes
load_sizes-IsSized out s e =
    let (high, e0, r0) =
      >>=-some (read_number false out.variable "WS_HIGH_WATER_BYTES" 1048576 1024 none) _ s e in
    let (frame, e1, r1) =
      >>=-some (read_number false out.variable "MAX_FRAME_PAYLOAD_BYTES" 262144 1 none) _ s r0 in
    let (payload, e2, r2) =
      >>=-some (read_number false out.variable "WS_MAX_PAYLOAD_BYTES" 2097152 1024 none) _ s r1 in
    let (buffer, e3, r3) =
      >>=-some (read_number false out.variable "MAX_DEST_BUFFER_BYTES" 8388608 1024 none) _ s r2 in
    let (low, e4, r4) = >>=-some (read_low_water out high) _ s r3 in
    let big =
      read_number-le false out.variable "WS_HIGH_WATER_BYTES" 1048576 1024 high (omega arith) e0 in
    subst (λ o. IsSizedIf o) r4
      (record {
        frames =
            read_number-le false out.variable "MAX_FRAME_PAYLOAD_BYTES" 262144 1 frame (omega arith)
              e1;
        messages =
            read_number-le false out.variable "WS_MAX_PAYLOAD_BYTES" 2097152 1024 payload
              (omega arith) e2;
        buffers =
            read_number-le false out.variable "MAX_DEST_BUFFER_BYTES" 8388608 1024 buffer
              (omega arith) e3;
        low = read_low_water-le out high low big e4;
      })
  where
    IsSizedIf : Option Sizes → Type 0
    IsSizedIf none = Unit
    IsSizedIf (some s) = IsSized s

-- The limits.
pub record IsCounted (c : Counts) : Type 0 where
  pub port : (1 ≤ c.port) × (c.port ≤ 65535)
  pub streams : 1 ≤ c.max_concurrent_streams
  pub clients : 1 ≤ c.max_tunnel_clients

pub load_counts-IsCounted : (out : Outside) (c : Counts) → load_counts out ≡ some c → IsCounted c
unfolding load_counts
load_counts-IsCounted out c e =
    let (port, e0, r0) =
      >>=-some (read_number false out.variable "PORT" 7860 1 (some 65535)) _ c e in
    let (streams, e1, r1) =
      >>=-some (read_number false out.variable "MAX_CONCURRENT_STREAMS" 200 1 none) _ c r0 in
    let (clients, e2, r2) =
      >>=-some (read_number false out.variable "MAX_TUNNEL_CLIENTS" 1 1 none) _ c r1 in
    let (_, _, r3) =
      >>=-some (read_number false out.variable "STREAM_IDLE_TIMEOUT_MS" 120000 0 none) _ c r2 in
    let (_, _, r4) =
      >>=-some (read_number false out.variable "DRAIN_TIMEOUT_MS" 30000 0 none) _ c r3 in
    let (_, _, r5) =
      >>=-some (read_number false out.variable "TCP_CONNECT_TIMEOUT_MS" 10000 0 none) _ c r4 in
    let (_, _, r6) =
      >>=-some (read_number false out.variable "TCP_MAX_CONNECTIONS_PER_PORT" 20 0 none) _ c r5 in
    let (_, _, r7) =
      >>=-some (read_number false out.variable "TCP_SHUTDOWN_DRAIN_TIMEOUT_MS" 5000 0 none) _ c
        r6 in
    let (_, _, r8) =
      >>=-some (read_number false out.variable "TCP_AGENT_MAX_STREAMS_PER_AGENT" 100 0 none) _ c
        r7 in
    subst (λ o. IsCountedIf o) r8
      (record {
        port =
            read_number-IsWithin false out.variable "PORT" 7860 1 (some 65535) port
              (λ unset. (omega arith, omega arith)) e0;
        streams =
            read_number-le false out.variable "MAX_CONCURRENT_STREAMS" 200 1 streams (omega arith)
              e1;
        clients =
            read_number-le false out.variable "MAX_TUNNEL_CLIENTS" 1 1 clients (omega arith) e2;
      })
  where
    IsCountedIf : Option Counts → Type 0
    IsCountedIf none = Unit
    IsCountedIf (some c) = IsCounted c

-- The paths and lists.
pub record IsRouted (out : Outside) (r : Routes) : Type 0 where
  pub tunnel : is_rooted r.tunnel_path ≡ true
  pub agent : is_rooted r.tcp_agent_path ≡ true
  pub host : IsWeb out r.server_host
  pub ports : All IsPort r.tcp_tunnel_ports × IsDistinct r.tcp_tunnel_ports
  pub agent_ports : All IsPort r.tcp_agent_allowed_ports × IsDistinct r.tcp_agent_allowed_ports
  pub proxies : IsIpList (some r.tcp_agent_trusted_proxies)

read_ports-valid : (raw ps : List ℕ) → read_port_list raw ≡ some ps → All IsPort ps × IsDistinct ps
read_ports-valid raw ps e = subst IsPortList e (read_port_list-IsPortList raw)

pub load_routes-IsRouted :
    (out : Outside) (port : ℕ) (r : Routes) → load_routes out port ≡ some r → IsRouted out r
unfolding load_routes
load_routes-IsRouted out port r e =
    let (tunnel, e0, r0) = >>=-some (read_path out "TUNNEL_PATH" standard_tunnel_path) _ r e in
    let (host, e1, r1) =
      >>=-some (read_url out "SERVER_HOST" (local_url ++ out.show_number port)) _ r r0 in
    let (ports, e2, r2) =
      >>=-some (read_port_list (text_of out.variable "TCP_TUNNEL_PORTS")) _ r r1 in
    let (agent, e3, r3) = >>=-some (read_path out "TCP_AGENT_PATH" standard_agent_path) _ r r2 in
    let (allowed, e4, r4) =
      >>=-some (read_port_list (text_of out.variable "TCP_AGENT_ALLOWED_PORTS")) _ r r3 in
    let (_, _, r5) =
      >>=-some (read_boolean (text_of out.variable "TCP_AGENT_REQUIRE_TLS") false) _ r r4 in
    let (proxies, e6, r6) =
      >>=-some (read_ip_list (text_of out.variable "TCP_AGENT_TRUSTED_PROXIES")) _ r r5 in
    subst (λ o. IsRoutedIf o) r6
      (record {
        tunnel = read_path-is_rooted out "TUNNEL_PATH" standard_tunnel_path tunnel e0;
        agent = read_path-is_rooted out "TCP_AGENT_PATH" standard_agent_path agent e3;
        host = read_url-IsWeb out "SERVER_HOST" (local_url ++ out.show_number port) host refl e1;
        ports = read_ports-valid (text_of out.variable "TCP_TUNNEL_PORTS") ports e2;
        agent_ports = read_ports-valid (text_of out.variable "TCP_AGENT_ALLOWED_PORTS") allowed e4;
        proxies =
            subst IsIpList e6
              (read_ip_list-IsIpList (text_of out.variable "TCP_AGENT_TRUSTED_PROXIES"));
      })
  where
    IsRoutedIf : Option Routes → Type 0
    IsRoutedIf none = Unit
    IsRoutedIf (some r) = IsRouted out r
