-- ===== src/Tunnels/Proxy.antt =====
-- A request through a tunnel: `handle_vhost_proxy` and `_proxy_via_channel` of
-- porpulsion/routes/tunnels.py, `handle_proxy_request` of porpulsion/channel_handlers.py, and
-- `resolve_service_host` and `proxy_request` of porpulsion/k8s/tunnel.py. Bodies are text, and base64 and
-- the decompression give back what was sent.
use porpulsion.Prelude.{
  ℕ, String, Bool, true, false, not, Option, none, some, List, [], ◌∷◌, Dict, lookup, insert,
  find_first, keep, map, any, ◌==◌, is_some, or_default, if◌then◌else◌,
}
use porpulsion.Prelude.Text.{is_empty, strip, is_char, lstrip, text, split}
use porpulsion.Prelude.Exec.{Result, ok, err}
use porpulsion.Tunnels.{Cached, through_cache}
use porpulsion.Tunnels.Hosts.{Digits, parse_subdomain}

-- a submitted RemoteApp, as `cr_to_dict` gives it
pub record App : Type 0 where
  pub id : String
  pub name : String
  pub target_peer : String

-- where a request goes
pub record Target : Type 0 where
  pub app_id : String
  pub peer : String

pub data Routed : Type 0 where
  bad_host lookup_failed app_not_found : Routed
  routed : Target → (port : ℕ) → Routed

abbrev found_app : Option App → Option Target
found_app none = none
found_app (some app) =
    if is_empty app.id then none else some (record { app_id = app.id; peer = app.target_peer })

-- the first app of the name; `none` also where the list cannot be had
unfoldable pub find_target : (listing : Option (List App)) (name : String) → Option Target
find_target none name = none
find_target (some apps) name = found_app (find_first (λ app. app.name == name) apps)

abbrev pub vhost_ttl : ℕ
vhost_ttl = 10000

abbrev pub as_routed :
    (listed : Bool) (port : ℕ)
    → Option Target × Dict (Cached Target)
    → Routed × Dict (Cached Target)
as_routed listed port (some t, cache) = (routed t port, cache)
as_routed listed port (none, cache) = (if listed then app_not_found else lookup_failed, cache)

abbrev pub route_to :
    (now : ℕ)
    → Option (String × ℕ)
    → (listing : Option (List App)) → Dict (Cached Target)
    → Routed × Dict (Cached Target)
route_to now none listing cache = (bad_host, cache)
route_to now (some (name, port)) listing cache =
    as_routed (is_some listing) port
      (through_cache now vhost_ttl name (find_target listing name) cache)

-- `handle_vhost_proxy` up to its call of `_proxy_via_channel`
unfoldable pub handle_vhost_proxy :
    Digits
    → (now : ℕ) (subdomain : String) (listing : Option (List App)) → Dict (Cached Target)
    → Routed × Dict (Cached Target)
unfolding find_target
handle_vhost_proxy digits now subdomain listing cache =
    route_to now (parse_subdomain digits subdomain) listing cache

-- `_HOP_BY_HOP` and `_skip`
abbrev pub hop_by_hop : List String
hop_by_hop =
    "host" ∷ "transfer-encoding" ∷ "connection" ∷ "keep-alive" ∷ "proxy-authenticate"
    ∷ "proxy-authorization" ∷ "te" ∷ "trailers" ∷ "upgrade" ∷ []

pub record Request : Type 0 where
  pub method : String
  pub path : String
  pub headers : Dict String
  pub body : String

pub record Response : Type 0 where
  pub status : ℕ
  pub headers : Dict String
  pub body : String

module _ (lower : String → String) where
  abbrev pub is_hop : String → Bool
  is_hop name = any (λ h. h == lower name) hop_by_hop

  -- `{k: v for k, v in headers.items() if k.lower() not in _HOP_BY_HOP}`
  unfoldable pub without_hops : Dict String → Dict String
  without_hops = keep (λ h. not (is_hop h.0))

  -- what is forwarded of a browser's request; `host` and `scheme` are Flask's
  unfoldable pub forwarded_request : (host scheme query : String) → Request → Request
  forwarded_request host scheme query r = record r {
    path = if is_empty query then r.path else text (r.path ∷ "?" ∷ query ∷ []);
    headers =
        insert "X-Forwarded-Proto" (or_default scheme (lookup "X-Forwarded-Proto" r.headers))
          (insert "X-Forwarded-Host" host (without_hops r.headers));
  }

  -- what the browser gets of the peer's reply; the encoding is dropped with its compression
  unfoldable pub returned_response : Response → Response
  returned_response r = record r {
    headers = keep (λ h. not (lower h.0 == "content-encoding")) (without_hops r.headers);
  }

-- the settings that the executing side reads
pub record TunnelSettings : Type 0 where
  pub allow_inbound_tunnels : Bool
  pub allowed_tunnel_peers : String

-- `{t.strip() for t in raw.split(",") if t.strip()}`
unfoldable pub allowed_tokens : String → List String
allowed_tokens raw = keep (λ t. not (is_empty t)) (map strip (split "," raw))

abbrev pub denied_by : (allow : Bool) (raw peer : String) → Bool
denied_by allow raw peer =
    if not allow
    then true
    else if is_empty raw
    then false
    else if raw == "__none__"
    then true
    else not (any (λ t. t == peer) (allowed_tokens raw))

unfoldable pub denied : TunnelSettings → (peer : String) → Bool
denied settings peer =
    denied_by settings.allow_inbound_tunnels (strip settings.allowed_tunnel_peers) peer

abbrev pub svc_host_ttl : ℕ
svc_host_ttl = 30000

-- the service's host, from the first service with the app's label; `none` where there is none
abbrev pub service_host : (namespace : String) → List String → Option String
service_host namespace [] = none
service_host namespace (name ∷ names) =
    some (text (name ∷ "." ∷ namespace ∷ ".svc.cluster.local" ∷ []))

unfoldable pub resolve_service_host :
    (namespace : String) (now : ℕ) (app_id : String) (services : List String)
    → Dict (Cached String)
    → Option String × Dict (Cached String)
resolve_service_host namespace now app_id services =
    through_cache now svc_host_ttl app_id (service_host namespace services)

-- the request that goes to the app's service
pub record Upstream : Type 0 where
  pub host : String
  pub port : ℕ
  pub request : Request

abbrev pub upstream : (lower : String → String) (host : String) (port : ℕ) → Request → Upstream
upstream lower host port r = record {
  host = host;
  port = port;
  request = record r {
    path = text ("/" ∷ lstrip (λ c. is_char c "/") r.path ∷ []);
    headers = without_hops lower r.headers;
  };
}

abbrev pub no_service : (app_id : String) → String
no_service app_id = text ("no service for remote-app-id=" ∷ app_id ∷ [])

abbrev pub tunnels_disabled : (agent : String) → String
tunnels_disabled agent = text ("'" ∷ agent ∷ "' has disabled inbound tunnels" ∷ [])

abbrev pub with_host :
    (lower : String → String) (app_id : String) (port : ℕ)
    → Request
    → Option String × Dict (Cached String)
    → Result Upstream × Dict (Cached String)
with_host lower app_id port r (none, cache) = (err (no_service app_id), cache)
with_host lower app_id port r (some host, cache) = (ok (upstream lower host port r), cache)

-- `handle_proxy_request` up to the HTTP call; `known` is whether an ExecutingApp has the id
unfoldable pub handle_proxy_request :
    (lower : String → String)
    → TunnelSettings
    → (agent namespace : String) (now : ℕ) (peer app_id : String) (port : ℕ) (known : Bool)
    → (services : List String) → Request
    → Dict (Cached String)
    → Result Upstream × Dict (Cached String)
unfolding denied resolve_service_host
handle_proxy_request lower settings agent namespace now peer app_id port known services r cache =
    if denied settings peer
    then (err (tunnels_disabled agent), cache)
    else if not known
    then (err "app not found", cache)
    else with_host lower app_id port r (resolve_service_host namespace now app_id services cache)
