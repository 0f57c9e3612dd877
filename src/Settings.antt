-- ===== src/Settings.antt =====
-- The settings of an agent: `AgentSettings` of porpulsion/models.py, and the update of
-- porpulsion/routes/settings.py. Python's `str`, `int` and `upper` are functions that the definitions take.
pub mod Update
pub mod Saving
mod Tests
use porpulsion.Prelude.{
  ℕ, String, Bool, true, false, not, ◌||◌, Option, List, [], ◌∷◌, any, ◌==◌, nat_eq,
}
use porpulsion.Prelude.Text.{is_empty}
use porpulsion.Prelude.Int.{ℤ, pos, negsuc}
use porpulsion.Prelude.Json.{Json, null, bool, int, str, arr, obj, nil, cons, end, field}

pub record Settings : Type 0 where
  pub allow_inbound_remoteapps : Bool
  pub require_remoteapp_approval : Bool
  pub allowed_images : String
  pub blocked_images : String
  pub allowed_source_peers : String
  pub allow_pvcs : Bool
  pub allow_inbound_tunnels : Bool
  pub tunnel_approval_mode : String
  pub allowed_tunnel_peers : String
  pub registry_pull_enabled : Bool
  pub log_level : String
  pub require_resource_requests : Bool
  pub require_resource_limits : Bool
  pub max_cpu_request_per_pod : String
  pub max_cpu_limit_per_pod : String
  pub max_memory_request_per_pod : String
  pub max_memory_limit_per_pod : String
  pub max_replicas_per_app : ℕ
  pub max_total_deployments : ℕ
  pub max_total_pods : ℕ
  pub max_total_cpu_requests : String
  pub max_total_memory_requests : String
  pub max_pvc_storage_per_pvc_gb : ℕ
  pub max_pvc_storage_total_gb : ℕ

abbrev pub default_settings : Settings
default_settings = record {
  allow_inbound_remoteapps = true;
  require_remoteapp_approval = false;
  allowed_images = "";
  blocked_images = "";
  allowed_source_peers = "";
  allow_pvcs = false;
  allow_inbound_tunnels = true;
  tunnel_approval_mode = "auto";
  allowed_tunnel_peers = "";
  registry_pull_enabled = false;
  log_level = "INFO";
  require_resource_requests = false;
  require_resource_limits = false;
  max_cpu_request_per_pod = "";
  max_cpu_limit_per_pod = "";
  max_memory_request_per_pod = "";
  max_memory_limit_per_pod = "";
  max_replicas_per_app = 0;
  max_total_deployments = 0;
  max_total_pods = 0;
  max_total_cpu_requests = "";
  max_total_memory_requests = "";
  max_pvc_storage_per_pvc_gb = 0;
  max_pvc_storage_total_gb = 0;
}

-- `bool(x)`
abbrev pub truthy : Json → Bool
truthy null = false
truthy (bool b) = b
truthy (int (pos n)) = not (nat_eq n 0)
truthy (int (negsuc n)) = true
truthy (str s) = not (is_empty s)
truthy (arr nil) = false
truthy (arr (cons x xs)) = true
truthy (obj end) = false
truthy (obj (field k v fs)) = true

-- `to_int` is `int(x)`, `none` its ValueError or TypeError
pub record Python : Type 0 where
  pub to_str : Json → String
  pub to_int : Json → Option ℤ
  pub upper : String → String

abbrev pub is_mode : String → Bool
is_mode mode = any (λ m. m == mode) ("manual" ∷ "auto" ∷ "per_peer" ∷ [])

abbrev pub is_level : String → Bool
is_level level = any (λ l. l == level) ("DEBUG" ∷ "INFO" ∷ "WARNING" ∷ "ERROR" ∷ [])

-- the settings in memory, those that the ConfigMap holds once the last write is done, and how often the
-- peers were told
pub record Server : Type 0 where
  pub settings : Settings
  pub saved : Settings
  pub pushes : ℕ
