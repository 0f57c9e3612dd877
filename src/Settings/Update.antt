-- ===== src/Settings/Update.antt =====
-- `update_settings` of porpulsion/routes/settings.py. A 400 and an exception end it where they arise; what
-- was set before stays set.
use porpulsion.Prelude.{
  ℕ, ◌+◌, String, Bool, Option, none, some, List, [], ◌∷◌, Dict, lookup, if◌then◌else◌,
}
use porpulsion.Prelude.Text.{strip, text}
use porpulsion.Prelude.Int.{ℤ, clamp_zero}
use porpulsion.Prelude.Json.{Json, null, bool, int, str, arr, obj}
use porpulsion.Prelude.Exec.{ok, err, Exec, pure, raise, modify, ◌>>◌}
use porpulsion.Settings.{Settings, Python, Server, truthy, is_mode, is_level}

abbrev pub change : (Settings → Settings) → Server → Server
change f s = record s { settings = f s.settings }

abbrev pub bad_mode : String
bad_mode = "tunnel_approval_mode must be one of ('manual', 'auto', 'per_peer')"

abbrev pub bad_level : String
bad_level = "log_level must be DEBUG, INFO, WARNING, or ERROR"

-- `data["log_level"].upper()` of a value that is no text
abbrev pub no_upper : String
no_upper = "AttributeError"

abbrev pub set_mode : Option Json → Exec Server Unit
set_mode none = pure tt
set_mode (some (str mode)) = λ s.
    if is_mode mode
    then (ok tt, change (λ x. record x { tunnel_approval_mode = mode }) s)
    else (err bad_mode, s)
set_mode (some null) = raise bad_mode
set_mode (some (bool _)) = raise bad_mode
set_mode (some (int _)) = raise bad_mode
set_mode (some (arr _)) = raise bad_mode
set_mode (some (obj _)) = raise bad_mode

abbrev pub BoolField : Type 0
BoolField = String × (Bool → Settings → Settings)

abbrev pub StrField : Type 0
StrField = String × (String → Settings → Settings)

abbrev pub IntField : Type 0
IntField = String × (ℕ → Settings → Settings)

abbrev pub inbound_fields : List BoolField
inbound_fields =
    ("allow_inbound_remoteapps", λ b x. record x { allow_inbound_remoteapps = b })
    ∷ ("allow_inbound_tunnels", λ b x. record x { allow_inbound_tunnels = b })
    ∷ []

abbrev pub bool_fields : List BoolField
bool_fields =
    ("require_remoteapp_approval", λ b x. record x { require_remoteapp_approval = b })
    ∷ ("require_resource_requests", λ b x. record x { require_resource_requests = b })
    ∷ ("require_resource_limits", λ b x. record x { require_resource_limits = b })
    ∷ ("allow_pvcs", λ b x. record x { allow_pvcs = b })
    ∷ ("registry_pull_enabled", λ b x. record x { registry_pull_enabled = b })
    ∷ []

abbrev pub str_fields : List StrField
str_fields =
    ("allowed_images", λ v x. record x { allowed_images = v })
    ∷ ("blocked_images", λ v x. record x { blocked_images = v })
    ∷ ("allowed_source_peers", λ v x. record x { allowed_source_peers = v })
    ∷ ("allowed_tunnel_peers", λ v x. record x { allowed_tunnel_peers = v })
    ∷ ("max_cpu_request_per_pod", λ v x. record x { max_cpu_request_per_pod = v })
    ∷ ("max_cpu_limit_per_pod", λ v x. record x { max_cpu_limit_per_pod = v })
    ∷ ("max_memory_request_per_pod", λ v x. record x { max_memory_request_per_pod = v })
    ∷ ("max_memory_limit_per_pod", λ v x. record x { max_memory_limit_per_pod = v })
    ∷ ("max_total_cpu_requests", λ v x. record x { max_total_cpu_requests = v })
    ∷ ("max_total_memory_requests", λ v x. record x { max_total_memory_requests = v })
    ∷ []

abbrev pub int_fields : List IntField
int_fields =
    ("max_replicas_per_app", λ n x. record x { max_replicas_per_app = n })
    ∷ ("max_total_deployments", λ n x. record x { max_total_deployments = n })
    ∷ ("max_total_pods", λ n x. record x { max_total_pods = n })
    ∷ ("max_pvc_storage_per_pvc_gb", λ n x. record x { max_pvc_storage_per_pvc_gb = n })
    ∷ ("max_pvc_storage_total_gb", λ n x. record x { max_pvc_storage_total_gb = n })
    ∷ []

abbrev pub put : {A : Type 0} → (A → Settings → Settings) → Option A → Settings → Settings
put set none x = x
put set (some a) x = set a x

abbrev pub truth_of : Option Json → Option Bool
truth_of none = none
truth_of (some v) = some (truthy v)

unfoldable pub set_bools : List BoolField → Dict Json → Settings → Settings
set_bools [] given x = x
set_bools ((name, set) ∷ fields) given x =
    set_bools fields given (put set (truth_of (lookup name given)) x)

module _ (python : Python) where
  -- `setattr` after the check; the level also goes to Python's loggers
  abbrev pub set_level : Option Json → Exec Server Unit
  set_level none = pure tt
  set_level (some (str level)) = λ s.
      if is_level (python.upper level)
      then (ok tt, change (λ x. record x { log_level = python.upper level }) s)
      else (err bad_level, s)
  set_level (some null) = raise no_upper
  set_level (some (bool _)) = raise no_upper
  set_level (some (int _)) = raise no_upper
  set_level (some (arr _)) = raise no_upper
  set_level (some (obj _)) = raise no_upper

  abbrev pub stripped : Option Json → Option String
  stripped none = none
  stripped (some v) = some (strip (python.to_str v))

  unfoldable pub set_texts : List StrField → Dict Json → Settings → Settings
  set_texts [] given x = x
  set_texts ((name, set) ∷ fields) given x =
      set_texts fields given (put set (stripped (lookup name given)) x)

  abbrev pub set_clamped :
      (name : String) (set : ℕ → Settings → Settings) → Option ℤ → Exec Server Unit
  set_clamped name set none = raise (text (name ∷ " must be an integer" ∷ []))
  set_clamped name set (some n) = modify (change (set (clamp_zero n)))

  abbrev pub set_number :
      (name : String) (set : ℕ → Settings → Settings) → Option Json → Exec Server Unit
  set_number name set none = pure tt
  set_number name set (some v) = set_clamped name set (python.to_int v)

  unfoldable pub set_numbers : List IntField → Dict Json → Exec Server Unit
  set_numbers [] given = pure tt
  set_numbers ((name, set) ∷ fields) given =
      set_number name set (lookup name given) >> set_numbers fields given

  -- the set-up and the removal of the registry proxy are best effort and touch no setting
  unfoldable pub update_settings : Dict Json → Exec Server Settings
  update_settings given = do
    set_mode (lookup "tunnel_approval_mode" given)
    modify (change (set_bools inbound_fields given))
    set_level (lookup "log_level" given)
    modify (change (set_bools bool_fields given))
    modify (change (set_texts str_fields given))
    set_numbers int_fields given
    modify (λ s. record s { saved = s.settings; pushes = s.pushes + 1 })
    λ s. (ok s.settings, s)
