-- ===== src/Apps.antt =====
-- The resources of the apps of an agent, submitted and executing: their ConfigMap and Secret volumes
-- (Apps/Volumes, porpulsion/k8s/store.py with porpulsion/routes/workloads.py), and the submission of a new
-- app (Apps/Submission). Base64 is a record of functions that the definitions take.
pub mod Volumes
pub mod Editing
pub mod Forwarding
pub mod Submission
pub mod Creation
pub mod Crd
pub mod Operations
pub mod Proxied
pub mod ProxyAuth
mod Tests
use porpulsion.Prelude.{
  String, Bool, true, false, ◌≡◌, Option, none, some, List, Dict, find_first, ◌==◌,
}

-- `b64encode(v.encode()).decode()`, and `b64decode(v).decode()` with `none` where it raises
pub record Base64 : Type 0 where
  pub encode : String → String
  pub decode : String → Option String
  pub decode-encode : (v : String) → decode (encode v) ≡ some v

-- an entry of `spec.configMaps` or `spec.secrets`
pub record Volume : Type 0 where
  pub name : String
  pub content : Dict String

-- `app_id` is the id in the status, which is also the label of an ExecutingApp
pub record AppCr : Type 0 where
  pub app_id : String
  pub target_peer : String
  pub source_peer : String
  pub resource_name : String
  pub config_maps : List Volume
  pub secrets : List Volume

-- the resources by their names
pub record Desk : Type 0 where
  pub submitted : Dict AppCr
  pub executing : Dict AppCr

abbrev pub by_app_id : (app_id : String) → Dict AppCr → Option (String × AppCr)
by_app_id app_id d = find_first (λ e. e.1.app_id == app_id) d

-- which of the two lists a resource is in
pub data Side : Type 0 where
  submitted_side executing_side : Side

abbrev on_side : Side → Option (String × AppCr) → Option (Side × String × AppCr)
on_side side none = none
on_side side (some (name, cr)) = some (side, name, cr)

abbrev first_some :
    Option (Side × String × AppCr) → Option (Side × String × AppCr) → Option (Side × String × AppCr)
first_some none x = x
first_some (some r) x = some r

-- `get_cr_by_app_id`: a RemoteApp before an ExecutingApp
unfoldable pub get_cr_by_app_id : (app_id : String) → Desk → Option (Side × String × AppCr)
get_cr_by_app_id app_id desk =
    first_some (on_side submitted_side (by_app_id app_id desk.submitted))
      (on_side executing_side (by_app_id app_id desk.executing))

-- the search of `patch_cr_volume_data`: an ExecutingApp before a RemoteApp
unfoldable pub executing_first : (app_id : String) → Desk → Option (Side × String × AppCr)
executing_first app_id desk =
    first_some (on_side executing_side (by_app_id app_id desk.executing))
      (on_side submitted_side (by_app_id app_id desk.submitted))

-- a chain of steps that may raise
infixl 5 ◌>>=◌
abbrev pub ◌>>=◌ : {A B : Type 0} → Option A → (A → Option B) → Option B
none >>= f = none
some a >>= f = f a
