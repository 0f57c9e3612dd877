-- ===== src/Policy.antt =====
-- What a cluster takes from its peers: the checks of porpulsion/routes/workloads.py before a workload
-- is created, over `AgentSettings` of porpulsion/models.py.
pub mod Quantity
pub mod Reading
pub mod Images
pub mod Quota
pub mod Measured
pub mod Permitted
pub mod Sound
mod Tests
use porpulsion.Prelude.{ℕ, String, Bool, Option, List, Dict}

-- the settings that the checks read; an empty text and 0 are no limit
pub record AgentSettings : Type 0 where
  pub allowed_images : String
  pub blocked_images : String
  pub allowed_source_peers : String
  pub require_resource_requests : Bool
  pub require_resource_limits : Bool
  pub max_cpu_request_per_pod : String
  pub max_cpu_limit_per_pod : String
  pub max_memory_request_per_pod : String
  pub max_memory_limit_per_pod : String
  pub max_replicas_per_app : ℕ
  pub max_total_deployments : ℕ
  pub max_total_pods : ℕ
  pub max_total_cpu_requests : String
  pub max_total_memory_requests : String

-- `spec.resources`; both parts are empty where it is absent
pub record Resources : Type 0 where
  pub requests : Dict String
  pub limits : Dict String

-- the part of a `RemoteAppSpec` that the checks read
pub record RemoteAppSpec : Type 0 where
  pub image : String
  pub replicas : ℕ
  pub resources : Resources

-- an ExecutingApp CR, as `list_executingapp_crs` gives it
pub record ExecutingApp : Type 0 where
  pub phase : String
  pub replicas : Option ℕ
  pub requests : Dict String

-- Python's floats, as far as they are used. `to_float` is `float(text)`, `none` its ValueError.
pub record Floats : Type 1 where
  pub Float : Type 0
  pub to_float : String → Option Float
  pub zero : Float
  pub plus : Float → Float → Float
  pub times : Float → ℕ → Float
  pub per_thousand : Float → Float
  -- `x > y`
  pub exceeds : Float → Float → Bool

-- the error messages, each with the values that its text shows
pub data Reason : Type 0 where
  requests_required limits_required : Reason
  peer_not_permitted : (source_peer : String) → Reason
  image_blocked : (image : String) → Reason
  image_not_allowed : (image : String) → (allowed : List String) → Reason
  cpu_request_over cpu_limit_over memory_request_over memory_limit_over :
      (asked limit : String) → Reason
  replicas_over : (asked limit : ℕ) → Reason
  deployments_full : (limit : ℕ) → Reason
  pods_full : (asked used limit : ℕ) → Reason
  cpu_full memory_full : (asked limit : String) → Reason

-- what a check says: nothing against it, an error, or an exception
pub data Check : Type 0 where
  fine : Check
  refused : Reason → Check
  value_error : Check

-- a sequence of checks with early returns: the first that is not fine
unfoldable pub first_of : List Check → Check
first_of List.[] = fine
first_of (List.◌∷◌ fine cs) = first_of cs
first_of (List.◌∷◌ (refused e) cs) = refused e
first_of (List.◌∷◌ value_error cs) = value_error
