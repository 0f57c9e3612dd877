-- ===== src/Executor.antt =====
-- porpulsion/k8s/executor.py: the deployment of a workload on this cluster, and the shell sessions in
-- its pods. The Kubernetes API is outside: `Api` holds its answers to the calls of one run, and a run
-- returns what it writes and reports, in order.
pub mod Storage
pub mod Deploy
pub mod Reports
pub mod Watch
pub mod Races
pub mod Sessions
pub mod Inputs
pub mod Relay
mod Tests
use porpulsion.Prelude.{ℕ, String, Bool, Option, List, [], ◌∷◌, ◌++◌, Dict, if◌then◌else◌}
use porpulsion.Prelude.Text.{is_empty}
use porpulsion.Workloads.Naming.{Unicode, safe_resource_name}

-- an entry of `spec.configMaps` or `spec.secrets`; an absent field is empty
pub record VolumeSpec : Type 0 where
  pub name : String
  pub mount_path : String
  pub content : Dict String

-- an entry of `spec.pvcs`
pub record PvcSpec : Type 0 where
  pub name : String
  pub mount_path : String
  pub storage : String
  pub access_mode : String

-- the part of a spec that decides what is written
pub record DeploySpec : Type 0 where
  pub replicas : ℕ
  pub config_maps : List VolumeSpec
  pub secrets : List VolumeSpec
  pub pvcs : List PvcSpec
  pub pull_secrets : List String

pub record RemoteApp : Type 0 where
  pub id : String
  pub name : String
  pub resource_name : String
  pub spec : DeploySpec

pub record PvcSettings : Type 0 where
  pub allow_pvcs : Bool
  pub max_pvc_storage_per_pvc_gb : ℕ
  pub max_pvc_storage_total_gb : ℕ

-- a call's answer; a failure is an `ApiException`
pub data Reply : Type 0 where
  done : Reply
  failed : (status : ℕ) (reason : String) → Reply

-- `list_pvcs` gives the claims of the namespace with their storage, `none` where the call raises
pub record Api : Type 0 where
  pub read_deployment : Reply
  pub create_config_map : String → Reply
  pub replace_config_map : String → Reply
  pub create_secret : String → Reply
  pub replace_secret : String → Reply
  pub create_pvc : String → Reply
  pub list_pvcs : Option (List (String × String))
  pub read_secret : String → Reply
  pub create_deployment : Reply
  pub replace_deployment : Reply
  pub create_service : Reply
  pub replace_service : Reply

-- the reasons that a failure report names
pub data Failure : Type 0 where
  config_map_failed secret_failed pvc_failed : (name reason : String) → Failure
  total_storage_over : (limit : ℕ) → Failure
  pvcs_not_enabled : Failure
  pvc_over : (name storage : String) → (limit : ℕ) → Failure
  pull_secret_missing : (name : String) → Failure
  pull_secret_unverified : (name reason : String) → Failure
  deployment_failed service_failed : (reason : String) → Failure

pub data Phase : Type 0 where
  updating creating running ready timeout : Phase
  failure : Failure → Phase

-- what a run does, in order
pub data Effect : Type 0 where
  reported : Phase → Effect
  config_map_written secret_written : String → Dict String → Effect
  pvc_written : (name storage access_mode : String) → Effect
  deployment_written service_written : (name : String) → Effect

-- a run goes on, returns early, or ends by an exception that nothing catches
pub data Outcome (A : Type 0) : Type 0 where
  go : A → Outcome A
  returned : Outcome A
  crashed : Outcome A

abbrev pub Run : Type 0 → Type 0
Run A = Outcome A × List Effect

abbrev pub pure : {A : Type 0} → A → Run A
pure a = (go a, [])

abbrev pub emit : Effect → Run Unit
emit e = (go tt, e ∷ [])

abbrev pub report : Phase → Run Unit
report p = emit (reported p)

-- `_report_status(..., "Failed: ..."); return`
abbrev pub give_up : {A : Type 0} → Failure → Run A
give_up f = (returned, reported (failure f) ∷ [])

abbrev pub prefixed : {A : Type 0} → List Effect → Run A → Run A
prefixed es (o, fs) = (o, es ++ fs)

infixl 5 ◌>>=◌ ◌>>◌
abbrev pub ◌>>=◌ : {A B : Type 0} → Run A → (A → Run B) → Run B
◌>>=◌ (go a, es) f = prefixed es (f a)
◌>>=◌ (returned, es) f = (returned, es)
◌>>=◌ (crashed, es) f = (crashed, es)

abbrev pub ◌>>◌ : {A B : Type 0} → Run A → Run B → Run B
m >> n = m >>= λ _. n

-- `_deploy_name`: the name in the status where there is one
unfoldable pub deploy_name : Unicode → RemoteApp → String
deploy_name unicode app =
    if is_empty app.resource_name
    then safe_resource_name unicode app.id app.name
    else app.resource_name
