-- ===== src/Executor/Deploy.antt =====
-- `run_workload` of porpulsion/k8s/executor.py up to the report that the workload runs: ConfigMaps,
-- Secrets, claims, pull secrets, the Deployment and the Service.
use porpulsion.Prelude.{
  String, Bool, true, false, ◌||◌, Option, none, some, List, [], ◌∷◌, Dict, nat_eq, if◌then◌else◌,
}
use porpulsion.Prelude.Text.{is_empty, take_text, text}
use porpulsion.Workloads.Naming.{Unicode}
use porpulsion.Executor.{
  VolumeSpec, RemoteApp, PvcSettings, Reply, done, failed, Api, Effect, config_map_written,
  secret_written, deployment_written, service_written, config_map_failed, secret_failed,
  pull_secret_missing, pull_secret_unverified, deployment_failed, service_failed, updating,
  creating, running, go, crashed, Run, pure, emit, report, give_up, prefixed, ◌>>◌, deploy_name,
}
use porpulsion.Executor.Storage.{Sizes, check_total, claims}

unfoldable pub cm_name : (resource_name logical_name : String) → String
cm_name resource_name logical_name =
    take_text 63 (text (resource_name ∷ "-cm-" ∷ logical_name ∷ []))

unfoldable pub sec_name : (resource_name logical_name : String) → String
sec_name resource_name logical_name =
    take_text 63 (text (resource_name ∷ "-sec-" ∷ logical_name ∷ []))

abbrev pub no_content : Dict String → Bool
no_content [] = true
no_content (x ∷ xs) = false

-- `_apply_configmap_by_name` and `_apply_secret_by_name`: what is created, or replaced where it exists;
-- with no content in the spec the live content is kept
abbrev pub replaced : Effect → Reply → Reply × List Effect
replaced e done = (done, e ∷ [])
replaced e (failed status reason) = (failed status reason, [])

unfoldable pub apply_by_name :
    (created replacing : Reply) → Effect → (empty : Bool) → Reply × List Effect
apply_by_name done replacing e empty = (done, e ∷ [])
apply_by_name (failed status reason) replacing e empty =
    if nat_eq status 409
    then if empty then (done, []) else replaced e replacing
    else (failed status reason, [])

-- `base64.b64decode(v).decode()` of every value; `none` where one raises
unfoldable pub decode_all : (decode : String → Option String) → Dict String → Option (Dict String)
decode_all decode [] = some []
decode_all decode ((k, v) ∷ d) =
    let rest = decode_all decode d in
    elim (decode v) [
      | none ↦ none
      | some w ↦ elim rest [ none ↦ none | some r ↦ some ((k, w) ∷ r) ]
    ]

abbrev pub skipped : VolumeSpec → Bool
skipped v = is_empty v.name || is_empty v.mount_path

module _ (api : Api) (deploy : String) where
  abbrev pub config_map_done : VolumeSpec → Reply × List Effect → Run Unit
  config_map_done v (done, es) = (go tt, es)
  config_map_done v (failed status reason, es) =
      prefixed es (give_up (config_map_failed v.name reason))

  unfoldable pub apply_config_map : VolumeSpec → Run Unit
  apply_config_map v =
      let name = cm_name deploy v.name in
      config_map_done v (
        apply_by_name (api.create_config_map name) (api.replace_config_map name)
          (config_map_written name v.content) (no_content v.content))

  unfoldable pub config_maps : List VolumeSpec → Run Unit
  config_maps [] = pure tt
  config_maps (v ∷ vs) = if skipped v then config_maps vs else apply_config_map v >> config_maps vs

  abbrev pub secret_done : VolumeSpec → Reply × List Effect → Run Unit
  secret_done v (done, es) = (go tt, es)
  secret_done v (failed status reason, es) = prefixed es (give_up (secret_failed v.name reason))

  -- a value that does not decode raises what nothing catches
  abbrev pub apply_decoded : VolumeSpec → Option (Dict String) → Run Unit
  apply_decoded v none = (crashed, [])
  apply_decoded v (some content) =
      let name = sec_name deploy v.name in
      secret_done v (
        apply_by_name (api.create_secret name) (api.replace_secret name)
          (secret_written name content) (no_content content))

  unfoldable pub secrets : (decode : String → Option String) → List VolumeSpec → Run Unit
  secrets decode [] = pure tt
  secrets decode (v ∷ vs) =
      if skipped v
      then secrets decode vs
      else apply_decoded v (decode_all decode v.content) >> secrets decode vs

  abbrev pub verified : String → Reply → Run Unit
  verified name done = pure tt
  verified name (failed status reason) =
      if nat_eq status 404
      then give_up (pull_secret_missing name)
      else give_up (pull_secret_unverified name reason)

  -- every named pull secret exists
  unfoldable pub check_pull_secrets : List String → Run Unit
  check_pull_secrets [] = pure tt
  check_pull_secrets (name ∷ names) =
      verified name (api.read_secret name) >> check_pull_secrets names

  -- in the branch of a 409 the call of `replace` stands outside of any `try`
  abbrev pub replaced_or_crash : Effect → Reply → Run Unit
  replaced_or_crash e done = emit e
  replaced_or_crash e (failed status reason) = (crashed, [])

  abbrev pub deployment_done : Reply → Run Unit
  deployment_done done = emit (deployment_written deploy)
  deployment_done (failed status reason) =
      if nat_eq status 409
      then replaced_or_crash (deployment_written deploy) api.replace_deployment
      else give_up (deployment_failed reason)

  unfoldable pub apply_deployment : Run Unit
  apply_deployment = deployment_done api.create_deployment

  abbrev pub service_done : Reply → Run Unit
  service_done done = emit (service_written deploy)
  service_done (failed status reason) =
      if nat_eq status 409
      then replaced_or_crash (service_written deploy) api.replace_service
      else give_up (service_failed reason)

  unfoldable pub apply_service : Run Unit
  apply_service = service_done api.create_service

  abbrev pub first_phase : Reply → Run Unit
  first_phase done = report updating
  first_phase (failed status reason) = report creating

-- `_execute` up to the report that the workload runs
unfoldable pub execute :
    Unicode → (decode : String → Option String) → Sizes → PvcSettings → Api → RemoteApp → Run Unit
execute unicode decode sizes settings api app =
    let name = deploy_name unicode app in
    do
      first_phase api name api.read_deployment
      config_maps api name app.spec.config_maps
      secrets api name decode app.spec.secrets
      check_total sizes settings api name app.spec.pvcs
      claims sizes settings api name app.spec.pvcs
      check_pull_secrets api name app.spec.pull_secrets
      apply_deployment api name
      apply_service api name
      report running
