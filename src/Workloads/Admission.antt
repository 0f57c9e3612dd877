-- ===== src/Workloads/Admission.antt =====
-- A submission of a peer, its approval or rejection, and its update: `handle_remoteapp_receive`,
-- `handle_remoteapp_spec_update` and `handle_remoteapp_delete` of porpulsion/channel_handlers.py,
-- `approve_remoteapp` and `reject_remoteapp` of porpulsion/routes/workloads.py, and what
-- `save_state_configmap` of porpulsion/tls.py keeps of the queue.
use porpulsion.Prelude.{
  String, Bool, true, false, not, Option, none, some, List, [], ◌∷◌, Dict, lookup, insert, erase,
  values, map, if◌then◌else◌,
}
use porpulsion.Prelude.Text.{is_empty}
use porpulsion.Prelude.Exec.{Result, ok, err}
use porpulsion.Policy.{
  AgentSettings, RemoteAppSpec, Floats, Check, fine, refused, value_error, Reason,
}
use porpulsion.Policy.Quota.{check_resource_quota}
use porpulsion.Workloads.Naming.{Unicode}
use porpulsion.Workloads.Cluster.{
  Cluster, ExecutingCr, as_counted, list_executingapp_crs, create_executingapp_cr,
  delete_executingapp_cr, patch_executingapp_spec, get_ea_cr_by_app_id,
}

-- an entry of `pending_approval`
pub record Entry : Type 0 where
  pub id : String
  pub name : String
  pub spec : RemoteAppSpec
  pub source_peer : String
  pub since : String

-- the notifications and the pushes that the handlers make
pub data Notice : Type 0 where
  workload_rejected : (source_peer name : String) → Reason → Notice
  approval_required : (source_peer name : String) → Notice
  status_rejected : (source_peer app_id : String) → Notice

-- `saved_pending` is the list that the ConfigMap holds once the last write is done
pub record Agent : Type 0 where
  pub allow_inbound : Bool
  pub require_approval : Bool
  pub settings : AgentSettings
  pub pending : Dict Entry
  pub saved_pending : List Entry
  pub cluster : Cluster
  pub notices : List Notice

-- what a peer sends; an absent id is the empty text
pub record Submission : Type 0 where
  pub id : String
  pub name : String
  pub spec : RemoteAppSpec
  pub source_peer : String

pub data Answer : Type 0 where
  accepted : (app_id : String) → Option String → Answer
  pending_approval : (app_id : String) → Answer
  inbound_disabled quota_error spec_invalid : Answer
  quota_refused : Reason → Answer

unfoldable pub save_state_configmap : Agent → Agent
save_state_configmap a = record a { saved_pending = values a.pending }

abbrev notify : Notice → Agent → Agent
notify n a = record a { notices = n ∷ a.notices }

-- `payload.get("id") or uuid4().hex[:8]`
abbrev pub id_of : (fresh : String) → Submission → String
id_of fresh sub = if is_empty sub.id then fresh else sub.id

module _ (unicode : Unicode) (floats : Floats) where
  abbrev pub enqueue : (now app_id : String) → Submission → Agent → Agent
  enqueue now app_id sub a =
      let entry : Entry = record {
        id = app_id;
        name = sub.name;
        spec = sub.spec;
        source_peer = sub.source_peer;
        since = now;
      } in
      notify (approval_required sub.source_peer sub.name)
        (save_state_configmap (record a { pending = insert app_id entry a.pending }))

  abbrev pub start : (answers : Bool) (app_id : String) → Submission → Agent → Answer × Agent
  start answers app_id sub a =
      let (name, c) =
        create_executingapp_cr unicode answers app_id sub.name sub.spec sub.source_peer a.cluster in
      (accepted app_id name, record a { cluster = c })

  abbrev pub validated :
      (now app_id : String) (answers valid : Bool) → Submission → Agent → Answer × Agent
  validated now app_id answers valid sub a =
      if not valid
      then (spec_invalid, a)
      else if a.require_approval
      then (pending_approval app_id, enqueue now app_id sub a)
      else start answers app_id sub a

  abbrev pub checked :
      (now app_id : String) (answers valid : Bool) → Submission → Agent → Check → Answer × Agent
  checked now app_id answers valid sub a (refused r) =
      (quota_refused r, notify (workload_rejected sub.source_peer sub.name r) a)
  checked now app_id answers valid sub a value_error = (quota_error, a)
  checked now app_id answers valid sub a fine = validated now app_id answers valid sub a

  -- `valid` is what the dry run of the API says of the spec, `fresh` a new id, `lists` whether the API
  -- gives the quota its list
  unfoldable pub handle_remoteapp_receive :
      (now fresh : String) (lists answers valid : Bool) → Submission → Agent → Answer × Agent
  handle_remoteapp_receive now fresh lists answers valid sub a =
      if not a.allow_inbound
      then (inbound_disabled, a)
      else checked now (id_of fresh sub) answers valid sub a (
          check_resource_quota floats a.settings sub.spec sub.source_peer
            (map as_counted (list_executingapp_crs lists a.cluster)))

  abbrev pub update_checked :
      (answers valid : Bool) (cr_name : String)
      → RemoteAppSpec
      → Agent
      → Check
      → Result Unit × Agent
  update_checked answers valid cr_name new a (refused r) = (err "quota", a)
  update_checked answers valid cr_name new a value_error = (err "ValueError", a)
  update_checked answers valid cr_name new a fine =
      if valid
      then (ok tt, record a { cluster = patch_executingapp_spec answers cr_name new a.cluster })
      else (err "spec invalid", a)

  abbrev pub update_found :
      (lists answers valid : Bool)
      → RemoteAppSpec
      → Option (String × ExecutingCr)
      → Agent
      → Result Unit × Agent
  update_found lists answers valid new none a = (err "app not found", a)
  update_found lists answers valid new (some (cr_name, cr)) a =
      update_checked answers valid cr_name new a (
        check_resource_quota floats a.settings new cr.status.source_peer
          (map as_counted (list_executingapp_crs lists a.cluster)))

  -- no approval is asked for; of an error, the text is not kept
  unfoldable pub handle_remoteapp_spec_update :
      (lists answers valid : Bool) (app_id : String) → RemoteAppSpec → Agent → Result Unit × Agent
  handle_remoteapp_spec_update lists answers valid app_id new a =
      update_found lists answers valid new (get_ea_cr_by_app_id app_id a.cluster) a

  abbrev pub approve_found :
      (answers : Bool) (app_id : String) → Option Entry → Agent → Bool × Agent
  approve_found answers app_id none a = (false, a)
  approve_found answers app_id (some e) a =
      let b = save_state_configmap (record a { pending = erase app_id a.pending }) in
      (
        true,
        record b {
          cluster =
              (create_executingapp_cr unicode answers app_id e.name e.spec e.source_peer
                b.cluster).1;
        },
      )

  -- false: a 404
  unfoldable pub approve_remoteapp : (answers : Bool) (app_id : String) → Agent → Bool × Agent
  approve_remoteapp answers app_id a = approve_found answers app_id (lookup app_id a.pending) a

abbrev pub reject_found : (reachable : Bool) (app_id : String) → Option Entry → Agent → Bool × Agent
reject_found reachable app_id none a = (false, a)
reject_found reachable app_id (some e) a =
    let b = save_state_configmap (record a { pending = erase app_id a.pending }) in
    (true, if reachable then notify (status_rejected e.source_peer app_id) b else b)

-- `reachable` is whether the push to the peer succeeds
unfoldable pub reject_remoteapp : (reachable : Bool) (app_id : String) → Agent → Bool × Agent
reject_remoteapp reachable app_id a = reject_found reachable app_id (lookup app_id a.pending) a

abbrev pub delete_found : (answers : Bool) → Option (String × ExecutingCr) → Agent → Agent
delete_found answers none a = a
delete_found answers (some (cr_name, cr)) a = record a {
  cluster = delete_executingapp_cr answers cr_name a.cluster;
}

unfoldable pub handle_remoteapp_delete : (answers : Bool) (app_id : String) → Agent → Agent
handle_remoteapp_delete answers app_id a =
    delete_found answers (get_ea_cr_by_app_id app_id a.cluster) a

-- the restart of porpulsion/agent.py: entries without an id are left out
unfoldable pub restore_pending : List Entry → Dict Entry → Dict Entry
restore_pending [] d = d
restore_pending (e ∷ es) d =
    if is_empty e.id then restore_pending es d else restore_pending es (insert e.id e d)

pub data Step : Type 0 where
  receive : (now fresh : String) (lists answers valid : Bool) → Submission → Step
  update : (lists answers valid : Bool) (app_id : String) → RemoteAppSpec → Step
  approve : (answers : Bool) (app_id : String) → Step
  reject : (reachable : Bool) (app_id : String) → Step
  delete : (answers : Bool) (app_id : String) → Step

module _ (unicode : Unicode) (floats : Floats) where
  unfoldable pub step : Step → Agent → Agent
  step (receive now fresh lists answers valid sub) a =
      (handle_remoteapp_receive unicode floats now fresh lists answers valid sub a).1
  step (update lists answers valid app_id new) a =
      (handle_remoteapp_spec_update unicode floats lists answers valid app_id new a).1
  step (approve answers app_id) a = (approve_remoteapp unicode floats answers app_id a).1
  step (reject reachable app_id) a = (reject_remoteapp reachable app_id a).1
  step (delete answers app_id) a = handle_remoteapp_delete answers app_id a

  unfoldable pub steps : List Step → Agent → Agent
  steps [] a = a
  steps (s ∷ ss) a = steps ss (step s a)
