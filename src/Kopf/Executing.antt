-- ===== src/Kopf/Executing.antt =====
-- The ExecutingApp handlers of porpulsion/k8s/kopf_handlers.py: what a run is started with, and the notice
-- of a deletion.
use porpulsion.Prelude.{
  not-eq_true, not-eq_false, String, Bool, true, false, not, ◌&&◌, ◌≡◌, refl, ap, ◌∙◌, sym, Option,
  none, some, Dict, lookup, insert, lookup-insert, lookup-insert_self, or_default, if◌then◌else◌,
  if-holds_by,
}
use porpulsion.Prelude.Text.{is_empty}
use porpulsion.Workloads.Naming.{Unicode, safe_resource_name}
use porpulsion.Executor.{RemoteApp, DeploySpec, deploy_name}
use porpulsion.Kopf.{Outcome, finished, temporary, no_id}

-- `label_app_id` is the label that the program's own resources carry
pub record EaCr : Type 0 where
  pub name : String
  pub label_app_id : String
  pub status : Dict String
  pub spec : DeploySpec

abbrev pub ea_status_at : String → EaCr → String
ea_status_at key cr = or_default "" (lookup key cr.status)

-- `bootstrap_cr_status` for an ExecutingApp
unfoldable pub bootstrap_ea_status : Unicode → (answers : Bool) (fresh : String) → EaCr → EaCr
bootstrap_ea_status unicode answers fresh cr =
    if answers
    then record cr {
      status =
          insert "resourceName" (safe_resource_name unicode fresh cr.name)
            (insert "appId" fresh (insert "phase" "Pending" cr.status));
    }
    else cr

abbrev pub run_of : (app_id : String) → EaCr → RemoteApp
run_of app_id cr = record {
  id = app_id;
  name = cr.name;
  resource_name = ea_status_at "resourceName" cr;
  spec = cr.spec;
}

-- the run is started from the status as it was before the bootstrap
unfoldable pub run_executingapp :
    Unicode → (answers : Bool) (fresh : String) → EaCr → Outcome × Option RemoteApp × EaCr
run_executingapp unicode answers fresh cr =
    if not (is_empty (ea_status_at "appId" cr))
    then (finished, some (run_of (ea_status_at "appId" cr) cr), cr)
    else if not (is_empty cr.label_app_id)
    then (temporary "appId not in status yet, retrying" 1, none, cr)
    else if is_empty fresh
    then (no_id, none, bootstrap_ea_status unicode answers fresh cr)
    else (finished, some (run_of fresh cr), bootstrap_ea_status unicode answers fresh cr)

-- `on_executingapp_deleted` after its event is set; `reachable` is whether the push succeeds
unfoldable pub notify_deletion : (reachable : Bool) → EaCr → Option (String × String)
notify_deletion reachable cr =
    let app_id = ea_status_at "appId" cr in
    let source_peer = ea_status_at "sourcePeer" cr in
    if not (is_empty source_peer) && not (is_empty app_id) && reachable
    then some (source_peer, app_id)
    else none

-- what is started, if anything is, has the id and the names that the status of the resource holds then
abbrev pub MatchesStatus : Unicode → Option RemoteApp → EaCr → Type 0
MatchesStatus unicode none cr = Unit
MatchesStatus unicode (some app) cr =
    (app.id ≡ ea_status_at "appId" cr) × (deploy_name unicode app ≡ ea_status_at "resourceName" cr)

abbrev Matching : Unicode → Outcome × Option RemoteApp × EaCr → Type 0
Matching unicode (o, app, cr) = MatchesStatus unicode app cr

module _ (unicode : Unicode) (app_id : String) (cr : EaCr) where
  run_of-named :
      is_empty (ea_status_at "resourceName" cr) ≡ false
      → deploy_name unicode (run_of app_id cr) ≡ ea_status_at "resourceName" cr
  unfolding deploy_name
  run_of-named h = rw h

  run_of-unnamed :
      is_empty (ea_status_at "resourceName" cr) ≡ true
      → deploy_name unicode (run_of app_id cr) ≡ safe_resource_name unicode app_id cr.name
  unfolding deploy_name
  run_of-unnamed h = rw h

  bootstrapped-id : ea_status_at "appId" (bootstrap_ea_status unicode true app_id cr) ≡ app_id
  unfolding bootstrap_ea_status
  bootstrapped-id =
      ap (or_default "")
        (lookup-insert "resourceName" "appId" _ _ ∙ lookup-insert_self "appId" app_id _)

  bootstrapped-name :
      ea_status_at "resourceName" (bootstrap_ea_status unicode true app_id cr)
      ≡ safe_resource_name unicode app_id cr.name
  unfolding bootstrap_ea_status
  bootstrapped-name = ap (or_default "") (lookup-insert_self "resourceName" _ _)

-- A run is started only under the id and for the Deployment that the status names when the handler
-- returns: those that are in it, or those that the bootstrap of a resource without label wrote. This
-- takes that an id in the status comes with a resource name, and that the status can be written.
pub run-MatchesStatus :
    (unicode : Unicode) (fresh : String) (cr : EaCr)
    → is_empty (ea_status_at "appId" cr) ≡ is_empty (ea_status_at "resourceName" cr)
    → let (o, app, cr') = run_executingapp unicode true fresh cr in MatchesStatus unicode app cr'
unfolding run_executingapp
run-MatchesStatus unicode fresh cr both =
    if-holds_by (λ (x : Outcome × Option RemoteApp × EaCr). Matching unicode x)
      (not (is_empty (ea_status_at "appId" cr))) _ _
      (λ known.
        (refl, run_of-named unicode (ea_status_at "appId" cr) cr (sym both ∙ not-eq_true _ known)))
      (λ new.
        if-holds_by (λ (x : Outcome × Option RemoteApp × EaCr). Matching unicode x)
          (not (is_empty cr.label_app_id)) _ _ (λ _. tt)
          (λ _.
            if-holds_by (λ (x : Outcome × Option RemoteApp × EaCr). Matching unicode x)
              (is_empty fresh) _ _ (λ _. tt)
              (λ _. (
                sym (bootstrapped-id unicode fresh cr),
                run_of-unnamed unicode fresh cr (sym both ∙ not-eq_false _ new)
                    ∙ sym (bootstrapped-name unicode fresh cr),
              ))))
