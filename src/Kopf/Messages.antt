-- ===== src/Kopf/Messages.antt =====
-- What the owner of a RemoteApp reads of a refusal: `on_remoteapp_created` of
-- porpulsion/k8s/kopf_handlers.py with `handle_remoteapp_status` of porpulsion/channel_handlers.py.
use porpulsion.Prelude.{
  String, true, false, ◌&&◌, ◌≡◌, refl, ap, ◌∙◌, some, lookup, lookup-insert, lookup-insert_self,
  eq_refl, or_default, ◌==◌, if-holds, if-holds_by, ◌||◌,
}
use porpulsion.Prelude.Text.{is_empty, starts_with}
use porpulsion.Prelude.Exec.{err}
use porpulsion.Peers.{Peer, can_deploy}
use porpulsion.Kopf.{
  permanent, receive, Cr, Attempt, status_at, patch_status, update_status, handle_remoteapp_status,
  log_call, is_rejection, rejected_by, failed_status, on_remoteapp_created,
}

module _ (app_id : String) (cr : Cr) (message : String) where
  abbrev patched : Cr
  patched = patch_status true (failed_status app_id message) cr

  patched-id : status_at "appId" patched ≡ app_id
  unfolding patch_status
  patched-id =
      ap (or_default "")
        (lookup-insert "message" "appId" message _ ∙ lookup-insert_self "appId" app_id _)

  found : (true && (status_at "appId" patched == app_id)) ≡ true
  found = ap (λ i. i == app_id) patched-id ∙ eq_refl app_id

  -- the handler finds the resource, and writes its own fields over those of the refusal
  told-as :
      (key value : String)
      → status_at key (update_status true "Failed" app_id patched) ≡ value
      → status_at key (handle_remoteapp_status true app_id "Failed" patched) ≡ value
  unfolding handle_remoteapp_status
  told-as key value h =
      if-holds_by (λ (c : Cr). status_at key c ≡ value)
        (true && (status_at "appId" patched == app_id)) _ patched
        (λ _.
          if-holds (λ (c : Cr). status_at key c ≡ value)
            (starts_with "Failed" "Failed" || "Failed" == "Timeout") _ _ h h)
        (λ lost. cc (found, lost))

  told-Failed : status_at "phase" (handle_remoteapp_status true app_id "Failed" patched) ≡ "Failed"
  unfolding update_status
  told-Failed = told-as "phase" "Failed" (
      ap (or_default "") (
        lookup-insert "message" "phase" "" _
        ∙ lookup-insert "appId" "phase" app_id _
        ∙ lookup-insert_self "phase" "Failed" _))

  told-blank : status_at "message" (handle_remoteapp_status true app_id "Failed" patched) ≡ ""
  unfolding update_status
  told-blank = told-as "message" "" (ap (or_default "") (lookup-insert_self "message" "" _))

-- Where a peer refuses a workload, kopf is told to give up and the status becomes "Failed"; but the
-- reason, which is written into the status first, is overwritten with an empty message at once.
pub refusal_is_blanked :
    (a : Attempt) (cr : Cr) (p : Peer) (e : String)
    → is_empty (status_at "appId" cr) ≡ false
    → is_empty cr.target_peer ≡ false
    → lookup cr.target_peer a.peers ≡ some p
    → can_deploy p ≡ true
    → a.answers ≡ true
    → a.reply ≡ err e
    → is_rejection e ≡ true
    → let (o, cr') = on_remoteapp_created a cr in
      (o ≡ permanent e) × (status_at "phase" cr' ≡ "Failed") × (status_at "message" cr' ≡ "")
unfolding on_remoteapp_created
refusal_is_blanked a cr p e named aimed known deploys takes reply listed =
    let sent = log_call (receive p.name (status_at "appId" cr)) cr in
    rw (named, aimed, known, deploys, reply, listed, takes)
      (
        refl,
        told-Failed (status_at "appId" cr) sent (rejected_by cr.target_peer e),
        told-blank (status_at "appId" cr) sent (rejected_by cr.target_peer e),
      )
