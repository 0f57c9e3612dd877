-- ===== src/Kopf.antt =====
-- porpulsion/k8s/kopf_handlers.py: what an agent does when a RemoteApp or an ExecutingApp resource is
-- created, changed or deleted, with `bootstrap_cr_status` of porpulsion/k8s/store.py and
-- `handle_remoteapp_status` of porpulsion/channel_handlers.py. Kopf calls a handler again after a
-- `TemporaryError`, with the resource as it then is, and never after a `PermanentError`.
pub mod Rejections
pub mod Retries
pub mod Messages
pub mod Executing
mod Tests
use porpulsion.Prelude.{
  ℕ, String, Bool, true, false, not, ◌&&◌, ◌||◌, Option, none, some, List, [], ◌∷◌, Dict, lookup,
  insert, any, or_default, ◌==◌, if◌then◌else◌,
}
use porpulsion.Prelude.Text.{is_empty, has_text, starts_with, text}
use porpulsion.Prelude.Exec.{Result, ok, err}
use porpulsion.Peers.{Peer, can_deploy}

-- how a handler ends: by itself, or by one of kopf's errors
pub data Outcome : Type 0 where
  finished : Outcome
  temporary : (message : String) (delay : ℕ) → Outcome
  permanent : (message : String) → Outcome

-- the calls to a peer; each carries the id of the app
pub data Sent : Type 0 where
  receive spec_update delete : (peer app_id : String) → Sent

-- the status of a resource as the cluster holds it, and what went out
pub record Cr : Type 0 where
  pub name : String
  pub target_peer : String
  pub status : Dict String
  pub sent : List Sent
  -- the names of the failed workloads that a notification told of
  pub alerts : List String

-- what one attempt meets: a new id, whether the API takes what it is asked, the peers, and what the call
-- to the peer gives (`err` also where there is no channel)
pub record Attempt : Type 0 where
  pub fresh : String
  pub answers : Bool
  pub peers : Dict Peer
  pub reply : Result Unit

-- `status.get(key, "")`
abbrev pub status_at : String → Cr → String
status_at key cr = or_default "" (lookup key cr.status)

abbrev merged : Dict String → Dict String → Dict String
merged [] status = status
merged ((k, v) ∷ fields) status = merged fields (insert k v status)

-- `_patch_status`, best effort
unfoldable pub patch_status : (answers : Bool) → Dict String → Cr → Cr
patch_status answers fields cr =
    if answers then record cr { status = merged fields cr.status } else cr

-- `update_remoteapp_cr_status` without its time; no message is given
unfoldable pub update_status : (answers : Bool) (phase app_id : String) → Cr → Cr
unfolding patch_status
update_status answers phase app_id =
    patch_status answers (("phase", phase) ∷ ("appId", app_id) ∷ ("message", "") ∷ [])

-- the resource is looked for by the id in its status
unfoldable pub handle_remoteapp_status : (answers : Bool) (app_id status : String) → Cr → Cr
unfolding update_status
handle_remoteapp_status answers app_id status cr =
    let updated = update_status answers status app_id cr in
    if answers && (status_at "appId" cr == app_id)
    then if starts_with status "Failed" || status == "Timeout"
      then record updated { alerts = cr.name ∷ updated.alerts }
      else updated
    else cr

-- `bootstrap_cr_status` for a status without an id
unfoldable pub bootstrap_cr_status : (answers : Bool) (fresh : String) → Cr → Cr
unfolding patch_status
bootstrap_cr_status answers fresh =
    patch_status answers (("phase", "Pending") ∷ ("appId", fresh) ∷ [])

abbrev pub log_call : Sent → Cr → Cr
log_call s cr = record cr { sent = s ∷ cr.sent }

-- `_peer_rejection_phrases`
abbrev pub rejection_phrases : List String
rejection_phrases =
    "inbound workloads are disabled" ∷ "Insufficient" ∷ "quota" ∷ "not permitted" ∷ "blocked image"
    ∷ "is blocked" ∷ "allowed image list" ∷ "spec invalid" ∷ "not allowed" ∷ "cluster's policy" ∷ []

unfoldable pub is_rejection : String → Bool
unfolding has_text
is_rejection message = any (has_text message) rejection_phrases

abbrev pub rejected_by : (peer message : String) → String
rejected_by peer message = text ("Rejected by " ∷ peer ∷ ": " ∷ message ∷ [])

abbrev pub not_connected : String → String
not_connected peer = text ("peer '" ∷ peer ∷ "' not connected" ∷ [])

abbrev pub incoming_only : String → String
incoming_only peer = text (
    "Cannot deploy to '" ∷ peer ∷ "' — they connected to us (incoming only). "
    ∷ "Paste their invite bundle to enable bidirectional peering." ∷ [])

abbrev pub failed_status : (app_id message : String) → Dict String
failed_status app_id message = ("phase", "Failed") ∷ ("appId", app_id) ∷ ("message", message) ∷ []

abbrev pub no_id : Outcome
no_id = temporary "appId not set in status yet" 1

module _ (att : Attempt) (app_id : String) where
  -- the answer of the peer to the call
  abbrev pub answered : Result Unit → Cr → Outcome × Cr
  answered (ok _) cr = (finished, cr)
  answered (err e) cr =
      if is_rejection e
      then (
        permanent e,
        handle_remoteapp_status att.answers app_id "Failed"
            (patch_status att.answers (failed_status app_id (rejected_by cr.target_peer e)) cr),
      )
      else (temporary (text ("failed to forward to peer " ∷ cr.target_peer ∷ ": " ∷ e ∷ [])) 5, cr)

  abbrev pub forwarded : Option Peer → Cr → Outcome × Cr
  forwarded none cr = (temporary (not_connected cr.target_peer) 5, cr)
  forwarded (some p) cr =
      if can_deploy p then answered att.reply (log_call (receive p.name app_id) cr) else (
        permanent (incoming_only cr.target_peer),
        patch_status att.answers (failed_status app_id (incoming_only cr.target_peer)) cr,
      )

  abbrev pub with_id : Cr → Outcome × Cr
  with_id cr =
      if is_empty app_id
      then (no_id, cr)
      else if is_empty cr.target_peer
      then (finished, cr)
      else forwarded (lookup cr.target_peer att.peers) cr

unfoldable pub on_remoteapp_created : Attempt → Cr → Outcome × Cr
on_remoteapp_created att cr =
    if is_empty (status_at "appId" cr)
    then with_id att att.fresh (bootstrap_cr_status att.answers att.fresh cr)
    else with_id att (status_at "appId" cr) cr

abbrev pub told : (message : String → String) (delay : ℕ) → Result Unit → Outcome
told message delay (ok _) = finished
told message delay (err e) = temporary (message e) delay

abbrev pub updated : Attempt → (app_id : String) → Option Peer → Cr → Outcome × Cr
updated att app_id none cr = (temporary (not_connected cr.target_peer) 5, cr)
updated att app_id (some p) cr = (
  told (λ e. text ("failed to forward spec update to peer " ∷ cr.target_peer ∷ ": " ∷ e ∷ [])) 5
      att.reply,
  log_call (spec_update p.name app_id) cr,
)

unfoldable pub on_remoteapp_spec_updated : Attempt → Cr → Outcome × Cr
on_remoteapp_spec_updated att cr =
    let app_id = status_at "appId" cr in
    if is_empty app_id
    then (no_id, cr)
    else if is_empty cr.target_peer
    then (finished, cr)
    else updated att app_id (lookup cr.target_peer att.peers) cr

abbrev pub removed : Attempt → (app_id : String) → Option Peer → Cr → Outcome × Cr
removed att app_id none cr = (finished, cr)
removed att app_id (some p) cr = if status_at "status" cr == "Deleted" then (finished, cr) else (
  told (λ e. text ("failed to notify peer " ∷ cr.target_peer ∷ " of RA deletion: " ∷ e ∷ [])) 10
      att.reply,
  log_call (delete p.name app_id) cr,
)

unfoldable pub on_remoteapp_deleted : Attempt → Cr → Outcome × Cr
on_remoteapp_deleted att cr =
    let app_id = status_at "appId" cr in
    if is_empty cr.target_peer || is_empty app_id
    then (finished, cr)
    else removed att app_id (lookup cr.target_peer att.peers) cr
