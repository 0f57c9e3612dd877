-- ===== src/Apps/Forwarding.antt =====
-- A config patch that goes to the peer of an app: `_forward_config_patch` of porpulsion/routes/workloads.py
-- and `handle_remoteapp_config_patch` of porpulsion/channel_handlers.py.
use porpulsion.Prelude.{
  String, Bool, true, false, ◌≡◌, refl, Option, none, some, [], ◌∷◌, Dict, lookup, IsDistinct, ◌==◌,
  eq_refl, if◌then◌else◌,
}
use porpulsion.Prelude.Exec.{Result, ok, err, Exec}
use porpulsion.Peers.{Peer}
use porpulsion.Apps.{
  Base64, Volume, AppCr, Desk, Side, submitted_side, executing_side, by_app_id, get_cr_by_app_id,
}
use porpulsion.Apps.Volumes.{
  Kind, configmap, secret, read_volume, patch_cr_volume_data, get_app_secret, patch_app_secret,
}
use porpulsion.Apps.Editing.{IsOnly, IsOnly-found, read_after, patches}

-- `payload["kind"]` as the handler reads it
abbrev pub kind_of : String → Option Kind
kind_of kind =
    if kind == "configmap" then some configmap else if kind == "secret" then some secret else none

abbrev pub name_of : Kind → String
name_of configmap = "configmap"
name_of secret = "secret"

-- `state.peers.get(target) or next(iter(state.peers.values()), None)`
abbrev pub peer_or_first : Dict Peer → Option Peer → Option Peer
peer_or_first peers (some p) = some p
peer_or_first [] none = none
peer_or_first ((k, p) ∷ peers) none = some p

abbrev or_raise : Option Peer → Result Peer
or_raise none = err "peer not connected"
or_raise (some p) = ok p

-- the peer that is called
abbrev pub peer_of : Dict Peer → Option (Side × String × AppCr) → Result Peer
peer_of peers none = err "app not found"
peer_of peers (some (executing_side, cr_name, cr)) = err "app not found"
peer_of peers (some (submitted_side, cr_name, cr)) =
    or_raise (peer_or_first peers (lookup cr.target_peer peers))

abbrev is_ok : Result Unit → Bool
is_ok (ok _) = true
is_ok (err e) = false

module _ (base64 : Base64) where
  -- `live` and `restarts` are whether the volume can be replaced, and the deployment restarted, without an
  -- exception; `answers` is as in `patch_cr_volume_data`
  abbrev apply_patch :
      (live answers restarts : Bool) (id : String)
      → Option Kind
      → (name : String) → Dict String
      → Exec Desk Unit
  apply_patch live answers restarts id none name content desk = (err "unknown config kind", desk)
  apply_patch live answers restarts id (some kind) name content desk =
      if live
      then (
        if restarts then ok tt else err "restart failed",
        patch_cr_volume_data base64 answers id kind name content desk,
      )
      else (err "patch failed", desk)

  abbrev at_found :
      (live answers restarts : Bool) (id kind name : String)
      → Dict String
      → Option (String × AppCr)
      → Exec Desk Unit
  at_found live answers restarts id kind name content none desk = (err "app not found", desk)
  at_found live answers restarts id kind name content (some e) desk =
      apply_patch live answers restarts id (kind_of kind) name content desk

  unfoldable pub handle_remoteapp_config_patch :
      (live answers restarts : Bool) (id kind name : String) → Dict String → Exec Desk Unit
  handle_remoteapp_config_patch live answers restarts id kind name content desk =
      at_found live answers restarts id kind name content (by_app_id id desk.executing) desk

  -- two agents, the first of which has the second under a name; a call to another peer fails
  abbrev call_at :
      (remote : String) → (String → Exec Desk Unit) → Result Peer → (kind : String) → Exec Desk Unit
  call_at remote serve (err e) kind desk = (err e, desk)
  call_at remote serve (ok p) kind desk =
      if p.name == remote then serve kind desk else (err "not connected", desk)

  -- `serve` is the handler of the peer `remote`, over its resources
  unfoldable pub forward_config_patch :
      (serve : (id kind name : String) → Dict String → Exec Desk Unit)
      → Dict Peer
      → (remote app_id : String) → Kind
      → (name : String) → Dict String
      → Desk
      → Exec Desk Unit
  forward_config_patch serve peers remote app_id kind name content desk =
      call_at remote (λ k. serve app_id k name content)
        (peer_of peers (get_cr_by_app_id app_id desk)) (name_of kind)

  -- `patch_app_secret` for a submitted app, with the peer's resources
  unfoldable pub patch_both :
      (serve : (id kind name : String) → Dict String → Exec Desk Unit)
      → (answers : Bool) → Dict Peer
      → (remote app_id name : String) → Dict String
      → Desk
      → Desk
      → Bool × Desk × Desk
  patch_both serve answers peers remote app_id name content desk there =
      let (r, there_after) =
        forward_config_patch serve peers remote app_id secret name content desk there in
      let (done, after) = patch_app_secret base64 (is_ok r) true answers app_id name content desk in
      (done, after, there_after)

  abbrev pub willing : (id kind name : String) → Dict String → Exec Desk Unit
  willing = handle_remoteapp_config_patch true true true

  served :
      (app_id name : String) (content : Dict String) (there : Desk) (cr_name : String) (cr : AppCr)
      → IsOnly executing_side app_id there cr_name cr
      → handle_remoteapp_config_patch true true true app_id "secret" name content there
        ≡ (ok tt, patch_cr_volume_data base64 true app_id secret name content there)
  unfolding handle_remoteapp_config_patch
  served app_id name content there cr_name cr only = rw only.0 refl

  forwarded :
      (peers : Dict Peer) (app_id name : String) (content : Dict String) (desk there : Desk)
      (cr_name there_name : String) (cr there_cr : AppCr) (p : Peer)
      → IsOnly submitted_side app_id desk cr_name cr
      → IsOnly executing_side app_id there there_name there_cr
      → lookup cr.target_peer peers ≡ some p
      → forward_config_patch willing peers p.name app_id secret name content desk there
        ≡ (ok tt, patch_cr_volume_data base64 true app_id secret name content there)
  unfolding forward_config_patch
  forwarded peers app_id name content desk there cr_name there_name cr there_cr p only only_there
        known =
      let (found, first_found) = IsOnly-found submitted_side app_id desk cr_name cr only in
      rw (found, known, eq_refl p.name)
        (served app_id name content there there_name there_cr only_there)

  -- Writing a Secret of a submitted app, when the calls succeed, leaves the agent that submitted the app
  -- and the one that runs it with the same data: both read what was written.
  pub secret_in_sync :
      (peers : Dict Peer) (app_id name : String) (content : Dict String) (desk there : Desk)
      (cr_name there_name : String) (cr there_cr : AppCr) (p : Peer) (v w : Volume)
      → IsDistinct desk.submitted × IsDistinct desk.executing
      → IsDistinct there.submitted × IsDistinct there.executing
      → IsOnly submitted_side app_id desk cr_name cr
      → IsOnly executing_side app_id there there_name there_cr
      → lookup cr.target_peer peers ≡ some p
      → read_volume name cr.secrets ≡ some v
      → read_volume name there_cr.secrets ≡ some w
      → let (done, after, there_after) =
          patch_both willing true peers p.name app_id name content desk there in
        (done ≡ true)
        × (get_app_secret base64 app_id name after ≡ some content)
        × (get_app_secret base64 app_id name there_after ≡ some content)
  unfolding patch_both
  secret_in_sync peers app_id name content desk there cr_name there_name cr there_cr p v w (ds, de)
        (ts, te) only only_there known has has_there =
      let (found, first_found) = IsOnly-found submitted_side app_id desk cr_name cr only in
      rw
        (
          forwarded peers app_id name content desk there cr_name there_name cr there_cr p only
              only_there known,
          patches base64 submitted_side app_id name content desk cr_name cr found,
        )
        (
          refl,
          read_after base64 submitted_side app_id name content desk cr_name cr v ds de only has,
          read_after base64 executing_side app_id name content there there_name there_cr w ts te
              only_there has_there,
        )
