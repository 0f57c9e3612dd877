-- ===== src/Apps/Volumes.antt =====
-- The data of a volume: `patch_cr_volume_data` of porpulsion/k8s/store.py, and the routes of
-- porpulsion/routes/workloads.py that read and write it.
use porpulsion.Prelude.{
  String, Bool, true, false, Option, none, some, or_default, List, [], ◌∷◌, Dict, insert,
  find_first, map, ◌==◌, if◌then◌else◌,
}
use porpulsion.Apps.{
  Base64, Volume, AppCr, Desk, Side, submitted_side, executing_side, get_cr_by_app_id,
  executing_first,
}

pub data Kind : Type 0 where
  configmap secret : Kind

-- the entry of the name gets the data; `none` where there is no such entry
abbrev pub behind : Volume → Option (List Volume) → Option (List Volume)
behind v none = none
behind v (some vs) = some (v ∷ vs)

unfoldable pub set_content : (name : String) → Dict String → List Volume → Option (List Volume)
set_content name content [] = none
set_content name content (v ∷ vs) =
    let rest = set_content name content vs in
    if v.name == name then some (record v { content = content } ∷ vs) else behind v rest

-- the first entry of the name
unfoldable pub read_volume : (name : String) → List Volume → Option Volume
read_volume name vs = find_first (λ v. v.name == name) vs

abbrev pub volumes_of : Kind → AppCr → List Volume
volumes_of configmap cr = cr.config_maps
volumes_of secret cr = cr.secrets

abbrev pub with_volumes : Kind → List Volume → AppCr → AppCr
with_volumes configmap vs cr = record cr { config_maps = vs }
with_volumes secret vs cr = record cr { secrets = vs }

abbrev pub put_back : Side → (cr_name : String) → AppCr → Desk → Desk
put_back submitted_side cr_name cr desk = record desk {
  submitted = insert cr_name cr desk.submitted;
}
put_back executing_side cr_name cr desk = record desk {
  executing = insert cr_name cr desk.executing;
}

abbrev pub patched : Kind → Side → (cr_name : String) → AppCr → Desk → Option (List Volume) → Desk
patched kind side cr_name cr desk none = desk
patched kind side cr_name cr desk (some vs) = put_back side cr_name (with_volumes kind vs cr) desk

module _ (base64 : Base64) where
  abbrev pub stored : Kind → Dict String → Dict String
  stored configmap content = content
  stored secret content = map (λ e. (e.0, base64.encode e.1)) content

  abbrev pub patch_found :
      Kind → (name : String) → Dict String → Desk → Option (Side × String × AppCr) → Desk
  patch_found kind name content desk none = desk
  patch_found kind name content desk (some (side, cr_name, cr)) =
      patched kind side cr_name cr desk
        (set_content name (stored kind content) (volumes_of kind cr))

  -- `answers` is whether the API takes the patch
  unfoldable pub patch_cr_volume_data :
      (answers : Bool) (app_id : String) → Kind → (name : String) → Dict String → Desk → Desk
  patch_cr_volume_data answers app_id kind name content desk =
      if answers then patch_found kind name content desk (executing_first app_id desk) else desk

  -- a value that does not decode is shown as it is
  abbrev pub shown : Dict String → Dict String
  shown content = map (λ e. (e.0, or_default e.1 (base64.decode e.1))) content

  abbrev pub secret_of : Option Volume → Dict String
  secret_of none = []
  secret_of (some v) = shown v.content

  abbrev pub secret_in : (name : String) → Option (Side × String × AppCr) → Option (Dict String)
  secret_in name none = none
  secret_in name (some (side, cr_name, cr)) = some (secret_of (read_volume name cr.secrets))

  -- `none` is a 404
  unfoldable pub get_app_secret : (app_id name : String) → Desk → Option (Dict String)
  unfolding read_volume
  get_app_secret app_id name desk = secret_in name (get_cr_by_app_id app_id desk)

  -- a submitted app is patched at its peer first; `forwarded` is whether that call succeeds, `live`
  -- whether the Secret of an app that runs here could be replaced
  abbrev pub patch_on_side :
      (forwarded live answers : Bool) (app_id name : String)
      → Dict String
      → Desk
      → Option (Side × String × AppCr)
      → Bool × Desk
  patch_on_side forwarded live answers app_id name content desk none = (false, desk)
  patch_on_side forwarded live answers app_id name content desk
        (some (submitted_side, cr_name, cr)) =
      if forwarded
      then (true, patch_cr_volume_data answers app_id secret name content desk)
      else (false, desk)
  patch_on_side forwarded live answers app_id name content desk
        (some (executing_side, cr_name, cr)) =
      if live
      then (true, patch_cr_volume_data answers app_id secret name content desk)
      else (false, desk)

  -- false: an error is answered
  unfoldable pub patch_app_secret :
      (forwarded live answers : Bool) (app_id name : String) → Dict String → Desk → Bool × Desk
  patch_app_secret forwarded live answers app_id name content desk =
      patch_on_side forwarded live answers app_id name content desk (get_cr_by_app_id app_id desk)
