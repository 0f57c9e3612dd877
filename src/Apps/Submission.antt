-- ===== src/Apps/Submission.antt =====
-- The submission of an app: `create_remoteapp`, `_encode_spec_secrets` and `_check_crd_compatibility` of
-- porpulsion/routes/workloads.py over `create_remoteapp_cr` and `remoteapp_name_exists` of
-- porpulsion/k8s/store.py. The YAML of a request is read before.
use porpulsion.Prelude.{
  String, Bool, true, false, not, Option, none, some, List, [], ◌∷◌, Dict, lookup, contains, insert,
  ◌==◌, find_first, keep, values, inl, inr, ◌⊎◌, if◌then◌else◌,
}
use porpulsion.Prelude.Text.{is_empty, letters}
use porpulsion.Prelude.Json.{
  Json, null, bool, int, str, arr, obj, Items, nil, cons, Fields, end, field, to_dict,
}
use porpulsion.Peers.{Peer, can_deploy}
use porpulsion.Settings.{truthy}
use porpulsion.Workloads.Naming.{Unicode, cr_name}
use porpulsion.Apps.{Base64, ◌>>=◌}

-- the specs of the RemoteApp resources by name; `available` is whether the CRD is installed
pub record Remotes : Type 0 where
  pub available : Bool
  pub remote : Dict (Dict Json)

-- `spec.get(f) in (None, [], {})`
abbrev pub is_blank : Option Json → Bool
is_blank none = true
is_blank (some null) = true
is_blank (some (arr nil)) = true
is_blank (some (obj end)) = true
is_blank (some (arr (cons x xs))) = false
is_blank (some (obj (field k v fs))) = false
is_blank (some (bool b)) = false
is_blank (some (int n)) = false
is_blank (some (str s)) = false

abbrev any_of : List String → Option (List String)
any_of [] = none
any_of (f ∷ fs) = some (f ∷ fs)

-- the fields that the spec uses and the CRD of the peer lacks
unfoldable pub check_crd_compatibility : Peer → Dict Json → Option (List String)
check_crd_compatibility peer spec =
    any_of (keep (λ f. not (is_blank (lookup f spec))) peer.crd_diff.missing_remote)

-- `d[k] = v`
abbrev put : String → Json → Fields → Fields
put k v end = field k v end
put k v (field j u fs) = let rest = put k v fs in if j == k then field j v fs else field j u rest

abbrev keys_of : Fields → Items
keys_of end = nil
keys_of (field k v fs) = cons (str k) (keys_of fs)

abbrev of_texts : List String → Items
of_texts [] = nil
of_texts (t ∷ ts) = cons (str t) (of_texts ts)

-- `for x in v`, `none` where it raises
abbrev iterate : Json → Option Items
iterate (arr xs) = some xs
iterate (obj fs) = some (keys_of fs)
iterate (str s) = some (of_texts (letters s))
iterate (bool b) = none
iterate (int n) = none
iterate null = none

module _ (base64 : Base64) where
  abbrev encode_value : Json → Json
  encode_value (str s) = str (base64.encode s)
  encode_value null = null
  encode_value (bool b) = bool b
  encode_value (int n) = int n
  encode_value (arr xs) = arr xs
  encode_value (obj fs) = obj fs

  abbrev pub encode_fields : Fields → Fields
  encode_fields end = end
  encode_fields (field k v fs) = field k (encode_value v) (encode_fields fs)

  -- `(sec.get("data") or {}).items()`
  abbrev raw_data : Option Json → Option Fields
  raw_data none = some end
  raw_data (some (obj fs)) = some fs
  raw_data (some v) = if truthy v then none else some end

  abbrev encode_secret : Json → Option Json
  encode_secret (obj sec) = do
    raw ← raw_data (lookup "data" (to_dict sec))
    some (obj (put "data" (obj (encode_fields raw)) sec))
  encode_secret sec = some sec

  abbrev encode_items : Items → Option Items
  encode_items nil = some nil
  encode_items (cons x xs) = do y ← encode_secret x; ys ← encode_items xs; some (cons y ys)

  abbrev with_secrets : Dict Json → Json → Option (Dict Json)
  with_secrets spec secrets = do
    xs ← iterate secrets
    ys ← encode_items xs
    some (insert "secrets" (arr ys) spec)

  abbrev encode_secrets : Dict Json → Option Json → Option (Dict Json)
  encode_secrets spec none = some spec
  encode_secrets spec (some secrets) =
      if truthy secrets then with_secrets spec secrets else some spec

  -- `none` where it raises
  unfoldable pub encode_spec_secrets : Dict Json → Option (Dict Json)
  encode_spec_secrets spec = encode_secrets spec (lookup "secrets" spec)

pub record NewApp : Type 0 where
  pub name : String
  pub target_peer : String
  pub spec : Dict Json

-- `names_known` is whether the API tells if a resource is there, `answers` whether it then takes it
pub record Api : Type 0 where
  pub names_known : Bool
  pub answers : Bool

pub data CreateEnd : Type 0 where
  created name_required raised no_peers taken unknown_peer incoming_only no_outgoing_peers :
      CreateEnd
  incompatible : List String → CreateEnd

abbrev pub peer_or : CreateEnd → Option Peer → CreateEnd ⊎ Peer
peer_or outcome none = inl outcome
peer_or outcome (some p) = inr p

abbrev pub outgoing_or : Option Peer → CreateEnd ⊎ Peer
outgoing_or none = inl unknown_peer
outgoing_or (some p) = if can_deploy p then inr p else inl incoming_only

-- the peer that is named, or the first that takes workloads
abbrev pub target_of : (target_peer : String) → Dict Peer → CreateEnd ⊎ Peer
target_of target_peer peers =
    if not (is_empty target_peer)
    then outgoing_or (lookup target_peer peers)
    else peer_or no_outgoing_peers (find_first can_deploy (values peers))

abbrev pub is_none_left : Dict Peer → Bool
is_none_left [] = true
is_none_left (e ∷ peers) = false

module _ (base64 : Base64) (unicode : Unicode) where
  unfoldable pub remoteapp_name_exists : (names_known : Bool) (name : String) → Remotes → Bool
  remoteapp_name_exists names_known name c =
      if c.available
      then if names_known then contains (cr_name unicode name) c.remote else false
      else false

  -- one of the same name is replaced
  unfoldable pub create_remoteapp_cr :
      (answers : Bool) (name : String)
      → Dict Json
      → (target_peer : String) → Remotes
      → Option String × Remotes
  create_remoteapp_cr answers name spec target_peer c =
      let n = cr_name unicode name in
      if c.available
      then if answers
        then (
          some n,
          record c { remote = insert n (insert "targetPeer" (str target_peer) spec) c.remote },
        )
        else (none, c)
      else (none, c)

  -- `_create_cr`; the name that it gives is only logged
  abbrev pub create_at :
      Api
      → (name : String) → Dict Json
      → Remotes
      → Peer
      → Option (List String)
      → CreateEnd × Remotes
  create_at api name spec c p (some used) = (incompatible used, c)
  create_at api name spec c p none =
      let (made, after) =
        create_remoteapp_cr api.answers name (insert "targetPeer" (str p.name) spec) p.name c in
      (created, after)

  abbrev pub create_for :
      Api → (name : String) → Dict Json → Remotes → CreateEnd ⊎ Peer → CreateEnd × Remotes
  create_for api name spec c (inl outcome) = (outcome, c)
  create_for api name spec c (inr p) = create_at api name spec c p (check_crd_compatibility p spec)

  abbrev pub submit : Api → Dict Peer → NewApp → Remotes → Option (Dict Json) → CreateEnd × Remotes
  submit api peers req c none = (raised, c)
  submit api peers req c (some spec) =
      if is_none_left peers
      then (no_peers, c)
      else if remoteapp_name_exists api.names_known req.name c
      then (taken, c)
      else create_for api req.name spec c (target_of req.target_peer peers)

  unfoldable pub create_remoteapp : Api → Dict Peer → NewApp → Remotes → CreateEnd × Remotes
  create_remoteapp api peers req c =
      if is_empty req.name
      then (name_required, c)
      else submit api peers req c (encode_spec_secrets base64 req.spec)
