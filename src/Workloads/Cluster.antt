-- ===== src/Workloads/Cluster.antt =====
-- The ExecutingApp resources of the cluster: `create_executingapp_cr`, `delete_executingapp_cr`,
-- `get_ea_cr_by_app_id` and the status update of porpulsion/k8s/store.py. The Kubernetes API is a dict
-- of the resources by name; `answers` is whether it takes a request.
use porpulsion.Prelude.{
  String, Bool, Option, none, some, List, [], ◌∷◌, Dict, lookup, insert, erase, values, ◌==◌,
  find_first, if◌then◌else◌,
}
use porpulsion.Policy.{RemoteAppSpec, ExecutingApp}
use porpulsion.Workloads.Naming.{Unicode, ea_cr_name, safe_resource_name}

pub record Status : Type 0 where
  pub phase : String
  pub app_id : String
  pub source_peer : String
  pub resource_name : String

-- `label_app_id` and `label_source_peer` are the labels of the metadata
pub record ExecutingCr : Type 0 where
  pub label_app_id : String
  pub label_source_peer : String
  pub spec : RemoteAppSpec
  pub status : Status

-- what the quota reads of a resource
abbrev pub as_counted : ExecutingCr → ExecutingApp
as_counted cr = record {
  phase = cr.status.phase;
  replicas = some cr.spec.replicas;
  requests = cr.spec.resources.requests;
}

-- `available` is whether the CRD is installed
pub record Cluster : Type 0 where
  pub available : Bool
  pub executing : Dict ExecutingCr

-- `lists` is whether the API gives the list; where it does not, the cluster looks empty
unfoldable pub list_executingapp_crs : (lists : Bool) → Cluster → List ExecutingCr
list_executingapp_crs lists c =
    if c.available then (if lists then values c.executing else []) else []

module _ (unicode : Unicode) where
  -- a new resource is pending; one of the same name gets the new labels and spec and keeps its status
  abbrev pub created :
      (app_id name : String)
      → RemoteAppSpec
      → (source_peer : String) → Option ExecutingCr
      → ExecutingCr
  created app_id name spec source_peer none = record {
    label_app_id = app_id;
    label_source_peer = source_peer;
    spec = spec;
    status = record {
      phase = "Pending";
      app_id = app_id;
      source_peer = source_peer;
      resource_name = safe_resource_name unicode app_id name;
    };
  }
  created app_id name spec source_peer (some old) = record {
    label_app_id = app_id;
    label_source_peer = source_peer;
    spec = spec;
    status = old.status;
  }

  unfoldable pub create_executingapp_cr :
      (answers : Bool) (app_id name : String)
      → RemoteAppSpec
      → (source_peer : String) → Cluster
      → Option String × Cluster
  create_executingapp_cr answers app_id name spec source_peer c =
      let cr_name = ea_cr_name unicode app_id name in
      if c.available
      then if answers
        then (
          some cr_name,
          record c {
            executing =
                insert cr_name (created app_id name spec source_peer (lookup cr_name c.executing))
                  c.executing;
          },
        )
        else (none, c)
      else (none, c)

-- a JSON merge patch: the fields of a mapping that are not given stay
abbrev pub merged : (new old : Dict String) → Dict String
merged [] old = old
merged ((k, v) ∷ new) old = merged new (insert k v old)

abbrev pub patched : (new old : RemoteAppSpec) → RemoteAppSpec
patched new old = record {
  image = new.image;
  replicas = new.replicas;
  resources = record {
    requests = merged new.resources.requests old.resources.requests;
    limits = merged new.resources.limits old.resources.limits;
  };
}

abbrev pub with_spec : (cr_name : String) → RemoteAppSpec → Cluster → Option ExecutingCr → Cluster
with_spec cr_name new c none = c
with_spec cr_name new c (some cr) = record c {
  executing = insert cr_name (record cr { spec = patched new cr.spec }) c.executing;
}

unfoldable pub patch_executingapp_spec :
    (answers : Bool) (cr_name : String) → RemoteAppSpec → Cluster → Cluster
patch_executingapp_spec answers cr_name new c =
    if c.available
    then if answers then with_spec cr_name new c (lookup cr_name c.executing) else c
    else c

-- a missing resource is no error
unfoldable pub delete_executingapp_cr : (answers : Bool) (cr_name : String) → Cluster → Cluster
delete_executingapp_cr answers cr_name c =
    if c.available
    then if answers then record c { executing = erase cr_name c.executing } else c
    else c

abbrev with_phase : (cr_name phase : String) → Cluster → Option ExecutingCr → Cluster
with_phase cr_name phase c none = c
with_phase cr_name phase c (some cr) = record c {
  executing =
      insert cr_name (record cr { status = record (cr.status) { phase = phase } }) c.executing;
}

unfoldable pub update_executingapp_cr_status :
    (answers : Bool) (cr_name phase : String) → Cluster → Cluster
update_executingapp_cr_status answers cr_name phase c =
    if c.available
    then if answers then with_phase cr_name phase c (lookup cr_name c.executing) else c
    else c

-- by the label first, then by the status
abbrev or_else :
    Option (String × ExecutingCr) → Option (String × ExecutingCr) → Option (String × ExecutingCr)
or_else none x = x
or_else (some e) x = some e

unfoldable pub get_ea_cr_by_app_id : (app_id : String) → Cluster → Option (String × ExecutingCr)
get_ea_cr_by_app_id app_id c =
    if c.available
    then or_else (find_first (λ e. e.1.label_app_id == app_id) c.executing)
        (find_first (λ e. e.1.status.app_id == app_id) c.executing)
    else none
