-- ===== src/Workloads/Approval.antt =====
-- What approval gates.
use porpulsion.Prelude.{
  String, Bool, true, false, not, ◌≡◌, refl, sym, ap, ◌∙◌, insert, lookup-insert, or_default,
  eq_iff, Option, none, some, List, [], ◌∷◌, Dict, lookup, erase, lookup-insert_self, lookup-erase,
  ◌==◌, eq_refl, if◌then◌else◌, if-holds, Bool-cases, inl, inr, All,
}
use porpulsion.Policy.{RemoteAppSpec, Floats, Check, fine, refused, value_error}
use porpulsion.Workloads.Naming.{Unicode, ea_cr_name}
use porpulsion.Workloads.Cluster.{
  Cluster, ExecutingCr, created, patched, with_spec, patch_executingapp_spec,
  create_executingapp_cr, delete_executingapp_cr, get_ea_cr_by_app_id,
}
use porpulsion.Workloads.Admission.{
  Entry, Agent, Answer, pending_approval, Submission, save_state_configmap, id_of, enqueue, start,
  checked, handle_remoteapp_receive, approve_remoteapp, reject_found, reject_remoteapp,
  delete_found, handle_remoteapp_delete, update_checked, update_found, handle_remoteapp_spec_update,
  Step, receive, update, approve, reject, delete, step, steps,
}

-- the resource was there before under the name, for the same peer, under the same id and in the same state
abbrev pub WasThere : Dict ExecutingCr → String → ExecutingCr → Type 0
WasThere before k cr =
    (old : ExecutingCr) × (lookup k before ≡ some old)
    × (old.label_app_id ≡ cr.label_app_id)
    × (old.label_source_peer ≡ cr.label_source_peer)
    × (old.status ≡ cr.status)

-- approval is required, and every resource was there before
abbrev pub NoneNew : Agent → Agent → Type 0
NoneNew before after =
    (after.require_approval ≡ true)
    × ((k : String) (cr : ExecutingCr)
        → lookup k after.cluster.executing ≡ some cr
        → WasThere before.cluster.executing k cr)

abbrev pub IsUnapproved : Step → Type 0
IsUnapproved (receive now fresh lists answers valid sub) = Unit
IsUnapproved (update lists answers valid app_id new) = Unit
IsUnapproved (approve answers app_id) = ⊥
IsUnapproved (reject reachable app_id) = Unit
IsUnapproved (delete answers app_id) = Unit

here :
    (d : Dict ExecutingCr) (k : String) (cr : ExecutingCr) → lookup k d ≡ some cr → WasThere d k cr
here d k cr h = (cr, h, refl, refl, refl)

same : (a : Agent) → a.require_approval ≡ true → NoneNew a a
same a r = (r, here a.cluster.executing)

erased_before :
    (n k : String) (cr : ExecutingCr) (d : Dict ExecutingCr)
    → lookup k (erase n d) ≡ some cr
    → lookup k d ≡ some cr
erased_before n k cr d =
    rw lookup-erase
      (elim (Bool-cases (n == k)) [ inl gone ↦ rw gone (λ h. cc) | inr kept ↦ rw kept (λ h. h) ])

delete-NoneNew :
    (answers : Bool) (o : Option (String × ExecutingCr)) (a : Agent)
    → a.require_approval ≡ true
    → NoneNew a (delete_found answers o a)
unfolding delete_executingapp_cr
delete-NoneNew answers none a r = same a r
delete-NoneNew answers (some (n, cr)) a r =
    if-holds (λ (c : Cluster). NoneNew a (record a { cluster = c })) a.cluster.available _ _
      (if-holds (λ (c : Cluster). NoneNew a (record a { cluster = c })) answers _ _
        (r, λ k cr h. here a.cluster.executing k cr (erased_before n k cr a.cluster.executing h))
        (same a r))
      (same a r)

placed-WasThere :
    (n : String) (next old : ExecutingCr) (d : Dict ExecutingCr)
    → lookup n d ≡ some old
    → old.label_app_id ≡ next.label_app_id
    → old.label_source_peer ≡ next.label_source_peer
    → old.status ≡ next.status
    → (k : String) (cr : ExecutingCr) → lookup k (insert n next d) ≡ some cr
    → WasThere d k cr
placed-WasThere n next old d at app peer status k cr =
    rw (lookup-insert n k next d) (elim (Bool-cases (n == k)) [
      | inl own ↦ rw own (λ h.
          let is_next : next ≡ cr = ap (or_default next) h in
          (
            old,
            ap (λ j. lookup j d) (sym ((eq_iff n k).0 own)) ∙ at,
            app ∙ ap (λ c. c.label_app_id) is_next,
            peer ∙ ap (λ c. c.label_source_peer) is_next,
            status ∙ ap (λ c. c.status) is_next,
          ))
      | inr other ↦ rw other (here d k cr)
    ])

patch-NoneNew :
    (answers : Bool) (n : String) (new : RemoteAppSpec) (a : Agent)
    → a.require_approval ≡ true
    → NoneNew a (record a { cluster = patch_executingapp_spec answers n new a.cluster })
unfolding patch_executingapp_spec
patch-NoneNew answers n new a r =
    if-holds (λ (c : Cluster). NoneNew a (record a { cluster = c })) a.cluster.available _ _
      (if-holds (λ (c : Cluster). NoneNew a (record a { cluster = c })) answers _ _
        (placed (lookup n a.cluster.executing) refl) (same a r))
      (same a r)
  where
    placed :
        (o : Option ExecutingCr)
        → lookup n a.cluster.executing ≡ o
        → NoneNew a (record a { cluster = with_spec n new a.cluster o })
    placed none at = same a r
    placed (some cr) at = (
      r,
      placed-WasThere n (record cr { spec = patched new cr.spec }) cr a.cluster.executing at refl
          refl refl,
    )

was_before :
    (d e : Dict ExecutingCr) (k : String) (cr : ExecutingCr)
    → ((j : String) (c : ExecutingCr) → lookup j e ≡ some c → WasThere d j c)
    → WasThere e k cr
    → WasThere d k cr
was_before d e k cr first (mid, at, app, peer, status) =
    let (old, at_old, app_old, peer_old, status_old) = first k mid at in
    (old, at_old, app_old ∙ app, peer_old ∙ peer, status_old ∙ status)

reject-NoneNew :
    (reachable : Bool) (app_id : String) (o : Option Entry) (a : Agent)
    → a.require_approval ≡ true
    → NoneNew a (reject_found reachable app_id o a).1
unfolding save_state_configmap
reject-NoneNew reachable app_id none a r = same a r
reject-NoneNew false app_id (some e) a r = (r, here a.cluster.executing)
reject-NoneNew true app_id (some e) a r = (r, here a.cluster.executing)

module _ (unicode : Unicode) (floats : Floats) where
  held :
      (now app_id : String) (answers : Bool) (sub : Submission) (a : Agent) (b : Bool)
      → b ≡ true
      → a.require_approval ≡ true
      → NoneNew a
          (if b
            then (pending_approval app_id, enqueue unicode floats now app_id sub a)
            else start unicode floats answers app_id sub a).1
  unfolding save_state_configmap
  held now app_id answers sub a true e r = (r, here a.cluster.executing)
  held now app_id answers sub a false e r = cc

  checked-NoneNew :
      (now app_id : String) (answers valid : Bool) (sub : Submission) (a : Agent) (c : Check)
      → a.require_approval ≡ true
      → NoneNew a (checked unicode floats now app_id answers valid sub a c).1
  checked-NoneNew now app_id answers valid sub a (refused x) r = (r, here a.cluster.executing)
  checked-NoneNew now app_id answers valid sub a value_error r = same a r
  checked-NoneNew now app_id answers valid sub a fine r =
      if-holds (λ (x : Answer × Agent). NoneNew a x.1) (not valid) _ _ (same a r)
        (held now app_id answers sub a a.require_approval r r)

  update_checked-NoneNew :
      (answers valid : Bool) (n : String) (new : RemoteAppSpec) (a : Agent) (c : Check)
      → a.require_approval ≡ true
      → NoneNew a (update_checked unicode floats answers valid n new a c).1
  update_checked-NoneNew answers valid n new a (refused x) r = same a r
  update_checked-NoneNew answers valid n new a value_error r = same a r
  update_checked-NoneNew answers false n new a fine r = same a r
  update_checked-NoneNew answers true n new a fine r = patch-NoneNew answers n new a r

  update-NoneNew :
      (lists answers valid : Bool) (new : RemoteAppSpec) (o : Option (String × ExecutingCr))
      (a : Agent)
      → a.require_approval ≡ true
      → NoneNew a (update_found unicode floats lists answers valid new o a).1
  update-NoneNew lists answers valid new none a r = same a r
  update-NoneNew lists answers valid new (some (n, cr)) a r =
      update_checked-NoneNew answers valid n new a _ r

  step-NoneNew :
      (s : Step) (a : Agent)
      → IsUnapproved s
      → a.require_approval ≡ true
      → NoneNew a (step unicode floats s a)
  unfolding step handle_remoteapp_spec_update handle_remoteapp_receive reject_remoteapp
      handle_remoteapp_delete
  step-NoneNew (update lists answers valid app_id new) a u r =
      update-NoneNew lists answers valid new (get_ea_cr_by_app_id app_id a.cluster) a r
  step-NoneNew (receive now fresh lists answers valid sub) a u r =
      if-holds (λ (x : Answer × Agent). NoneNew a x.1) (not a.allow_inbound) _ _ (same a r)
        (checked-NoneNew now (id_of fresh sub) answers valid sub a _ r)
  step-NoneNew (approve answers app_id) a u r = elim u [ ]
  step-NoneNew (reject reachable app_id) a u r =
      reject-NoneNew reachable app_id (lookup app_id a.pending) a r
  step-NoneNew (delete answers app_id) a u r =
      delete-NoneNew answers (get_ea_cr_by_app_id app_id a.cluster) a r

  -- Where approval is required, nothing that a peer sends and no rejection makes a resource of a workload:
  -- every one that is there without an approval was there before, under its name, for the same peer, with
  -- the same id and status. Only its spec may be another, since an update asks for no approval.
  pub unapproved_never_runs :
      (ss : List Step) (a : Agent)
      → All IsUnapproved ss
      → a.require_approval ≡ true
      → NoneNew a (steps unicode floats ss a)
  unfolding steps
  unapproved_never_runs [] a u r = same a r
  unapproved_never_runs (s ∷ ss) a (u, us) r =
      let (r', first) = step-NoneNew s a u r in
      let (r'', later) = unapproved_never_runs ss (step unicode floats s a) us r' in
      (
        r'',
        λ k cr h.
            was_before a.cluster.executing (step unicode floats s a).cluster.executing k cr first
              (later k cr h),
      )

  created-entry :
      (app_id name : String) (spec : RemoteAppSpec) (source_peer : String) (o : Option ExecutingCr)
      → let cr = created unicode app_id name spec source_peer o in
        (cr.spec ≡ spec) × (cr.label_source_peer ≡ source_peer)
  created-entry app_id name spec source_peer none = (refl, refl)
  created-entry app_id name spec source_peer (some old) = (refl, refl)

  create-stores :
      (app_id name : String) (spec : RemoteAppSpec) (source_peer : String) (c : Cluster)
      → c.available ≡ true
      → let k = ea_cr_name unicode app_id name in
        lookup k (create_executingapp_cr unicode true app_id name spec source_peer c).1.executing
        ≡ some (created unicode app_id name spec source_peer (lookup k c.executing))
  unfolding create_executingapp_cr
  create-stores app_id name spec source_peer c on = rw on (lookup-insert_self _ _ c.executing)

  -- An approval starts the queued workload, with its spec and for its peer, and takes it off the queue, so
  -- that a second one is a 404.
  pub approval_starts :
      (app_id : String) (e : Entry) (a : Agent)
      → lookup app_id a.pending ≡ some e
      → a.cluster.available ≡ true
      → let (found, after) = approve_remoteapp unicode floats true app_id a in
        (found ≡ true)
        × ((cr : ExecutingCr) × (lookup (ea_cr_name unicode app_id e.name) after.cluster.executing
              ≡ some cr)
            × (cr.spec ≡ e.spec)
            × (cr.label_source_peer ≡ e.source_peer))
        × (approve_remoteapp unicode floats true app_id after ≡ (false, after))
  unfolding approve_remoteapp save_state_configmap
  approval_starts app_id e a queued on = rw queued (
    refl,
    (
      created unicode app_id e.name e.spec e.source_peer
          (lookup (ea_cr_name unicode app_id e.name) a.cluster.executing),
      create-stores app_id e.name e.spec e.source_peer a.cluster on,
      (created-entry app_id e.name e.spec e.source_peer
          (lookup (ea_cr_name unicode app_id e.name) a.cluster.executing)).0,
      (created-entry app_id e.name e.spec e.source_peer
          (lookup (ea_cr_name unicode app_id e.name) a.cluster.executing)).1,
    ),
    rw (lookup-erase, eq_refl) refl,
  )
