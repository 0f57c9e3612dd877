-- ===== src/Workloads/Pending.antt =====
-- The queue of submissions that wait for approval.
use porpulsion.Prelude.{
  lookup-absent, String, Bool, true, false, not, ◌≡◌, refl, ap, ◌∙◌, Option, none, some, List, [],
  ◌∷◌, Dict, lookup, insert, erase, values, Each, insert-Each, erase-Each, IsDistinct,
  insert-IsDistinct, erase-IsDistinct, lookup-insert, ◌==◌, if◌then◌else◌, if-holds, Bool-cases,
  inl, inr, All,
}
use porpulsion.Prelude.Text.{is_empty}
use porpulsion.Policy.{RemoteAppSpec, Floats, Check, fine, refused, value_error}
use porpulsion.Workloads.Naming.{Unicode}
use porpulsion.Workloads.Cluster.{ExecutingCr, get_ea_cr_by_app_id}
use porpulsion.Workloads.Admission.{
  Entry, Agent, Answer, Submission, save_state_configmap, id_of, enqueue, validated, checked,
  handle_remoteapp_receive, approve_found, approve_remoteapp, reject_found, reject_remoteapp,
  delete_found, handle_remoteapp_delete, restore_pending, Step, receive, update, update_checked,
  update_found, handle_remoteapp_spec_update, approve, reject, delete, step, steps,
}

-- an entry stands under its own id, which is not empty
abbrev pub OwnId : String → Entry → Type 0
OwnId k e = (e.id ≡ k) × (is_empty k ≡ false)

pub record IsQueued (a : Agent) : Type 0 where
  -- the ConfigMap has the queue
  pub saved : a.saved_pending ≡ values a.pending
  pub own : Each OwnId a.pending
  pub distinct : IsDistinct a.pending

-- a new id is never empty
abbrev pub IsFresh : Step → Type 0
IsFresh (receive now fresh lists answers valid sub) = is_empty fresh ≡ false
IsFresh (update lists answers valid app_id new) = Unit
IsFresh (approve answers app_id) = Unit
IsFresh (reject reachable app_id) = Unit
IsFresh (delete answers app_id) = Unit

id_of-full :
    (fresh : String) (sub : Submission)
    → is_empty fresh ≡ false
    → is_empty (id_of fresh sub) ≡ false
id_of-full fresh sub h = elim (Bool-cases (is_empty sub.id)) [
  | inl absent ↦ rw absent h
  | inr given ↦ rw (given, given) refl
]

erased-IsQueued :
    (k : String) (a : Agent)
    → IsQueued a
    → IsQueued (save_state_configmap (record a { pending = erase k a.pending }))
unfolding save_state_configmap
erased-IsQueued k a q = record {
  saved = refl;
  own = erase-Each OwnId k a.pending q.own;
  distinct = erase-IsDistinct k a.pending q.distinct;
}

module _ (unicode : Unicode) (floats : Floats) where
  enqueue-IsQueued :
      (now app_id : String) (sub : Submission) (a : Agent)
      → is_empty app_id ≡ false
      → IsQueued a
      → IsQueued (enqueue unicode floats now app_id sub a)
  unfolding save_state_configmap
  enqueue-IsQueued now app_id sub a h q = record {
    saved = refl;
    own = insert-Each OwnId app_id _ a.pending (refl, h) q.own;
    distinct = insert-IsDistinct app_id _ a.pending q.distinct;
  }

  validated-IsQueued :
      (now app_id : String) (answers valid : Bool) (sub : Submission) (a : Agent)
      → is_empty app_id ≡ false
      → IsQueued a
      → IsQueued (validated unicode floats now app_id answers valid sub a).1
  validated-IsQueued now app_id answers false sub a h q = q
  validated-IsQueued now app_id answers true sub a h q =
      if-holds (λ (r : Answer × Agent). IsQueued r.1) a.require_approval _ _
        (enqueue-IsQueued now app_id sub a h q)
        (record { saved = q.saved; own = q.own; distinct = q.distinct })

  checked-IsQueued :
      (now app_id : String) (answers valid : Bool) (sub : Submission) (a : Agent) (c : Check)
      → is_empty app_id ≡ false
      → IsQueued a
      → IsQueued (checked unicode floats now app_id answers valid sub a c).1
  checked-IsQueued now app_id answers valid sub a (refused r) h q = record {
    saved = q.saved;
    own = q.own;
    distinct = q.distinct;
  }
  checked-IsQueued now app_id answers valid sub a value_error h q = q
  checked-IsQueued now app_id answers valid sub a fine h q =
      validated-IsQueued now app_id answers valid sub a h q

  receive-IsQueued :
      (now fresh : String) (lists answers valid : Bool) (sub : Submission) (a : Agent)
      → is_empty fresh ≡ false
      → IsQueued a
      → IsQueued (handle_remoteapp_receive unicode floats now fresh lists answers valid sub a).1
  unfolding handle_remoteapp_receive
  receive-IsQueued now fresh lists answers valid sub a h q =
      if-holds (λ (r : Answer × Agent). IsQueued r.1) (not a.allow_inbound) _ _ q
        (checked-IsQueued now (id_of fresh sub) answers valid sub a _ (id_of-full fresh sub h) q)

  update_checked-IsQueued :
      (answers valid : Bool) (cr_name : String) (new : RemoteAppSpec) (a : Agent) (c : Check)
      → IsQueued a
      → IsQueued (update_checked unicode floats answers valid cr_name new a c).1
  update_checked-IsQueued answers valid cr_name new a (refused r) q = q
  update_checked-IsQueued answers valid cr_name new a value_error q = q
  update_checked-IsQueued answers true cr_name new a fine q = record {
    saved = q.saved;
    own = q.own;
    distinct = q.distinct;
  }
  update_checked-IsQueued answers false cr_name new a fine q = q

  update-IsQueued :
      (lists answers valid : Bool) (new : RemoteAppSpec) (o : Option (String × ExecutingCr))
      (a : Agent)
      → IsQueued a
      → IsQueued (update_found unicode floats lists answers valid new o a).1
  update-IsQueued lists answers valid new none a q = q
  update-IsQueued lists answers valid new (some (n, cr)) a q =
      update_checked-IsQueued answers valid n new a _ q

  approve-IsQueued :
      (answers : Bool) (app_id : String) (o : Option Entry) (a : Agent)
      → IsQueued a
      → IsQueued (approve_found unicode floats answers app_id o a).1
  unfolding save_state_configmap
  approve-IsQueued answers app_id none a q = q
  approve-IsQueued answers app_id (some e) a q =
      let r = erased-IsQueued app_id a q in
      record { saved = r.saved; own = r.own; distinct = r.distinct }

reject-IsQueued :
    (reachable : Bool) (app_id : String) (o : Option Entry) (a : Agent)
    → IsQueued a
    → IsQueued (reject_found reachable app_id o a).1
unfolding save_state_configmap
reject-IsQueued reachable app_id none a q = q
reject-IsQueued false app_id (some e) a q = erased-IsQueued app_id a q
reject-IsQueued true app_id (some e) a q =
    let r = erased-IsQueued app_id a q in
    record { saved = r.saved; own = r.own; distinct = r.distinct }

delete-IsQueued :
    (answers : Bool) (o : Option (String × ExecutingCr)) (a : Agent)
    → IsQueued a
    → IsQueued (delete_found answers o a)
delete-IsQueued answers none a q = q
delete-IsQueued answers (some (n, cr)) a q = record {
  saved = q.saved;
  own = q.own;
  distinct = q.distinct;
}

module _ (unicode : Unicode) (floats : Floats) where
  step-IsQueued :
      (s : Step) (a : Agent) → IsFresh s → IsQueued a → IsQueued (step unicode floats s a)
  unfolding step handle_remoteapp_spec_update approve_remoteapp reject_remoteapp
      handle_remoteapp_delete
  step-IsQueued (receive now fresh lists answers valid sub) a f q =
      receive-IsQueued unicode floats now fresh lists answers valid sub a f q
  step-IsQueued (update lists answers valid app_id new) a f q =
      update-IsQueued unicode floats lists answers valid new (get_ea_cr_by_app_id app_id a.cluster)
        a q
  step-IsQueued (approve answers app_id) a f q =
      approve-IsQueued unicode floats answers app_id (lookup app_id a.pending) a q
  step-IsQueued (reject reachable app_id) a f q =
      reject-IsQueued reachable app_id (lookup app_id a.pending) a q
  step-IsQueued (delete answers app_id) a f q =
      delete-IsQueued answers (get_ea_cr_by_app_id app_id a.cluster) a q

  steps-IsQueued :
      (ss : List Step) (a : Agent)
      → All IsFresh ss
      → IsQueued a
      → IsQueued (steps unicode floats ss a)
  unfolding steps
  steps-IsQueued [] a f q = q
  steps-IsQueued (s ∷ ss) a (f, fs) q =
      steps-IsQueued ss (step unicode floats s a) fs (step-IsQueued s a f q)

-- an entry read later wins
abbrev restored_over : Option Entry → Option Entry → Option Entry
restored_over none before = before
restored_over (some e) before = some e

if-no : {A : Type 0} (b : Bool) (x y : A) → b ≡ false → (if b then x else y) ≡ y
if-no true x y h = cc
if-no false x y h = refl

restore-lookup :
    (k : String) (queue before : Dict Entry)
    → Each OwnId queue
    → IsDistinct queue
    → lookup k (restore_pending (values queue) before)
      ≡ restored_over (lookup k queue) (lookup k before)
unfolding restore_pending lookup
restore-lookup k [] before o d = refl
restore-lookup k ((j, e) ∷ queue) before ((own, full), os) (d, ds) =
    ap (lookup k) (if-no (is_empty e.id) _ _ (ap is_empty own ∙ full))
    ∙ (restore-lookup k queue (insert e.id e before) os ds
        ∙ (ap (restored_over (lookup k queue)) (lookup-insert e.id k e before)
            ∙ (ap (λ i. restored_over (lookup k queue) (if i == k then some e else lookup k before))
                  own
                ∙ elim (Bool-cases (j == k)) [
                  | inl same ↦ rw (same, lookup-absent j k queue same d) refl
                  | inr other ↦ rw other refl
                ])))

-- Whatever is submitted, updated, approved, rejected and deleted, a restart gives back the queue of
-- those that wait for approval, entry by entry. New ids are never empty.
pub restart_keeps_queue :
    (unicode : Unicode) (floats : Floats) (ss : List Step) (a : Agent) (k : String)
    → All IsFresh ss
    → IsQueued a
    → let after = steps unicode floats ss a in
      lookup k (restore_pending after.saved_pending []) ≡ lookup k after.pending
unfolding lookup
restart_keeps_queue unicode floats ss a k fresh q =
    let r = steps-IsQueued unicode floats ss a fresh q in
    let after = (steps unicode floats ss a).pending in
    ap (λ l. lookup k (restore_pending l [])) r.saved
    ∙ (restore-lookup k after [] r.own r.distinct ∙ over-none (lookup k after))
  where
    over-none : (o : Option Entry) → restored_over o none ≡ o
    over-none none = refl
    over-none (some e) = refl
