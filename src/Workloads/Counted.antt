-- ===== src/Workloads/Counted.antt =====
-- The deployments and pods of the cluster, as the quota counts them.
use porpulsion.Prelude.{
  ℕ, ◌+◌, ◌≤◌, String, Bool, ◌≡◌, ◌≢◌, refl, sym, subst, ap, Option, none, some, [], ◌∷◌, Dict,
  lookup, insert, erase, values, map, ◌==◌, if◌then◌else◌, if-holds, Bool-cases, inl, inr, arith,
  length,
}
use porpulsion.Policy.{AgentSettings, RemoteAppSpec, Floats}
use porpulsion.Policy.Quota.{is_active, active, pods_of, used_pods}
use porpulsion.Policy.Sound.{Admissible}
use porpulsion.Workloads.Naming.{Unicode, ea_cr_name}
use porpulsion.Workloads.Cluster.{
  Cluster, ExecutingCr, as_counted, created, patched, with_spec, patch_executingapp_spec,
  create_executingapp_cr, delete_executingapp_cr,
}

-- a sum over the resources
abbrev total : (ExecutingCr → ℕ) → Dict ExecutingCr → ℕ
total w [] = 0
total w ((k, cr) ∷ d) = w cr + total w d

abbrev weight : (ExecutingCr → ℕ) → Option ExecutingCr → ℕ
weight w none = 0
weight w (some cr) = w cr

total-insert :
    (w : ExecutingCr → ℕ) (k : String) (v : ExecutingCr) (d : Dict ExecutingCr)
    → total w (insert k v d) + weight w (lookup k d) ≡ total w d + w v
unfolding insert lookup
total-insert w k v [] = omega arith
total-insert w k v ((j, cr) ∷ d) = elim (Bool-cases (j == k)) [
  | inl same ↦ rw same (omega arith)
  | inr other ↦ rw other (omega (arith, total-insert w k v d))
]

total-erase-le :
    (w : ExecutingCr → ℕ) (k : String) (d : Dict ExecutingCr) → total w (erase k d) ≤ total w d
unfolding erase
total-erase-le w k [] = omega arith
total-erase-le w k ((j, cr) ∷ d) = elim (Bool-cases (j == k)) [
  | inl same ↦ rw same (omega (arith, total-erase-le w k d))
  | inr other ↦ rw other (omega (arith, total-erase-le w k d))
]

-- the deployments and the pods that the quota counts
abbrev pub deployed : Cluster → ℕ
deployed c = length (active (map as_counted (values c.executing)))

abbrev pub pods : Cluster → ℕ
pods c = used_pods (active (map as_counted (values c.executing)))

abbrev one : ExecutingCr → ℕ
one cr = if is_active (as_counted cr) then 1 else 0

abbrev some_pods : ExecutingCr → ℕ
some_pods cr = if is_active (as_counted cr) then pods_of (as_counted cr) else 0

deployed-eq-total :
    (d : Dict ExecutingCr) → length (active (map as_counted (values d))) ≡ total one d
deployed-eq-total [] = refl
deployed-eq-total ((k, cr) ∷ d) = elim (Bool-cases (is_active (as_counted cr))) [
  | inl on ↦ rw on (omega (arith, deployed-eq-total d))
  | inr off ↦ rw off (omega (arith, deployed-eq-total d))
]

pods-eq-total :
    (d : Dict ExecutingCr) → used_pods (active (map as_counted (values d))) ≡ total some_pods d
unfolding used_pods
pods-eq-total [] = refl
pods-eq-total ((k, cr) ∷ d) = elim (Bool-cases (is_active (as_counted cr))) [
  | inl on ↦ rw on (ap (λ n. pods_of (as_counted cr) + n) (pods-eq-total d))
  | inr off ↦ rw off (omega (arith, pods-eq-total d))
]

-- what is set as a limit holds of the cluster
abbrev pub WithinLimits : AgentSettings → Cluster → Type 0
WithinLimits s c =
    (s.max_total_deployments ≢ 0 → deployed c ≤ s.max_total_deployments)
    × (s.max_total_pods ≢ 0 → pods c ≤ s.max_total_pods)

-- a resource that is put in a place counts as one deployment more at most, and as the pods of the spec
pub insert-WithinLimits :
    (floats : Floats) (s : AgentSettings) (spec : RemoteAppSpec) (source_peer : String)
    (c : Cluster) (k : String) (next : ExecutingCr)
    → one next ≤ weight one (lookup k c.executing) + 1
    → some_pods next ≤ weight some_pods (lookup k c.executing) + spec.replicas
    → Admissible floats s spec source_peer (map as_counted (values c.executing))
    → WithinLimits s (record c { executing = insert k next c.executing })
insert-WithinLimits floats s spec source_peer c k next one_more pods_more adm = (
  λ set. omega (
    arith,
    deployed-eq-total (insert k next c.executing),
    deployed-eq-total c.executing,
    total-insert one k next c.executing,
    one_more,
    adm.deployments set,
  ),
  λ set. omega (
    arith,
    pods-eq-total (insert k next c.executing),
    pods-eq-total c.executing,
    total-insert some_pods k next c.executing,
    pods_more,
    adm.pods set,
  ),
)

module _ (unicode : Unicode) (app_id name : String) (spec : RemoteAppSpec)
    (source_peer : String) where
  one-created :
      (o : Option ExecutingCr)
      → one (created unicode app_id name spec source_peer o) ≤ weight one o + 1
  one-created none = ground arith
  one-created (some old) = ground arith

  some_pods-created :
      (o : Option ExecutingCr)
      → 1 ≤ spec.replicas
      → some_pods (created unicode app_id name spec source_peer o)
        ≤ weight some_pods o + spec.replicas
  some_pods-created none h = ground arith
  some_pods-created (some old) h = ground arith

  pub create-WithinLimits :
      (answers : Bool) (floats : Floats) (s : AgentSettings) (c : Cluster)
      → 1 ≤ spec.replicas
      → Admissible floats s spec source_peer (map as_counted (values c.executing))
      → WithinLimits s c
      → WithinLimits s (create_executingapp_cr unicode answers app_id name spec source_peer c).1
  unfolding create_executingapp_cr
  create-WithinLimits answers floats s c h adm within =
      let k = ea_cr_name unicode app_id name in
      let old = lookup k c.executing in
      if-holds (λ (r : Option String × Cluster). WithinLimits s r.1) c.available _ _
        (if-holds (λ (r : Option String × Cluster). WithinLimits s r.1) answers _ _
          (insert-WithinLimits floats s spec source_peer c k
            (created unicode app_id name spec source_peer old) (one-created old)
            (some_pods-created old h) adm)
          within)
        within

pub patch-WithinLimits :
    (answers : Bool) (k : String) (new : RemoteAppSpec) (source_peer : String) (floats : Floats)
    (s : AgentSettings) (c : Cluster)
    → 1 ≤ new.replicas
    → Admissible floats s new source_peer (map as_counted (values c.executing))
    → WithinLimits s c
    → WithinLimits s (patch_executingapp_spec answers k new c)
unfolding patch_executingapp_spec
patch-WithinLimits answers k new source_peer floats s c h adm within =
    if-holds (WithinLimits s) c.available _ _
      (if-holds (WithinLimits s) answers _ _ (placed (lookup k c.executing) refl) within) within
  where
    placed :
        (o : Option ExecutingCr) → lookup k c.executing ≡ o → WithinLimits s (with_spec k new c o)
    placed none at = within
    placed (some cr) at =
        let next = record cr { spec = patched new cr.spec } in
        let one_more : one next ≤ weight one (some cr) + 1 = ground arith in
        let pods_more : some_pods next ≤ weight some_pods (some cr) + new.replicas = ground arith in
        insert-WithinLimits floats s new source_peer c k next
          (subst (λ o. one next ≤ weight one o + 1) (sym at) one_more)
          (subst (λ o. some_pods next ≤ weight some_pods o + new.replicas) (sym at) pods_more) adm

pub delete-WithinLimits :
    (answers : Bool) (k : String) (s : AgentSettings) (c : Cluster)
    → WithinLimits s c
    → WithinLimits s (delete_executingapp_cr answers k c)
unfolding delete_executingapp_cr
delete-WithinLimits answers k s c (deps, pods_in) =
    if-holds (WithinLimits s) c.available _ _
      (if-holds (WithinLimits s) answers _ _ (fewer_deployed, fewer_pods) (deps, pods_in))
      (deps, pods_in)
  where
    fewer_deployed :
        s.max_total_deployments ≢ 0
        → deployed (record c { executing = erase k c.executing }) ≤ s.max_total_deployments
    fewer_deployed set = omega (
      arith,
      deployed-eq-total (erase k c.executing),
      deployed-eq-total c.executing,
      total-erase-le one k c.executing,
      deps set,
    )

    fewer_pods :
        s.max_total_pods ≢ 0
        → pods (record c { executing = erase k c.executing }) ≤ s.max_total_pods
    fewer_pods set = omega (
      arith,
      pods-eq-total (erase k c.executing),
      pods-eq-total c.executing,
      total-erase-le some_pods k c.executing,
      pods_in set,
    )
