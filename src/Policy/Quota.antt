-- ===== src/Policy/Quota.antt =====
-- `_check_resource_quota` of porpulsion/routes/workloads.py.
use porpulsion.Prelude.{
  ℕ, ◌+◌, String, Bool, true, false, not, ◌&&◌, ◌||◌, Option, none, some, List, [], ◌∷◌, Dict,
  lookup, ◌==◌, keep, any, length, ltb, leb, nat_eq, or_default, if◌then◌else◌,
}
use porpulsion.Prelude.Text.{is_empty}
use porpulsion.Policy.{
  AgentSettings, RemoteAppSpec, ExecutingApp, Floats, Check, fine, refused, value_error, first_of,
  Reason, requests_required, limits_required, peer_not_permitted, cpu_request_over, cpu_limit_over,
  memory_request_over, memory_limit_over, replicas_over, deployments_full, pods_full, cpu_full,
  memory_full,
}
use porpulsion.Policy.Quantity.{parse_quantity}
use porpulsion.Policy.Images.{comma_list, check_image_policy}

-- `sec.get(key, "")`
abbrev pub text_of_key : String → Dict String → String
text_of_key k d = or_default "" (lookup k d)

-- the value that a message shows
abbrev pub shown : String → Dict String → String
shown k d = or_default "0" (lookup k d)

abbrev pub refuse_if : Bool → Reason → Check
refuse_if true r = refused r
refuse_if false r = fine

abbrev pub has_both : Dict String → Bool
has_both d = not (is_empty (text_of_key "cpu" d)) && not (is_empty (text_of_key "memory" d))

unfoldable pub peer_permitted : AgentSettings → (source_peer : String) → Bool
peer_permitted s source_peer =
    let allowed = comma_list s.allowed_source_peers in
    leb (length allowed) 0 || is_empty source_peer || any (λ p. p == source_peer) allowed

-- the CRs that count
abbrev pub is_active : ExecutingApp → Bool
is_active cr = not (cr.phase == "Failed" || cr.phase == "Timeout" || cr.phase == "Deleted")

abbrev pub active : List ExecutingApp → List ExecutingApp
active = keep is_active

-- `int(replicas or 1)`
abbrev pub pods_of : ExecutingApp → ℕ
pods_of cr = let n = or_default 1 cr.replicas in if nat_eq n 0 then 1 else n

unfoldable pub used_pods : List ExecutingApp → ℕ
used_pods [] = 0
used_pods (cr ∷ crs) = pods_of cr + used_pods crs

module _ (floats : Floats) where
  -- a quantity against a limit; an empty limit is none, and either may fail to parse
  abbrev pub over : Reason → Option floats.Float → Option floats.Float → Check
  over r none limit = value_error
  over r (some asked) none = value_error
  over r (some asked) (some limit) = refuse_if (floats.exceeds asked limit) r

  abbrev pub parses : Option floats.Float → Check
  parses none = value_error
  parses (some x) = fine

  unfoldable pub pod_limit : (asked : String) → (limit : String) → Reason → Check
  pod_limit asked limit r =
      if is_empty limit
      then fine
      else over r (parse_quantity floats asked) (parse_quantity floats limit)

  abbrev pub add_option : Option floats.Float → Option floats.Float → Option floats.Float
  add_option none y = none
  add_option (some x) none = none
  add_option (some x) (some y) = some (floats.plus x y)

  -- `sum(_parse_quantity(...) for cr in active_crs)`, from what is summed up so far
  unfoldable pub used_total :
      (key : String) → List ExecutingApp → Option floats.Float → Option floats.Float
  used_total key [] sum = sum
  used_total key (cr ∷ crs) sum =
      used_total key crs (add_option sum (parse_quantity floats (text_of_key key cr.requests)))

  unfoldable pub total_limit : (key asked limit : String) → List ExecutingApp → Reason → Check
  total_limit key asked limit crs r =
      if is_empty limit
      then fine
      else over r (add_option (used_total key crs (some floats.zero)) (parse_quantity floats asked))
          (parse_quantity floats limit)

  abbrev pub images_fine : AgentSettings → String → Check
  images_fine s image = if is_empty image then fine else check_image_policy s image

  -- `crs` is what the cluster lists
  unfoldable pub check_resource_quota :
      AgentSettings → RemoteAppSpec → (source_peer : String) → (crs : List ExecutingApp) → Check
  check_resource_quota s spec source_peer crs =
      let requests = spec.resources.requests in
      let limits = spec.resources.limits in
      let running = active crs in
      first_of (
        refuse_if (s.require_resource_requests && not (has_both requests)) requests_required
        ∷ refuse_if (s.require_resource_limits && not (has_both limits)) limits_required
        ∷ parses (parse_quantity floats (text_of_key "cpu" requests))
        ∷ parses (parse_quantity floats (text_of_key "cpu" limits))
        ∷ parses (parse_quantity floats (text_of_key "memory" requests))
        ∷ parses (parse_quantity floats (text_of_key "memory" limits))
        ∷ refuse_if (not (peer_permitted s source_peer)) (peer_not_permitted source_peer)
        ∷ images_fine s spec.image
        ∷ pod_limit (text_of_key "cpu" requests) s.max_cpu_request_per_pod
            (cpu_request_over (shown "cpu" requests) s.max_cpu_request_per_pod)
        ∷ pod_limit (text_of_key "cpu" limits) s.max_cpu_limit_per_pod
            (cpu_limit_over (shown "cpu" limits) s.max_cpu_limit_per_pod)
        ∷ pod_limit (text_of_key "memory" requests) s.max_memory_request_per_pod
            (memory_request_over (shown "memory" requests) s.max_memory_request_per_pod)
        ∷ pod_limit (text_of_key "memory" limits) s.max_memory_limit_per_pod
            (memory_limit_over (shown "memory" limits) s.max_memory_limit_per_pod)
        ∷ refuse_if
            (not (nat_eq s.max_replicas_per_app 0) && ltb s.max_replicas_per_app spec.replicas)
            (replicas_over spec.replicas s.max_replicas_per_app)
        ∷ refuse_if
            (not (nat_eq s.max_total_deployments 0) && leb s.max_total_deployments (length running))
            (deployments_full s.max_total_deployments)
        ∷ refuse_if
            (not (nat_eq s.max_total_pods 0)
              && ltb s.max_total_pods (used_pods running + spec.replicas))
            (pods_full spec.replicas (used_pods running) s.max_total_pods)
        ∷ total_limit "cpu" (text_of_key "cpu" requests) s.max_total_cpu_requests running
            (cpu_full (shown "cpu" requests) s.max_total_cpu_requests)
        ∷ total_limit "memory" (text_of_key "memory" requests) s.max_total_memory_requests running
            (memory_full (shown "memory" requests) s.max_total_memory_requests)
        ∷ [])
