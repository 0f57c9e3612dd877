-- ===== src/Policy/Sound.antt =====
-- What the checks admit.
use porpulsion.Prelude.{
  ℕ, ◌+◌, ◌≤◌, ◌≡◌, ◌≢◌, refl, String, Bool, true, false, not, ◌&&◌, List, [], ◌∷◌, length, ltb,
  leb, nat_eq, All, arith,
}
use porpulsion.Prelude.Text.{is_empty}
use porpulsion.Policy.{
  AgentSettings, RemoteAppSpec, ExecutingApp, Floats, Check, fine, refused, value_error, first_of,
  Reason,
}
use porpulsion.Policy.Quota.{
  text_of_key, refuse_if, has_both, active, used_pods, check_resource_quota,
}
use porpulsion.Policy.Measured.{
  Parses, Within, TotalWithin, pod_limit-Within, total_limit-Within, parses-Parses,
}
use porpulsion.Policy.Permitted.{
  FromPermitted, ImageAllowed, permitted-FromPermitted, images-ImageAllowed,
}

first_of-All : (cs : List Check) → first_of cs ≡ fine → All (λ c. c ≡ fine) cs
unfolding first_of
first_of-All [] h = tt
first_of-All (fine ∷ cs) h = (refl, first_of-All cs h)
first_of-All (refused r ∷ cs) h = cc
first_of-All (value_error ∷ cs) h = cc

-- what holds of a workload that the checks admit
pub record Admissible (floats : Floats) (s : AgentSettings) (spec : RemoteAppSpec)
    (source_peer : String) (crs : List ExecutingApp) : Type 0 where
  pub requests_given : s.require_resource_requests ≡ true → has_both spec.resources.requests ≡ true
  pub limits_given : s.require_resource_limits ≡ true → has_both spec.resources.limits ≡ true
  pub cpu_request_parses : Parses floats (text_of_key "cpu" spec.resources.requests)
  pub cpu_limit_parses : Parses floats (text_of_key "cpu" spec.resources.limits)
  pub memory_request_parses : Parses floats (text_of_key "memory" spec.resources.requests)
  pub memory_limit_parses : Parses floats (text_of_key "memory" spec.resources.limits)
  pub peer : FromPermitted s source_peer
  pub image : is_empty spec.image ≡ false → ImageAllowed s spec.image
  pub cpu_request :
      is_empty s.max_cpu_request_per_pod ≡ false
      → Within floats (text_of_key "cpu" spec.resources.requests) s.max_cpu_request_per_pod
  pub cpu_limit :
      is_empty s.max_cpu_limit_per_pod ≡ false
      → Within floats (text_of_key "cpu" spec.resources.limits) s.max_cpu_limit_per_pod
  pub memory_request :
      is_empty s.max_memory_request_per_pod ≡ false
      → Within floats (text_of_key "memory" spec.resources.requests) s.max_memory_request_per_pod
  pub memory_limit :
      is_empty s.max_memory_limit_per_pod ≡ false
      → Within floats (text_of_key "memory" spec.resources.limits) s.max_memory_limit_per_pod
  pub replicas : s.max_replicas_per_app ≢ 0 → spec.replicas ≤ s.max_replicas_per_app
  pub deployments : s.max_total_deployments ≢ 0 → length (active crs) + 1 ≤ s.max_total_deployments
  pub pods : s.max_total_pods ≢ 0 → used_pods (active crs) + spec.replicas ≤ s.max_total_pods
  pub cpu_total :
      is_empty s.max_total_cpu_requests ≡ false
      → TotalWithin floats "cpu"
          (text_of_key "cpu" spec.resources.requests)
          s.max_total_cpu_requests
          (active crs)
  pub memory_total :
      is_empty s.max_total_memory_requests ≡ false
      → TotalWithin floats "memory"
          (text_of_key "memory" spec.resources.requests)
          s.max_total_memory_requests
          (active crs)

required :
    (required given : Bool) (r : Reason)
    → refuse_if (required && not given) r ≡ fine
    → required ≡ true
    → given ≡ true
required need given r h e = ground arith

at_most :
    (max n : ℕ) (r : Reason)
    → refuse_if (not (nat_eq max 0) && ltb max n) r ≡ fine
    → max ≢ 0
    → n ≤ max
at_most max n r h e = ground arith

below :
    (max n : ℕ) (r : Reason)
    → refuse_if (not (nat_eq max 0) && leb max n) r ≡ fine
    → max ≢ 0
    → n + 1 ≤ max
below max n r h e = ground arith

refuse_unless-fine : (b : Bool) (r : Reason) → refuse_if (not b) r ≡ fine → b ≡ true
refuse_unless-fine b r h = ground arith

-- A workload that the checks admit gives what must be given; its quantities parse; no blocked prefix
-- starts its image and an allowed one does where there are such; its peer is one of those that are
-- named, where some are and it is given; and for every limit that is set: its replicas, and with it
-- the deployments and the pods of the cluster, are within theirs, and its quantities and, with them,
-- what the cluster requests already, by what they mean in Kubernetes, are within theirs, as far as
-- they are absent or numerals that stand alone or before one of m, Ki, Mi, Gi, Ti, k, G and T.
pub admitted-Admissible :
    (floats : Floats) (s : AgentSettings) (spec : RemoteAppSpec) (source_peer : String)
    (crs : List ExecutingApp)
    → check_resource_quota floats s spec source_peer crs ≡ fine
    → Admissible floats s spec source_peer crs
unfolding check_resource_quota
admitted-Admissible floats s spec source_peer crs h =
    let (
      req,
      (
        lim,
        (
          p1,
          (
            p2,
            (
              p3,
              (
                p4,
                (peer, (image, (cr, (cl, (mr, (ml, (reps, (deps, (pods, (ct, (mt, end))))))))))),
              ),
            ),
          ),
        ),
      ),
    ) =
      first_of-All _ h in
    record {
      requests_given = required _ _ _ req;
      limits_given = required _ _ _ lim;
      cpu_request_parses = parses-Parses floats _ p1;
      cpu_limit_parses = parses-Parses floats _ p2;
      memory_request_parses = parses-Parses floats _ p3;
      memory_limit_parses = parses-Parses floats _ p4;
      peer = permitted-FromPermitted s source_peer (refuse_unless-fine _ _ peer);
      image = images-ImageAllowed floats s spec.image image;
      cpu_request = pod_limit-Within floats _ _ _ cr;
      cpu_limit = pod_limit-Within floats _ _ _ cl;
      memory_request = pod_limit-Within floats _ _ _ mr;
      memory_limit = pod_limit-Within floats _ _ _ ml;
      replicas = at_most _ _ _ reps;
      deployments = below _ _ _ deps;
      pods = at_most _ _ _ pods;
      cpu_total = total_limit-Within floats _ _ _ _ _ ct;
      memory_total = total_limit-Within floats _ _ _ _ _ mt;
    }
