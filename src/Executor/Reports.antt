-- ===== src/Executor/Reports.antt =====
-- What a run of `run_workload` reports: the statuses, in order.
use porpulsion.Prelude.{
  String, Bool, not, ◌≡◌, refl, Option, none, some, List, [], ◌∷◌, ◌++◌, nat_eq, ◌∙◌, ap, if-holds,
  if◌then◌else◌, arith,
}
use porpulsion.Workloads.Naming.{Unicode}
use porpulsion.Executor.{
  VolumeSpec, PvcSpec, RemoteApp, PvcSettings, Reply, done, failed, Api, Failure, Phase, updating,
  creating, running, failure, Effect, reported, config_map_written, secret_written, pvc_written,
  deployment_written, service_written, go, returned, crashed, Run, pure, give_up, prefixed, ◌>>=◌,
  ◌>>◌, deploy_name,
}
use porpulsion.Executor.Storage.{Sizes, mounted, check_total, claim, claimed, claims, pvc_name}
use porpulsion.Executor.Deploy.{
  cm_name, sec_name, apply_by_name, decode_all, skipped, config_map_done, apply_config_map,
  config_maps, secret_done, apply_decoded, secrets, verified, check_pull_secrets, replaced_or_crash,
  deployment_done, apply_deployment, service_done, apply_service, first_phase, execute,
}

-- the statuses that the source peer is told
abbrev pub phases : List Effect → List Phase
phases [] = []
phases (reported p ∷ es) = p ∷ phases es
phases (config_map_written _ _ ∷ es) = phases es
phases (secret_written _ _ ∷ es) = phases es
phases (pvc_written _ _ _ ∷ es) = phases es
phases (deployment_written _ ∷ es) = phases es
phases (service_written _ ∷ es) = phases es

phases-append : (es fs : List Effect) → phases (es ++ fs) ≡ phases es ++ phases fs
phases-append [] fs = refl
phases-append (reported p ∷ es) fs = ap (λ l. p ∷ l) (phases-append es fs)
phases-append (config_map_written _ _ ∷ es) fs = phases-append es fs
phases-append (secret_written _ _ ∷ es) fs = phases-append es fs
phases-append (pvc_written _ _ _ ∷ es) fs = phases-append es fs
phases-append (deployment_written _ ∷ es) fs = phases-append es fs
phases-append (service_written _ ∷ es) fs = phases-append es fs

-- a part of a run that goes on has told `last`; one that returns early has told one failure, and one
-- that crashes nothing
abbrev Tells : {A : Type 0} → List Phase → Run A → Type 0
Tells last (go a, es) = phases es ≡ last
Tells last (returned, es) = (f : Failure) × (phases es ≡ failure f ∷ [])
Tells last (crashed, es) = phases es ≡ []

abbrev IsQuiet : {A : Type 0} → Run A → Type 0
IsQuiet = Tells []

prefixed-Tells :
    {A : Type 0} (last : List Phase) (es : List Effect) (m : Run A)
    → phases es ≡ []
    → Tells last m
    → Tells last (prefixed es m)
prefixed-Tells last es (go a, fs) h k = phases-append es fs ∙ rw (h, k)
prefixed-Tells last es (returned, fs) h (f, k) = (f, phases-append es fs ∙ rw (h, k))
prefixed-Tells last es (crashed, fs) h k = phases-append es fs ∙ rw (h, k)

bind-Tells :
    {A B : Type 0} (last : List Phase) (m : Run A) (f : A → Run B)
    → IsQuiet m
    → ((a : A) → Tells last (f a))
    → Tells last (m >>= f)
bind-Tells last (go a, es) f h k = prefixed-Tells last es (f a) h (k a)
bind-Tells last (returned, es) f h k = h
bind-Tells last (crashed, es) f h k = h

abbrev Silent : Effect → Type 0
Silent e = phases (e ∷ []) ≡ []

apply_by_name-IsSilent :
    (created replacing : Reply) (e : Effect) (empty : Bool)
    → Silent e
    → phases (apply_by_name created replacing e empty).1 ≡ []
unfolding apply_by_name
apply_by_name-IsSilent done replacing e empty h = h
apply_by_name-IsSilent (failed status reason) done e empty h = ground arith
apply_by_name-IsSilent (failed status reason) (failed s r) e empty h = ground arith

config_map_done-IsQuiet :
    (api : Api) (name : String) (v : VolumeSpec) (r : Reply) (es : List Effect)
    → phases es ≡ []
    → IsQuiet (config_map_done api name v (r, es))
config_map_done-IsQuiet api name v done es h = h
config_map_done-IsQuiet api name v (failed status reason) es h =
    prefixed-Tells {A = Unit} [] es (give_up (Failure.config_map_failed v.name reason)) h (_, refl)

secret_done-IsQuiet :
    (api : Api) (name : String) (v : VolumeSpec) (r : Reply) (es : List Effect)
    → phases es ≡ []
    → IsQuiet (secret_done api name v (r, es))
secret_done-IsQuiet api name v done es h = h
secret_done-IsQuiet api name v (failed status reason) es h =
    prefixed-Tells {A = Unit} [] es (give_up (Failure.secret_failed v.name reason)) h (_, refl)

either-IsQuiet :
    {A : Type 0} (b : Bool) (m n : Run A) → IsQuiet m → IsQuiet n → IsQuiet (if b then m else n)
either-IsQuiet {A} b m n = if-holds (λ (r : Run A). IsQuiet r) b m n

module _ (api : Api) (name : String) where
  config_maps-IsQuiet : (vs : List VolumeSpec) → IsQuiet (config_maps api name vs)
  unfolding config_maps apply_config_map
  config_maps-IsQuiet [] = refl
  config_maps-IsQuiet (v ∷ vs) =
      let k8s_name = cm_name name v.name in
      either-IsQuiet (skipped v) (config_maps api name vs)
        (apply_config_map api name v >> config_maps api name vs) (config_maps-IsQuiet vs)
        (bind-Tells [] (apply_config_map api name v) (λ _. config_maps api name vs)
          (config_map_done-IsQuiet api name v _ _ (
            apply_by_name-IsSilent (api.create_config_map k8s_name)
              (api.replace_config_map k8s_name) _ _ refl))
          (λ _. config_maps-IsQuiet vs))

  apply_decoded-IsQuiet :
      (v : VolumeSpec) (o : Option (List (String × String))) → IsQuiet (apply_decoded api name v o)
  apply_decoded-IsQuiet v none = refl
  apply_decoded-IsQuiet v (some content) = secret_done-IsQuiet api name v _ _ (
      apply_by_name-IsSilent (api.create_secret (sec_name name v.name))
        (api.replace_secret (sec_name name v.name)) _ _ refl)

  secrets-IsQuiet :
      (decode : String → Option String) (vs : List VolumeSpec)
      → IsQuiet (secrets api name decode vs)
  unfolding secrets
  secrets-IsQuiet decode [] = refl
  secrets-IsQuiet decode (v ∷ vs) =
      let first = apply_decoded api name v (decode_all decode v.content) in
      either-IsQuiet (skipped v) (secrets api name decode vs) (first >> secrets api name decode vs)
        (secrets-IsQuiet decode vs)
        (bind-Tells [] first (λ _. secrets api name decode vs)
          (apply_decoded-IsQuiet v (decode_all decode v.content)) (λ _. secrets-IsQuiet decode vs))

  verified-IsQuiet : (s : String) (r : Reply) → IsQuiet (verified api name s r)
  verified-IsQuiet s done = refl
  verified-IsQuiet s (failed status reason) =
      either-IsQuiet {A = Unit} (nat_eq status 404) (give_up _) (give_up _) (_, refl) (_, refl)

  check_pull_secrets-IsQuiet : (names : List String) → IsQuiet (check_pull_secrets api name names)
  unfolding check_pull_secrets
  check_pull_secrets-IsQuiet [] = refl
  check_pull_secrets-IsQuiet (s ∷ names) =
      bind-Tells [] (verified api name s (api.read_secret s))
        (λ _. check_pull_secrets api name names) (verified-IsQuiet s (api.read_secret s))
        (λ _. check_pull_secrets-IsQuiet names)

  replaced_or_crash-IsQuiet :
      (e : Effect) (r : Reply) → Silent e → IsQuiet (replaced_or_crash api name e r)
  replaced_or_crash-IsQuiet e done h = h
  replaced_or_crash-IsQuiet e (failed status reason) h = refl

  deployment_done-IsQuiet : (r : Reply) → IsQuiet (deployment_done api name r)
  deployment_done-IsQuiet done = refl
  deployment_done-IsQuiet (failed status reason) =
      either-IsQuiet (nat_eq status 409)
        (replaced_or_crash api name (deployment_written name) api.replace_deployment) (give_up _)
        (replaced_or_crash-IsQuiet (deployment_written name) api.replace_deployment refl) (_, refl)

  service_done-IsQuiet : (r : Reply) → IsQuiet (service_done api name r)
  service_done-IsQuiet done = refl
  service_done-IsQuiet (failed status reason) =
      either-IsQuiet (nat_eq status 409)
        (replaced_or_crash api name (service_written name) api.replace_service) (give_up _)
        (replaced_or_crash-IsQuiet (service_written name) api.replace_service refl) (_, refl)

module _ (sizes : Sizes) (settings : PvcSettings) (api : Api) (name : String) where
  check_total-IsQuiet : (ps : List PvcSpec) → IsQuiet (check_total sizes settings api name ps)
  unfolding check_total
  check_total-IsQuiet [] = refl
  check_total-IsQuiet (p ∷ ps) =
      either-IsQuiet {A = Unit} _
        (give_up (Failure.total_storage_over settings.max_pvc_storage_total_gb)) (pure tt) (_, refl)
        refl

  claimed-IsQuiet :
      (k8s_name : String) (p : PvcSpec) (r : Reply)
      → IsQuiet (claimed sizes settings api name k8s_name p r)
  claimed-IsQuiet k8s_name p done = refl
  claimed-IsQuiet k8s_name p (failed status reason) =
      either-IsQuiet {A = Unit} (nat_eq status 409) (pure tt) (give_up _) refl (_, refl)

  claim-IsQuiet : (p : PvcSpec) → IsQuiet (claim sizes settings api name p)
  unfolding claim
  claim-IsQuiet p =
      let k8s_name = pvc_name name p.name in
      let own = claimed sizes settings api name k8s_name p (api.create_pvc k8s_name) in
      either-IsQuiet (not settings.allow_pvcs) (give_up Failure.pvcs_not_enabled) _ (_, refl)
        (either-IsQuiet _
          (give_up (Failure.pvc_over p.name p.storage settings.max_pvc_storage_per_pvc_gb)) own
          (_, refl) (claimed-IsQuiet k8s_name p (api.create_pvc k8s_name)))

  claims-IsQuiet : (ps : List PvcSpec) → IsQuiet (claims sizes settings api name ps)
  unfolding claims
  claims-IsQuiet [] = refl
  claims-IsQuiet (p ∷ ps) =
      let rest = claims sizes settings api name ps in
      either-IsQuiet (mounted p) (claim sizes settings api name p >> rest) rest
        (bind-Tells [] (claim sizes settings api name p) (λ _. rest) (claim-IsQuiet p)
          (λ _. claims-IsQuiet ps))
        (claims-IsQuiet ps)

-- the report that a run starts with
abbrev pub first : Reply → Phase
first done = updating
first (failed status reason) = creating

abbrev pub Reported : Phase → Run Unit → Type 0
Reported p (go a, es) = phases es ≡ p ∷ running ∷ []
Reported p (returned, es) = (f : Failure) × (phases es ≡ p ∷ failure f ∷ [])
Reported p (crashed, es) = phases es ≡ p ∷ []

first_phase-Reported :
    (api : Api) (name : String) (r : Reply) (m : Run Unit)
    → Tells (running ∷ []) m
    → Reported (first r) (first_phase api name r >> m)
first_phase-Reported api name done (go a, es) h = ap (λ l. updating ∷ l) h
first_phase-Reported api name done (returned, es) (f, h) = (f, ap (λ l. updating ∷ l) h)
first_phase-Reported api name done (crashed, es) h = ap (λ l. updating ∷ l) h
first_phase-Reported api name (failed s r) (go a, es) h = ap (λ l. creating ∷ l) h
first_phase-Reported api name (failed s r) (returned, es) (f, h) = (f, ap (λ l. creating ∷ l) h)
first_phase-Reported api name (failed s r) (crashed, es) h = ap (λ l. creating ∷ l) h

-- Whatever the API answers, a run reports first whether it updates or creates; then exactly that the
-- workload runs where it goes on, exactly one failure where it returns early, and nothing where it
-- ends by an exception that nothing catches.
pub execute-Reported :
    (unicode : Unicode) (decode : String → Option String) (sizes : Sizes) (settings : PvcSettings)
    (api : Api) (app : RemoteApp)
    → Reported (first api.read_deployment) (execute unicode decode sizes settings api app)
unfolding execute apply_deployment apply_service
execute-Reported unicode decode sizes settings api app =
    let name = deploy_name unicode app in
    let last = running ∷ [] in
    first_phase-Reported api name api.read_deployment _ (
      bind-Tells last (config_maps api name app.spec.config_maps) _
        (config_maps-IsQuiet api name app.spec.config_maps)
        (λ _.
          bind-Tells last (secrets api name decode app.spec.secrets) _
            (secrets-IsQuiet api name decode app.spec.secrets)
            (λ _.
              bind-Tells last (check_total sizes settings api name app.spec.pvcs) _
                (check_total-IsQuiet sizes settings api name app.spec.pvcs)
                (λ _.
                  bind-Tells last (claims sizes settings api name app.spec.pvcs) _
                    (claims-IsQuiet sizes settings api name app.spec.pvcs)
                    (λ _.
                      bind-Tells last (check_pull_secrets api name app.spec.pull_secrets) _
                        (check_pull_secrets-IsQuiet api name app.spec.pull_secrets)
                        (λ _.
                          bind-Tells last (deployment_done api name api.create_deployment) _
                            (deployment_done-IsQuiet api name api.create_deployment)
                            (λ _.
                              bind-Tells last (service_done api name api.create_service) _
                                (service_done-IsQuiet api name api.create_service)
                                (λ _. refl))))))))
