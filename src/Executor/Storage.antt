-- ===== src/Executor/Storage.antt =====
-- The storage claims of porpulsion/k8s/executor.py: `_parse_storage_gb`, the check of the total, and the
-- loop that creates the claims.
use porpulsion.Prelude.{
  ℕ, String, Bool, not, ◌&&◌, ◌||◌, Option, none, some, or_default, List, ◌==◌, keep, map, ltb,
  nat_eq, if◌then◌else◌,
}
use mathlib.Core.Option
use Prim.Native.String.{[], ◌∷◌}
use porpulsion.Prelude.Text.{is_empty, strip, starts_with, take_text, text}
use porpulsion.Executor.{
  PvcSpec, PvcSettings, Reply, done, failed, Api, total_storage_over, pvcs_not_enabled, pvc_over,
  pvc_failed, pvc_written, Run, pure, emit, give_up, ◌>>◌,
}

-- Python's floats, as far as sizes are computed. `to_float` is `float(text)`, `none` its ValueError.
pub record Sizes : Type 1 where
  pub Float : Type 0
  pub to_float : String → Option Float
  pub zero_size : Float
  pub plus : Float → Float → Float
  pub times : Float → ℕ → Float
  pub over : Float → ℕ → Float
  -- `x > n`
  pub exceeds : Float → ℕ → Bool

-- `s[:-len(t)]` where `s.endswith(t)`
unfoldable pub without_end : String → String → Option String
without_end t [] = if [] == t then some [] else none
without_end t (c ∷ s) =
    let rest = without_end t s in if (c ∷ s) == t then some [] else Option.map (λ p. c ∷ p) rest

abbrev pub mounted : PvcSpec → Bool
mounted p = not (is_empty p.name || is_empty p.mount_path)

-- `f"{resource_name}-pvc-{logical_name}"[:63]`
unfoldable pub pvc_name : (resource_name logical_name : String) → String
pvc_name resource_name logical_name =
    take_text 63 (text (List.◌∷◌ resource_name (List.◌∷◌ "-pvc-" (List.◌∷◌ logical_name List.[]))))

module _ (sizes : Sizes) where
  open sizes use {Float, to_float, zero_size, plus, times, over, exceeds}

  -- the factors of the suffixes, in the order of the tests
  abbrev pub suffixes : List (String × (Float → Float))
  suffixes =
      List.◌∷◌ ("Ti", λ x. times x 1024)
        (List.◌∷◌ ("Gi", λ x. x)
          (List.◌∷◌ ("Mi", λ x. over x 1024)
            (List.◌∷◌ ("Ki", λ x. over x 1048576)
              (List.◌∷◌ ("G", λ x. over (times x 1000) 1024)
                (List.◌∷◌ ("M", λ x. over (times x 1000) 1048576) List.[])))))

  abbrev pub pick : Option String → (Float → Float) → Option Float → Option Float
  pick none factor rest = rest
  pick (some number) factor rest = Option.map factor (to_float number)

  unfoldable pub by_suffix : String → List (String × (Float → Float)) → Option Float
  by_suffix s List.[] = Option.map (λ x. over x 1073741824) (to_float s)
  by_suffix s (List.◌∷◌ (suffix, factor) rest) =
      pick (without_end suffix s) factor (by_suffix s rest)

  -- 0 on a parse failure
  unfoldable pub parse_storage_gb : String → Float
  parse_storage_gb storage = or_default zero_size (by_suffix (strip storage) suffixes)

  unfoldable pub sum_storage : List String → Float
  sum_storage List.[] = zero_size
  sum_storage (List.◌∷◌ s ss) = plus (parse_storage_gb s) (sum_storage ss)

  -- what the namespace holds beside this deployment's own claims; 0 where the list cannot be had
  unfoldable pub existing_gb : (deploy_name : String) → Option (List (String × String)) → Float
  existing_gb deploy_name none = zero_size
  existing_gb deploy_name (some claims) = sum_storage (
      map (λ c. c.1)
        (keep (λ c. not (starts_with c.0 (text (List.◌∷◌ deploy_name (List.◌∷◌ "-pvc-" List.[])))))
          claims))

  module _ (settings : PvcSettings) (api : Api) (deploy_name : String) where
    -- the check of the total, before any claim is created
    unfoldable pub check_total : List PvcSpec → Run Unit
    check_total List.[] = pure tt
    check_total (List.◌∷◌ p ps) =
        let own = sum_storage (map (λ q. q.storage) (keep mounted (List.◌∷◌ p ps))) in
        let limit = settings.max_pvc_storage_total_gb in
        if ltb 0 limit && exceeds (plus (existing_gb deploy_name api.list_pvcs) own) limit
        then give_up (total_storage_over limit)
        else pure tt

    -- a claim that exists is left as it is
    abbrev pub claimed : (k8s_name : String) → PvcSpec → Reply → Run Unit
    claimed k8s_name p done = emit (pvc_written k8s_name p.storage p.access_mode)
    claimed k8s_name p (failed status reason) =
        if nat_eq status 409 then pure tt else give_up (pvc_failed p.name reason)

    unfoldable pub claim : PvcSpec → Run Unit
    claim p =
        let limit = settings.max_pvc_storage_per_pvc_gb in
        let k8s_name = pvc_name deploy_name p.name in
        if not settings.allow_pvcs
        then give_up pvcs_not_enabled
        else if ltb 0 limit && exceeds (parse_storage_gb p.storage) limit
        then give_up (pvc_over p.name p.storage limit)
        else claimed k8s_name p (api.create_pvc k8s_name)

    unfoldable pub claims : List PvcSpec → Run Unit
    claims List.[] = pure tt
    claims (List.◌∷◌ p ps) = if mounted p then claim p >> claims ps else claims ps
