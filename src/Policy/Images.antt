-- ===== src/Policy/Images.antt =====
-- `_check_image_policy` of porpulsion/routes/workloads.py.
use porpulsion.Prelude.{String, Bool, true, not, List, [], ◌∷◌, keep, map, any, if◌then◌else◌}
use porpulsion.Prelude.Text.{is_empty, strip, split, starts_with}
use porpulsion.Policy.{AgentSettings, Check, fine, refused, image_blocked, image_not_allowed}

-- `[p.strip() for p in s.split(",") if p.strip()]`
unfoldable pub comma_list : String → List String
comma_list s = keep (λ p. not (is_empty p)) (map strip (split "," s))

abbrev pub is_blocked : String → List String → Bool
is_blocked image prefixes = any (λ p. starts_with image p) prefixes

abbrev pub is_allowed : String → List String → Bool
is_allowed image [] = true
is_allowed image (p ∷ ps) = any (λ q. starts_with image q) (p ∷ ps)

unfoldable pub check_image_policy : AgentSettings → String → Check
check_image_policy s image =
    let allowed = comma_list s.allowed_images in
    if is_blocked image (comma_list s.blocked_images)
    then refused (image_blocked image)
    else if is_allowed image allowed
    then fine
    else refused (image_not_allowed image allowed)
