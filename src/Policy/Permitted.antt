-- ===== src/Policy/Permitted.antt =====
-- The peers and the images that porpulsion/routes/workloads.py permits.
use porpulsion.Prelude.{
  ◌≡◌, refl, String, Bool, true, false, List, [], ◌∷◌, length, leb, if◌then◌else◌, All, arith, ◌⊎◌,
  inl, inr, any, ◌||◌, ◌==◌, Bool-cases,
}
use porpulsion.Prelude.Text.{is_empty, starts_with}
use porpulsion.Policy.Images.{comma_list, check_image_policy, is_blocked, is_allowed}
use porpulsion.Policy.{AgentSettings, Floats, fine, refused, image_blocked, image_not_allowed}
use porpulsion.Policy.Quota.{peer_permitted, images_fine}

abbrev pub OneOf : (String → Type 0) → List String → Type 0
OneOf p [] = ⊥
OneOf p (x ∷ xs) = p x ⊎ OneOf p xs

any-OneOf : (p : String → Bool) (xs : List String) → any p xs ≡ true → OneOf (λ x. p x ≡ true) xs
any-OneOf p [] h = cc
any-OneOf p (x ∷ xs) h = elim (Bool-cases (p x)) [
  | inl found ↦ inl found
  | inr missing ↦ inr (any-OneOf p xs (ground arith))
]

any-All : (p : String → Bool) (xs : List String) → any p xs ≡ false → All (λ x. p x ≡ false) xs
any-All p [] h = tt
any-All p (x ∷ xs) h = (ground arith, any-All p xs (ground arith))

-- no peers are named, or the source is not, or it is one of those that are
abbrev pub FromPermitted : AgentSettings → (source_peer : String) → Type 0
FromPermitted s source_peer =
    (comma_list s.allowed_source_peers ≡ [])
    ⊎ (is_empty source_peer ≡ true)
    ⊎ OneOf (λ p. (p == source_peer) ≡ true) (comma_list s.allowed_source_peers)

pub permitted-FromPermitted :
    (s : AgentSettings) (source_peer : String)
    → peer_permitted s source_peer ≡ true
    → FromPermitted s source_peer
unfolding peer_permitted
permitted-FromPermitted s source_peer = split (comma_list s.allowed_source_peers)
  where
    split :
        (names : List String)
        → (leb (length names) 0 || is_empty source_peer || any (λ p. p == source_peer) names) ≡ true
        → (names ≡ [])
          ⊎ (is_empty source_peer ≡ true)
          ⊎ OneOf (λ p. (p == source_peer) ≡ true) names
    split [] h = inl refl
    split (n ∷ names) h = elim (Bool-cases (is_empty source_peer)) [
      | inl absent ↦ inr (inl absent)
      | inr given ↦ inr (inr (any-OneOf _ (n ∷ names) (ground arith)))
    ]

-- no blocked prefix starts the image, and where prefixes are allowed, one of them does
abbrev pub ImageAllowed : AgentSettings → String → Type 0
ImageAllowed s image =
    All (λ p. starts_with image p ≡ false) (comma_list s.blocked_images)
    × ((comma_list s.allowed_images ≡ [])
        ⊎ OneOf (λ p. starts_with image p ≡ true) (comma_list s.allowed_images))

pub images-ImageAllowed :
    (floats : Floats) (s : AgentSettings) (image : String)
    → images_fine floats s image ≡ fine
    → is_empty image ≡ false
    → ImageAllowed s image
unfolding check_image_policy
images-ImageAllowed floats s image h given =
    let (free, one) =
      verdicts (is_empty image) (is_blocked image (comma_list s.blocked_images))
        (comma_list s.allowed_images) h given in
    (any-All _ (comma_list s.blocked_images) free, one)
  where
    allowed :
        (ps : List String)
        → is_allowed image ps ≡ true
        → (ps ≡ []) ⊎ OneOf (λ p. starts_with image p ≡ true) ps
    allowed [] h = inl refl
    allowed (p ∷ ps) h = inr (any-OneOf _ (p ∷ ps) h)

    verdicts :
        (empty blocked : Bool) (ps : List String)
        → (if empty
            then fine
            else if blocked
            then refused (image_blocked image)
            else if is_allowed image ps
            then fine
            else refused (image_not_allowed image ps))
          ≡ fine
        → empty ≡ false
        → (blocked ≡ false) × ((ps ≡ []) ⊎ OneOf (λ p. starts_with image p ≡ true) ps)
    verdicts empty blocked ps h given = elim (Bool-cases (is_allowed image ps)) [
      | inl found ↦ (ground arith, allowed ps found)
      | inr missing ↦ elim (Bool-cases blocked) [ inl b ↦ ground arith | inr b ↦ ground arith ]
    ]
