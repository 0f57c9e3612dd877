-- ===== src/Kopf/Rejections.antt =====
-- The messages of porpulsion/routes/workloads.py and porpulsion/channel_handlers.py by which a peer refuses
-- a workload, and what porpulsion/k8s/kopf_handlers.py of the sender takes them for.
use porpulsion.Prelude.{
  or-eq_true, ℕ, ◌-◌, leb, zero, suc, String, Char, Bool, true, false, ◌||◌, ◌≡◌, refl, subst,
  Option, none, some, List, any, if◌then◌else◌, arith,
}
use Prim.Native.String
use Prim.Native.String.{[], ◌∷◌}
use Prim.Native.String.append
use porpulsion.Prelude.Int.{ℤ, pos, negsuc}
use porpulsion.Prelude.Text.{has_text, starts_with, is_char, text, join}
use porpulsion.Prelude.Strip.{starts_with-left}
use porpulsion.Policy.{
  Reason, requests_required, limits_required, peer_not_permitted, image_blocked, image_not_allowed,
  cpu_request_over, cpu_limit_over, memory_request_over, memory_limit_over, replicas_over,
  deployments_full, pods_full, cpu_full, memory_full,
}
use porpulsion.Kopf.{is_rejection, rejection_phrases}

-- `limit - used`, which may be negative
abbrev pub difference : (limit used : ℕ) → ℤ
difference limit used = if leb used limit then pos (limit - used) else negsuc (used - limit - 1)

module _ (show : ℤ → String) where
  -- the text of a refusal; `show` is `str` of a number
  unfoldable pub reason_text : Reason → String
  reason_text requests_required =
      "This cluster requires resource requests (resources.requests.cpu and resources.requests.memory)"
  reason_text limits_required =
      "This cluster requires resource limits (resources.limits.cpu and resources.limits.memory)"
  reason_text (peer_not_permitted peer) = text (
      List.◌∷◌ "Peer '"
        (List.◌∷◌ peer (List.◌∷◌ "' is not permitted to submit workloads to this cluster" List.[])))
  reason_text (image_blocked image) = text (
      List.◌∷◌ "Image '"
        (List.◌∷◌ image (List.◌∷◌ "' is blocked by this cluster's policy" List.[])))
  reason_text (image_not_allowed image allowed) = text (
      List.◌∷◌ "Image '" (
        List.◌∷◌ image (
          List.◌∷◌ "' is not in this cluster's allowed image list ("
            (List.◌∷◌ (join ", " allowed) (List.◌∷◌ ")" List.[])))))
  reason_text (cpu_request_over asked limit) = text (
      List.◌∷◌ "CPU request "
        (List.◌∷◌ asked (List.◌∷◌ " exceeds per-pod limit of " (List.◌∷◌ limit List.[]))))
  reason_text (cpu_limit_over asked limit) = text (
      List.◌∷◌ "CPU limit "
        (List.◌∷◌ asked (List.◌∷◌ " exceeds per-pod limit of " (List.◌∷◌ limit List.[]))))
  reason_text (memory_request_over asked limit) = text (
      List.◌∷◌ "Memory request "
        (List.◌∷◌ asked (List.◌∷◌ " exceeds per-pod limit of " (List.◌∷◌ limit List.[]))))
  reason_text (memory_limit_over asked limit) = text (
      List.◌∷◌ "Memory limit "
        (List.◌∷◌ asked (List.◌∷◌ " exceeds per-pod limit of " (List.◌∷◌ limit List.[]))))
  reason_text (replicas_over asked limit) = text (
      List.◌∷◌ "Requested " (
        List.◌∷◌ (show (pos asked)) (
          List.◌∷◌ " replicas exceeds this cluster's per-app limit of "
            (List.◌∷◌ (show (pos limit)) List.[]))))
  reason_text (deployments_full limit) = text (
      List.◌∷◌ "This cluster has reached its deployment limit ("
        (List.◌∷◌ (show (pos limit)) (List.◌∷◌ " concurrent RemoteApps)" List.[])))
  reason_text (pods_full asked used limit) = text (
      List.◌∷◌ "Insufficient pod capacity: " (
        List.◌∷◌ (show (pos asked)) (
          List.◌∷◌ " requested, " (
            List.◌∷◌ (show (difference limit used)) (
              List.◌∷◌ " available (limit "
                (List.◌∷◌ (show (pos limit)) (List.◌∷◌ " total pods)" List.[])))))))
  reason_text (cpu_full asked limit) = text (
      List.◌∷◌ "Insufficient CPU capacity: request "
        (List.◌∷◌ asked (List.◌∷◌ " would exceed cluster total of " (List.◌∷◌ limit List.[]))))
  reason_text (memory_full asked limit) = text (
      List.◌∷◌ "Insufficient memory: request "
        (List.◌∷◌ asked (List.◌∷◌ " would exceed cluster total of " (List.◌∷◌ limit List.[]))))

-- refusals that a phrase of the list stands in
abbrev pub is_listed : Reason → Bool
is_listed (peer_not_permitted peer) = true
is_listed (image_blocked image) = true
is_listed (image_not_allowed image allowed) = true
is_listed (pods_full asked used limit) = true
is_listed (cpu_full asked limit) = true
is_listed (memory_full asked limit) = true
is_listed _ = false

is_char_refl : (c : Char) → is_char c c ≡ true
is_char_refl c = ground arith

has_text-empty : (s : String) → has_text s [] ≡ true
unfolding has_text starts_with
has_text-empty [] = refl
has_text-empty (c ∷ s) = refl

or_map :
    (a b c d : Bool)
    → (a || b) ≡ true
    → (a ≡ true → c ≡ true)
    → (b ≡ true → d ≡ true)
    → (c || d) ≡ true
or_map true b c d h f g = rw (f refl)
or_map false b c d h f g = or-eq_true c d (g h)

has_text-left : (r s t : String) → has_text r t ≡ true → has_text (String.◌++◌ r s) t ≡ true
unfolding has_text
has_text-left [] s [] h = has_text-empty (String.◌++◌ [] s)
has_text-left [] s (d ∷ t) h = cc
has_text-left (c ∷ r) s t h = rw (append.cons c r s) (
    or_map (starts_with (c ∷ r) t) (has_text r t) _ _ h
      (λ e.
        subst (λ x. starts_with x t ≡ true) (λ i. append.cons c r s i)
          (starts_with-left (c ∷ r) s t e))
      (has_text-left r s t))

has_text-append : (r s t : String) → has_text s t ≡ true → has_text (String.◌++◌ r s) t ≡ true
unfolding has_text
has_text-append [] s t h = rw (append.nil s) h
has_text-append (c ∷ r) s t h = rw (append.cons c r s) (or-eq_true _ _ (has_text-append r s t h))

abbrev get_elem? : {A : Type 0} → List A → ℕ → Option A
get_elem? List.[] n = none
get_elem? (List.◌∷◌ x xs) zero = some x
get_elem? (List.◌∷◌ x xs) (suc n) = get_elem? xs n

any_at :
    {A : Type 0} (p : A → Bool) (n : ℕ) (xs : List A) (x : A)
    → get_elem? xs n ≡ some x
    → p x ≡ true
    → any p xs ≡ true
any_at p n List.[] x e h = cc
any_at p zero (List.◌∷◌ y ys) x e h = let same : p y ≡ true = cc (e, h) in rw same
any_at p (suc n) (List.◌∷◌ y ys) x e h = or-eq_true _ _ (any_at p n ys x e h)

-- a message with a listed phrase in its second or third part, or at its beginning
ends-Has :
    (phrase a b c : String)
    → has_text c phrase ≡ true
    → has_text (String.◌++◌ a (String.◌++◌ b c)) phrase ≡ true
ends-Has phrase a b c h = has_text-append a (String.◌++◌ b c) phrase (has_text-append b c phrase h)

-- the phrases by their places in the list
module _ (message : String) where
  phrase_at :
      (n : ℕ) (phrase : String)
      → get_elem? rejection_phrases n ≡ some phrase
      → has_text message phrase ≡ true
      → is_rejection message ≡ true
  unfolding is_rejection
  phrase_at n phrase e h = any_at (has_text message) n rejection_phrases phrase e h

  insufficient : has_text message "Insufficient" ≡ true → is_rejection message ≡ true
  insufficient = phrase_at 1 "Insufficient" refl

says_not_permitted :
    has_text "' is not permitted to submit workloads to this cluster" "not permitted" ≡ true
unfolding has_text
says_not_permitted = refl

says_blocked : has_text "' is blocked by this cluster's policy" "is blocked" ≡ true
unfolding has_text
says_blocked = refl

says_not_allowed :
    has_text "' is not in this cluster's allowed image list (" "allowed image list" ≡ true
unfolding has_text
says_not_allowed = refl

says_pods : has_text "Insufficient pod capacity: " "Insufficient" ≡ true
unfolding has_text
says_pods = refl

says_cpu : has_text "Insufficient CPU capacity: request " "Insufficient" ≡ true
unfolding has_text
says_cpu = refl

says_memory : has_text "Insufficient memory: request " "Insufficient" ≡ true
unfolding has_text
says_memory = refl

module _ (show : ℤ → String) where
  -- A peer that refuses a workload by its image policy, by the list of its source peers or for want
  -- of total pods, CPU or memory is taken at its word: the message has a phrase of the list,
  -- whatever names and values it shows.
  pub listed-IsFinal : (r : Reason) → is_listed r ≡ true → is_rejection (reason_text show r) ≡ true
  unfolding reason_text text
  listed-IsFinal requests_required h = cc
  listed-IsFinal limits_required h = cc
  listed-IsFinal (peer_not_permitted peer) h =
      phrase_at _ 3 "not permitted" refl
        (ends-Has "not permitted" "Peer '" peer _ says_not_permitted)
  listed-IsFinal (image_blocked image) h =
      phrase_at _ 5 "is blocked" refl (ends-Has "is blocked" "Image '" image _ says_blocked)
  listed-IsFinal (image_not_allowed image allowed) h = phrase_at _ 6 "allowed image list" refl (
      ends-Has "allowed image list" "Image '" image _ (
        has_text-left "' is not in this cluster's allowed image list (" _ "allowed image list"
          says_not_allowed))
  listed-IsFinal (cpu_request_over asked limit) h = cc
  listed-IsFinal (cpu_limit_over asked limit) h = cc
  listed-IsFinal (memory_request_over asked limit) h = cc
  listed-IsFinal (memory_limit_over asked limit) h = cc
  listed-IsFinal (replicas_over asked limit) h = cc
  listed-IsFinal (deployments_full limit) h = cc
  listed-IsFinal (pods_full asked used limit) h =
      insufficient _ (has_text-left "Insufficient pod capacity: " _ "Insufficient" says_pods)
  listed-IsFinal (cpu_full asked limit) h =
      insufficient _ (has_text-left "Insufficient CPU capacity: request " _ "Insufficient" says_cpu)
  listed-IsFinal (memory_full asked limit) h =
      insufficient _ (has_text-left "Insufficient memory: request " _ "Insufficient" says_memory)

  requirements-IsRetried :
      (is_rejection (reason_text show requests_required) ≡ false)
      × (is_rejection (reason_text show limits_required) ≡ false)
  unfolding reason_text is_rejection has_text
  requirements-IsRetried = (refl, refl)
