-- ===== src/Apps/Editing.antt =====
-- Writing the data of a Secret and reading it back (porpulsion/routes/workloads.py).
use mathlib.Core.Option
use porpulsion.Prelude.{
  String, Bool, true, false, ◌≡◌, refl, ap, ◌∙◌, Option, none, some, or_default, List, [], ◌∷◌,
  Dict, insert, find_first, find_first-fits, ◌==◌, eq_iff, IsDistinct, Bool-cases, inl, inr, arith,
}
use porpulsion.Apps.{
  Base64, Volume, AppCr, Desk, Side, submitted_side, executing_side, by_app_id, get_cr_by_app_id,
  executing_first,
}
use porpulsion.Apps.Volumes.{
  behind, secret, behind, set_content, stored, with_volumes, put_back, patch_cr_volume_data, shown,
  read_volume, get_app_secret, patch_app_secret,
}

abbrev key_or {ℓ} : {V : Type ℓ} → String → Option (String × V) → String
key_or j none = j
key_or j (some (k, v)) = k

apart : (j k : String) → (j == k) ≡ false → j ≡ k → ⊥
apart j k n e = ground (arith, eq_iff j k)

-- what is put in place of the first entry that fits is the first that fits
module _ {ℓ} {V : Type ℓ} (p : V → Bool) where
  abbrev first : Dict V → Option (String × V)
  first d = find_first (λ e. p e.1) d

  first-insert :
      (d : Dict V) (k : String) (v w : V)
      → IsDistinct d
      → p w ≡ true
      → first d ≡ some (k, v)
      → first (insert k w d) ≡ some (k, w)
  unfolding insert
  first-insert [] k v w distinct fits = λ h. cc
  first-insert ((j, u) ∷ d) k v w (new, distinct) fits = elim (Bool-cases (j == k)) [
    | inl same ↦ rw (same, fits) (λ h. ap (λ i. some (i, w)) ((eq_iff j k).0 same))
    | inr other ↦ elim (Bool-cases (p u)) [
      | inl hit ↦ rw (other, hit) (λ h. absurd (apart j k other (ap (key_or j) h)))
      | inr miss ↦ rw (other, miss) (first-insert d k v w distinct fits)
    ]
  ]

abbrev with_content : Dict String → Volume → Volume
with_content content v = record v { content = content }

abbrev Written : (name : String) → Dict String → List Volume → Volume → Type 0
Written name content vs v =
    (ws : List Volume) × (set_content name content vs ≡ some ws)
    × (read_volume name ws ≡ some (with_content content v))

-- an entry is read back with what was written to it
set_content-read :
    (name : String) (content : Dict String) (vs : List Volume) (v : Volume)
    → read_volume name vs ≡ some v
    → Written name content vs v
unfolding read_volume set_content
set_content-read name content [] v = λ h. cc
set_content-read name content (u ∷ vs) v = elim (Bool-cases (u.name == name)) [
  | inl here ↦
      rw here (λ h.
        (with_content content u ∷ vs, refl, rw here (ap (Option.map (with_content content)) h)))
  | inr later ↦ rw later (λ h.
      let (ws, set, read) = set_content-read name content vs v h in
      (u ∷ ws, ap (behind u) set, rw later read))
]

shown-stored :
    (base64 : Base64) (content : Dict String)
    → shown base64 (stored base64 secret content) ≡ content
shown-stored base64 [] = refl
shown-stored base64 ((k, v) ∷ content) =
    let back : or_default (base64.encode v) (base64.decode (base64.encode v)) ≡ v =
      ap (or_default (base64.encode v)) (base64.decode-encode v) in
    cc (back, shown-stored base64 content)

-- the app has its resource on this side, and none on the other
abbrev pub IsOnly : Side → (app_id : String) → Desk → String → AppCr → Type 0
IsOnly submitted_side app_id desk cr_name cr =
    (by_app_id app_id desk.submitted ≡ some (cr_name, cr))
    × (by_app_id app_id desk.executing ≡ none)
IsOnly executing_side app_id desk cr_name cr =
    (by_app_id app_id desk.executing ≡ some (cr_name, cr))
    × (by_app_id app_id desk.submitted ≡ none)

pub IsOnly-found :
    (side : Side) (app_id : String) (desk : Desk) (cr_name : String) (cr : AppCr)
    → IsOnly side app_id desk cr_name cr
    → (get_cr_by_app_id app_id desk ≡ some (side, cr_name, cr))
      × (executing_first app_id desk ≡ some (side, cr_name, cr))
unfolding get_cr_by_app_id executing_first
IsOnly-found submitted_side app_id desk cr_name cr (at, off) = rw (at, off) (refl, refl)
IsOnly-found executing_side app_id desk cr_name cr (at, off) = rw (at, off) (refl, refl)

put_back-IsOnly :
    (side : Side) (app_id : String) (desk : Desk) (cr_name : String) (cr new : AppCr)
    → IsDistinct desk.submitted
    → IsDistinct desk.executing
    → new.app_id ≡ cr.app_id
    → IsOnly side app_id desk cr_name cr
    → IsOnly side app_id (put_back side cr_name new desk) cr_name new
put_back-IsOnly submitted_side app_id desk cr_name cr new sub exe same (at, off) = (
  first-insert _ desk.submitted cr_name cr new sub
      (ap (λ i. i == app_id) same
        ∙ find_first-fits (λ e. e.1.app_id == app_id) desk.submitted (cr_name, cr) at)
      at,
  off,
)
put_back-IsOnly executing_side app_id desk cr_name cr new sub exe same (at, off) = (
  first-insert _ desk.executing cr_name cr new exe
      (ap (λ i. i == app_id) same
        ∙ find_first-fits (λ e. e.1.app_id == app_id) desk.executing (cr_name, cr) at)
      at,
  off,
)

module _ (base64 : Base64) where
  pub read_after :
      (side : Side) (app_id name : String) (content : Dict String) (desk : Desk) (cr_name : String)
      (cr : AppCr) (v : Volume)
      → IsDistinct desk.submitted
      → IsDistinct desk.executing
      → IsOnly side app_id desk cr_name cr
      → read_volume name cr.secrets ≡ some v
      → get_app_secret base64 app_id name
          (patch_cr_volume_data base64 true app_id secret name content desk)
        ≡ some content
  unfolding patch_cr_volume_data get_app_secret
  read_after side app_id name content desk cr_name cr v sub exe only has =
      let (found, first_found) = IsOnly-found side app_id desk cr_name cr only in
      let (ws, set, read) = set_content-read name (stored base64 secret content) cr.secrets v has in
      let new = with_volumes secret ws cr in
      let only_new = put_back-IsOnly side app_id desk cr_name cr new sub exe refl only in
      let (found_new, first_new) =
        IsOnly-found side app_id (put_back side cr_name new desk) cr_name new only_new in
      rw (first_found, set, found_new, read) (ap some (shown-stored base64 content))

  pub patches :
      (side : Side) (app_id name : String) (content : Dict String) (desk : Desk) (cr_name : String)
      (cr : AppCr)
      → get_cr_by_app_id app_id desk ≡ some (side, cr_name, cr)
      → patch_app_secret base64 true true true app_id name content desk
        ≡ (true, patch_cr_volume_data base64 true app_id secret name content desk)
  unfolding patch_app_secret
  patches submitted_side app_id name content desk cr_name cr found = rw found refl
  patches executing_side app_id name content desk cr_name cr found = rw found refl

  -- Writing a Secret of an app that has one resource, on whichever side, where the calls that this
  -- makes succeed, is answered with success, and reading the Secret then gives what was written.
  pub secret_reads_back :
      (side : Side) (app_id name : String) (content : Dict String) (desk : Desk) (cr_name : String)
      (cr : AppCr) (v : Volume)
      → IsDistinct desk.submitted
      → IsDistinct desk.executing
      → IsOnly side app_id desk cr_name cr
      → read_volume name cr.secrets ≡ some v
      → let (ok, after) = patch_app_secret base64 true true true app_id name content desk in
        (ok ≡ true) × (get_app_secret base64 app_id name after ≡ some content)
  secret_reads_back side app_id name content desk cr_name cr v sub exe only has =
      let (found, first_found) = IsOnly-found side app_id desk cr_name cr only in
      rw (patches side app_id name content desk cr_name cr found)
        (refl, read_after side app_id name content desk cr_name cr v sub exe only has)
