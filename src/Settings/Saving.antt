-- ===== src/Settings/Saving.antt =====
-- What an update of the settings leaves in memory and in the ConfigMap (porpulsion/routes/settings.py).
use porpulsion.Prelude.{
  ℕ, ◌+◌, String, true, ◌≡◌, refl, ap, ◌∙◌, Option, none, some, List, [], ◌∷◌, Dict, lookup, All,
  if-holds_by,
}
use porpulsion.Prelude.Int.{ℤ, clamp_zero}
use porpulsion.Prelude.Json.{Json, null, bool, int, str, arr, obj}
use porpulsion.Prelude.Exec.{Result, ok, err, Exec, after}
use porpulsion.Settings.{Settings, Python, Server, is_mode, is_level}
use porpulsion.Settings.Update.{
  change, bad_mode, bad_level, set_mode, set_level, BoolField, StrField, IntField, inbound_fields,
  bool_fields, str_fields, int_fields, put, truth_of, set_bools, set_texts, stripped, set_number,
  set_clamped, set_numbers, update_settings,
}

-- the mode and the level are among those that the program knows
pub record IsFit (x : Settings) : Type 0 where
  pub mode_known : is_mode x.tunnel_approval_mode ≡ true
  pub level_known : is_level x.log_level ≡ true

-- a field whose setter leaves the mode and the level
abbrev Spares : {A : Type 0} → String × (A → Settings → Settings) → Type 0
Spares {A} (name, set) =
    (a : A) (x : Settings)
    → ((set a x).tunnel_approval_mode ≡ x.tunnel_approval_mode)
      × ((set a x).log_level ≡ x.log_level)

spared-IsFit :
    (x y : Settings)
    → y.tunnel_approval_mode ≡ x.tunnel_approval_mode
    → y.log_level ≡ x.log_level
    → IsFit x
    → IsFit y
spared-IsFit x y m l fit = record {
  mode_known = ap is_mode m ∙ fit.mode_known;
  level_known = ap is_level l ∙ fit.level_known;
}

put-IsFit :
    {A : Type 0} (name : String) (set : A → Settings → Settings) (o : Option A) (x : Settings)
    → Spares (name, set)
    → IsFit x
    → IsFit (put set o x)
put-IsFit name set none x h fit = fit
put-IsFit name set (some a) x h fit = spared-IsFit x (set a x) (h a x).0 (h a x).1 fit

set_bools-IsFit :
    (fields : List BoolField) (given : Dict Json) (x : Settings)
    → All Spares fields
    → IsFit x
    → IsFit (set_bools fields given x)
unfolding set_bools
set_bools-IsFit [] given x h fit = fit
set_bools-IsFit ((name, set) ∷ fields) given x (h, hs) fit =
    set_bools-IsFit fields given _ hs (put-IsFit name set (truth_of (lookup name given)) x h fit)

set_texts-IsFit :
    (python : Python) (fields : List StrField) (given : Dict Json) (x : Settings)
    → All Spares fields
    → IsFit x
    → IsFit (set_texts python fields given x)
unfolding set_texts
set_texts-IsFit python [] given x h fit = fit
set_texts-IsFit python ((name, set) ∷ fields) given x (h, hs) fit =
    set_texts-IsFit python fields given _ hs
      (put-IsFit name set (stripped python (lookup name given)) x h fit)

-- an update that is not done yet: memory may differ, what was saved and told does not
pub record IsUnsaved (before s : Server) : Type 0 where
  pub same_saved : s.saved ≡ before.saved
  pub same_pushes : s.pushes ≡ before.pushes
  pub fit : IsFit s.settings

pub record IsSaved (before : Server) (x : Settings) (s : Server) : Type 0 where
  pub answered : x ≡ s.settings
  pub saved : s.saved ≡ s.settings
  pub pushed : s.pushes ≡ before.pushes + 1
  pub fit : IsFit s.settings

abbrev pub IsAnswer : Server → Result Settings × Server → Type 0
IsAnswer before (ok x, s) = IsSaved before x s
IsAnswer before (err e, s) = IsUnsaved before s

module _ (before : Server) where
  after-IsAnswer :
      {A : Type 0} (f : A → Exec Server Settings) (x : Result A × Server)
      → IsUnsaved before x.1
      → ((a : A) (s : Server) → IsUnsaved before s → IsAnswer before (f a s))
      → IsAnswer before (after f x)
  after-IsAnswer f (ok a, s) h k = k a s h
  after-IsAnswer f (err e, s) h k = h

  after-IsUnsaved :
      {A B : Type 0} (f : A → Exec Server B) (x : Result A × Server)
      → IsUnsaved before x.1
      → ((a : A) (s : Server) → IsUnsaved before s → IsUnsaved before (f a s).1)
      → IsUnsaved before (after f x).1
  after-IsUnsaved f (ok a, s) h k = k a s h
  after-IsUnsaved f (err e, s) h k = h

  change-IsUnsaved :
      (f : Settings → Settings) (s : Server)
      → IsUnsaved before s
      → IsFit (f s.settings)
      → IsUnsaved before (change f s)
  change-IsUnsaved f s h fit = record {
    same_saved = h.same_saved;
    same_pushes = h.same_pushes;
    fit = fit;
  }

  set_mode-IsUnsaved :
      (o : Option Json) (s : Server) → IsUnsaved before s → IsUnsaved before (set_mode o s).1
  set_mode-IsUnsaved none s h = h
  set_mode-IsUnsaved (some (str mode)) s h =
      if-holds_by (λ (r : Result Unit × Server). IsUnsaved before r.1) (is_mode mode) _
        (err bad_mode, s)
        (λ known.
          change-IsUnsaved (λ x. record x { tunnel_approval_mode = mode }) s h
            (record { mode_known = known; level_known = (h.fit).level_known }))
        (λ _. h)
  set_mode-IsUnsaved (some null) s h = h
  set_mode-IsUnsaved (some (bool _)) s h = h
  set_mode-IsUnsaved (some (int _)) s h = h
  set_mode-IsUnsaved (some (arr _)) s h = h
  set_mode-IsUnsaved (some (obj _)) s h = h

  module _ (python : Python) where
    set_level-IsUnsaved :
        (o : Option Json) (s : Server)
        → IsUnsaved before s
        → IsUnsaved before (set_level python o s).1
    set_level-IsUnsaved none s h = h
    set_level-IsUnsaved (some (str level)) s h =
        if-holds_by (λ (r : Result Unit × Server). IsUnsaved before r.1)
          (is_level (python.upper level)) _ (err bad_level, s)
          (λ known.
            change-IsUnsaved (λ x. record x { log_level = python.upper level }) s h
              (record { mode_known = (h.fit).mode_known; level_known = known }))
          (λ _. h)
    set_level-IsUnsaved (some null) s h = h
    set_level-IsUnsaved (some (bool _)) s h = h
    set_level-IsUnsaved (some (int _)) s h = h
    set_level-IsUnsaved (some (arr _)) s h = h
    set_level-IsUnsaved (some (obj _)) s h = h

    set_clamped-IsUnsaved :
        (name : String) (set : ℕ → Settings → Settings) (o : Option ℤ) (s : Server)
        → Spares (name, set)
        → IsUnsaved before s
        → IsUnsaved before (set_clamped python name set o s).1
    set_clamped-IsUnsaved name set none s k h = h
    set_clamped-IsUnsaved name set (some n) s k h =
        change-IsUnsaved (set (clamp_zero n)) s h
          (put-IsFit name set (some (clamp_zero n)) s.settings k h.fit)

    set_number-IsUnsaved :
        (name : String) (set : ℕ → Settings → Settings) (o : Option Json) (s : Server)
        → Spares (name, set)
        → IsUnsaved before s
        → IsUnsaved before (set_number python name set o s).1
    set_number-IsUnsaved name set none s k h = h
    set_number-IsUnsaved name set (some v) s k h =
        set_clamped-IsUnsaved name set (python.to_int v) s k h

    set_numbers-IsUnsaved :
        (fields : List IntField) (given : Dict Json) (s : Server)
        → All Spares fields
        → IsUnsaved before s
        → IsUnsaved before (set_numbers python fields given s).1
    unfolding set_numbers
    set_numbers-IsUnsaved [] given s k h = h
    set_numbers-IsUnsaved ((name, set) ∷ fields) given s (k, ks) h =
        after-IsUnsaved _ (set_number python name set (lookup name given) s)
          (set_number-IsUnsaved name set (lookup name given) s k h)
          (λ _ s' h'. set_numbers-IsUnsaved fields given s' ks h')

inbound-Spares : All Spares inbound_fields
inbound-Spares = ((λ a x. (refl, refl)), ((λ a x. (refl, refl)), tt))

bool-Spares : All Spares bool_fields
bool-Spares = (
  (λ a x. (refl, refl)),
  (
    (λ a x. (refl, refl)),
    ((λ a x. (refl, refl)), ((λ a x. (refl, refl)), ((λ a x. (refl, refl)), tt))),
  ),
)

str-Spares : All Spares str_fields
str-Spares = (
  (λ a x. (refl, refl)),
  (
    (λ a x. (refl, refl)),
    (
      (λ a x. (refl, refl)),
      (
        (λ a x. (refl, refl)),
        (
          (λ a x. (refl, refl)),
          (
            (λ a x. (refl, refl)),
            (
              (λ a x. (refl, refl)),
              ((λ a x. (refl, refl)), ((λ a x. (refl, refl)), ((λ a x. (refl, refl)), tt))),
            ),
          ),
        ),
      ),
    ),
  ),
)

int-Spares : All Spares int_fields
int-Spares = (
  (λ a x. (refl, refl)),
  (
    (λ a x. (refl, refl)),
    ((λ a x. (refl, refl)), ((λ a x. (refl, refl)), ((λ a x. (refl, refl)), tt))),
  ),
)

-- Whatever is posted to the settings, the approval mode and the log level stay among the known ones.
-- An update that succeeds answers with what is in memory, has saved just that and has told the peers
-- once; one that fails, by a 400 or an exception, has saved and told nothing.
pub update-IsAnswer :
    (python : Python) (given : Dict Json) (s : Server)
    → IsFit s.settings
    → IsAnswer s (update_settings python given s)
unfolding update_settings
update-IsAnswer python given s fit =
    let start : IsUnsaved s s = record { same_saved = refl; same_pushes = refl; fit = fit } in
    after-IsAnswer s _ (set_mode (lookup "tunnel_approval_mode" given) s)
      (set_mode-IsUnsaved s (lookup "tunnel_approval_mode" given) s start)
      (λ _ s1 h1.
        let inbound =
          change-IsUnsaved s (set_bools inbound_fields given) s1 h1
            (set_bools-IsFit inbound_fields given s1.settings inbound-Spares h1.fit) in
        after-IsAnswer s _ (set_level python (lookup "log_level" given) _)
          (set_level-IsUnsaved s python (lookup "log_level" given) _ inbound)
          (λ _ s2 h2.
            let flags =
              change-IsUnsaved s (set_bools bool_fields given) s2 h2
                (set_bools-IsFit bool_fields given s2.settings bool-Spares h2.fit) in
            let texts =
              change-IsUnsaved s (set_texts python str_fields given) _ flags
                (set_texts-IsFit python str_fields given _ str-Spares flags.fit) in
            after-IsAnswer s _ (set_numbers python int_fields given _)
              (set_numbers-IsUnsaved s python int_fields given _ int-Spares texts)
              (λ _ s3 h3. record {
                answered = refl;
                saved = refl;
                pushed = ap (λ n. n + 1) h3.same_pushes;
                fit = h3.fit;
              })))
