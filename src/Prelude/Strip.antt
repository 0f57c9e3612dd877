-- ===== src/Prelude/Strip.antt =====
-- Laws of `str.strip`, which done twice is done once, and of `str.startswith`.
use Prim.Native.Char.{Char}
use Prim.Native.String
use Prim.Native.String.{String, [], ◌∷◌}
use Prim.Native.String.append
use mathlib.Core.Path.{◌≡◌, refl, ap, ◌∙◌}
use mathlib.Core.Bool.{Bool, true, false, ◌&&◌}
use mathlib.Core.Logic.{inl, inr}
use porpulsion.Prelude.Tests.{Bool-cases, and-eq_true}
use porpulsion.Prelude.Text.{lstrip, rstrip, strip, is_space, is_empty, is_char, starts_with}

and-false : (b : Bool) → b && false ≡ false
and-false true = refl
and-false false = refl

module _ (p : Char → Bool) where
  rstrip-rstrip : (s : String) → rstrip p (rstrip p s) ≡ rstrip p s
  unfolding rstrip
  rstrip-rstrip [] = refl
  rstrip-rstrip (c ∷ s) = elim (Bool-cases (is_empty (rstrip p s) && p c)) [
    | inl gone ↦ rw gone refl
    | inr stays ↦ rw (stays, rstrip-rstrip s, stays) refl
  ]

  rstrip-empty : rstrip p [] ≡ []
  unfolding rstrip
  rstrip-empty = refl

  pub rstrip-kept : (c : Char) (s : String) → p c ≡ false → rstrip p (c ∷ s) ≡ c ∷ rstrip p s
  unfolding rstrip
  rstrip-kept c s stays = rw (stays, and-false (is_empty (rstrip p s))) refl

  pub lstrip-kept : (c : Char) (s : String) → p c ≡ false → lstrip p (c ∷ s) ≡ c ∷ s
  unfolding lstrip
  lstrip-kept c s stays = rw stays refl

  lstrip-rstrip : (s : String) → lstrip p (rstrip p (lstrip p s)) ≡ rstrip p (lstrip p s)
  unfolding lstrip
  lstrip-rstrip [] = rw rstrip-empty refl
  lstrip-rstrip (c ∷ s) = elim (Bool-cases (p c)) [
    | inl gone ↦ rw gone (lstrip-rstrip s)
    | inr stays ↦ rw stays (rw (rstrip-kept c s stays) (lstrip-kept c (rstrip p s) stays))
  ]

pub strip-strip : (s : String) → strip (strip s) ≡ strip s
unfolding strip
strip-strip s =
    ap (rstrip is_space) (lstrip-rstrip is_space s) ∙ rstrip-rstrip is_space (lstrip is_space s)

pub strip-empty : strip [] ≡ []
unfolding strip lstrip rstrip
strip-empty = refl

pub starts_with-left :
    (r s t : String) → starts_with r t ≡ true → starts_with (String.◌++◌ r s) t ≡ true
unfolding starts_with
starts_with-left r s [] h = refl
starts_with-left [] s (d ∷ t) h = cc
starts_with-left (c ∷ r) s (d ∷ t) h =
    let (same, rest) = and-eq_true (is_char c d) (starts_with r t) h in
    rw (append.cons c r s, same) (starts_with-left r s t rest)
