-- ===== src/Policy/Reading.antt =====
-- What the quantities of Kubernetes mean, and that `_parse_quantity` of
-- porpulsion/routes/workloads.py reads them so.
use porpulsion.Prelude.{
  ◌*◌, ◌≤◌, String, Char, code, Bool, true, false, ◌&&◌, ◌||◌, ◌≡◌, refl, sym, ap, ◌∙◌, Option,
  none, some, nat_eq, leb, inl, inr, ◌⊎◌, arith,
}
use mathlib.Core.Option
use Prim.Native.String.{[], ◌∷◌, ◌++◌}
use Prim.Native.String.append
use porpulsion.Prelude.Text.{is_empty, strip, is_space, lstrip, rstrip}
use porpulsion.Prelude.Strip.{rstrip-kept, lstrip-kept}
use porpulsion.Policy.{Floats}
use porpulsion.Policy.Quantity.{
  is_letter, lowers_to, cut_suffix, memory_suffixes, try_suffixes, parse_quantity,
}

-- digits and the point
abbrev pub is_number_char : Char → Bool
is_number_char c = let n = code c in leb 48 n && leb n 57 || nat_eq n 46

abbrev pub IsNumeral : String → Type 0
IsNumeral [] = Unit
IsNumeral (c ∷ s) = (is_number_char c ≡ true) × IsNumeral s

-- the suffixes that the comments of the program name, those that it reads
pub data Scale : Type 0 where
  units milli kibi mebi gibi tebi kilo giga tera : Scale

abbrev pub spelled : Scale → String
spelled units = ""
spelled milli = "m"
spelled kibi = "Ki"
spelled mebi = "Mi"
spelled gibi = "Gi"
spelled tebi = "Ti"
spelled kilo = "k"
spelled giga = "G"
spelled tera = "T"

abbrev pub amount : (floats : Floats) → Scale → floats.Float → floats.Float
amount floats units x = x
amount floats milli x = floats.per_thousand x
amount floats kibi x = floats.times x 1024
amount floats mebi x = floats.times x (1024 * 1024)
amount floats gibi x = floats.times x (1024 * (1024 * 1024))
amount floats tebi x = floats.times x (1024 * (1024 * (1024 * 1024)))
amount floats kilo x = floats.times x 1000
amount floats giga x = floats.times x 1000000000
amount floats tera x = floats.times x 1000000000000

-- a quantity and its amount: an absent one is none at all, and otherwise a numeral stands before a suffix
abbrev pub Means : (floats : Floats) → String → floats.Float → Type 0
Means floats q x =
    ((q ≡ "") × (x ≡ floats.zero))
    ⊎ ((c : Char) × (t : String) × (scale : Scale) × (n : floats.Float) × (q
          ≡ (c ∷ t) ++ spelled scale)
        × IsNumeral (c ∷ t)
        × (floats.to_float (c ∷ t) ≡ some n)
        × (x ≡ amount floats scale n))

number-is_letter : (c d : Char) → is_number_char c ≡ true → 97 ≤ code d → is_letter c d ≡ false
number-is_letter c d number lower = ground arith

number-is_space : (c : Char) → is_number_char c ≡ true → is_space c ≡ false
unfolding is_space
number-is_space c number = ground arith

prefix-nil : (o : Option String) → Option.map (λ p. [] ++ p) o ≡ o
prefix-nil none = refl
prefix-nil (some p) = ap some (append.nil p)

prefix-cons :
    (c : Char) (t : String) (o : Option String)
    → Option.map (λ p. c ∷ p) (Option.map (λ p. t ++ p) o) ≡ Option.map (λ p. (c ∷ t) ++ p) o
prefix-cons c t none = refl
prefix-cons c t (some p) = ap some (sym (append.cons c t p))

append-empty : (t : String) → t ++ [] ≡ t
append-empty [] = append.nil []
append-empty (c ∷ t) = append.cons c t [] ∙ ap (λ s. c ∷ s) (append-empty t)

-- a suffix is looked for behind the numeral
cut-numeral :
    (t : String) (d : Char) (e r : String)
    → IsNumeral t
    → 97 ≤ code d
    → cut_suffix (d ∷ e) (t ++ r) ≡ Option.map (λ p. t ++ p) (cut_suffix (d ∷ e) r)
unfolding cut_suffix lowers_to
cut-numeral [] d e r numeral lower = rw (append.nil r) (sym (prefix-nil (cut_suffix (d ∷ e) r)))
cut-numeral (c ∷ t) d e r (number, numeral) lower =
    rw (append.cons c t r, number-is_letter c d number lower, cut-numeral t d e r numeral lower)
      (prefix-cons c t (cut_suffix (d ∷ e) r))

rstrip-numeral :
    (t r : String) → IsNumeral t → rstrip is_space r ≡ r → rstrip is_space (t ++ r) ≡ t ++ r
rstrip-numeral [] r numeral kept = rw (append.nil r) kept
rstrip-numeral (c ∷ t) r (number, numeral) kept = rw (append.cons c t r) (
    rstrip-kept is_space c (t ++ r) (number-is_space c number)
    ∙ ap (λ s. c ∷ s) (rstrip-numeral t r numeral kept))

suffix-strips : (scale : Scale) → rstrip is_space (spelled scale) ≡ spelled scale
unfolding rstrip is_space
suffix-strips units = refl
suffix-strips milli = refl
suffix-strips kibi = refl
suffix-strips mebi = refl
suffix-strips gibi = refl
suffix-strips tebi = refl
suffix-strips kilo = refl
suffix-strips giga = refl
suffix-strips tera = refl

strip-quantity :
    (c : Char) (t : String) (scale : Scale)
    → IsNumeral (c ∷ t)
    → strip ((c ∷ t) ++ spelled scale) ≡ (c ∷ t) ++ spelled scale
unfolding strip
strip-quantity c t scale (number, numeral) =
    let kept : lstrip is_space ((c ∷ t) ++ spelled scale) ≡ (c ∷ t) ++ spelled scale =
      rw (append.cons c t (spelled scale))
        (lstrip-kept is_space c (t ++ spelled scale) (number-is_space c number)) in
    ap (rstrip is_space) kept
    ∙ rstrip-numeral (c ∷ t) (spelled scale) (number, numeral) (suffix-strips scale)

module _ (floats : Floats) (t : String) (n : floats.Float) (numeral : IsNumeral t)
    (value : floats.to_float t ≡ some n) where
  cut :
      (d : Char) (e r : String)
      → 97 ≤ code d
      → cut_suffix (d ∷ e) (t ++ r) ≡ Option.map (λ p. t ++ p) (cut_suffix (d ∷ e) r)
  cut d e r lower = cut-numeral t d e r numeral lower

  try-quantity :
      (scale : Scale)
      → try_suffixes floats (t ++ spelled scale) memory_suffixes ≡ some (amount floats scale n)
  unfolding try_suffixes cut_suffix lowers_to
  try-quantity kibi = rw (cut "k" "i" "Ki" (omega arith), append-empty t, value) refl
  try-quantity mebi =
      rw (cut "k" "i" "Mi" (omega arith), cut "m" "i" "Mi" (omega arith), append-empty t, value)
        refl
  try-quantity gibi =
      rw
        (
          cut "k" "i" "Gi" (omega arith),
          cut "m" "i" "Gi" (omega arith),
          cut "g" "i" "Gi" (omega arith),
          append-empty t,
          value,
        )
        refl
  try-quantity tebi =
      rw
        (
          cut "k" "i" "Ti" (omega arith),
          cut "m" "i" "Ti" (omega arith),
          cut "g" "i" "Ti" (omega arith),
          cut "t" "i" "Ti" (omega arith),
          append-empty t,
          value,
        )
        refl
  try-quantity kilo =
      rw
        (
          cut "k" "i" "k" (omega arith),
          cut "m" "i" "k" (omega arith),
          cut "g" "i" "k" (omega arith),
          cut "t" "i" "k" (omega arith),
          cut "k" "" "k" (omega arith),
          append-empty t,
          value,
        )
        refl
  try-quantity giga =
      rw
        (
          cut "k" "i" "G" (omega arith),
          cut "m" "i" "G" (omega arith),
          cut "g" "i" "G" (omega arith),
          cut "t" "i" "G" (omega arith),
          cut "k" "" "G" (omega arith),
          cut "g" "" "G" (omega arith),
          append-empty t,
          value,
        )
        refl
  try-quantity tera =
      rw
        (
          cut "k" "i" "T" (omega arith),
          cut "m" "i" "T" (omega arith),
          cut "g" "i" "T" (omega arith),
          cut "t" "i" "T" (omega arith),
          cut "k" "" "T" (omega arith),
          cut "g" "" "T" (omega arith),
          cut "t" "" "T" (omega arith),
          append-empty t,
          value,
        )
        refl
  try-quantity milli =
      rw
        (
          cut "k" "i" "m" (omega arith),
          cut "m" "i" "m" (omega arith),
          cut "g" "i" "m" (omega arith),
          cut "t" "i" "m" (omega arith),
          cut "k" "" "m" (omega arith),
          cut "g" "" "m" (omega arith),
          cut "t" "" "m" (omega arith),
          cut "m" "" "m" (omega arith),
          append-empty t,
          value,
        )
        refl
  try-quantity units =
      rw
        (
          cut "k" "i" "" (omega arith),
          cut "m" "i" "" (omega arith),
          cut "g" "i" "" (omega arith),
          cut "t" "i" "" (omega arith),
          cut "k" "" "" (omega arith),
          cut "g" "" "" (omega arith),
          cut "t" "" "" (omega arith),
          cut "m" "" "" (omega arith),
          append-empty t,
          value,
        )
        refl

is_empty-append : (c : Char) (t r : String) → is_empty ((c ∷ t) ++ r) ≡ false
is_empty-append c t r = rw (append.cons c t r) refl

-- A quantity in one of the spellings that the program knows -- a numeral, alone or before one of m, Ki, Mi,
-- Gi, Ti, k, G and T -- is read as the amount that Kubernetes means by it, and an absent one as none.
pub parse_quantity-reads :
    (floats : Floats) (q : String) (x : floats.Float)
    → Means floats q x
    → parse_quantity floats q ≡ some x
unfolding parse_quantity
parse_quantity-reads floats q x (inl (absent, none_at_all)) = rw (absent, none_at_all) refl
parse_quantity-reads floats q x (inr (c, t, scale, n, written, numeral, value, is)) =
    rw (written, is, is_empty-append c t (spelled scale), strip-quantity c t scale numeral)
      (try-quantity floats (c ∷ t) n numeral value scale)
