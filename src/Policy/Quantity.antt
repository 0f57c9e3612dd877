-- ===== src/Policy/Quantity.antt =====
-- `_parse_quantity` of porpulsion/routes/workloads.py. Upper case is that of ASCII.
use porpulsion.Prelude.{
  ℕ, ◌+◌, String, Char, code, Bool, true, false, ◌&&◌, Option, none, some, List, nat_eq, leb,
  if◌then◌else◌,
}
use mathlib.Core.Option
use Prim.Native.String.{[], ◌∷◌}
use porpulsion.Prelude.Text.{is_empty, strip}
use porpulsion.Policy.{Floats}

-- whether the character in lower case is the letter
abbrev pub is_letter : Char → Char → Bool
is_letter c d =
    let n = code c in if leb 65 n && leb n 90 then nat_eq (n + 32) (code d) else nat_eq n (code d)

-- `s.lower() == t`
unfoldable pub lowers_to : String → String → Bool
lowers_to [] [] = true
lowers_to [] (d ∷ t) = false
lowers_to (c ∷ s) [] = false
lowers_to (c ∷ s) (d ∷ t) = is_letter c d && lowers_to s t

-- `s[:-len(t)]` where `s.lower().endswith(t)`
unfoldable pub cut_suffix : String → String → Option String
cut_suffix t [] = if lowers_to [] t then some [] else none
cut_suffix t (c ∷ s) =
    let rest = cut_suffix t s in
    if lowers_to (c ∷ s) t then some [] else Option.map (λ p. c ∷ p) rest

-- `_MEMORY_SUFFIXES`, in its order
abbrev pub memory_suffixes : List (String × ℕ)
memory_suffixes =
    List.◌∷◌ ("ki", 1024)
      (List.◌∷◌ ("mi", 1048576)
        (List.◌∷◌ ("gi", 1073741824)
          (List.◌∷◌ ("ti", 1099511627776)
            (List.◌∷◌ ("k", 1000)
              (List.◌∷◌ ("g", 1000000000) (List.◌∷◌ ("t", 1000000000000) List.[]))))))

module _ (floats : Floats) where
  abbrev scaled : ℕ → String → Option floats.Float
  scaled factor text = Option.map (λ x. floats.times x factor) (floats.to_float text)

  -- CPU in thousandths, or a plain number
  abbrev without_suffix : String → Option String → Option floats.Float
  without_suffix q none = floats.to_float q
  without_suffix q (some text) = Option.map floats.per_thousand (floats.to_float text)

  abbrev pick : Option String → ℕ → Option floats.Float → Option floats.Float
  pick none factor rest = rest
  pick (some text) factor rest = scaled factor text

  unfoldable pub try_suffixes : String → List (String × ℕ) → Option floats.Float
  try_suffixes q List.[] = without_suffix q (cut_suffix "m" q)
  try_suffixes q (List.◌∷◌ (suffix, factor) rest) =
      pick (cut_suffix suffix q) factor (try_suffixes q rest)

  unfoldable pub parse_quantity : String → Option floats.Float
  parse_quantity q = if is_empty q then some floats.zero else try_suffixes (strip q) memory_suffixes
