-- ===== src/Tunnels/Hosts.antt =====
-- The host names of porpulsion/routes/tunnels.py: `{app_name}-{port}` in front of the domain.
use porpulsion.Prelude.{ℕ, String, Char, false, ◌≡◌, refl, Option, none, some, if◌then◌else◌}
use mathlib.Core.Option
use mathlib.Core.List.{List}
use Prim.Native.String
use Prim.Native.String.{[], ◌∷◌}
use Prim.Native.String.append
use package.text.Mathlib.TextLemmas.{append-nil}
use porpulsion.Prelude.Text.{is_char, is_empty, text}

-- the parts before and after the last dash
abbrev pub later_dash : Char → Option (String × String) → String → Option (String × String)
later_dash c (some (a, b)) s = some (c ∷ a, b)
later_dash c none s = if is_char c "-" then some ([], s) else none

unfoldable pub split_last : String → Option (String × String)
split_last [] = none
split_last (c ∷ s) = later_dash c (split_last s) s

-- `\d+` and `int` of it; `none` where the text is not all digits
pub record Digits : Type 0 where
  pub number : String → Option ℕ

abbrev pub with_port : Digits → Option (String × String) → Option (String × ℕ)
with_port digits none = none
with_port digits (some (name, port)) =
    if is_empty name then none else Option.map (λ n. (name, n)) (digits.number port)

-- `re.match(r'^(.+)-(\d+)$', subdomain)`
unfoldable pub parse_subdomain : Digits → String → Option (String × ℕ)
parse_subdomain digits subdomain = with_port digits (split_last subdomain)

abbrev pub NoDash : String → Type 0
NoDash [] = Unit
NoDash (c ∷ s) = (is_char c "-" ≡ false) × NoDash s

split_last-NoDash : (s : String) → NoDash s → split_last s ≡ none
unfolding split_last
split_last-NoDash [] h = refl
split_last-NoDash (c ∷ s) (h, hs) = rw (split_last-NoDash s hs, h)

split_last-dash :
    (name port : String)
    → NoDash port
    → split_last (String.◌++◌ name ("-" ∷ port)) ≡ some (name, port)
unfolding split_last
split_last-dash [] port h = rw (append.nil ("-" ∷ port), split_last-NoDash port h)
split_last-dash (c ∷ name) port h =
    rw (append.cons c name ("-" ∷ port), split_last-dash name port h)

dashed :
    (name port : String)
    → text (List.◌∷◌ name (List.◌∷◌ "-" (List.◌∷◌ port List.[]))) ≡ String.◌++◌ name ("-" ∷ port)
unfolding text
dashed name port = rw (append-nil port, append.cons "-" [] port, append.nil port)

-- The host name that is made of the name of an app and a port is read back as these two, dashes in
-- the name included.
pub subdomain-parses :
    (digits : Digits) (name port : String) (n : ℕ)
    → is_empty name ≡ false
    → NoDash port
    → digits.number port ≡ some n
    → parse_subdomain digits (text (List.◌∷◌ name (List.◌∷◌ "-" (List.◌∷◌ port List.[]))))
      ≡ some (name, n)
unfolding parse_subdomain
subdomain-parses digits name port n named plain numeric =
    rw (dashed name port, split_last-dash name port plain, named, numeric)
