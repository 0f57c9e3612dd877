-- ===== src/Prelude/Text.antt =====
-- The `str` methods that the program calls, over characters.
use Prim.Native.Nat.{ℕ, zero, suc}
use mathlib.Core.Option
use mathlib.Core.Option.{Option, none, some}
use Prim.Native.Char.{Char, code}
use Prim.Native.String
use Prim.Native.String.{String, [], ◌∷◌}
use mathlib.Core.Path.{◌≡◌, refl}
use mathlib.Core.Bool.{Bool, true, false, ◌&&◌, ◌||◌}
use mathlib.Core.List.{List}
use porpulsion.Prelude.Tests.{if◌then◌else◌, nat_eq, leb}

abbrev pub is_char : Char → Char → Bool
is_char c d = nat_eq (code c) (code d)

-- What `str.strip()` removes: the characters with `str.isspace()`.
unfoldable pub is_space : Char → Bool
is_space c =
    let n = code c in
    (leb 9 n && leb n 13)
    || (leb 28 n && leb n 32)
    || nat_eq n 133
    || nat_eq n 160
    || nat_eq n 5760
    || (leb 8192 n && leb n 8202)
    || nat_eq n 8232
    || nat_eq n 8233
    || nat_eq n 8239
    || nat_eq n 8287
    || nat_eq n 12288

abbrev pub is_empty : String → Bool
is_empty [] = true
is_empty (c ∷ s) = false

-- `len(s)`
unfoldable pub text_length : String → ℕ
text_length [] = 0
text_length (c ∷ s) = suc (text_length s)

-- `s.lstrip(chars)`, with the test of the characters
unfoldable pub lstrip : (Char → Bool) → String → String
lstrip p [] = []
lstrip p (c ∷ s) = let rest = lstrip p s in if p c then rest else c ∷ s

-- `s.rstrip(chars)`
unfoldable pub rstrip : (Char → Bool) → String → String
rstrip p [] = []
rstrip p (c ∷ s) = let rest = rstrip p s in if is_empty rest && p c then [] else c ∷ rest

unfoldable pub strip : String → String
unfolding lstrip rstrip is_space
strip s = rstrip is_space (lstrip is_space s)

-- `s[n:]`
unfoldable pub drop_text : ℕ → String → String
drop_text zero s = s
drop_text (suc n) [] = []
drop_text (suc n) (c ∷ s) = drop_text n s

-- `s[:n]`
unfoldable pub take_text : ℕ → String → String
take_text zero s = []
take_text (suc n) [] = []
take_text (suc n) (c ∷ s) = c ∷ take_text n s

-- `list(s)`
abbrev pub letters : String → List String
letters [] = List.[]
letters (c ∷ s) = List.◌∷◌ (c ∷ []) (letters s)

-- `"".join(f(c) for c in s)`
unfoldable pub map_text : (Char → Char) → String → String
map_text f [] = []
map_text f (c ∷ s) = f c ∷ map_text f s

-- `s.split(sep, 1)`, where both parts are asked for
unfoldable pub split_once : Char → String → Option (String × String)
split_once sep [] = none
split_once sep (c ∷ s) =
    let rest = split_once sep s in
    if is_char c sep then some ([], s) else Option.map (λ (a, b). (c ∷ a, b)) rest

-- `s.startswith(t)`
unfoldable pub starts_with : String → String → Bool
starts_with s [] = true
starts_with [] (d ∷ t) = false
starts_with (c ∷ s) (d ∷ t) = is_char c d && starts_with s t

-- `t in s`
unfoldable pub has_text : String → String → Bool
unfolding starts_with
has_text [] t = starts_with [] t
has_text (c ∷ s) t = starts_with (c ∷ s) t || has_text s t

-- puts a character in front of the first part
abbrev pub push_front : Char → List String → List String
push_front c List.[] = List.◌∷◌ (c ∷ []) List.[]
push_front c (List.◌∷◌ p ps) = List.◌∷◌ (c ∷ p) ps

-- `s.split(sep)` at one character: always one part at least
unfoldable pub split : Char → String → List String
split sep [] = List.◌∷◌ [] List.[]
split sep (c ∷ s) =
    let parts = split sep s in if is_char c sep then List.◌∷◌ [] parts else push_front c parts

-- `sep.join(parts)`
unfoldable pub join : String → List String → String
join sep List.[] = []
join sep (List.◌∷◌ p List.[]) = p
join sep (List.◌∷◌ p (List.◌∷◌ q qs)) = String.◌++◌ p (String.◌++◌ sep (join sep (List.◌∷◌ q qs)))

-- an f-string: its parts, one after the other
unfoldable pub text : List String → String
text List.[] = []
text (List.◌∷◌ p ps) = String.◌++◌ p (text ps)

split_test : split "," "a,b,," ≡ List.◌∷◌ "a" (List.◌∷◌ "b" (List.◌∷◌ "" (List.◌∷◌ "" List.[])))
unfolding split
split_test = refl

strip_test : strip "  a b " ≡ "a b"
unfolding strip
strip_test = refl
