-- ===== src/Prelude/Json.antt =====
-- JSON values, as the frames of a channel and the specs carry them. Numbers are integers: the
-- program's own frames carry no other.
use mathlib.Core.Bool.{Bool}
use mathlib.Core.Option.{Option, none, some}
use mathlib.Core.List.{List, [], ◌∷◌}
use Prim.Native.String.{String}
use porpulsion.Prelude.Dicts.{Dict, lookup}
use porpulsion.Prelude.Int.{ℤ}

mutual
  pub data Json : Type 0 where
    null : Json
    bool : Bool → Json
    int : ℤ → Json
    str : String → Json
    arr : Items → Json
    obj : Fields → Json

  pub data Items : Type 0 where
    nil : Items
    cons : Json → Items → Items

  pub data Fields : Type 0 where
    end : Fields
    field : String → Json → Fields → Fields

abbrev pub to_list : Items → List Json
to_list nil = []
to_list (cons x xs) = x ∷ to_list xs

abbrev pub to_dict : Fields → Dict Json
to_dict end = []
to_dict (field k v fs) = (k, v) ∷ to_dict fs

abbrev pub text_of : Option Json → String
text_of (some (str s)) = s
text_of (some _) = ""
text_of none = ""

-- `d.get(k, "")`, of a field that the protocol types as text
abbrev pub text_at : String → Dict Json → String
text_at k d = text_of (lookup k d)
