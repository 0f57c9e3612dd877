-- ===== src/Settings/Tests.antt =====
-- Updates of the settings at concrete inputs.
use porpulsion.Prelude.{String, ◌≡◌, refl, Option, none, some, [], ◌∷◌, Dict, lookup}
use porpulsion.Prelude.Int.{ℤ}
use porpulsion.Prelude.Json.{Json, int, str}
use porpulsion.Settings.{Python, Server, default_settings}
use porpulsion.Settings.Update.{update_settings, set_bools, set_texts, set_numbers}
use porpulsion.Settings.Saving.{IsAnswer, update-IsAnswer}

abbrev text_of : Json → String
text_of (str s) = s
text_of _ = ""

abbrev number_of : Json → Option ℤ
number_of (int n) = some n
number_of _ = none

abbrev python : Python
python = record { to_str = text_of; to_int = number_of; upper = λ s. s }

abbrev server : Server
server = record { settings = default_settings; saved = default_settings; pushes = 0 }

-- the mode is fine, the number is not
abbrev half_wrong : Dict Json
half_wrong = ("tunnel_approval_mode", str "manual") ∷ ("max_total_pods", str "many") ∷ []

update-IsAnswer_example : IsAnswer server (update_settings python half_wrong server)
update-IsAnswer_example =
    update-IsAnswer python half_wrong server (record { mode_known = refl; level_known = refl })

-- refused, not saved, and yet in force
mode_in_force :
    (update_settings python half_wrong server).1.settings.tunnel_approval_mode ≡ "manual"
unfolding update_settings lookup set_bools set_texts set_numbers
mode_in_force = refl
