-- ===== src/Workloads/Naming.antt =====
-- The names of porpulsion/k8s/store.py: `_cr_name`, `_ea_cr_name` and `safe_resource_name`.
use porpulsion.Prelude.{String, Char, Bool, ◌||◌, [], ◌∷◌, if◌then◌else◌}
use porpulsion.Prelude.Text.{is_char, lstrip, rstrip, take_text, map_text, text}

-- `str.lower` and `str.isalnum`, by Python's Unicode tables
pub record Unicode : Type 0 where
  pub lower : String → String
  pub isalnum : Char → Bool

abbrev pub is_dash : Char → Bool
is_dash c = is_char c "-"

module _ (unicode : Unicode) where
  abbrev pub is_name_char : Char → Bool
  is_name_char c = unicode.isalnum c || is_dash c

  abbrev pub safe_char : Char → Char
  safe_char c = if is_name_char c then c else "-"

  unfoldable pub safe_name : String → String
  safe_name name = rstrip is_dash (lstrip is_dash (map_text safe_char (unicode.lower name)))

  unfoldable pub cr_name : String → String
  cr_name name = rstrip is_dash (take_text 63 (safe_name name))

  unfoldable pub ea_cr_name : (app_id app_name : String) → String
  ea_cr_name app_id app_name =
      rstrip is_dash (take_text 63 (text ("ea-" ∷ app_id ∷ "-" ∷ safe_name app_name ∷ [])))

  -- `safe_resource_name` has the same body
  unfoldable pub safe_resource_name : (app_id app_name : String) → String
  safe_resource_name app_id app_name =
      rstrip is_dash (take_text 63 (text ("ea-" ∷ app_id ∷ "-" ∷ safe_name app_name ∷ [])))
