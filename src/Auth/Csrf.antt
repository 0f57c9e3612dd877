-- ===== src/Auth/Csrf.antt =====
-- porpulsion/csrf.py and its two guards in porpulsion/agent.py.
use porpulsion.Prelude.{
  String, Bool, true, not, ◌&&◌, ◌||◌, ◌==◌, List, [], ◌∷◌, any, if◌then◌else◌,
}
use porpulsion.Prelude.Text.{is_empty, starts_with}
use porpulsion.Auth.{Session}

-- `token` is the digest that a new session gets
unfoldable pub generate_token : (token : String) → Session → String × Session
generate_token token session =
    if is_empty session.csrf_token
    then (token, record session { csrf_token = token })
    else (session.csrf_token, session)

-- false: the request is aborted with 403
unfoldable pub validate_token : (submitted : String) → Session → Bool
validate_token submitted session =
    let expected = session.csrf_token in
    not (is_empty expected || is_empty submitted || not (submitted == expected))

abbrev pub csrf_protected_paths : List String
csrf_protected_paths =
    "/login" ∷ "/logout" ∷ "/users/add" ∷ "/users/edit" ∷ "/users/remove" ∷ "/signup" ∷ []

pub record FormRequest : Type 0 where
  pub method : String
  pub path : String
  pub submitted : String

-- `_ensure_csrf_token`
unfoldable pub ensure_csrf_token : (token : String) → FormRequest → Session → Session
ensure_csrf_token token req session =
    if req.method == "GET" && (not (starts_with req.path "/api/") && not (req.path == "/status"))
    then (generate_token token session).1
    else session

-- `_check_csrf`
unfoldable pub check_csrf : FormRequest → Session → Bool
check_csrf req session =
    if req.method == "POST" && any (λ p. req.path == p) csrf_protected_paths
    then validate_token req.submitted session
    else true
