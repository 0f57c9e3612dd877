-- ===== src/Auth/Guard.antt =====
-- `_require_api_auth` of porpulsion/agent.py, which runs before every request.
use porpulsion.Prelude.{
  ℕ, String, Bool, false, not, ◌&&◌, ◌||◌, Option, none, some, Dict, lookup, if◌then◌else◌,
}
use porpulsion.Prelude.Text.{is_empty, starts_with, drop_text, split_once}
use porpulsion.Auth.{Passwords, Session, Site}
use porpulsion.Auth.RateLimit.{Limiter, Answer, limited, welcome, denied, attempt}
use porpulsion.Auth.Login.{right_password}

-- `routed` is whether the URL map knows the path
pub record ApiRequest : Type 0 where
  pub now : ℕ
  pub ip : String
  pub path : String
  pub routed : Bool
  pub authorization : String

pub data Verdict : Type 0 where
  passed not_found too_many unauthorized unauthorized_v2 : Verdict

abbrev pub is_guarded : String → Bool
is_guarded path =
    starts_with path "/api/" || starts_with path "/static/js/" || starts_with path "/v2/"

-- paths where HTTP Basic is taken as well
abbrev pub takes_basic : String → Bool
takes_basic path = starts_with path "/api/" || starts_with path "/v2/"

abbrev pub refusal : String → Verdict
refusal path = if starts_with path "/v2/" then unauthorized_v2 else unauthorized

abbrev pub split_credentials : Option String → Option (String × String)
split_credentials none = none
split_credentials (some text) = split_once ":" text

abbrev pub judged : String → Answer × Limiter → Site → Verdict × Site
judged path (limited, l) site = (too_many, record site { limiter = l })
judged path (welcome, l) site = (passed, record site { limiter = l })
judged path (denied, l) site = (refusal path, record site { limiter = l })

module _ (passwords : Passwords) where
  -- the name and password of the header; `none` is an exception, which is caught
  unfoldable pub credentials : String → Option (String × String)
  credentials header = split_credentials (passwords.b64decode (drop_text 6 header))

  -- accounts that cannot be read count as a wrong password
  abbrev pub are_right : (readable : Bool) → Dict String → Option (String × String) → Bool
  are_right readable users none = false
  are_right readable users (some (name, password)) =
      readable && right_password passwords password (lookup name users)

  unfoldable pub check_basic : (readable : Bool) → ApiRequest → Site → Verdict × Site
  check_basic readable req site =
      if starts_with req.authorization "Basic "
      then judged req.path
          (attempt
            (record {
              now = req.now;
              ip = req.ip;
              good = are_right readable site.users (credentials req.authorization);
            })
            site.limiter)
          site
      else (refusal req.path, site)

  unfoldable pub require_api_auth : (readable : Bool) → ApiRequest → Session → Site → Verdict × Site
  require_api_auth readable req session site =
      if not (is_guarded req.path) || not (is_empty session.user)
      then (passed, site)
      else if not (takes_basic req.path) || not req.routed
      then (not_found, site)
      else check_basic readable req site
