-- ===== src/Auth/Login.antt =====
-- `login` and `logout` of porpulsion/routes/auth.py. One reading of the clock serves an attempt.
use porpulsion.Prelude.{
  ℕ, String, Bool, false, not, ◌||◌, Option, none, some, lookup, if◌then◌else◌,
}
use porpulsion.Prelude.Text.{is_empty, strip, starts_with}
use porpulsion.Auth.{
  Passwords, Session, Site, Reply, page, too_many, to_endpoint, to_url, cluster_unreachable,
}
use porpulsion.Auth.RateLimit.{Limiter, Answer, limited, welcome, denied, attempt}
use porpulsion.Auth.Users.{has_users, Done}

pub record LoginForm : Type 0 where
  pub now : ℕ
  pub ip : String
  pub username : String
  pub password : String
  -- the query's `next`, empty where it is absent
  pub next : String

-- only relative paths
unfoldable pub next_reply : String → Reply
next_reply next =
    if is_empty next || not (starts_with next "/") || starts_with next "//"
    then to_endpoint "ui.index"
    else to_url next

module _ (passwords : Passwords) where
  abbrev pub right_password : (password : String) → Option String → Bool
  right_password password none = false
  right_password password (some hash) = passwords.verify_password password hash

  abbrev pub answered : (name next : String) → Answer × Limiter → Session → Site → Done
  answered name next (limited, l) session site = (too_many, session, record site { limiter = l })
  answered name next (welcome, l) session site =
      (next_reply next, record session { user = name }, record site { limiter = l })
  answered name next (denied, l) session site =
      (page (some "Invalid username or password."), session, record site { limiter = l })

  -- a POST to `login`
  unfoldable pub login : (readable : Bool) → LoginForm → Session → Site → Done
  login readable form session site =
      let name = strip form.username in
      let good = right_password form.password (lookup name site.users) in
      if not (is_empty session.user)
      then (to_endpoint "ui.index", session, site)
      else if not readable
      then (cluster_unreachable, session, site)
      else if not (has_users site.users)
      then (to_endpoint "auth.signup", session, site)
      else answered name form.next
          (attempt (record { now = form.now; ip = form.ip; good = good }) site.limiter) session site

-- `session.clear()`
unfoldable pub logout : Session → Session
logout session = record { user = ""; csrf_token = "" }
