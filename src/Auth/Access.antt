-- ===== src/Auth/Access.antt =====
-- Who gets in: logins, guarded paths and forms.
use porpulsion.Prelude.{
  ℕ, String, Bool, true, false, not, ◌||◌, ◌≡◌, ◌≢◌, ◌⊎◌, refl, ap, ◌∙◌, Option, none, some, [],
  ◌∷◌, Dict, lookup, insert, ◌==◌, eq_iff, arith, lookup-insert_self, Bool-cases, inl, inr, any,
}
use porpulsion.Prelude.Text.{is_empty, strip, starts_with}
use porpulsion.Auth.{Passwords, Session, Site}
use porpulsion.Auth.RateLimit.{
  Limiter, Attempt, Answer, limited, welcome, denied, attempt, after_check, is_rate_limited,
}
use porpulsion.Auth.Users.{NewUser, has_users, users_add, add_error}
use porpulsion.Auth.Login.{LoginForm, right_password, answered, login}
use porpulsion.Auth.Guard.{
  ApiRequest, passed, is_guarded, refusal, takes_basic, credentials, are_right, judged, check_basic,
  require_api_auth,
}
use porpulsion.Auth.Csrf.{generate_token, validate_token, check_csrf, csrf_protected_paths}

-- a welcome is never given for a wrong password
welcome-good : (a : Attempt) (r : Bool × Limiter) → (after_check a r).0 ≡ welcome → a.good ≡ true
welcome-good a (true, l) h = cc
welcome-good a (false, l) h = ground arith

attempt-good : (a : Attempt) (l : Limiter) → (attempt a l).0 ≡ welcome → a.good ≡ true
unfolding attempt
attempt-good a l = welcome-good a (is_rate_limited a.now a.ip l)

judged-welcome :
    (path : String) (r : Answer × Limiter) (site : Site)
    → (judged path r site).0 ≡ passed
    → r.0 ≡ welcome
judged-welcome path (welcome, l) site h = refl
judged-welcome path (limited, l) site h = cc
judged-welcome path (denied, l) site h = ground arith

module _ (passwords : Passwords) where
  right-hash :
      (password : String) (o : Option String)
      → right_password passwords password o ≡ true
      → (hash : String) × (o ≡ some hash) × (passwords.verify_password password hash ≡ true)
  right-hash password none h = cc
  right-hash password (some hash) h = (hash, refl, h)

  abbrev ByPassword : LoginForm → Session → Site → Session → Type 0
  ByPassword form session site session' =
      (session' ≡ session)
      ⊎ ((session'.user ≡ strip form.username)
          × ((hash : String) × (lookup (strip form.username) site.users ≡ some hash)
              × (passwords.verify_password form.password hash ≡ true)))

  answered-ByPassword :
      (form : LoginForm) (r : Answer × Limiter) (session : Session) (site : Site)
      → (r.0 ≡ welcome
          → right_password passwords form.password (lookup (strip form.username) site.users) ≡ true)
      → ByPassword form session site
          (answered passwords (strip form.username) form.next r session site).1
  answered-ByPassword form (limited, l) session site h = inl refl
  answered-ByPassword form (denied, l) session site h = inl refl
  answered-ByPassword form (welcome, l) session site h =
      inr (refl, right-hash form.password (lookup (strip form.username) site.users) (h refl))

  -- A session whose user was not logged in gets a user only by the password of that account.
  pub login_needs_password :
      (readable : Bool) (form : LoginForm) (session : Session) (site : Site)
      → is_empty session.user ≡ true
      → let (reply, session', site') = login passwords readable form session site in
        (session' ≡ session)
        ⊎ ((session'.user ≡ strip form.username)
            × ((hash : String) × (lookup (strip form.username) site.users ≡ some hash)
                × (passwords.verify_password form.password hash ≡ true)))
  unfolding login
  login_needs_password false form session site nobody = rw nobody (inl refl)
  login_needs_password true form session site nobody =
      rw nobody (elim (Bool-cases (has_users site.users)) [
        | inl some_user ↦ rw some_user (
            answered-ByPassword form (attempt try site.limiter) session site
              (attempt-good try site.limiter))
        | inr first_run ↦ rw first_run (inl refl)
      ])
    where
      try : Attempt
      try = record {
        now = form.now;
        ip = form.ip;
        good = right_password passwords form.password (lookup (strip form.username) site.users);
      }

  -- the header names an account and its password
  abbrev pub Authorized : ApiRequest → Site → Type 0
  Authorized req site =
      (name : String) × (password : String) × (hash : String) × (credentials passwords
          req.authorization
        ≡ some (name, password))
      × (lookup name site.users ≡ some hash)
      × (passwords.verify_password password hash ≡ true)

  are_right-hash :
      (readable : Bool) (users : Dict String) (o : Option (String × String))
      → are_right passwords readable users o ≡ true
      → (name : String) × (password : String) × (hash : String) × (o ≡ some (name, password))
        × (lookup name users ≡ some hash)
        × (passwords.verify_password password hash ≡ true)
  are_right-hash readable users none h = cc
  are_right-hash false users (some (name, password)) h = cc
  are_right-hash true users (some (name, password)) h =
      let (hash, e, v) = right-hash password (lookup name users) h in
      (name, password, hash, refl, e, v)

  basic-Authorized :
      (readable : Bool) (req : ApiRequest) (site : Site)
      → (check_basic passwords readable req site).0 ≡ passed
      → Authorized req site
  unfolding check_basic
  basic-Authorized readable req site = elim (Bool-cases (starts_with req.authorization "Basic ")) [
    | inl basic ↦ rw basic (λ p.
        are_right-hash readable site.users (credentials passwords req.authorization)
          (attempt-good _ site.limiter (judged-welcome req.path _ site p)))
    | inr other ↦ rw other (λ p. elim (refused req.path p) [ ])
  ]
    where
      refused : (path : String) → refusal path ≢ passed
      refused path h = ground arith

  -- A request to a guarded path passes only with a session, or with the name and password of an account
  -- by HTTP Basic, which the static scripts do not take.
  pub guard_passes_only_known :
      (readable : Bool) (req : ApiRequest) (session : Session) (site : Site)
      → is_guarded req.path ≡ true
      → is_empty session.user ≡ true
      → (require_api_auth passwords readable req session site).0 ≡ passed
      → (takes_basic req.path ≡ true) × Authorized req site
  unfolding require_api_auth
  guard_passes_only_known readable req session site guarded nobody =
      rw (guarded, nobody)
        (elim (Bool-cases (not (takes_basic req.path) || not req.routed)) [
          | inl closed ↦ rw closed (λ p. cc)
          | inr routed ↦ rw routed (λ p. (taken routed, basic-Authorized readable req site p))
        ])
    where
      taken : (not (takes_basic req.path) || not req.routed) ≡ false → takes_basic req.path ≡ true
      taken h = ground arith

compared :
    (expected submitted : String)
    → is_empty expected ≡ false
    → not (is_empty expected || is_empty submitted || not (submitted == expected))
      ≡ (submitted == expected)
compared expected submitted h = elim (Bool-cases (submitted == expected)) [
  | inl same ↦ rw (same, (eq_iff submitted expected).0 same, h) refl
  | inr other ↦
      rw (other, h)
        (elim (Bool-cases (is_empty submitted)) [ inl e ↦ rw e refl | inr e ↦ rw e refl ])
]

-- A form that is sent to a protected path is taken exactly if it carries the session's token, which a
-- page shows and which is never the empty text.
pub csrf_needs_token :
    (token : String) (path submitted : String) (session : Session)
    → is_empty token ≡ false
    → any (λ p. path == p) csrf_protected_paths ≡ true
    → let (shown, session') = generate_token token session in
      check_csrf (record { method = "POST"; path = path; submitted = submitted }) session'
      ≡ (submitted == shown)
unfolding generate_token check_csrf validate_token
csrf_needs_token token path submitted session h protected =
    rw protected (elim (Bool-cases (is_empty session.csrf_token)) [
      | inl new ↦ rw new (compared token submitted h)
      | inr old ↦ rw old (compared session.csrf_token submitted old)
    ])

-- the login form filled in with the name and the password of a new account
abbrev pub login_of : NewUser → (now : ℕ) → (ip next : String) → LoginForm
login_of form now ip next = record {
  now = now;
  ip = ip;
  username = form.username;
  password = form.password;
  next = next;
}

has_users-insert : (k v : String) (d : Dict String) → has_users (insert k v d) ≡ true
unfolding insert
has_users-insert k v [] = refl
has_users-insert k v ((j, w) ∷ d) = ground arith

attempt-welcome :
    (a : Attempt) (l : Limiter)
    → lookup a.ip l.lockout ≡ none
    → a.good ≡ true
    → (attempt a l).0 ≡ welcome
unfolding attempt is_rate_limited
attempt-welcome a l free good = rw (free, good) refl

module _ (passwords : Passwords) where
  answered-welcome :
      (name next : String) (r : Answer × Limiter) (session : Session) (site : Site)
      → r.0 ≡ welcome
      → (answered passwords name next r session site).1.user ≡ name
  answered-welcome name next (welcome, l) session site h = refl
  answered-welcome name next (limited, l) session site h = cc
  answered-welcome name next (denied, l) session site h = cc

  -- An account that was just added logs in with its password, from an address that is not locked out.
  -- PBKDF2 verifies a password against its own hash.
  pub added_user_logs_in :
      ((salt password : String)
        → passwords.verify_password password (passwords.hash_password salt password) ≡ true)
      → (form : NewUser) (now : ℕ) (ip next : String) (admin visitor : Session) (site : Site)
      → is_empty admin.user ≡ false
      → add_error (strip form.username) form site.users ≡ none
      → is_empty visitor.user ≡ true
      → lookup ip site.limiter.lockout ≡ none
      → let site' = (users_add passwords true true form admin site).2 in
        (login passwords true (login_of form now ip next) visitor site').1.user
        ≡ strip form.username
  unfolding users_add login
  added_user_logs_in verifies form now ip next admin visitor site logged fine nobody free =
      rw (logged, fine, nobody, has_users-insert)
        (answered-welcome (strip form.username) next _ visitor _ (
          attempt-welcome _ site.limiter free (
            ap (right_password passwords form.password) (
              lookup-insert_self (strip form.username)
                (passwords.hash_password form.salt form.password) site.users)
            ∙ verifies form.salt form.password)))
