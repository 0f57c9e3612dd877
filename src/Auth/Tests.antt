-- ===== src/Auth/Tests.antt =====
-- Runs of accounts, logins and guards at concrete inputs.
use porpulsion.Prelude.{◌≡◌, ◌+◌, refl, arith, ℕ, true, none, some, List, [], ◌∷◌, lookup, ◌==◌}
use porpulsion.Prelude.Text.{starts_with, drop_text, split_once}
use porpulsion.Auth.{Passwords, Session, Site}
use porpulsion.Auth.RateLimit.{Limiter, lockout_time, limited, is_rate_limited, attempt, attempts}
use porpulsion.Auth.Users.{NewUser, sign_up, remove, handle}
use porpulsion.Auth.Guard.{ApiRequest, require_api_auth, check_basic, credentials, takes_basic}
use porpulsion.Auth.Lockout.{locked_out_until}
use porpulsion.Auth.Burst.{failed, all_failed, tenth_failure_locks}
use porpulsion.Auth.Accounts.{Visit, visits, Kept, visits-Kept, anonymous_changes_nothing}
use porpulsion.Auth.Access.{Authorized, guard_passes_only_known}

-- a hash is the password itself
abbrev toy : Passwords
toy = record {
  hash_password = λ salt password. password;
  verify_password = λ password stored. password == stored;
  b64decode = λ s. some s;
}

abbrev idle : Limiter
idle = record { failures = []; lockout = [] }

abbrev locked : Limiter
locked = record { failures = []; lockout = ("10.0.0.9", 1000) ∷ [] }

abbrev site : Site
site = record { users = ("ann", "password1") ∷ ("bob", "password2") ∷ []; limiter = idle }

abbrev anonymous : Session
anonymous = record { user = ""; csrf_token = "" }

abbrev ann : Session
ann = record { user = "ann"; csrf_token = "tok" }

abbrev cara : NewUser
cara = record { username = "cara"; password = "password3"; confirm = "password3"; salt = "s" }

locked_out_until_example :
    attempt
      (record { now = 900; ip = "10.0.0.9"; good = true })
      (attempts (failed "10.0.0.9" 800 ∷ []) locked)
    ≡ (limited, attempts (failed "10.0.0.9" 800 ∷ []) locked)
unfolding lookup
locked_out_until_example =
    locked_out_until 1000 (failed "10.0.0.9" 800 ∷ [])
      (record { now = 900; ip = "10.0.0.9"; good = true }) locked refl ((λ e. omega arith), tt)
      (omega arith)

anonymous_changes_nothing_example :
    let (reply, session', site') = handle toy true true (sign_up cara) anonymous site in
    (session' ≡ anonymous) × (site' ≡ site)
anonymous_changes_nothing_example =
    anonymous_changes_nothing toy true true (sign_up cara) anonymous site refl refl

abbrev bob_leaves : Visit
bob_leaves = record { readable = true; writable = true; request = remove "bob"; session = ann }

visits-Kept_example : Kept (visits toy (bob_leaves ∷ bob_leaves ∷ []) site).users
unfolding lookup
visits-Kept_example =
    visits-Kept toy (bob_leaves ∷ bob_leaves ∷ []) site ((refl, (refl, tt)), omega arith)

abbrev nine_times : List ℕ
nine_times = 1 ∷ 2 ∷ 3 ∷ 4 ∷ 5 ∷ 6 ∷ 7 ∷ 8 ∷ 9 ∷ []

tenth_failure_locks_example :
    let nine = attempts (all_failed "10.0.0.9" nine_times) idle in
    (lookup "10.0.0.9" nine.lockout ≡ none)
    × (lookup "10.0.0.9" (attempt (failed "10.0.0.9" 10) nine).1.lockout ≡ some (10 + lockout_time))
unfolding lookup
tenth_failure_locks_example =
    tenth_failure_locks 0 10 "10.0.0.9" nine_times idle (ground arith) (omega arith) refl refl refl

abbrev by_basic : ApiRequest
by_basic = record {
  now = 5;
  ip = "10.0.0.9";
  path = "/api/peers";
  routed = true;
  authorization = "Basic ann:password1";
}

guard_passes_only_known_example : (takes_basic "/api/peers" ≡ true) × Authorized toy by_basic site
unfolding starts_with require_api_auth check_basic attempt is_rate_limited lookup credentials
    drop_text split_once
guard_passes_only_known_example =
    guard_passes_only_known toy true by_basic anonymous site refl refl refl
