-- ===== src/Auth.antt =====
-- porpulsion/routes/auth.py and porpulsion/csrf.py, with the guards of porpulsion/agent.py: accounts,
-- sessions and the rate limiter of logins.
pub mod RateLimit
pub mod Users
pub mod Login
pub mod Guard
pub mod Csrf
pub mod Lockout
pub mod Burst
pub mod Accounts
pub mod Access
mod Tests
use porpulsion.Prelude.{String, Bool, Option, Dict}
use porpulsion.Auth.RateLimit.{Limiter}

-- What the program uses of `hashlib` and `base64`. The salt is that of `os.urandom`; `none` is an
-- exception.
pub record Passwords : Type 0 where
  pub hash_password : (salt password : String) → String
  pub verify_password : (password stored : String) → Bool
  pub b64decode : String → Option String

-- the session cookie's data; the empty text stands for an absent key
pub record Session : Type 0 where
  pub user : String
  pub csrf_token : String

-- the accounts of the Secret, an absent Secret being empty, and the limiter in memory
pub record Site : Type 0 where
  pub users : Dict String
  pub limiter : Limiter

pub data Reply : Type 0 where
  -- a rendered page, with its error if there is one
  page : Option String → Reply
  too_many : Reply
  -- `redirect(url_for(endpoint))`
  to_endpoint : String → Reply
  to_url : String → Reply
  cluster_unreachable : Reply
