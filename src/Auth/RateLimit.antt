-- ===== src/Auth/RateLimit.antt =====
-- The rate limiter of porpulsion/routes/auth.py. Times are whole milliseconds of `time.monotonic`.
use porpulsion.Prelude.{
  ℕ, ◌+◌, String, Bool, true, false, Option, none, some, List, [], ◌∷◌, ◌++◌, Dict, lookup, insert,
  erase, length, ltb, leb, or_default, if◌then◌else◌,
}

-- `_RATE_WINDOW`, `_LOCKOUT_FAILURES`, `_LOCKOUT_SECONDS`
abbrev pub rate_window : ℕ
rate_window = 60000

abbrev pub lockout_failures : ℕ
lockout_failures = 10

abbrev pub lockout_time : ℕ
lockout_time = 300000

-- `_rate_failures` and `_rate_lockout`, by address
pub record Limiter : Type 0 where
  pub failures : Dict (List ℕ)
  pub lockout : Dict ℕ

unfoldable pub clear_failures : String → Limiter → Limiter
clear_failures ip l = record { failures = erase ip l.failures; lockout = erase ip l.lockout }

abbrev pub check_expiry : (now : ℕ) → String → Limiter → Option ℕ → Bool × Limiter
check_expiry now ip l none = (false, l)
check_expiry now ip l (some expiry) =
    if ltb now expiry
    then (true, l)
    else (false, record { failures = erase ip l.failures; lockout = erase ip l.lockout })

unfoldable pub is_rate_limited : (now : ℕ) → String → Limiter → Bool × Limiter
is_rate_limited now ip l = check_expiry now ip l (lookup ip l.lockout)

-- `while q and now - q[0] > _RATE_WINDOW: q.popleft()`
unfoldable pub drop_old : (now : ℕ) → List ℕ → List ℕ
drop_old now [] = []
drop_old now (t ∷ q) =
    let rest = drop_old now q in if ltb (t + rate_window) now then rest else t ∷ q

abbrev pub lock_or_keep : (now : ℕ) → String → Limiter → List ℕ → Limiter
lock_or_keep now ip l q =
    if leb lockout_failures (length q)
    then record {
      failures = erase ip l.failures;
      lockout = insert ip (now + lockout_time) l.lockout;
    }
    else record l { failures = insert ip q l.failures }

unfoldable pub record_failure : (now : ℕ) → String → Limiter → Limiter
record_failure now ip l =
    lock_or_keep now ip l (drop_old now (or_default [] (lookup ip l.failures)) ++ now ∷ [])

-- an attempt, as `login` and the HTTP Basic guards make it; `good` is whether its password is right
pub record Attempt : Type 0 where
  pub now : ℕ
  pub ip : String
  pub good : Bool

pub data Answer : Type 0 where
  limited welcome denied : Answer

abbrev pub after_check : Attempt → Bool × Limiter → Answer × Limiter
after_check a (true, l) = (limited, l)
after_check a (false, l) =
    if a.good then (welcome, clear_failures a.ip l) else (denied, record_failure a.now a.ip l)

unfoldable pub attempt : Attempt → Limiter → Answer × Limiter
attempt a l = after_check a (is_rate_limited a.now a.ip l)

unfoldable pub attempts : List Attempt → Limiter → Limiter
attempts [] l = l
attempts (a ∷ rest) l = attempts rest (attempt a l).1
