-- ===== src/Auth/Burst.antt =====
-- How many wrong passwords lock an address out.
use porpulsion.Prelude.{
  ℕ, ◌+◌, ◌≤◌, ◌<◌, String, false, ◌≡◌, refl, sym, ap, subst, ◌∙◌, none, some, List, [], ◌∷◌, ◌++◌,
  lookup, insert, length, map, or_default, All, arith, lookup-insert_self, length-append,
}
use mathlib.Core.List.{append-nil, append_assoc}
use porpulsion.Auth.RateLimit.{
  rate_window, lockout_time, Limiter, is_rate_limited, drop_old, record_failure, Attempt, attempt,
  attempts,
}

-- times of one window
abbrev pub Within : ℕ → List ℕ → Type 0
Within t0 = All (λ t. (t0 ≤ t) × (t ≤ t0 + rate_window))

drop_old-Within :
    (t0 now : ℕ) (q : List ℕ) → now ≤ t0 + rate_window → Within t0 q → drop_old now q ≡ q
unfolding drop_old
drop_old-Within t0 now [] h w = refl
drop_old-Within t0 now (t ∷ q) h ((lo, hi), ws) = ground arith

-- a wrong password in the same window, before the tenth
record_failure-early :
    (t0 now : ℕ) (ip : String) (q : List ℕ) (l : Limiter)
    → now ≤ t0 + rate_window
    → Within t0 q
    → length q < 9
    → or_default [] (lookup ip l.failures) ≡ q
    → record_failure now ip l ≡ record l { failures = insert ip (q ++ now ∷ []) l.failures }
unfolding record_failure
record_failure-early t0 now ip q l h w few e =
    rw (e, drop_old-Within t0 now q h w) (ground (arith, length-append q (now ∷ [])))

record_failure-tenth :
    (t0 now : ℕ) (ip : String) (q : List ℕ) (l : Limiter)
    → now ≤ t0 + rate_window
    → Within t0 q
    → length q ≡ 9
    → or_default [] (lookup ip l.failures) ≡ q
    → lookup ip (record_failure now ip l).lockout ≡ some (now + lockout_time)
unfolding record_failure
record_failure-tenth t0 now ip q l h w nine e =
    rw (e, drop_old-Within t0 now q h w)
      (ground
        (arith, length-append q (now ∷ []), lookup-insert_self ip (now + lockout_time) l.lockout))

abbrev pub failed : String → ℕ → Attempt
failed ip now = record { now = now; ip = ip; good = false }

-- wrong passwords from one address, one after the other
abbrev pub all_failed : String → List ℕ → List Attempt
all_failed ip ts = map (failed ip) ts

attempt-failed :
    (ip : String) (now : ℕ) (l : Limiter)
    → lookup ip l.lockout ≡ none
    → (attempt (failed ip now) l).1 ≡ record_failure now ip l
unfolding attempt is_rate_limited
attempt-failed ip now l free = rw free refl

-- the address is free, with this queue
abbrev Holds : String → List ℕ → Limiter → Type 0
Holds ip q l = (lookup ip l.lockout ≡ none) × (or_default [] (lookup ip l.failures) ≡ q)

Within-append :
    (t0 t : ℕ) (q : List ℕ)
    → (t0 ≤ t) × (t ≤ t0 + rate_window)
    → Within t0 q
    → Within t0 (q ++ t ∷ [])
Within-append t0 t [] h w = (h, tt)
Within-append t0 t (x ∷ q) h (w, ws) = (w, Within-append t0 t q h ws)

-- what is held of the address after at most nine failures in one window
queue :
    (t0 : ℕ) (ip : String) (ts q : List ℕ) (l : Limiter)
    → Within t0 ts
    → Within t0 q
    → length q + length ts ≤ 9
    → Holds ip q l
    → Holds ip (q ++ ts) (attempts (all_failed ip ts) l)
unfolding attempts
queue t0 ip [] q l w wq few (free, held) = (free, held ∙ sym (append-nil q))
queue t0 ip (t ∷ ts) q l (w, ws) wq few (free, held) =
    subst (λ x. Holds ip (q ++ t ∷ ts) (attempts (all_failed ip ts) x))
      (sym
        (attempt-failed ip t l free ∙ record_failure-early t0 t ip q l w.1 wq (omega arith) held))
      (subst (λ x. Holds ip x (attempts (all_failed ip ts) next)) (append_assoc q (t ∷ []) ts)
        (queue t0 ip ts (q ++ t ∷ []) next ws (Within-append t0 t q w wq)
          (omega (arith, length-append q (t ∷ [])))
          (free, ap (or_default []) (lookup-insert_self ip (q ++ t ∷ []) l.failures))))
  where
    next : Limiter
    next = record l { failures = insert ip (q ++ t ∷ []) l.failures }

-- Nine wrong passwords from one address within a window of a minute leave it free; the tenth within the
-- window locks it out for five minutes.
pub tenth_failure_locks :
    (t0 t : ℕ) (ip : String) (ts : List ℕ) (l : Limiter)
    → Within t0 ts
    → (t0 ≤ t) × (t ≤ t0 + rate_window)
    → length ts ≡ 9
    → lookup ip l.lockout ≡ none
    → lookup ip l.failures ≡ none
    → let nine = attempts (all_failed ip ts) l in
      (lookup ip nine.lockout ≡ none)
      × (lookup ip (attempt (failed ip t) nine).1.lockout ≡ some (t + lockout_time))
tenth_failure_locks t0 t ip ts l w h nine free fresh =
    let (still, held) =
      queue t0 ip ts [] l w tt (omega (arith, nine)) (free, ap (or_default []) fresh) in
    (
      still,
      ap (λ x. lookup ip x.lockout) (attempt-failed ip t (attempts (all_failed ip ts) l) still)
          ∙ record_failure-tenth t0 t ip ts (attempts (all_failed ip ts) l) h.1 w nine held,
    )
