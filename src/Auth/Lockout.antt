-- ===== src/Auth/Lockout.antt =====
-- What the rate limiter does to whoever guesses passwords.
use porpulsion.Prelude.{
  Each, insert-Each, erase-Each, ℕ, ◌≤◌, ◌<◌, String, Bool, true, false, ◌≡◌, refl, ap, ◌∙◌, none,
  some, List, [], ◌∷◌, Dict, lookup, erase, length, ltb, leb, ◌==◌, eq_iff, if◌then◌else◌, All,
  arith, lookup-insert, lookup-insert_self, lookup-erase, dict_laws, Bool-cases, Option-cases, inl,
  inr, not-leb→lt,
}
use porpulsion.Auth.RateLimit.{
  lockout_failures, Limiter, is_rate_limited, drop_old, after_check, lock_or_keep, clear_failures,
  record_failure, Attempt, limited, welcome, denied, attempt, attempts,
}

-- every queue is shorter than what locks out
abbrev pub IsShort : String → List ℕ → Type 0
IsShort ip q = length q < lockout_failures

abbrev pub Short : Dict (List ℕ) → Type 0
Short = Each IsShort

lock_or_keep-Short :
    (now : ℕ) (ip : String) (l : Limiter) (q : List ℕ)
    → Short l.failures
    → Short (lock_or_keep now ip l q).failures
lock_or_keep-Short now ip l q s = elim (Bool-cases (leb lockout_failures (length q))) [
  | inl full ↦ rw full (erase-Each IsShort ip l.failures s)
  | inr room ↦ rw room (insert-Each IsShort ip q l.failures (not-leb→lt _ _ room) s)
]

judged-Short :
    (a : Attempt) (b : Bool) (l : Limiter)
    → Short l.failures
    → Short (after_check a (b, l)).1.failures
unfolding clear_failures record_failure
judged-Short a true l s = s
judged-Short a false l s = elim (Bool-cases a.good) [
  | inl right ↦ rw right (erase-Each IsShort a.ip l.failures s)
  | inr wrong ↦ rw wrong (lock_or_keep-Short a.now a.ip l _ s)
]

attempt-Short : (a : Attempt) (l : Limiter) → Short l.failures → Short (attempt a l).1.failures
unfolding attempt is_rate_limited
attempt-Short a l s = elim (Option-cases (lookup a.ip l.lockout)) [
  | inl free ↦ rw free (judged-Short a false l s)
  | inr (expiry, locked) ↦ rw locked (elim (Bool-cases (ltb a.now expiry)) [
    | inl early ↦ rw early s
    | inr late ↦ rw late (judged-Short a false _ (erase-Each IsShort a.ip l.failures s))
  ])
]

-- However often passwords are guessed, from whatever addresses, fewer than ten failures are held of each.
pub attempts-Short :
    (tries : List Attempt) (l : Limiter) → Short l.failures → Short (attempts tries l).failures
unfolding attempts
attempts-Short [] l s = s
attempts-Short (a ∷ tries) l s = attempts-Short tries (attempt a l).1 (attempt-Short a l s)

-- an attempt that comes before the lock of its address ends
abbrev pub Early : String → ℕ → Attempt → Type 0
Early ip expiry a = a.ip ≡ ip → a.now < expiry

lock_or_keep-lockout_ne :
    (now : ℕ) (ip other : String) (l : Limiter) (q : List ℕ)
    → (other == ip) ≡ false
    → lookup ip (lock_or_keep now other l q).lockout ≡ lookup ip l.lockout
lock_or_keep-lockout_ne now ip other l q n = elim (Bool-cases (leb lockout_failures (length q))) [
  | inl full ↦ rw (full, lookup-insert, n) refl
  | inr room ↦ rw room refl
]

judged-lockout_ne :
    (ip : String) (a : Attempt) (b : Bool) (l : Limiter)
    → (a.ip == ip) ≡ false
    → lookup ip (after_check a (b, l)).1.lockout ≡ lookup ip l.lockout
unfolding record_failure clear_failures
judged-lockout_ne ip a true l n = refl
judged-lockout_ne ip a false l n = elim (Bool-cases a.good) [
  | inl right ↦ rw (right, lookup-erase, n) refl
  | inr wrong ↦ rw wrong (lock_or_keep-lockout_ne a.now ip a.ip l _ n)
]

-- attempts from elsewhere do not touch the lock
attempt-lockout_ne :
    (ip : String) (a : Attempt) (l : Limiter)
    → (a.ip == ip) ≡ false
    → lookup ip (attempt a l).1.lockout ≡ lookup ip l.lockout
unfolding attempt is_rate_limited
attempt-lockout_ne ip a l n = elim (Option-cases (lookup a.ip l.lockout)) [
  | inl free ↦ rw free (judged-lockout_ne ip a false l n)
  | inr (expiry, locked) ↦ rw locked (elim (Bool-cases (ltb a.now expiry)) [
    | inl early ↦ rw early refl
    | inr late ↦ rw late (judged-lockout_ne ip a false _ n ∙ rw (lookup-erase, n) refl)
  ])
]

attempt-limited :
    (a : Attempt) (l : Limiter) (expiry : ℕ)
    → lookup a.ip l.lockout ≡ some expiry
    → a.now < expiry
    → attempt a l ≡ (limited, l)
unfolding attempt is_rate_limited
attempt-limited a l expiry h early = rw h (ground arith)

lockout_stands :
    (ip : String) (expiry : ℕ) (a : Attempt) (l : Limiter)
    → Early ip expiry a
    → lookup ip l.lockout ≡ some expiry
    → lookup ip (attempt a l).1.lockout ≡ some expiry
lockout_stands ip expiry a l early h = elim (Bool-cases (a.ip == ip)) [
  | inl same ↦
      ap (λ r. lookup ip r.1.lockout)
        (attempt-limited a l expiry (ap (λ i. lookup i l.lockout) ((eq_iff a.ip ip).0 same) ∙ h)
          (early ((eq_iff a.ip ip).0 same)))
      ∙ h
  | inr other ↦ attempt-lockout_ne ip a l other ∙ h
]

attempts_stand :
    (ip : String) (expiry : ℕ) (tries : List Attempt) (l : Limiter)
    → All (Early ip expiry) tries
    → lookup ip l.lockout ≡ some expiry
    → lookup ip (attempts tries l).lockout ≡ some expiry
unfolding attempts
attempts_stand ip expiry [] l early h = h
attempts_stand ip expiry (a ∷ tries) l (e, es) h =
    attempts_stand ip expiry tries (attempt a l).1 es (lockout_stands ip expiry a l e h)

-- An address that is locked out stays so until its lock ends: whatever is tried before, from it or from
-- elsewhere, an attempt from it is refused, with the right password too, and changes nothing.
pub locked_out_until :
    (expiry : ℕ) (tries : List Attempt) (a : Attempt) (l : Limiter)
    → lookup a.ip l.lockout ≡ some expiry
    → All (Early a.ip expiry) tries
    → a.now < expiry
    → attempt a (attempts tries l) ≡ (limited, attempts tries l)
locked_out_until expiry tries a l h early now =
    attempt-limited a (attempts tries l) expiry (attempts_stand a.ip expiry tries l early h) now

judged_fresh :
    (a : Attempt) (l : Limiter)
    → lookup a.ip l.lockout ≡ none
    → lookup a.ip l.failures ≡ none
    → let (answer, after) = after_check a (false, l) in
      (answer ≡ (if a.good then welcome else denied))
      × (lookup a.ip after.lockout ≡ none)
      × (lookup a.ip after.failures ≡ (if a.good then none else some (a.now ∷ [])))
unfolding record_failure clear_failures drop_old
judged_fresh a l free none_held = elim (Bool-cases a.good) [
  | inl right ↦ rw right (refl, simp dict_laws, simp dict_laws)
  | inr wrong ↦ rw (wrong, none_held) (refl, free, lookup-insert_self a.ip (a.now ∷ []) l.failures)
]

-- Once its lock has ended an address is judged by its password: a right one clears what is held of it, a
-- wrong one is its only failure.
pub lock_expires :
    (expiry : ℕ) (a : Attempt) (l : Limiter)
    → lookup a.ip l.lockout ≡ some expiry
    → expiry ≤ a.now
    → let (answer, after) = attempt a l in
      (answer ≡ (if a.good then welcome else denied))
      × (lookup a.ip after.lockout ≡ none)
      × (lookup a.ip after.failures ≡ (if a.good then none else some (a.now ∷ [])))
unfolding attempt is_rate_limited
lock_expires expiry a l h late =
    rw (h, not-early)
      (judged_fresh a (record { failures = erase a.ip l.failures; lockout = erase a.ip l.lockout })
        (simp dict_laws) (simp dict_laws))
  where
    not-early : ltb a.now expiry ≡ false
    not-early = ground arith
