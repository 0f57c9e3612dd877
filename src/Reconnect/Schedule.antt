-- ===== src/Reconnect/Schedule.antt =====
-- The waits of an outage, and its single notification.
use porpulsion.Prelude.{
  ℕ, zero, suc, ◌+◌, ◌≤◌, ◌<◌, ◌≡◌, refl, Bool, true, false, List, [], ◌∷◌, arith, leb,
  if◌then◌else◌,
}
use porpulsion.Reconnect.{
  delay, refused, Round, fresh, Act, sleep, notify_failure, after_refusal, connect_and_maintain,
}

abbrev pub refusals : ℕ → List Round
refusals zero = []
refusals (suc n) = record { running = true; outcome = refused; still_running = true } ∷ refusals n

abbrev pub sleeps : List Act → List ℕ
sleeps [] = []
sleeps (sleep d ∷ acts) = d ∷ sleeps acts
sleeps (notify_failure ∷ acts) = sleeps acts

abbrev pub notices : List Act → ℕ
notices [] = 0
notices (sleep d ∷ acts) = notices acts
notices (notify_failure ∷ acts) = suc (notices acts)

-- the wait after so many failures in a row: it doubles from two seconds up to thirty
abbrev pub backoff : ℕ → ℕ
backoff zero = 2
backoff (suc zero) = 4
backoff (suc (suc zero)) = 8
backoff (suc (suc (suc zero))) = 16
backoff (suc (suc (suc (suc n)))) = 30

-- the waits from an attempt on
abbrev pub waits : ℕ → ℕ → List ℕ
waits a zero = []
waits a (suc n) = backoff a ∷ waits (suc a) n

delay-eq-backoff : (a : ℕ) → delay a ≡ backoff a
unfolding delay
delay-eq-backoff zero = refl
delay-eq-backoff (suc zero) = refl
delay-eq-backoff (suc (suc zero)) = refl
delay-eq-backoff (suc (suc (suc zero))) = refl
delay-eq-backoff (suc (suc (suc (suc n)))) = ground arith

late :
    (n a : ℕ) (told : Bool)
    → 5 ≤ a
    → notices (connect_and_maintain (refusals n) (record { attempt = a; notified = told })).1 ≡ 0
unfolding connect_and_maintain after_refusal
late zero a told h = refl
late (suc n) a told h = ground (arith, late n (suc a) told)

early :
    (n a : ℕ)
    → a < 5
    → notices (connect_and_maintain (refusals n) (record { attempt = a; notified = false })).1
      ≡ (if leb 5 (a + n) then 1 else 0)
unfolding connect_and_maintain after_refusal
early zero a h = ground arith
early (suc n) a h = ground (arith, late n (suc a) true, early n (suc a))

slept :
    (n a : ℕ) (told : Bool)
    → sleeps (connect_and_maintain (refusals n) (record { attempt = a; notified = told })).1
      ≡ waits a n
unfolding connect_and_maintain after_refusal
slept zero a told = refl
slept (suc n) a told =
    ground (arith, delay-eq-backoff a, slept n (suc a) told, slept n (suc a) true)

-- While `_connect` keeps failing, the loop never ends, waits 2, 4, 8, 16 and from then on 30
-- seconds, and reports the outage once: at the fifth failure, and not before.
pub outage_schedule :
    (n : ℕ)
    → let (end, acts) = connect_and_maintain (refusals n) fresh in
      (sleeps acts ≡ waits 0 n) × (notices acts ≡ (if leb 5 n then 1 else 0))
outage_schedule n = (slept n 0 false, ground (arith, early n 0))
