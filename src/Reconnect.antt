-- ===== src/Reconnect.antt =====
-- porpulsion/channel.py, `connect_and_maintain`: the outbound loop of a channel, with its backoff.
pub mod Schedule
mod Tests
use porpulsion.Prelude.{
  ℕ, zero, suc, Bool, true, false, not, ◌&&◌, List, [], ◌∷◌, ◌++◌, ltb, nat_eq, length,
  if◌then◌else◌,
}

-- `_RECONNECT_DELAY`, in seconds
abbrev pub reconnect_delays : List ℕ
reconnect_delays = 2 ∷ 4 ∷ 8 ∷ 16 ∷ 30 ∷ []

abbrev get_or_zero : List ℕ → ℕ → ℕ
get_or_zero [] i = 0
get_or_zero (x ∷ xs) zero = x
get_or_zero (x ∷ xs) (suc i) = get_or_zero xs i

-- `_RECONNECT_DELAY[min(attempt, len(_RECONNECT_DELAY) - 1)]`
unfoldable pub delay : ℕ → ℕ
delay attempt = get_or_zero reconnect_delays (if ltb attempt 4 then attempt else 4)

-- how a round ends: `_connect` raised, the receive loop returned, or it raised
pub data Outcome : Type 0 where
  refused dropped crash : Outcome

-- a round, with `_running` at the head of the loop and at the test inside it
pub record Round : Type 0 where
  pub running : Bool
  pub outcome : Outcome
  pub still_running : Bool

pub record Backoff : Type 0 where
  pub attempt : ℕ
  pub notified : Bool

abbrev pub fresh : Backoff
fresh = record { attempt = 0; notified = false }

pub data Act : Type 0 where
  sleep : ℕ → Act
  notify_failure : Act

-- how the thread stands after the rounds: still at it, ended by `close`, or dead by an exception
pub data ThreadEnd : Type 0 where
  looping : Backoff → ThreadEnd
  stopped died : ThreadEnd

-- one failed `_connect`
unfoldable pub after_refusal : Backoff → List Act × Backoff
after_refusal b =
    let attempt = suc b.attempt in
    let pause = sleep (delay b.attempt) ∷ [] in
    if nat_eq attempt (length reconnect_delays) && not b.notified
    then (notify_failure ∷ pause, record { attempt = attempt; notified = true })
    else (pause, record b { attempt = attempt })

abbrev prefixed : List Act → ThreadEnd × List Act → ThreadEnd × List Act
prefixed acts (end, rest) = (end, acts ++ rest)

unfoldable pub connect_and_maintain : List Round → Backoff → ThreadEnd × List Act
connect_and_maintain [] b = (looping b, [])
connect_and_maintain (r ∷ rs) b =
    let go = connect_and_maintain rs in
    if not r.running then (stopped, []) else elim r.outcome [
      | refused ↦
          if not r.still_running
          then (stopped, [])
          else let (acts, b') = after_refusal b in prefixed acts (go b')
      | dropped ↦
          if not r.still_running
          then (stopped, [])
          else prefixed (sleep (delay 0) ∷ []) (go (record { attempt = 1; notified = false }))
      | crash ↦ (died, [])
    ]
