-- ===== src/Executor/Watch.antt =====
-- The wait of porpulsion/k8s/executor.py for a deployment to become ready, and the registry of the
-- events that cancel it, which a later deployment and the deletion in porpulsion/k8s/kopf_handlers.py use.
use porpulsion.Prelude.{
  ℕ, zero, suc, ◌+◌, ◌<◌, String, Bool, true, false, ◌≡◌, Option, none, some, List, [], ◌∷◌, Dict,
  lookup, insert, erase, leb, nat_eq, Bool-cases, inl, inr, if◌then◌else◌, arith, any,
}
use porpulsion.Executor.{Phase, ready, timeout}

-- what a read of the deployment gives: the ready replicas, an `ApiException`, which is only logged, or
-- another exception, which ends the thread
pub data Reading : Type 0 where
  ready_replicas : ℕ → Reading
  api_error other_error : Reading

-- what a round of the loop finds: whether the stop event is set, and the deployment
pub record Round : Type 0 where
  pub stopped : Bool
  pub reading : Reading

pub data Verdict : Type 0 where
  cancelled crashed : Verdict
  told : Phase → Verdict

abbrev pub enough : (replicas : ℕ) → Reading → Bool
enough replicas (ready_replicas n) = leb replicas n
enough replicas api_error = false
enough replicas other_error = false

abbrev pub is_fatal : Reading → Bool
is_fatal other_error = true
is_fatal api_error = false
is_fatal (ready_replicas n) = false

module _ (replicas : ℕ) (round : ℕ → Round) where
  -- `for _ in range(left)`, from round `i` on
  unfoldable pub watch_from : (left i : ℕ) → Verdict
  watch_from zero i = told timeout
  watch_from (suc left) i =
      let rest = watch_from left (suc i) in
      if (round i).stopped
      then cancelled
      else if enough replicas (round i).reading
      then told ready
      else if is_fatal (round i).reading
      then crashed
      else rest

  unfoldable pub watch : Verdict
  unfolding watch_from
  watch = watch_from 150 0

  -- no round before the `n`th decides
  abbrev pub Undecided : ℕ → Type 0
  Undecided zero = Unit
  Undecided (suc n) =
      Undecided n
      × ((round n).stopped ≡ false)
      × (enough replicas (round n).reading ≡ false)
      × (is_fatal (round n).reading ≡ false)

  abbrev pub IsRight : (rounds : ℕ) → Verdict → Type 0
  IsRight rounds cancelled = (i : ℕ) × (i < rounds) × Undecided i × ((round i).stopped ≡ true)
  IsRight rounds (told ready) =
      (i : ℕ) × (i < rounds)
      × Undecided i
      × ((round i).stopped ≡ false)
      × (enough replicas (round i).reading ≡ true)
  IsRight rounds crashed =
      (i : ℕ) × (i < rounds)
      × Undecided i
      × ((round i).stopped ≡ false)
      × (is_fatal (round i).reading ≡ true)
  IsRight rounds (told timeout) = Undecided rounds
  IsRight rounds (told _) = ⊥

  watch_from-IsRight : (left i n : ℕ) → n ≡ i + left → Undecided i → IsRight n (watch_from left i)
  unfolding watch_from
  watch_from-IsRight zero i n e u = let same : n ≡ i = omega arith in rw same u
  watch_from-IsRight (suc left) i n e u = elim (Bool-cases (round i).stopped) [
    | inl stop ↦ rw stop (i, omega arith, u, stop)
    | inr on ↦ elim (Bool-cases (enough replicas (round i).reading)) [
      | inl up ↦ rw (on, up) (i, omega arith, u, on, up)
      | inr down ↦ elim (Bool-cases (is_fatal (round i).reading)) [
        | inl dead ↦ rw (on, down, dead) (i, omega arith, u, on, dead)
        | inr alive ↦
            rw (on, down, alive)
              (watch_from-IsRight left (suc i) n (omega arith) (u, on, down, alive))
      ]
    ]
  ]

-- The wait ends within 150 rounds: with "Ready" at the first round that finds enough replicas,
-- silently at the first that finds the stop event set, by an exception at the first read that raises
-- another one than an ApiException, whichever comes first, and with "Timeout" where no round finds
-- any of these.
pub watch-IsRight :
    (replicas : ℕ) (round : ℕ → Round) → IsRight replicas round 150 (watch replicas round)
unfolding watch
watch-IsRight replicas round = watch_from-IsRight replicas round 150 0 150 (omega arith) tt

-- `_stop_events` by app, the events that are set, and what the watchers have told
pub record Watching : Type 0 where
  pub stop_events : Dict ℕ
  pub fired : List ℕ
  pub told_by : List (ℕ × Phase)

-- a watcher and the event that it was given
pub record Watcher : Type 0 where
  pub app_id : String
  pub event : ℕ
  pub replicas : ℕ

abbrev pub is_set : ℕ → Watching → Bool
is_set event w = any (nat_eq event) w.fired

abbrev pub fire : Option ℕ → Watching → Watching
fire none w = w
fire (some event) w = record w { fired = event ∷ w.fired }

-- `run_workload` before its thread starts; `event` is new
unfoldable pub begin_run : (app_id : String) (event : ℕ) → Watching → Watching
begin_run app_id event w =
    let v = fire (lookup app_id w.stop_events) w in
    record v { stop_events = insert app_id event v.stop_events }

abbrev tell : Phase → Watcher → Watching → Watching
tell p watcher w = record w {
  stop_events = erase watcher.app_id w.stop_events;
  told_by = (watcher.event, p) ∷ w.told_by;
}

-- the part of a round after its sleep; the event is not looked at again
unfoldable pub wake : Watcher → (found : Reading) → Watching → Watching
wake watcher found w = if enough watcher.replicas found then tell ready watcher w else w

-- the end of the last round
unfoldable pub expire : Watcher → Watching → Watching
expire = tell timeout

-- `on_executingapp_deleted` up to its notification
unfoldable pub cancel_run : (app_id : String) → Watching → Watching
cancel_run app_id w =
    let v = fire (lookup app_id w.stop_events) w in
    record v { stop_events = erase app_id v.stop_events }

pub data WatchStep : Type 0 where
  began : (app_id : String) (event : ℕ) → WatchStep
  woke : Watcher → Reading → WatchStep
  expired : Watcher → WatchStep
  deleted : (app_id : String) → WatchStep

unfoldable pub watch_step : WatchStep → Watching → Watching
unfolding begin_run wake expire cancel_run
watch_step (began app_id event) w = begin_run app_id event w
watch_step (woke watcher found) w = wake watcher found w
watch_step (expired watcher) w = expire watcher w
watch_step (deleted app_id) w = cancel_run app_id w

unfoldable pub watch_steps : List WatchStep → Watching → Watching
unfolding watch_step
watch_steps [] w = w
watch_steps (s ∷ ss) w = watch_steps ss (watch_step s w)
