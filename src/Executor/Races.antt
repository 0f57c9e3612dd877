-- ===== src/Executor/Races.antt =====
-- Redeployments that meet a watcher of porpulsion/k8s/executor.py in its sleep.
use porpulsion.Prelude.{
  ℕ, String, true, false, ◌≡◌, Option, none, some, List, [], ◌∷◌, lookup, eq_refl, nat_eq, if-holds,
  arith, lookup-erase,
}
use porpulsion.Executor.{ready}
use porpulsion.Executor.Watch.{
  ready_replicas, Watching, Watcher, enough, is_set, fire, begin_run, wake, cancel_run, WatchStep,
  began, woke, expired, deleted, watch_step, watch_steps,
}

nat_eq_refl : (n : ℕ) → nat_eq n n ≡ true
nat_eq_refl n = ground arith

-- an event that is set stays set
fire-is_set : (e : ℕ) (o : Option ℕ) (w : Watching) → is_set e w ≡ true → is_set e (fire o w) ≡ true
fire-is_set e none w h = h
fire-is_set e (some d) w h = ground arith

step-is_set :
    (e : ℕ) (s : WatchStep) (w : Watching) → is_set e w ≡ true → is_set e (watch_step s w) ≡ true
unfolding watch_step
step-is_set e (began app_id event) w h = fire-is_set e (lookup app_id w.stop_events) w h
step-is_set e (woke watcher found) w h =
    if-holds (λ (v : Watching). is_set e v ≡ true) (enough watcher.replicas found) _ w h h
step-is_set e (expired watcher) w h = h
step-is_set e (deleted app_id) w h = fire-is_set e (lookup app_id w.stop_events) w h

steps-is_set :
    (e : ℕ) (ss : List WatchStep) (w : Watching)
    → is_set e w ≡ true
    → is_set e (watch_steps ss w) ≡ true
unfolding watch_steps
steps-is_set e [] w h = h
steps-is_set e (s ∷ ss) w h = steps-is_set e ss (watch_step s w) (step-is_set e s w h)

-- Deploying an app again, or deleting it, sets the stop event that is registered for it, and no
-- later step takes that back.
pub begin-cancels :
    (app_id : String) (old new : ℕ) (ss : List WatchStep) (w : Watching)
    → lookup app_id w.stop_events ≡ some old
    → (is_set old (watch_steps ss (begin_run app_id new w)) ≡ true)
      × (is_set old (watch_steps ss (cancel_run app_id w)) ≡ true)
unfolding begin_run cancel_run
begin-cancels app_id old new ss w h = (
  steps-is_set old ss _ (rw (h, nat_eq_refl old)),
  steps-is_set old ss _ (rw (h, nat_eq_refl old)),
)

-- A watcher that sleeps while its app is deployed again tells "Ready" when it wakes to enough
-- replicas, although its event is set; and it takes the new watcher's event out of the registry, so
-- that the deletion of the app does not set that one.
pub stale_watcher_unregisters :
    (watcher : Watcher) (new found : ℕ) (w : Watching)
    → lookup watcher.app_id w.stop_events ≡ some watcher.event
    → enough watcher.replicas (ready_replicas found) ≡ true
    → is_set new w ≡ false
    → nat_eq new watcher.event ≡ false
    → let again = begin_run watcher.app_id new w in
      let woken = wake watcher (ready_replicas found) again in
      (is_set watcher.event again ≡ true)
      × (woken.told_by ≡ (watcher.event, ready) ∷ w.told_by)
      × (is_set new (cancel_run watcher.app_id woken) ≡ false)
unfolding begin_run wake cancel_run
stale_watcher_unregisters watcher new found w h up off other =
    (rw (h, nat_eq_refl watcher.event), rw (h, up), rw (h, up, lookup-erase, eq_refl, other) off)
