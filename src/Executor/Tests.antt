-- ===== src/Executor/Tests.antt =====
-- Runs of the executor at concrete inputs.
use porpulsion.Prelude.{
  map, ℕ, ◌*◌, ◌+◌, ◌/◌, String, ◌≡◌, refl, true, false, none, some, List, [], ◌∷◌, ltb, lookup,
  ◌==◌, Option, if◌then◌else◌,
}
use porpulsion.Workloads.Naming.{Unicode}
use porpulsion.Executor.{RemoteApp, PvcSpec, PvcSettings, Api, done, failed, ready, updating}
use porpulsion.Executor.Storage.{
  Sizes, claims, claim, check_total, parse_storage_gb, by_suffix, without_end,
}
use porpulsion.Prelude.Text.{strip}
use porpulsion.Executor.Deploy.{
  execute, config_maps, apply_config_map, apply_by_name, secrets, check_pull_secrets,
  apply_deployment,
}
use porpulsion.Executor.Reports.{phases, Reported, execute-Reported}
use porpulsion.Executor.Watch.{
  Round, ready_replicas, IsRight, watch, watch-IsRight, Watching, Watcher, is_set, begin_run, wake,
  cancel_run,
}
use porpulsion.Prelude.Exec.{ok}
use porpulsion.Executor.Sessions.{
  Shells, ShellStep, opened, sent, closed, typed, exec_open_session, exec_send_stdin, shell_steps,
}
use porpulsion.Executor.Inputs.{input_reaches_pod}
use porpulsion.Executor.Relay.{
  Arrival, arrive, with_items, register_exec_stdout_queue, queues_take_their_own,
}
use porpulsion.Executor.Races.{stale_watcher_unregisters}

abbrev ascii : Unicode
ascii = record { lower = λ s. s; isalnum = λ c. true }

-- sizes in whole gigabytes, of the numerals that the tests use
abbrev numeral : String → Option ℕ
numeral s = if s == "5" then some 5 else if s == "20" then some 20 else none

abbrev whole : Sizes
whole = record {
  Float = ℕ;
  to_float = numeral;
  zero_size = 0;
  plus = λ a b. a + b;
  times = λ a n. a * n;
  over = λ a n. a / n;
  exceeds = λ a n. ltb n a;
}

abbrev settings : PvcSettings
settings = record {
  allow_pvcs = true;
  max_pvc_storage_per_pvc_gb = 10;
  max_pvc_storage_total_gb = 0;
}

-- everything is there already, and the Deployment cannot be replaced
abbrev stuck : Api
stuck = record {
  read_deployment = done;
  create_config_map = λ _. done;
  replace_config_map = λ _. done;
  create_secret = λ _. done;
  replace_secret = λ _. done;
  create_pvc = λ _. done;
  list_pvcs = none;
  read_secret = λ _. done;
  create_deployment = failed 409 "AlreadyExists";
  replace_deployment = failed 409 "Conflict";
  create_service = done;
  replace_service = done;
}

abbrev disk : String → PvcSpec
disk storage = record {
  name = "cache";
  mount_path = "/cache";
  storage = storage;
  access_mode = "ReadWriteOnce";
}

abbrev app : RemoteApp
app = record {
  id = "a1";
  name = "ea-a1-web";
  resource_name = "ea-a1-web";
  spec = record {
    replicas = 2;
    config_maps = record { name = "conf"; mount_path = "/conf"; content = ("k", "v") ∷ [] } ∷ [];
    secrets = [];
    pvcs = disk "5Gi" ∷ [];
    pull_secrets = "registry" ∷ [];
  };
}

execute-Reported_example : Reported updating (execute ascii (λ s. some s) whole settings stuck app)
execute-Reported_example = execute-Reported ascii (λ s. some s) whole settings stuck app

-- the failed replacement ends the run without a word
execute_silent : phases (execute ascii (λ s. some s) whole settings stuck app).1 ≡ updating ∷ []
unfolding execute config_maps apply_config_map apply_by_name secrets check_total claims claim
    parse_storage_gb by_suffix without_end strip check_pull_secrets apply_deployment
execute_silent = refl

abbrev slow : ℕ → Round
slow i = record { stopped = false; reading = ready_replicas i }

watch-IsRight_example : IsRight 2 slow 150 (watch 2 slow)
watch-IsRight_example = watch-IsRight 2 slow

abbrev deployed : Watching
deployed = record { stop_events = ("a1", 1) ∷ []; fired = []; told_by = [] }

abbrev sleeper : Watcher
sleeper = record { app_id = "a1"; event = 1; replicas = 1 }

stale_watcher_unregisters_example :
    let again = begin_run "a1" 2 deployed in
    let woken = wake sleeper (ready_replicas 1) again in
    (is_set 1 again ≡ true)
    × (woken.told_by ≡ (1, ready) ∷ [])
    × (is_set 2 (cancel_run "a1" woken) ≡ false)
unfolding lookup
stale_watcher_unregisters_example =
    stale_watcher_unregisters sleeper 2 1 deployed refl refl refl refl

abbrev no_shells : Shells
no_shells = record { sessions = []; inputs = [] }

abbrev elsewhere : List ShellStep
elsewhere =
    opened ("db" ∷ []) true "s9" "db" "/bin/zsh" "s2" 80 24 ∷ sent "s2" "ls" ∷ closed "s2" ∷ []

input_reaches_pod_example :
    let begun = (exec_open_session ("web" ∷ []) true "s9" "web" "/bin/sh" "s1" 80 24 no_shells).1 in
    let later = shell_steps elsewhere begun in
    exec_send_stdin "s1" "id" later
    ≡ (ok tt, record later { inputs = typed "web" "id" ∷ later.inputs })
input_reaches_pod_example =
    input_reaches_pod ("web" ∷ []) "s9" "web" "/bin/sh" "s1" "id" 80 24 elsewhere no_shells refl
      refl (refl, (refl, (refl, tt)))

abbrev mixed : List Arrival
mixed =
    record { app_id = "a1"; session_id = "s2"; data_item = some "other" }
    ∷ record { app_id = "a1"; session_id = "s1"; data_item = some "hi" }
    ∷ []

queues_take_their_own_example :
    arrive mixed (register_exec_stdout_queue "a1" "s1" [])
    ≡ map (with_items mixed) (register_exec_stdout_queue "a1" "s1" [])
queues_take_their_own_example =
    queues_take_their_own mixed (register_exec_stdout_queue "a1" "s1" [])
