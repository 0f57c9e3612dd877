-- ===== src/Workloads/Tests.antt =====
-- Runs of submissions and approvals at concrete inputs.
use porpulsion.Prelude.{◌≡◌, refl, ℕ, true, false, none, List, [], ◌∷◌, lookup, leb, ◌&&◌, code}
use porpulsion.Policy.{AgentSettings, RemoteAppSpec, Floats}
use porpulsion.Workloads.Naming.{Unicode, cr_name, ea_cr_name, safe_resource_name}
use porpulsion.Workloads.Names.{IsName, names-IsName}
use porpulsion.Workloads.Cluster.{Cluster}
use porpulsion.Workloads.Admission.{
  Entry, Agent, Submission, Step, receive, update, reject, delete, steps, restore_pending,
}
use porpulsion.Workloads.Pending.{restart_keeps_queue}
use porpulsion.Workloads.Approval.{NoneNew, unapproved_never_runs}

-- lower-case letters and digits are those of ASCII
abbrev toy : Unicode
toy = record { lower = λ s. s; isalnum = λ c. leb 48 (code c) && leb (code c) 122 }

abbrev floats : Floats
floats = record {
  Float = ℕ;
  to_float = λ t. none;
  zero = 0;
  plus = λ x y. x;
  times = λ x n. x;
  per_thousand = λ x. x;
  exceeds = λ x y. false;
}

abbrev settings : AgentSettings
settings = record {
  allowed_images = "";
  blocked_images = "";
  allowed_source_peers = "";
  require_resource_requests = false;
  require_resource_limits = false;
  max_cpu_request_per_pod = "";
  max_cpu_limit_per_pod = "";
  max_memory_request_per_pod = "";
  max_memory_limit_per_pod = "";
  max_replicas_per_app = 0;
  max_total_deployments = 1;
  max_total_pods = 3;
  max_total_cpu_requests = "";
  max_total_memory_requests = "";
}

abbrev spec : RemoteAppSpec
spec = record { image = "nginx:2"; replicas = 2; resources = record { requests = []; limits = [] } }

abbrev empty_cluster : Cluster
empty_cluster = record { available = true; executing = [] }

abbrev waiting : Entry
waiting = record { id = "7f"; name = "web"; spec = spec; source_peer = "beta"; since = "t0" }

abbrev queueing : Agent
queueing = record {
  allow_inbound = true;
  require_approval = true;
  settings = settings;
  pending = ("7f", waiting) ∷ [];
  saved_pending = waiting ∷ [];
  cluster = empty_cluster;
  notices = [];
}

abbrev open_agent : Agent
open_agent = record queueing { require_approval = false }

abbrev shop : Submission
shop = record { id = ""; name = "Shop"; spec = spec; source_peer = "gamma" }

abbrev traffic : List Step
traffic =
    receive "t1" "8a" true true true shop
    ∷ update true true true "8a" spec
    ∷ reject true "7f"
    ∷ delete true "8a"
    ∷ []

names-IsName_example :
    IsName toy (cr_name toy "my app!")
    × IsName toy (ea_cr_name toy "7f" "my app!")
    × IsName toy (safe_resource_name toy "7f" "my app!")
names-IsName_example = names-IsName toy "7f" "my app!" (refl, (refl, tt)) (refl, refl)

restart_keeps_queue_example :
    let after = steps toy floats traffic queueing in
    lookup "8a" (restore_pending after.saved_pending []) ≡ lookup "8a" after.pending
unfolding lookup
restart_keeps_queue_example =
    restart_keeps_queue toy floats traffic queueing "8a" (refl, (tt, (tt, (tt, tt))))
      (record { saved = refl; own = ((refl, refl), tt); distinct = (refl, tt) })

unapproved_never_runs_example : NoneNew queueing (steps toy floats traffic queueing)
unapproved_never_runs_example =
    unapproved_never_runs toy floats traffic queueing (tt, (tt, (tt, (tt, tt)))) refl
