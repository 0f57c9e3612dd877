-- ===== src/Apps/Tests.antt =====
-- Runs of the resources' operations at concrete inputs.
use porpulsion.Prelude.{String, true, false, ◌≡◌, refl, none, some, List, [], ◌∷◌, Dict, lookup}
use porpulsion.Prelude.Text.{strip}
use porpulsion.Prelude.Exec.{ok, err}
use porpulsion.Prelude.Json.{str}
use porpulsion.Peers.{Peer, new_peer, outgoing, incoming, can_deploy}
use porpulsion.Workloads.Naming.{Unicode}
use porpulsion.Apps.{Base64, Volume, AppCr, Desk, get_cr_by_app_id}
use porpulsion.Apps.Volumes.{read_volume, get_app_secret}
use porpulsion.Apps.Forwarding.{patch_both, willing, secret_in_sync}
use porpulsion.Apps.Submission.{
  Remotes, NewApp, Api, created, create_remoteapp, encode_spec_secrets, remoteapp_name_exists,
  check_crd_compatibility,
}
use porpulsion.Apps.Creation.{IsOrderly, create_remoteapp-IsOrderly}
use porpulsion.Apps.Operations.{Workbench, Node, serve, operate, logs, body}
use porpulsion.Apps.Proxied.{relayed, proxied_as_local}
use porpulsion.Apps.ProxyAuth.{
  Event, sets, deletes, restarts, happen, in_set, history, fresh_gate, restore_proxy_auth,
  restart_keeps_proxy_auth,
}

-- an encoding that marks what is encoded
abbrev plain : Base64
plain = record { encode = λ v. v; decode = λ v. some v; decode-encode = λ v. refl }

abbrev db : Volume
db = record { name = "db"; content = ("user", "old") ∷ [] }

abbrev web_at : (target source : String) → AppCr
web_at target source = record {
  app_id = "a1";
  target_peer = target;
  source_peer = source;
  resource_name = "ea-a1-web";
  config_maps = [];
  secrets = db ∷ [];
}

abbrev submitting : Desk
submitting = record { submitted = ("web", web_at "beta" "") ∷ []; executing = [] }

abbrev executing_desk : Desk
executing_desk = record { submitted = []; executing = ("ea-a1-web", web_at "" "alpha") ∷ [] }

abbrev new_data : Dict String
new_data = ("user", "new") ∷ ("password", "secret") ∷ []

abbrev beta : Peer
beta = new_peer "beta" "wss://beta" "pem" "now" outgoing

secret_in_sync_example :
    let (done, after, there_after) =
      patch_both plain
        (willing plain)
        true
        (("beta", beta) ∷ [])
        "beta"
        "a1"
        "db"
        new_data
        submitting
        executing_desk in
    (done ≡ true)
    × (get_app_secret plain "a1" "db" after ≡ some new_data)
    × (get_app_secret plain "a1" "db" there_after ≡ some new_data)
unfolding read_volume lookup
secret_in_sync_example =
    secret_in_sync plain (("beta", beta) ∷ []) "a1" "db" new_data submitting executing_desk "web"
      "ea-a1-web" (web_at "beta" "") (web_at "" "alpha") beta db db ((refl, tt), tt)
      (tt, (refl, tt)) (refl, refl) (refl, refl) refl refl refl

abbrev ascii : Unicode
ascii = record { lower = λ s. s; isalnum = λ c. true }

abbrev gamma : Peer
gamma = new_peer "gamma" "wss://gamma" "pem" "now" incoming

abbrev deploy : NewApp
deploy = record { name = "web"; target_peer = ""; spec = ("image", str "nginx") ∷ [] }

abbrev no_remotes : Remotes
no_remotes = record { available = true; remote = [] }

abbrev up : Api
up = record { names_known = true; answers = true }

abbrev two_peers : Dict Peer
two_peers = ("gamma", gamma) ∷ ("beta", beta) ∷ []

create_remoteapp-IsOrderly_example :
    IsOrderly plain ascii two_peers deploy no_remotes
      (create_remoteapp plain ascii up two_peers deploy no_remotes)
create_remoteapp-IsOrderly_example =
    create_remoteapp-IsOrderly plain ascii up two_peers deploy no_remotes refl

deploys_to_beta : (create_remoteapp plain ascii up two_peers deploy no_remotes).0 ≡ created
unfolding create_remoteapp can_deploy encode_spec_secrets lookup remoteapp_name_exists
    check_crd_compatibility
deploys_to_beta = refl

abbrev bench : Workbench
bench = record {
  get_pod_logs = λ ra tail pod by_time. ok (str ra.source_peer);
  list_pods = λ ra. err "no pods";
  exec_in_pod = λ ra pod command. ok (str command);
  rollout_restart = λ ra. ok tt;
}

abbrev beta_node : Node
beta_node = record {
  desk = executing_desk;
  peers = [];
  call = λ peer c. err "not connected";
  bench = bench;
}

abbrev alpha_node : Node
alpha_node = record {
  desk = submitting;
  peers = ("beta", beta) ∷ [];
  call = λ peer c. serve bench executing_desk c;
  bench = bench;
}

proxied_as_local_example :
    operate "a1" (logs none none none) alpha_node
    ≡ relayed (operate "a1" (logs none none none) beta_node)
unfolding lookup
proxied_as_local_example =
    proxied_as_local "a1" alpha_node beta_node beta "web" "ea-a1-web" (web_at "beta" "")
      (web_at "" "alpha") (refl, refl) (refl, refl) refl (λ c. refl) (logs none none none)

logs_come_from_beta : operate "a1" (logs none none none) alpha_node ≡ body (str "alpha")
unfolding operate serve lookup get_cr_by_app_id strip
logs_come_from_beta = refl

abbrev events : List Event
events = sets "a1" false ∷ deletes true "a2" ∷ restarts ∷ []

restart_keeps_proxy_auth_example :
    let g = history events (fresh_gate submitting) in
    in_set "a1" (restore_proxy_auth g).disabled ≡ in_set "a1" g.disabled
restart_keeps_proxy_auth_example =
    restart_keeps_proxy_auth "a1" events submitting (refl, (refl, (refl, tt)))

a1_stays_open : in_set "a1" (history events (fresh_gate submitting)).disabled ≡ true
unfolding happen get_cr_by_app_id
a1_stays_open = refl
