-- ===== src/Kopf/Tests.antt =====
-- Runs of the handlers at concrete inputs.
use porpulsion.Prelude.{refl, true, [], ◌∷◌, ◌++◌, lookup}
use porpulsion.Prelude.Text.{has_text}
use porpulsion.Prelude.Exec.{ok, err}
use porpulsion.Peers.{Peer, new_peer, outgoing, can_deploy}
use porpulsion.Workloads.Naming.{Unicode}
use porpulsion.Kopf.{Cr, Attempt, is_rejection}
use porpulsion.Kopf.Retries.{attempts, Forwarded, eventually_reached}
use porpulsion.Kopf.Executing.{EaCr}

abbrev beta : Peer
beta = new_peer "beta" "wss://beta" "pem" "now" outgoing

abbrev web : Cr
web = record { name = "web"; target_peer = "beta"; status = []; sent = []; alerts = [] }

abbrev lonely : Attempt
lonely = record { fresh = "a1"; answers = true; peers = []; reply = ok tt }

abbrev unlucky : Attempt
unlucky = record {
  fresh = "a2";
  answers = true;
  peers = ("beta", beta) ∷ [];
  reply = err "timeout";
}

abbrev lucky : Attempt
lucky = record { fresh = "a3"; answers = true; peers = ("beta", beta) ∷ []; reply = ok tt }

eventually_reached_example :
    Forwarded "a1" "beta" (attempts ((lonely ∷ unlucky ∷ []) ++ lucky ∷ []) web)
unfolding lookup can_deploy is_rejection has_text
eventually_reached_example =
    eventually_reached lonely (unlucky ∷ []) lucky [] web refl refl refl refl refl
      (refl, (refl, tt)) (beta, refl, refl, refl)

abbrev known : Cr
known = record {
  name = "web";
  target_peer = "beta";
  status = ("appId", "a1") ∷ [];
  sent = [];
  alerts = [];
}

abbrev refused : Attempt
refused = record {
  fresh = "a4";
  answers = true;
  peers = ("beta", beta) ∷ [];
  reply = err "Insufficient memory";
}

abbrev ascii : Unicode
ascii = record { lower = λ s. s; isalnum = λ c. true }

abbrev by_hand : EaCr
by_hand = record {
  name = "shop";
  label_app_id = "";
  status = [];
  spec = record { replicas = 1; config_maps = []; secrets = []; pvcs = []; pull_secrets = [] };
}
