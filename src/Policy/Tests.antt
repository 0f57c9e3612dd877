-- ===== src/Policy/Tests.antt =====
-- Runs of the checks at concrete inputs.
use porpulsion.Prelude.{
  refl, ◌≡◌, inr, ℕ, ◌+◌, ◌*◌, ◌/◌, false, none, some, List, [], ◌∷◌, lookup, ltb, ◌==◌,
  if◌then◌else◌,
}
use porpulsion.Prelude.Text.{split, strip, lstrip, rstrip, is_space, starts_with}
use porpulsion.Policy.{AgentSettings, RemoteAppSpec, ExecutingApp, Floats, first_of}
use porpulsion.Policy.Quantity.{parse_quantity, try_suffixes, cut_suffix, lowers_to}
use porpulsion.Policy.Images.{comma_list, check_image_policy}
use porpulsion.Policy.Quota.{
  check_resource_quota, peer_permitted, used_pods, used_total, pod_limit, total_limit,
}
use porpulsion.Policy.Reading.{kibi, parse_quantity-reads}
use porpulsion.Policy.Sound.{Admissible, admitted-Admissible}

-- numbers in thousandths; a text is one digit
abbrev toy : Floats
toy = record {
  Float = ℕ;
  to_float = λ t. if t == "1" then some 1000 else if t == "2" then some 2000 else none;
  zero = 0;
  plus = λ x y. x + y;
  times = λ x n. x * n;
  per_thousand = λ x. x / 1000;
  exceeds = λ x y. ltb y x;
}

abbrev settings : AgentSettings
settings = record {
  allowed_images = "nginx, registry.io/";
  blocked_images = "nginx:1.0";
  allowed_source_peers = "beta";
  require_resource_requests = false;
  require_resource_limits = false;
  max_cpu_request_per_pod = "2";
  max_cpu_limit_per_pod = "";
  max_memory_request_per_pod = "";
  max_memory_limit_per_pod = "1Ki";
  max_replicas_per_app = 3;
  max_total_deployments = 2;
  max_total_pods = 4;
  max_total_cpu_requests = "2";
  max_total_memory_requests = "";
}

abbrev spec : RemoteAppSpec
spec = record {
  image = "nginx:2";
  replicas = 2;
  resources = record { requests = ("cpu", "1") ∷ []; limits = ("memory", "1ki") ∷ [] };
}

abbrev running : List ExecutingApp
running = record { phase = "Running"; replicas = some 2; requests = ("cpu", "1") ∷ [] } ∷ []

admitted-Admissible_example : Admissible toy settings spec "beta" running
unfolding check_resource_quota first_of peer_permitted comma_list split strip lstrip rstrip is_space
    starts_with check_image_policy pod_limit total_limit parse_quantity try_suffixes cut_suffix
    lowers_to used_pods used_total lookup
admitted-Admissible_example = admitted-Admissible toy settings spec "beta" running refl

parse_quantity-reads_example : parse_quantity toy "1Ki" ≡ some 1024000
parse_quantity-reads_example =
    parse_quantity-reads toy "1Ki" 1024000 (inr ("1", "", kibi, 1000, refl, (refl, tt), refl, refl))
