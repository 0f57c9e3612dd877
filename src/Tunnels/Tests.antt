-- ===== src/Tunnels/Tests.antt =====
-- Requests through a tunnel at concrete inputs.
use porpulsion.Prelude.{
  ℕ, zero, suc, Bool, not, ◌≡◌, String, refl, true, Option, none, some, [], ◌∷◌, All, lookup, ◌==◌,
  if◌then◌else◌, arith,
}
use porpulsion.Prelude.Text.{text, split, strip}
use porpulsion.Tunnels.{through_cache}
use porpulsion.Tunnels.Hosts.{Digits}
use porpulsion.Tunnels.Cache.{answers, IsRecent, answers-Recent}
use porpulsion.Tunnels.Proxy.{
  Request, TunnelSettings, Upstream, is_hop, allowed_tokens, denied, upstream, handle_proxy_request,
}
use porpulsion.Tunnels.Access.{IsLetIn, tunnel-IsLetIn}

abbrev digits : Digits
digits = record { number = λ s. if s == "8080" then some 8080 else none }

-- an app that moves to another host after a second
abbrev hosts : ℕ → String → Option String
hosts zero key = some "old"
hosts (suc n) key = some "new"

answers-Recent_example :
    All (IsRecent hosts 30000) (answers hosts 30000 ((0, "a1") ∷ (1000, "a1") ∷ []) [])
answers-Recent_example = answers-Recent hosts 30000 ((0, "a1") ∷ (1000, "a1") ∷ []) (omega arith)

abbrev only_beta : TunnelSettings
only_beta = record { allow_inbound_tunnels = true; allowed_tunnel_peers = "gamma, beta" }

abbrev get : Request
get = record {
  method = "GET";
  path = "//index";
  headers = ("accept", "*/*") ∷ ("connection", "close") ∷ [];
  body = "";
}

abbrev reached : Upstream
reached = upstream (λ s. s) "web.porpulsion.svc.cluster.local" 8080 get

tunnel-IsLetIn_example :
    IsLetIn only_beta "beta"
    × (◌≡◌ {A = Bool} true true)
    × All (λ h. not (is_hop (λ s. s) h.0) ≡ true) reached.request.headers
unfolding handle_proxy_request lookup through_cache denied allowed_tokens split strip text
tunnel-IsLetIn_example =
    tunnel-IsLetIn (λ s. s) only_beta "alpha" "porpulsion" 0 "beta" "a1" 8080 true ("web" ∷ []) get
      [] _ reached refl
