-- ===== src/Tunnels/Access.antt =====
-- Who gets through a tunnel, and what of a request: `handle_proxy_request` of
-- porpulsion/channel_handlers.py with `proxy_request` of porpulsion/k8s/tunnel.py.
use porpulsion.Prelude.{
  ℕ, String, Bool, true, false, not, ◌≡◌, ◌⊎◌, refl, sym, subst, Option, none, some, List, [], ◌∷◌,
  Dict, All, any, keep, ◌==◌, Bool-cases, inl, inr, not-eq_false,
}
use porpulsion.Prelude.Text.{is_empty, strip}
use porpulsion.Prelude.Exec.{ok}
use porpulsion.Tunnels.{Cached}
use porpulsion.Tunnels.Proxy.{
  Request, Upstream, TunnelSettings, is_hop, without_hops, allowed_tokens, denied, denied_by,
  upstream, with_host, handle_proxy_request,
}

keep-All {ℓ} : {A : Type ℓ} (p : A → Bool) (xs : List A) → All (λ x. p x ≡ true) (keep p xs)
keep-All p [] = tt
keep-All p (x ∷ xs) = elim (Bool-cases (p x)) [
  | inl kept ↦ rw kept (kept, keep-All p xs)
  | inr gone ↦ rw gone (keep-All p xs)
]

-- the settings let the peer in
abbrev pub IsLetIn : TunnelSettings → String → Type 0
IsLetIn settings peer =
    (settings.allow_inbound_tunnels ≡ true)
    × ((is_empty (strip settings.allowed_tunnel_peers) ≡ true)
        ⊎ (any (λ t. t == peer) (allowed_tokens (strip settings.allowed_tunnel_peers)) ≡ true))

abbrev LetIn : (allow : Bool) (raw peer : String) → Type 0
LetIn allow raw peer =
    (allow ≡ true) × ((is_empty raw ≡ true) ⊎ (any (λ t. t == peer) (allowed_tokens raw) ≡ true))

denied_by-LetIn :
    (allow : Bool) (raw peer : String) → denied_by allow raw peer ≡ false → LetIn allow raw peer
denied_by-LetIn false raw peer = λ h. cc
denied_by-LetIn true raw peer = elim (Bool-cases (is_empty raw)) [
  | inl empty ↦ λ h. (refl, inl empty)
  | inr given ↦ elim (Bool-cases (raw == "__none__")) [
    | inl nobody ↦ rw (given, nobody) (λ h. cc)
    | inr listed ↦ rw (given, listed) (λ h. (refl, inr (not-eq_false _ h)))
  ]
]

with_host-Upstream :
    (lower : String → String) (app_id : String) (port : ℕ) (r : Request)
    (x : Option String × Dict (Cached String)) (u : Upstream) (cache : Dict (Cached String))
    → with_host lower app_id port r x ≡ (ok u, cache)
    → (host : String) × (u ≡ upstream lower host port r)
with_host-Upstream lower app_id port r (none, c) u cache h = cc
with_host-Upstream lower app_id port r (some host, c) u cache h = (host, cc)

upstream-All :
    (lower : String → String) (app_id : String) (port : ℕ) (r : Request)
    (x : Option String × Dict (Cached String)) (u : Upstream) (cache : Dict (Cached String))
    → with_host lower app_id port r x ≡ (ok u, cache)
    → All (λ h. not (is_hop lower h.0) ≡ true) u.request.headers
unfolding without_hops
upstream-All lower app_id port r x u cache h =
    let (host, same) = with_host-Upstream lower app_id port r x u cache h in
    subst (λ (v : Upstream). All (λ h. not (is_hop lower h.0) ≡ true) v.request.headers) (sym same)
      (keep-All (λ h. not (is_hop lower h.0)) r.headers)

-- A request reaches the service of an app only from a peer that the settings let in, and only for an
-- app that runs here; none of its headers is hop-by-hop.
pub tunnel-IsLetIn :
    (lower : String → String) (settings : TunnelSettings) (agent namespace : String) (now : ℕ)
    (peer app_id : String) (port : ℕ) (known : Bool) (services : List String) (r : Request)
    (cache cache' : Dict (Cached String)) (u : Upstream)
    → handle_proxy_request lower settings agent namespace now peer app_id port known services r
        cache
      ≡ (ok u, cache')
    → IsLetIn settings peer
      × (known ≡ true)
      × All (λ h. not (is_hop lower h.0) ≡ true) u.request.headers
unfolding handle_proxy_request denied
tunnel-IsLetIn lower settings agent namespace now peer app_id port known services r cache cache' u =
    elim (Bool-cases (denied settings peer)) [
      | inl shut ↦ rw shut (λ h. cc)
      | inr let_in ↦ elim (Bool-cases known) [
        | inr gone ↦ rw (let_in, gone) (λ h. cc)
        | inl here ↦
            rw (let_in, here)
              (λ h. (
                denied_by-LetIn settings.allow_inbound_tunnels (strip settings.allowed_tunnel_peers)
                    peer let_in,
                refl,
                upstream-All lower app_id port r _ u cache' h,
              ))
      ]
    ]
