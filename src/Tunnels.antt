-- ===== src/Tunnels.antt =====
-- HTTP tunnels to the apps that peers run: porpulsion/routes/tunnels.py on the submitting side,
-- `handle_proxy_request` of porpulsion/channel_handlers.py and porpulsion/k8s/tunnel.py on the executing
-- side. Times are whole milliseconds; HTTP itself is outside.
pub mod Hosts
pub mod Cache
pub mod Proxy
pub mod Access
mod Tests
use porpulsion.Prelude.{
  ℕ, ◌+◌, String, Bool, true, false, Option, none, some, List, [], ◌∷◌, Dict, lookup, insert, ltb,
  if◌then◌else◌,
}

-- an entry of `_vhost_cache` or `_svc_host_cache`
pub record Cached (V : Type 0) : Type 0 where
  pub value : V
  pub expiry : ℕ

module _ {V : Type 0} where
  -- `if entry and entry.expiry > now: return entry.value`, else what is fetched, which is kept
  abbrev pub fetched :
      (now ttl : ℕ) (key : String) → Option V → Dict (Cached V) → Option V × Dict (Cached V)
  fetched now ttl key none cache = (none, cache)
  fetched now ttl key (some v) cache =
      (some v, insert key (record { value = v; expiry = now + ttl }) cache)

  abbrev pub fresh_or :
      (now ttl : ℕ) (key : String)
      → Option (Cached V)
      → (fetch : Option V) → Dict (Cached V)
      → Option V × Dict (Cached V)
  fresh_or now ttl key none fetch cache = fetched now ttl key fetch cache
  fresh_or now ttl key (some e) fetch cache =
      if ltb now e.expiry then (some e.value, cache) else fetched now ttl key fetch cache

  unfoldable pub through_cache :
      (now ttl : ℕ) (key : String) (fetch : Option V) → Dict (Cached V) → Option V × Dict (Cached V)
  through_cache now ttl key fetch cache = fresh_or now ttl key (lookup key cache) fetch cache
