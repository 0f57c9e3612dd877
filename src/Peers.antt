-- ===== src/Peers.antt =====
-- The peers of an agent: `Peer` of porpulsion/models.py, the dict `peers` of porpulsion/state.py and
-- what tls.save_peers last wrote of it.
pub mod Hello
pub mod Connect
pub mod Messages
pub mod Steps
pub mod Stored
pub mod Invariant
pub mod Persistence
pub mod Admission
pub mod Pins
pub mod Upgrades
pub mod Removal
pub mod Farewell
mod Tests
use porpulsion.Prelude.{
  String, Bool, true, false, Option, none, some, List, [], ◌∷◌, Dict, map, insert, values,
}

pub data Direction : Type 0 where
  outgoing incoming bidirectional : Direction

-- the diff of the CRD schemas; two empty lists where nothing is known
pub record CrdDiff : Type 0 where
  pub missing_local : List String
  pub missing_remote : List String

pub record Peer : Type 0 where
  pub name : String
  pub url : String
  pub ca_pem : String
  pub connected_at : String
  pub direction : Direction
  pub crd_diff : CrdDiff
  pub registry_proxy_url : String
  pub api_url : String

abbrev pub no_diff : CrdDiff
no_diff = record { missing_local = []; missing_remote = [] }

-- the constructor with its defaults
abbrev pub new_peer : (name url ca_pem now : String) → Direction → Peer
new_peer name url ca_pem now direction = record {
  name = name;
  url = url;
  ca_pem = ca_pem;
  connected_at = now;
  direction = direction;
  crd_diff = no_diff;
  registry_proxy_url = "";
  api_url = "";
}

abbrev deploys : Direction → Bool
deploys outgoing = true
deploys incoming = false
deploys bidirectional = true

-- workloads may be submitted to the peer
unfoldable pub can_deploy : Peer → Bool
can_deploy p = deploys p.direction

-- what `save_peers` writes of a peer
pub record Saved : Type 0 where
  pub name : String
  pub url : String
  pub ca_pem : String
  pub direction : Direction

abbrev pub saved_of : Peer → Saved
saved_of p = record { name = p.name; url = p.url; ca_pem = p.ca_pem; direction = p.direction }

unfoldable pub snapshot : Dict Peer → List Saved
snapshot peers = map (λ e. saved_of e.1) peers

-- the peers in memory, and the list that the Secret holds once the last write is done
pub record PeerStore : Type 0 where
  pub peers : Dict Peer
  pub saved : List Saved

unfoldable pub save_peers : PeerStore → PeerStore
unfolding snapshot
save_peers st = record st { saved = snapshot st.peers }

-- `if changed: save_peers(...)`
abbrev pub save_if : Bool → PeerStore → PeerStore
save_if true st = save_peers st
save_if false st = st
