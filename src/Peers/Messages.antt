-- ===== src/Peers/Messages.antt =====
-- The peer messages of porpulsion/channel_handlers.py, `_handle_crd_schema_announce` and the end of
-- `_connect` of porpulsion/channel.py, as far as the peers go.
use porpulsion.Prelude.{
  String, Bool, true, false, not, ◌&&◌, ◌||◌, Option, none, some, List, lookup, contains, insert,
  erase, ◌==◌, keep, any, if◌then◌else◌,
}
use porpulsion.Prelude.Text.{is_empty}
use porpulsion.Peers.{bidirectional, Peer, CrdDiff, PeerStore, save_peers, save_if}
use porpulsion.Peers.Hello.{is_outgoing}

-- a change of the peer of that name, if there is one, that is saved where it says so
abbrev pub at_peer : String → (Peer → Peer × Bool) → PeerStore → Option Peer → PeerStore
at_peer name f st none = st
at_peer name f st (some p) =
    let (p', changed) = f p in save_if changed (record st { peers = insert name p' st.peers })

abbrev pub confirm_direction : Peer → Peer × Bool
confirm_direction p =
    if is_outgoing p.direction then (record p { direction = bidirectional }, true) else (p, false)

unfoldable pub handle_peer_bidirectional : (name : String) → PeerStore → PeerStore
handle_peer_bidirectional name st =
    if is_empty name then st else at_peer name confirm_direction st (lookup name st.peers)

abbrev pub set_registry : String → Peer → Peer × Bool
set_registry url p =
    if p.registry_proxy_url == url
    then (p, false)
    else (record p { registry_proxy_url = url }, true)

abbrev pub set_api : String → Peer × Bool → Peer × Bool
set_api url (p, changed) =
    if not (is_empty url) && not (p.api_url == url)
    then (record p { api_url = url }, true)
    else (p, changed)

unfoldable pub handle_peer_info_update :
    (name registry_proxy_url api_url : String) → PeerStore → PeerStore
handle_peer_info_update name registry_proxy_url api_url st =
    if is_empty name
    then st
    else at_peer name (λ p. set_api api_url (set_registry registry_proxy_url p)) st
        (lookup name st.peers)

-- what `handle_peer_disconnect` does to the peers: any reason but a removal leaves them alone
unfoldable pub forget_disconnected : (name reason : String) → PeerStore → PeerStore
forget_disconnected name reason st =
    if is_empty name || not (contains name st.peers)
    then st
    else if reason == "removed"
    then save_peers (record st { peers = erase name st.peers })
    else st

-- the hello-ack of the accepting side names its registry proxy
unfoldable pub take_hello_ack : (name registry_proxy_url : String) → PeerStore → PeerStore
take_hello_ack name url st = at_peer name (set_registry url) st (lookup name st.peers)

-- the names in `xs` that are not in `ys`, but for the internal one
abbrev minus : List String → List String → List String
minus xs ys = keep (λ x. not (x == "targetPeer") && not (any (λ y. y == x) ys)) xs

-- `compare_spec_schemas` of porpulsion/k8s/store.py; both lists are sorted and without repetition,
-- as the keys of the schema are here
unfoldable pub compare_spec_schemas : (local_keys remote_keys : List String) → CrdDiff
compare_spec_schemas local_keys remote_keys = record {
  missing_local = minus remote_keys local_keys;
  missing_remote = minus local_keys remote_keys;
}

-- the diff is kept in memory only
unfoldable pub handle_crd_schema_announce :
    (name : String) (local_keys : Option (List String)) (peer_keys : List String)
    → PeerStore
    → PeerStore
handle_crd_schema_announce name none peer_keys st = st
handle_crd_schema_announce name (some local_keys) peer_keys st =
    at_peer name (λ p. (record p { crd_diff = compare_spec_schemas local_keys peer_keys }, false))
      st (lookup name st.peers)
