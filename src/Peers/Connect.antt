-- ===== src/Peers/Connect.antt =====
-- `connect_peer` of porpulsion/routes/peers.py, as far as the peers go, and what `remove_peer` does
-- to them.
use porpulsion.Prelude.{
  String, Bool, true, false, not, ◌&&◌, ◌||◌, Option, none, some, [], ◌∷◌, Dict, contains, insert,
  erase, ◌==◌, if◌then◌else◌,
}
use porpulsion.Prelude.Text.{is_empty, is_char, rstrip}
use porpulsion.Tls.{Crypto, cert_fingerprint}
use porpulsion.Peers.{
  Direction, outgoing, incoming, bidirectional, Peer, new_peer, PeerStore, save_peers,
}

-- a verified invite bundle
pub record Bundle : Type 0 where
  pub agent_name : String
  pub url : String
  pub ca_pem : String

-- the reply: a channel is being opened to a new peer or to a known one, or an error
pub data ConnectEnd : Type 0 where
  opened upgraded already_peered : String → ConnectEnd
  bundle_required invalid_bundle unreachable : ConnectEnd

-- `url.rstrip("/")`
abbrev pub without_slashes : String → String
without_slashes = rstrip (λ c. is_char c "/")

abbrev same_print : Option String → Option String → Bool
same_print (some a) (some b) = a == b
same_print (some a) none = false
same_print none b = false

abbrev pub push_entry :
    String × Peer → Option (ConnectEnd × Dict Peer) → Option (ConnectEnd × Dict Peer)
push_entry e none = none
push_entry e (some (end, d)) = some (end, e ∷ d)

-- what becomes of the first match
abbrev pub meet : (url ca_pem : String) → Peer → Direction → ConnectEnd × Peer
meet url ca_pem p bidirectional = (already_peered p.name, p)
meet url ca_pem p outgoing = (already_peered p.name, p)
meet url ca_pem p incoming =
    (upgraded p.name, record p { direction = bidirectional; url = url; ca_pem = ca_pem })

abbrev pub settle :
    (now : String) → Bundle → Option (ConnectEnd × Dict Peer) → PeerStore → ConnectEnd × PeerStore
settle now b none st =
    let url = without_slashes b.url in
    let p = new_peer b.agent_name url b.ca_pem now outgoing in
    (opened b.agent_name, save_peers (record st { peers = insert b.agent_name p st.peers }))
settle now b (some (upgraded n, d)) st = (upgraded n, save_peers (record st { peers = d }))
settle now b (some (end, d)) st = (end, st)

module _ (crypto : Crypto) where
  -- `url_match or ca_match or existing.name == peer_name`
  unfoldable pub matches : (name url ca_pem : String) → Peer → Bool
  matches name url ca_pem p =
      without_slashes p.url == url
      || (not (is_empty p.ca_pem)
          && same_print (cert_fingerprint crypto p.ca_pem) (cert_fingerprint crypto ca_pem))
      || p.name == name

  -- the loop over the peers; `none`: nothing matches
  unfoldable pub meet_existing :
      (name url ca_pem : String) → Dict Peer → Option (ConnectEnd × Dict Peer)
  meet_existing name url ca_pem [] = none
  meet_existing name url ca_pem ((k, p) ∷ peers) =
      let rest = push_entry (k, p) (meet_existing name url ca_pem peers) in
      let (end, p') = meet url ca_pem p p.direction in
      if matches name url ca_pem p then some (end, (k, p') ∷ peers) else rest

  abbrev pub connect_verified :
      (now : String) → Bool → Option Bundle → PeerStore → ConnectEnd × PeerStore
  connect_verified now shut none st = (invalid_bundle, st)
  connect_verified now shut (some b) st =
      if shut
      then (unreachable, st)
      else settle now b (meet_existing b.agent_name (without_slashes b.url) b.ca_pem st.peers) st

  -- `bundle` is the stripped text, `verified` what `verify_bundle` makes of it, and `shut` whether its
  -- address is private and takes no connection
  unfoldable pub connect_peer :
      (now bundle : String) (verified : Option Bundle) (shut : Bool)
      → PeerStore
      → ConnectEnd × PeerStore
  connect_peer now bundle verified shut st =
      if is_empty bundle then (bundle_required, st) else connect_verified now shut verified st

-- what `remove_peer` does to the peers: a 404, or the peer is gone from memory and from the Secret
unfoldable pub forget_peer : String → PeerStore → Bool × PeerStore
forget_peer name st =
    if contains name st.peers
    then (true, save_peers (record st { peers = erase name st.peers }))
    else (false, st)
