-- ===== src/Peers/Steps.antt =====
-- Everything that changes the peers, as one step each.
use porpulsion.Prelude.{String, Bool, Option, List, [], ◌∷◌}
use porpulsion.Tls.{Crypto}
use porpulsion.Peers.{PeerStore}
use porpulsion.Peers.Hello.{Hello, accept_hello}
use porpulsion.Peers.Connect.{Bundle, connect_peer, forget_peer}
use porpulsion.Peers.Messages.{
  handle_peer_bidirectional, handle_peer_info_update, forget_disconnected, take_hello_ack,
  handle_crd_schema_announce,
}

pub data PeerStep : Type 0 where
  hello : (now : String) → Hello → PeerStep
  connect : (now bundle : String) → Option Bundle → Bool → PeerStep
  remove : String → PeerStep
  bidirectional_seen : String → PeerStep
  info_update : (name registry_proxy_url api_url : String) → PeerStep
  disconnected : (name reason : String) → PeerStep
  hello_ack : (name registry_proxy_url : String) → PeerStep
  crd_announced : String → Option (List String) → List String → PeerStep

module _ (crypto : Crypto) where
  unfoldable pub step : PeerStep → PeerStore → PeerStore
  step (hello now h) st = (accept_hello crypto now h st).1
  step (connect now bundle verified shut) st = (connect_peer crypto now bundle verified shut st).1
  step (remove name) st = (forget_peer name st).1
  step (bidirectional_seen name) st = handle_peer_bidirectional name st
  step (info_update name registry api) st = handle_peer_info_update name registry api st
  step (disconnected name reason) st = forget_disconnected name reason st
  step (hello_ack name registry) st = take_hello_ack name registry st
  step (crd_announced name ours theirs) st = handle_crd_schema_announce name ours theirs st

  unfoldable pub run : List PeerStep → PeerStore → PeerStore
  run [] st = st
  run (s ∷ ss) st = run ss (step s st)
