-- ===== src/Peers/Tests.antt =====
-- Runs of the peers at concrete inputs.
use porpulsion.Prelude.{◌≡◌, refl, true, false, some, [], ◌∷◌, lookup, map}
use porpulsion.Prelude.Text.{is_empty}
use mathlib.Core.Option
use porpulsion.Tls.{Crypto, cert_fingerprint, verify_challenge}
use porpulsion.Peers.{outgoing, incoming, Peer, new_peer, PeerStore, snapshot}
use porpulsion.Peers.Hello.{Hello, accept_hello, check_pin}
use porpulsion.Peers.Connect.{Bundle, connect_peer}
use porpulsion.Peers.Steps.{step, run, hello, remove}
use porpulsion.Peers.Stored.{IsValid}
use porpulsion.Peers.Invariant.{run-IsValid}
use porpulsion.Peers.Persistence.{written, reborn, restore, restart_keeps_peers}
use porpulsion.Peers.Admission.{accepted_hello_is_authentic}
use porpulsion.Peers.Pins.{Survives, remote_steps_keep_pins}
use porpulsion.Peers.Removal.{Chan, World, remove_peer, handle_peer_disconnect}
use porpulsion.Peers.Farewell.{IsGone, removal-IsGone}
use porpulsion.Peers.Upgrades.{Outcome, connected_peer_deploys}

-- every certificate loads, its digest is its text behind a letter, every signature is good
abbrev toy : Crypto
toy = record {
  load_pem_x509_certificate = λ pem. some pem;
  sha256_hex = λ der. "f";
  verify_ecdsa = λ cert sig message. true;
}

abbrev beta : Peer
beta = new_peer "beta" "https://beta" "pem" "t0" outgoing

abbrev gamma : Peer
gamma = new_peer "gamma" "" "pem2" "t0" incoming

abbrev two_peers : PeerStore
two_peers =
    let peers = ("beta", beta) ∷ ("gamma", gamma) ∷ [] in
    record { peers = peers; saved = snapshot peers }

abbrev invite : Bundle
invite = record { agent_name = "delta"; url = "https://delta/"; ca_pem = "pem3" }

abbrev greeting : Hello
greeting = record {
  name = "beta";
  ca_pem = "pem";
  nonce = "n";
  challenge_sig = "s";
  self_url = "https://beta";
  registry_proxy_url = "https://beta/proxy";
}

two_peers-IsValid : IsValid two_peers
unfolding lookup
two_peers-IsValid = record {
  saved = refl;
  named = (refl, (refl, tt));
  distinct = (refl, (refl, tt));
}

run-IsValid_example : IsValid (run toy (hello "t1" greeting ∷ remove "gamma" ∷ []) two_peers)
run-IsValid_example =
    run-IsValid toy (hello "t1" greeting ∷ remove "gamma" ∷ []) two_peers two_peers-IsValid

restart_keeps_peers_example :
    lookup "gamma" (restore "t2" (map written two_peers.saved) [])
    ≡ Option.map (reborn "t2") (lookup "gamma" two_peers.peers)
restart_keeps_peers_example = restart_keeps_peers "t2" two_peers "gamma" two_peers-IsValid

accepted_hello_is_authentic_example :
    (verify_challenge toy "n" "s" "pem" ≡ true)
    × ((p : Peer)
        → lookup "beta" two_peers.peers ≡ some p
        → is_empty p.ca_pem ≡ false
        → cert_fingerprint toy p.ca_pem ≡ cert_fingerprint toy "pem")
unfolding accept_hello lookup verify_challenge check_pin cert_fingerprint
accepted_hello_is_authentic_example =
    accepted_hello_is_authentic toy (λ der. refl) "t1" greeting two_peers refl

remote_steps_keep_pins_example : Survives "beta" beta (step toy (hello "t1" greeting) two_peers)
unfolding lookup
remote_steps_keep_pins_example =
    remote_steps_keep_pins toy (hello "t1" greeting) two_peers "beta" beta tt refl

connected_peer_deploys_example :
    let (end, st) = connect_peer toy "t1" "bundle" (some invite) false two_peers in
    Outcome "pem3" two_peers.peers end st.peers
connected_peer_deploys_example =
    connected_peer_deploys toy "t1" "bundle" invite false two_peers two_peers-IsValid

abbrev live : Chan
live = record { running = true; has_socket = true; connected = true }

abbrev busy : World
busy = record {
  store = two_peers;
  submitted = ("web", record { app_id = "7f"; target_peer = "beta"; phase = "Ready" }) ∷ [];
  executing = ("ea-8a-shop", "beta") ∷ ("ea-9b-db", "gamma") ∷ [];
  channels = ("beta", live) ∷ [];
  orphans = [];
  saved_pending = "7f" ∷ [];
  notices = [];
}

removal-IsGone_example :
    IsGone "beta" (remove_peer true "beta" busy).1
    × IsGone "beta" (handle_peer_disconnect true "beta" "removed" busy)
unfolding lookup
removal-IsGone_example = removal-IsGone "beta" busy refl refl
