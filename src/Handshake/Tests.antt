-- ===== src/Handshake/Tests.antt =====
-- Runs of the hello exchange at concrete inputs.
use porpulsion.Prelude.{true, none, some, []}
use porpulsion.Tls.{Crypto}
use porpulsion.Channel.{new_channel}
use porpulsion.Peers.{PeerStore}
use porpulsion.Peers.Hello.{Hello}
use porpulsion.Handshake.{Self, Sends, Ack, frame, connect}
use porpulsion.Handshake.Trust.{Trusted, connect-Trusted}

abbrev toy : Crypto
toy = record {
  load_pem_x509_certificate = λ pem. some pem;
  sha256_hex = λ der. der;
  verify_ecdsa = λ cert sig message. true;
}

abbrev alpha : Self
alpha = record {
  name = "alpha";
  ca_pem = "pem";
  url = "https://alpha";
  api_url = "https://api.alpha";
  registry_proxy_url = "";
  version = "v1";
  schema = none;
}

abbrev all_taken : Sends
all_taken = record { version = true; info = true; confirm = true; schema = true }

abbrev ack : Ack
ack = record {
  type = "peer/hello-ack";
  ca_pem = some "another";
  nonce = "n";
  challenge_sig = "s";
  registry_proxy_url = "";
}

abbrev nobody : PeerStore
nobody = record { peers = []; saved = [] }

abbrev greeting : Hello
greeting = record {
  name = "beta";
  ca_pem = "pem";
  nonce = "n";
  challenge_sig = "s";
  self_url = "";
  registry_proxy_url = "";
}

connect-Trusted_example :
    Trusted toy ack
      (new_channel "beta" "https://beta" "pinned", nobody)
      (connect toy alpha all_taken 1
        (frame ack)
        (new_channel "beta" "https://beta" "pinned", nobody))
connect-Trusted_example =
    connect-Trusted toy alpha all_taken 1 ack (new_channel "beta" "https://beta" "pinned", nobody)
