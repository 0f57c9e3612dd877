-- ===== src/Handshake.antt =====
-- The hello exchange from both sides: `_connect` and `attach_inbound` of porpulsion/channel.py, with
-- `_push_crd_schema` and `sign_challenge` of porpulsion/tls.py. The sockets are open already; a flag says
-- of each frame whether the socket takes it.
pub mod Trust
mod Tests
use porpulsion.Prelude.{
  ℕ, suc, ◌+◌, String, Bool, true, false, not, ◌&&◌, ◌||◌, Option, none, some, List, [], ◌∷◌, ◌==◌,
  Dict, lookup, if◌then◌else◌, or_default,
}
use porpulsion.Prelude.Text.{is_empty}
use porpulsion.Prelude.Json.{Json, str}
use porpulsion.Tls.{Crypto, verify_challenge}
use porpulsion.Channel.{Payload, PeerChannel, push}
use porpulsion.Peers.{Direction, bidirectional, Peer, PeerStore}
use porpulsion.Peers.Hello.{
  Hello, Verdict, accepted, missing_fields, bad_challenge, ca_mismatch, raised, accept_hello,
}
use porpulsion.Peers.Messages.{take_hello_ack}

-- what this agent says of itself
pub record Self : Type 0 where
  pub name : String
  pub ca_pem : String
  pub url : String
  pub api_url : String
  pub registry_proxy_url : String
  pub version : String
  pub schema : Option Payload

-- the peer/hello-ack frame; an absent certificate is `none`, any other absent field the empty text
pub record Ack : Type 0 where
  pub type : String
  pub ca_pem : Option String
  pub nonce : String
  pub challenge_sig : String
  pub registry_proxy_url : String

-- what the first `recv` gives
pub data First (A : Type 0) : Type 0 where
  unreceived empty malformed : First A
  frame : A → First A

pub data ConnectError : Type 0 where
  no_ack closed_by_peer malformed_ack unexpected_type missing_fields_in_ack
        ack_verification_failed :
      ConnectError

-- the frames that follow the exchange: whether the socket takes each
pub record Sends : Type 0 where
  pub version : Bool
  pub info : Bool
  pub confirm : Bool
  pub schema : Bool

abbrev push_schema : Bool → Option Payload → PeerChannel → PeerChannel
push_schema up none ch = ch
push_schema up (some p) ch = (push up "crd/schema-announce" p ch).1

abbrev version_payload : Self → Payload
version_payload self = ("version", str self.version) ∷ []

abbrev info_payload : Self → Payload
info_payload self =
    ("name", str self.name)
    ∷ ("registry_proxy_url", str self.registry_proxy_url)
    ∷ ("api_url", str self.api_url)
    ∷ []

-- a failed push is passed over
abbrev announce : Self → Sends → PeerChannel → PeerChannel
announce self sends ch =
    (push sends.info "peer/info-update" (info_payload self)
      (push sends.version "version/announce" (version_payload self) ch).1).1

abbrev next_ping : PeerChannel → PeerChannel
next_ping ch = record ch { ping_gen = suc ch.ping_gen }

abbrev pub to_bool : Direction → Bool
to_bool bidirectional = true
to_bool _ = false

module _ (crypto : Crypto) where
  -- the checks of `_connect` on the acknowledgement; `pinned` is the certificate of the channel
  unfoldable pub check_ack : (pinned : String) → Ack → Option ConnectError
  check_ack pinned ack =
      let ca_pem = or_default pinned ack.ca_pem in
      if not (ack.type == "peer/hello-ack")
      then some unexpected_type
      else if is_empty ack.nonce || is_empty ack.challenge_sig || is_empty ca_pem
      then some missing_fields_in_ack
      else if verify_challenge crypto ack.nonce ack.challenge_sig ca_pem
      then none
      else some ack_verification_failed

  abbrev pub joined :
      Self → Sends → (socket : ℕ) → Ack → PeerChannel × PeerStore → PeerChannel × PeerStore
  joined self sends socket ack (ch, st) =
      let live = record ch { ws = some socket; connected = true } in
      (
        next_ping (push_schema sends.schema self.schema (announce self sends live)),
        take_hello_ack ch.peer_name ack.registry_proxy_url st,
      )

  abbrev pub judged :
      Self
      → Sends
      → (socket : ℕ) → Ack
      → Option ConnectError
      → PeerChannel × PeerStore
      → Option ConnectError × (PeerChannel × PeerStore)
  judged self sends socket ack (some e) s = (some e, s)
  judged self sends socket ack none s = (none, joined self sends socket ack s)

  -- `_connect` after its hello was sent; an error closes the socket and raises
  unfoldable pub connect :
      Self
      → Sends
      → (socket : ℕ) → First Ack
      → PeerChannel × PeerStore
      → Option ConnectError × (PeerChannel × PeerStore)
  connect self sends socket unreceived s = (some no_ack, s)
  connect self sends socket empty s = (some closed_by_peer, s)
  connect self sends socket malformed s = (some malformed_ack, s)
  connect self sends socket (frame ack) s =
      judged self sends socket ack (check_ack s.0.ca_pem ack) s

  -- `peer/bidirectional` goes out where the pair is complete and the peer's address is known
  abbrev confirm : Self → Bool → Option Peer → PeerChannel → PeerChannel
  confirm self up none ch = ch
  confirm self up (some p) ch =
      if not (is_empty ch.peer_remote_addr) && to_bool p.direction
      then (push up "peer/bidirectional"
          (("name", str self.name) ∷ ("remote_addr", str ch.peer_remote_addr) ∷ []) ch).1
      else ch

  abbrev pub attached :
      Self
      → Sends
      → (acked : Bool) → (socket : ℕ) → Hello
      → Verdict × PeerStore
      → PeerChannel
      → Bool × (PeerChannel × PeerStore)
  attached self sends acked socket h (accepted, st) ch =
      let known = record ch { peer_name = h.name; ca_pem = h.ca_pem } in
      let live = record known { ws = some socket; connected = true } in
      if not acked then (false, (known, st)) else (
        true,
        (
          next_ping (
              push_schema sends.schema self.schema
                (confirm self sends.confirm (lookup h.name st.peers) (announce self sends live))),
          st,
        ),
      )
  attached self sends acked socket h (missing_fields, st) ch = (false, (ch, st))
  attached self sends acked socket h (bad_challenge, st) ch = (false, (ch, st))
  attached self sends acked socket h (ca_mismatch, st) ch = (false, (ch, st))
  attached self sends acked socket h (raised, st) ch = (false, (ch, st))

  -- `attach_inbound` up to its receive loop; `typed` is whether the first frame is a peer/hello, `acked`
  -- whether the hello-ack goes out
  unfoldable pub attach_inbound :
      Self
      → Sends
      → (typed acked : Bool) → (now : String) → (socket : ℕ) → First Hello
      → PeerChannel × PeerStore
      → Bool × (PeerChannel × PeerStore)
  attach_inbound self sends typed acked now socket unreceived s = (false, s)
  attach_inbound self sends typed acked now socket empty s = (false, s)
  attach_inbound self sends typed acked now socket malformed s = (false, s)
  attach_inbound self sends typed acked now socket (frame h) (ch, st) =
      if typed
      then attached self sends acked socket h (accept_hello crypto now h st) ch
      else (false, (ch, st))
