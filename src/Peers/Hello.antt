-- ===== src/Peers/Hello.antt =====
-- The peer/hello frame on the accepting side: `attach_inbound` of porpulsion/channel.py, lines 303 to
-- 361. The frame has been received and parsed; an absent field is the empty text.
use porpulsion.Prelude.{
  String, Bool, true, false, not, ◌&&◌, ◌||◌, Option, none, some, lookup, insert, ◌==◌,
  if◌then◌else◌,
}
use porpulsion.Prelude.Text.{is_empty}
use porpulsion.Tls.{Crypto, cert_fingerprint, verify_challenge}
use porpulsion.Peers.{
  Direction, outgoing, incoming, bidirectional, Peer, new_peer, PeerStore, save_peers, save_if,
}

pub record Hello : Type 0 where
  pub name : String
  pub ca_pem : String
  pub nonce : String
  pub challenge_sig : String
  pub self_url : String
  pub registry_proxy_url : String

-- how the exchange ends; `raised` is an exception that leaves `attach_inbound`
pub data Verdict : Type 0 where
  accepted missing_fields bad_challenge ca_mismatch raised : Verdict

abbrev pub is_outgoing : Direction → Bool
is_outgoing outgoing = true
is_outgoing incoming = false
is_outgoing bidirectional = false

-- the updates of a known peer, each with whether it changed something
abbrev pub upgrade_direction : Peer → Peer × Bool
upgrade_direction p =
    if is_outgoing p.direction then (record p { direction = bidirectional }, true) else (p, false)

abbrev pub take_url : String → Peer × Bool → Peer × Bool
take_url url (p, changed) =
    if not (is_empty url) && is_empty p.url then (record p { url = url }, true) else (p, changed)

abbrev pub take_registry : String → Peer × Bool → Peer × Bool
take_registry url (p, changed) =
    if url == p.registry_proxy_url
    then (p, changed)
    else (record p { registry_proxy_url = url }, true)

unfoldable pub update_known : Hello → Peer → Peer × Bool
update_known h p = take_registry h.registry_proxy_url (take_url h.self_url (upgrade_direction p))

-- the stored pin against the presented certificate: `none` raises
abbrev pub pin_holds : Option String → Option String → Option Bool
pin_holds none presented = none
pin_holds (some stored) none = none
pin_holds (some stored) (some presented) = some (is_empty stored || stored == presented)

module _ (crypto : Crypto) where
  -- without a stored certificate any is taken
  unfoldable pub check_pin : Peer → Hello → Option Bool
  check_pin p h =
      if is_empty p.ca_pem
      then pin_holds (some "") (cert_fingerprint crypto h.ca_pem)
      else pin_holds (cert_fingerprint crypto p.ca_pem) (cert_fingerprint crypto h.ca_pem)

  abbrev pub admit_known : Hello → Peer → Option Bool → PeerStore → Verdict × PeerStore
  admit_known h p none st = (raised, st)
  admit_known h p (some false) st = (ca_mismatch, st)
  admit_known h p (some true) st =
      let (p', changed) = update_known h p in
      (accepted, save_if changed (record st { peers = insert h.name p' st.peers }))

  abbrev register : (now : String) → Hello → PeerStore → PeerStore
  register now h st =
      let p = record (new_peer h.name h.self_url h.ca_pem now incoming) {
        registry_proxy_url = h.registry_proxy_url;
      } in
      save_peers (record st { peers = insert h.name p st.peers })

  abbrev pub admit : (now : String) → Hello → Option Peer → PeerStore → Verdict × PeerStore
  admit now h (some p) st = admit_known h p (check_pin p h) st
  admit now h none st = (accepted, register now h st)

  unfoldable pub accept_hello : (now : String) → Hello → PeerStore → Verdict × PeerStore
  accept_hello now h st =
      if is_empty h.name || is_empty h.ca_pem || is_empty h.nonce || is_empty h.challenge_sig
      then (missing_fields, st)
      else if verify_challenge crypto h.nonce h.challenge_sig h.ca_pem
      then admit now h (lookup h.name st.peers) st
      else (bad_challenge, st)
