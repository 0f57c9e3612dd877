-- ===== src/Handshake/Trust.antt =====
-- What the hello exchange proves of the other side, and what it does not.
use porpulsion.Prelude.{
  ℕ, String, Bool, true, false, ◌||◌, ◌≡◌, ◌≢◌, ◌⊎◌, refl, Option, none, some, eq_refl, lookup,
  or_default, Bool-cases, inl, inr, arith, lookup-insert_self,
}
use mathlib.Core.Option
use porpulsion.Prelude.Text.{is_empty}
use porpulsion.Tls.{Crypto, verify_with, cert_fingerprint, verify_challenge}
use porpulsion.Channel.{PeerChannel}
use porpulsion.Peers.{Peer, PeerStore, save_peers}
use porpulsion.Peers.Hello.{
  Hello, accepted, update_known, check_pin, pin_holds, admit, admit_known, accept_hello,
}
use porpulsion.Peers.Pins.{save_if-peers, update_known-Outlives}
use porpulsion.Handshake.{Self, Sends, Ack, frame, ConnectError, check_ack, judged, connect}

module _ (crypto : Crypto) where
  check_ack-verified :
      (pinned : String) (ack : Ack)
      → check_ack crypto pinned ack ≡ none
      → verify_challenge crypto ack.nonce ack.challenge_sig (or_default pinned ack.ca_pem) ≡ true
  unfolding check_ack
  check_ack-verified pinned ack h = ground arith

  abbrev pub Trusted :
      Ack → PeerChannel × PeerStore → Option ConnectError × (PeerChannel × PeerStore) → Type 0
  Trusted ack before (error, after) =
      ((error ≡ none)
        × (verify_challenge crypto ack.nonce ack.challenge_sig
              (or_default before.0.ca_pem ack.ca_pem)
            ≡ true))
      ⊎ ((error ≢ none) × (after ≡ before))

  judged-Trusted :
      (self : Self) (sends : Sends) (socket : ℕ) (ack : Ack) (r : Option ConnectError)
      (s : PeerChannel × PeerStore)
      → check_ack crypto s.0.ca_pem ack ≡ r
      → Trusted ack s (judged crypto self sends socket ack r s)
  judged-Trusted self sends socket ack none s e = inl (refl, check_ack-verified s.0.ca_pem ack e)
  judged-Trusted self sends socket ack (some error) s e = inr ((λ h. cc), refl)

  -- Connecting succeeds only on an acknowledgement whose nonce is signed with the key of the certificate
  -- that it presents or, where it presents none, of the pinned one; and where it fails, the channel and
  -- the peers are as before.
  pub connect-Trusted :
      (self : Self) (sends : Sends) (socket : ℕ) (ack : Ack) (s : PeerChannel × PeerStore)
      → Trusted ack s (connect crypto self sends socket (frame ack) s)
  unfolding connect
  connect-Trusted self sends socket ack s =
      judged-Trusted self sends socket ack (check_ack crypto s.0.ca_pem ack) s refl

  -- An acknowledgement that presents a certificate is judged by that one alone: whatever is pinned for the
  -- peer, the verdict is the same, so that any certificate with a signature of its own is taken.
  pub ack_ignores_pin :
      (pinned other pem : String) (ack : Ack)
      → ack.ca_pem ≡ some pem
      → check_ack crypto pinned ack ≡ check_ack crypto other ack
  unfolding check_ack
  ack_ignores_pin pinned other pem ack presents = rw presents refl

  pin_of_own : (o : Option String) (f : String) → o ≡ some f → pin_holds o o ≡ some true
  pin_of_own none f e = cc
  pin_of_own (some g) f e = rw eq_refl (ground arith)

  fingerprint-loaded :
      (nonce sig pem : String)
      → verify_challenge crypto nonce sig pem ≡ true
      → (f : String) × (cert_fingerprint crypto pem ≡ some f)
  unfolding verify_challenge cert_fingerprint
  fingerprint-loaded nonce sig pem = loaded (crypto.load_pem_x509_certificate pem)
    where
      loaded :
          (o : Option String)
          → verify_with crypto nonce sig o ≡ true
          → (f : String) × (Option.map crypto.sha256_hex o ≡ some f)
      loaded none v = cc
      loaded (some cert) v = (crypto.sha256_hex cert, refl)

  -- what a hello leaves of its peer, so that it passes again
  abbrev Repeats : Hello → PeerStore → Type 0
  Repeats h st = (p : Peer) × (lookup h.name st.peers ≡ some p) × (check_pin crypto p h ≡ some true)

  known-Repeats :
      (h : Hello) (p : Peer) (pin : Option Bool) (st : PeerStore)
      → check_pin crypto p h ≡ pin
      → (admit_known crypto h p pin st).0 ≡ accepted
      → Repeats h (admit_known crypto h p pin st).1
  unfolding check_pin
  known-Repeats h p none st e a = cc
  known-Repeats h p (some false) st e a = cc
  known-Repeats h p (some true) st e a = (
    (update_known h p).0,
    rw (save_if-peers, lookup-insert_self) refl,
    rw ((update_known-Outlives h p).0) e,
  )

  new-Repeats :
      (now : String) (h : Hello) (st : PeerStore)
      → is_empty h.ca_pem ≡ false
      → verify_challenge crypto h.nonce h.challenge_sig h.ca_pem ≡ true
      → Repeats h (admit crypto now h none st).1
  unfolding save_peers check_pin
  new-Repeats now h st full v =
      let (f, e) = fingerprint-loaded h.nonce h.challenge_sig h.ca_pem v in
      (
        _,
        lookup-insert_self h.name _ st.peers,
        rw full (pin_of_own (cert_fingerprint crypto h.ca_pem) f e),
      )

  admit-Repeats :
      (now : String) (h : Hello) (o : Option Peer) (st : PeerStore)
      → is_empty h.ca_pem ≡ false
      → verify_challenge crypto h.nonce h.challenge_sig h.ca_pem ≡ true
      → (admit crypto now h o st).0 ≡ accepted
      → Repeats h (admit crypto now h o st).1
  admit-Repeats now h none st full v a = new-Repeats now h st full v
  admit-Repeats now h (some p) st full v a = known-Repeats h p (check_pin crypto p h) st refl a

  admit-again :
      (later : String) (h : Hello) (st : PeerStore)
      → Repeats h st
      → (admit crypto later h (lookup h.name st.peers) st).0 ≡ accepted
  admit-again later h st (p, known, pin) = rw (known, pin) refl

  -- A hello that was accepted is accepted again, at any later time and from whoever sends it: nothing in
  -- it is new to the exchange.
  pub accepted_hello_replays :
      (now later : String) (h : Hello) (st : PeerStore)
      → (accept_hello crypto now h st).0 ≡ accepted
      → (accept_hello crypto later h (accept_hello crypto now h st).1).0 ≡ accepted
  unfolding accept_hello
  accepted_hello_replays now later h st =
      elim (Bool-cases
        (is_empty h.name || is_empty h.ca_pem || is_empty h.nonce || is_empty h.challenge_sig)) [
          | inl absent ↦ rw absent (λ a. cc)
          | inr there ↦
              rw there
                (elim (Bool-cases (verify_challenge crypto h.nonce h.challenge_sig h.ca_pem)) [
                  | inl good ↦ rw good (λ a.
                      admit-again later h (admit crypto now h (lookup h.name st.peers) st).1
                        (admit-Repeats now h (lookup h.name st.peers) st (presented there) good a))
                  | inr bad ↦ rw bad (λ a. cc)
                ])
        ]
    where
      presented :
          (is_empty h.name || is_empty h.ca_pem || is_empty h.nonce || is_empty h.challenge_sig)
            ≡ false
          → is_empty h.ca_pem ≡ false
      presented there = ground arith
