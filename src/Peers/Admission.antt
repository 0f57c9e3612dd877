-- ===== src/Peers/Admission.antt =====
-- Who is let in by a hello.
use porpulsion.Prelude.{
  String, Bool, true, false, ◌||◌, ◌≡◌, ◌≢◌, refl, sym, ap, Option, none, some, lookup, eq_iff,
  Bool-cases, or_default, inl, inr, arith,
}
use mathlib.Core.Option
use porpulsion.Prelude.Text.{is_empty}
use porpulsion.Tls.{Crypto, cert_fingerprint, verify_challenge}
use porpulsion.Peers.{Peer, PeerStore}
use porpulsion.Peers.Hello.{Hello, accepted, pin_holds, check_pin, admit, admit_known, accept_hello}

module _ (crypto : Crypto) where
  admit_known-refuses :
      (h : Hello) (p : Peer) (pin : Option Bool) (st : PeerStore)
      → (admit_known crypto h p pin st).0 ≢ accepted
      → (admit_known crypto h p pin st).1 ≡ st
  admit_known-refuses h p none st r = refl
  admit_known-refuses h p (some false) st r = refl
  admit_known-refuses h p (some true) st r = elim (r refl) [ ]

  admit-refuses :
      (now : String) (h : Hello) (o : Option Peer) (st : PeerStore)
      → (admit crypto now h o st).0 ≢ accepted
      → (admit crypto now h o st).1 ≡ st
  admit-refuses now h (some p) st r = admit_known-refuses h p (check_pin crypto p h) st r
  admit-refuses now h none st r = elim (r refl) [ ]

  -- A hello that is not accepted, for absent fields, a bad challenge, another certificate than the
  -- pinned one or an exception, leaves the peers and the Secret as they were.
  pub refused_hello_changes_nothing :
      (now : String) (h : Hello) (st : PeerStore)
      → (accept_hello crypto now h st).0 ≢ accepted
      → (accept_hello crypto now h st).1 ≡ st
  unfolding accept_hello
  refused_hello_changes_nothing now h st =
      elim (Bool-cases
        (is_empty h.name || is_empty h.ca_pem || is_empty h.nonce || is_empty h.challenge_sig)) [
          | inl absent ↦ rw absent (λ r. refl)
          | inr there ↦
              rw there
                (elim (Bool-cases (verify_challenge crypto h.nonce h.challenge_sig h.ca_pem)) [
                  | inl good ↦ rw good (admit-refuses now h (lookup h.name st.peers) st)
                  | inr bad ↦ rw bad (λ r. refl)
                ])
        ]

  pin_holds-same :
      (stored : Option String) (presented : Option String)
      → ((s : String) → stored ≡ some s → is_empty s ≡ false)
      → pin_holds stored presented ≡ some true
      → stored ≡ presented
  pin_holds-same none presented full h = cc
  pin_holds-same (some s) none full h = cc
  pin_holds-same (some s) (some t) full h = ground (arith, eq_iff s t, full s refl)

  digest-full :
      ((der : String) → is_empty (crypto.sha256_hex der) ≡ false)
      → (o : Option String) (s : String) → Option.map crypto.sha256_hex o ≡ some s
      → is_empty s ≡ false
  digest-full digest none s e = cc
  digest-full digest (some der) s e = rw (sym (ap (or_default s) e)) (digest der)

  fingerprint-full :
      ((der : String) → is_empty (crypto.sha256_hex der) ≡ false)
      → (pem s : String) → cert_fingerprint crypto pem ≡ some s
      → is_empty s ≡ false
  unfolding cert_fingerprint
  fingerprint-full digest pem = digest-full digest (crypto.load_pem_x509_certificate pem)

  pub admit_known-pin :
      (h : Hello) (p : Peer) (pin : Option Bool) (st : PeerStore)
      → (admit_known crypto h p pin st).0 ≡ accepted
      → pin ≡ some true
  admit_known-pin h p none st a = cc
  admit_known-pin h p (some false) st a = cc
  admit_known-pin h p (some true) st a = refl

  check_pin-same :
      ((der : String) → is_empty (crypto.sha256_hex der) ≡ false)
      → (p : Peer) (h : Hello) → is_empty p.ca_pem ≡ false
      → check_pin crypto p h ≡ some true
      → cert_fingerprint crypto p.ca_pem ≡ cert_fingerprint crypto h.ca_pem
  unfolding check_pin
  check_pin-same digest p h full = rw full (
      pin_holds-same (cert_fingerprint crypto p.ca_pem) (cert_fingerprint crypto h.ca_pem)
        (fingerprint-full digest p.ca_pem))

  admitted-pin :
      ((der : String) → is_empty (crypto.sha256_hex der) ≡ false)
      → (now : String) (h : Hello) (o : Option Peer) (st : PeerStore)
      → (admit crypto now h o st).0 ≡ accepted
      → (p : Peer) → o ≡ some p
      → is_empty p.ca_pem ≡ false
      → cert_fingerprint crypto p.ca_pem ≡ cert_fingerprint crypto h.ca_pem
  admitted-pin digest now h none st a p e = cc
  admitted-pin digest now h (some q) st a p e =
      rw (sym (ap (or_default q) e))
        (λ full. check_pin-same digest q h full (admit_known-pin h q (check_pin crypto q h) st a))

  -- An accepted hello has a valid signature over its nonce under the certificate it presents; and if a
  -- certificate is pinned for its name, then the two have the same fingerprint. SHA-256 digests are
  -- never the empty text.
  pub accepted_hello_is_authentic :
      ((der : String) → is_empty (crypto.sha256_hex der) ≡ false)
      → (now : String) (h : Hello) (st : PeerStore) → (accept_hello crypto now h st).0 ≡ accepted
      → (verify_challenge crypto h.nonce h.challenge_sig h.ca_pem ≡ true)
        × ((p : Peer)
            → lookup h.name st.peers ≡ some p
            → is_empty p.ca_pem ≡ false
            → cert_fingerprint crypto p.ca_pem ≡ cert_fingerprint crypto h.ca_pem)
  unfolding accept_hello
  accepted_hello_is_authentic digest now h st =
      elim (Bool-cases
        (is_empty h.name || is_empty h.ca_pem || is_empty h.nonce || is_empty h.challenge_sig)) [
          | inl absent ↦ rw absent (λ a. cc)
          | inr there ↦
              rw there
                (elim (Bool-cases (verify_challenge crypto h.nonce h.challenge_sig h.ca_pem)) [
                  | inl good ↦
                      rw good (λ a. (refl, admitted-pin digest now h (lookup h.name st.peers) st a))
                  | inr bad ↦ rw bad (λ a. cc)
                ])
        ]
