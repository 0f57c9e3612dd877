-- ===== src/Peers/Pins.antt =====
-- What the messages of a remote agent can change of the peers.
use porpulsion.Prelude.{
  String, Bool, true, false, not, ◌&&◌, ◌||◌, ◌≡◌, ◌≢◌, refl, sym, ap, ◌∙◌, Option, none, some,
  lookup, contains, ◌==◌, eq_iff, Bool-cases, or_default, Option-cases, inl, inr, lookup-insert,
}
use porpulsion.Prelude.Text.{is_empty}
use porpulsion.Tls.{Crypto, verify_challenge}
use porpulsion.Peers.{Peer, can_deploy, PeerStore, save_peers, save_if}
use porpulsion.Peers.Hello.{
  is_outgoing, take_url, take_registry, Hello, check_pin, admit, admit_known, accept_hello,
  update_known,
}
use porpulsion.Peers.Messages.{
  at_peer, confirm_direction, set_registry, set_api, handle_peer_bidirectional,
  handle_peer_info_update, forget_disconnected, take_hello_ack, handle_crd_schema_announce,
  compare_spec_schemas,
}
use porpulsion.Peers.Steps.{
  PeerStep, hello, connect, remove, bidirectional_seen, info_update, disconnected, hello_ack,
  crd_announced, step,
}

-- the steps that a remote agent causes, a removal aside
abbrev pub IsRemote : PeerStep → Type 0
IsRemote (hello now h) = Unit
IsRemote (connect now bundle verified shut) = ⊥
IsRemote (remove name) = ⊥
IsRemote (bidirectional_seen name) = Unit
IsRemote (info_update name registry api) = Unit
IsRemote (disconnected name reason) = reason ≢ "removed"
IsRemote (hello_ack name registry) = Unit
IsRemote (crd_announced name ours theirs) = Unit

-- the same pinned certificate, and no right to deploy lost
abbrev pub Outlives : Peer → Peer → Type 0
Outlives p q = (q.ca_pem ≡ p.ca_pem) × (can_deploy p ≡ true → can_deploy q ≡ true)

abbrev pub Survives : String → Peer → PeerStore → Type 0
Survives k p st = (q : Peer) × (lookup k st.peers ≡ some q) × Outlives p q

pub save_if-peers : (b : Bool) (st : PeerStore) → (save_if b st).peers ≡ st.peers
unfolding save_peers
save_if-peers true st = refl
save_if-peers false st = refl

at_peer-Survives :
    (n : String) (f : Peer → Peer × Bool) (st : PeerStore) (k : String) (p : Peer) (o : Option Peer)
    → ((q : Peer) → Outlives q (f q).0)
    → lookup n st.peers ≡ o
    → lookup k st.peers ≡ some p
    → Survives k p (at_peer n f st o)
at_peer-Survives n f st k p none out e h = (p, h, (refl, λ d. d))
at_peer-Survives n f st k p (some q) out e h =
    rw (save_if-peers, lookup-insert)
      (elim (Bool-cases (n == k)) [
        | inl same ↦ rw same (
          (f q).0,
          refl,
          rw
              (sym (
                ap (or_default q)
                  (sym e ∙ (ap (λ i. lookup i st.peers) ((eq_iff n k).0 same) ∙ h))))
              (out q),
        )
        | inr other ↦ rw other (p, h, (refl, λ d. d))
      ])

confirm_direction-Outlives : (p : Peer) → Outlives p (confirm_direction p).0
unfolding can_deploy
confirm_direction-Outlives p = elim (Bool-cases (is_outgoing p.direction)) [
  | inl out ↦ rw out (refl, λ d. refl)
  | inr other ↦ rw other (refl, λ d. d)
]

set_registry-Outlives : (url : String) (p : Peer) → Outlives p (set_registry url p).0
unfolding can_deploy
set_registry-Outlives url p = elim (Bool-cases (p.registry_proxy_url == url)) [
  | inl same ↦ rw same (refl, λ d. d)
  | inr other ↦ rw other (refl, λ d. d)
]

set_api-Outlives :
    (url : String) (p : Peer) (r : Peer × Bool) → Outlives p r.0 → Outlives p (set_api url r).0
unfolding can_deploy
set_api-Outlives url p (q, b) o = elim (Bool-cases (not (is_empty url) && not (q.api_url == url))) [
  | inl new ↦ rw new o
  | inr old ↦ rw old o
]

take_url-Outlives :
    (url : String) (p : Peer) (r : Peer × Bool) → Outlives p r.0 → Outlives p (take_url url r).0
unfolding can_deploy
take_url-Outlives url p (q, b) o = elim (Bool-cases (not (is_empty url) && is_empty q.url)) [
  | inl new ↦ rw new o
  | inr old ↦ rw old o
]

take_registry-Outlives :
    (url : String) (p : Peer) (r : Peer × Bool)
    → Outlives p r.0
    → Outlives p (take_registry url r).0
unfolding can_deploy
take_registry-Outlives url p (q, b) o = elim (Bool-cases (url == q.registry_proxy_url)) [
  | inl same ↦ rw same o
  | inr new ↦ rw new o
]

pub update_known-Outlives : (h : Hello) (p : Peer) → Outlives p (update_known h p).0
unfolding update_known
update_known-Outlives h p =
    take_registry-Outlives h.registry_proxy_url p _
      (take_url-Outlives h.self_url p _ (confirm_direction-Outlives p))

stays : (k : String) (p : Peer) (st : PeerStore) → lookup k st.peers ≡ some p → Survives k p st
stays k p st e = (p, e, (refl, λ d. d))

module _ (crypto : Crypto) where
  admit-Survives :
      (now : String) (h : Hello) (o : Option Peer) (st : PeerStore) (k : String) (p : Peer)
      → lookup h.name st.peers ≡ o
      → lookup k st.peers ≡ some p
      → Survives k p (admit crypto now h o st).1
  unfolding save_peers
  admit-Survives now h none st k p absent known =
      rw lookup-insert (elim (Bool-cases (h.name == k)) [
        | inl same ↦ cc ((eq_iff h.name k).0 same, absent, known)
        | inr other ↦ rw other (p, known, (refl, λ d. d))
      ])
  admit-Survives now h (some q) st k p e known = elim (Option-cases (check_pin crypto q h)) [
    | inl r ↦ rw r (stays k p st known)
    | inr (b, r) ↦ rw r (pinned b)
  ]
    where
      pinned : (b : Bool) → Survives k p (admit_known crypto h q (some b) st).1
      pinned false = stays k p st known
      pinned true =
          at_peer-Survives h.name (update_known h) st k p (some q) (update_known-Outlives h) e known

  hello-Survives :
      (now : String) (h : Hello) (st : PeerStore) (k : String) (p : Peer)
      → lookup k st.peers ≡ some p
      → Survives k p (accept_hello crypto now h st).1
  unfolding accept_hello
  hello-Survives now h st k p known =
      elim (Bool-cases
        (is_empty h.name || is_empty h.ca_pem || is_empty h.nonce || is_empty h.challenge_sig)) [
          | inl absent ↦ rw absent (stays k p st known)
          | inr there ↦
              rw there
                (elim (Bool-cases (verify_challenge crypto h.nonce h.challenge_sig h.ca_pem)) [
                  | inl good ↦
                      rw good (admit-Survives now h (lookup h.name st.peers) st k p refl known)
                  | inr bad ↦ rw bad (stays k p st known)
                ])
        ]

  disconnect-Survives :
      (name reason : String) (st : PeerStore) (k : String) (p : Peer)
      → reason ≢ "removed"
      → lookup k st.peers ≡ some p
      → Survives k p (forget_disconnected name reason st)
  unfolding forget_disconnected
  disconnect-Survives name reason st k p r known =
      elim (Bool-cases (is_empty name || not (contains name st.peers))) [
        | inl unknown ↦ rw unknown (stays k p st known)
        | inr there ↦ rw there (elim (Bool-cases (reason == "removed")) [
          | inl removed ↦ elim (r ((eq_iff reason "removed").0 removed)) [ ]
          | inr other ↦ rw other (stays k p st known)
        ])
      ]

  -- Nothing that a remote agent sends, a removal aside, loses a known peer, changes its pinned
  -- certificate or takes the right to deploy to it away.
  pub remote_steps_keep_pins :
      (s : PeerStep) (st : PeerStore) (k : String) (p : Peer)
      → IsRemote s
      → lookup k st.peers ≡ some p
      → Survives k p (step crypto s st)
  unfolding step handle_peer_bidirectional handle_peer_info_update take_hello_ack
      handle_crd_schema_announce can_deploy
  remote_steps_keep_pins (hello now h) st k p r known = hello-Survives now h st k p known
  remote_steps_keep_pins (connect now bundle verified shut) st k p r known = elim r [ ]
  remote_steps_keep_pins (remove name) st k p r known = elim r [ ]
  remote_steps_keep_pins (bidirectional_seen name) st k p r known =
      elim (Bool-cases (is_empty name)) [
        | inl empty ↦ rw empty (stays k p st known)
        | inr named ↦ rw named (
            at_peer-Survives name confirm_direction st k p (lookup name st.peers)
              confirm_direction-Outlives refl known)
      ]
  remote_steps_keep_pins (info_update name registry api) st k p r known =
      elim (Bool-cases (is_empty name)) [
        | inl empty ↦ rw empty (stays k p st known)
        | inr named ↦ rw named (
            at_peer-Survives name (λ q. set_api api (set_registry registry q)) st k p
              (lookup name st.peers)
              (λ q. set_api-Outlives api q _ (set_registry-Outlives registry q)) refl known)
      ]
  remote_steps_keep_pins (disconnected name reason) st k p r known =
      disconnect-Survives name reason st k p r known
  remote_steps_keep_pins (hello_ack name registry) st k p r known =
      at_peer-Survives name (set_registry registry) st k p (lookup name st.peers)
        (set_registry-Outlives registry) refl known
  remote_steps_keep_pins (crd_announced name none theirs) st k p r known = stays k p st known
  remote_steps_keep_pins (crd_announced name (some ours) theirs) st k p r known =
      at_peer-Survives name (λ q. (record q { crd_diff = compare_spec_schemas ours theirs }, false))
        st k p (lookup name st.peers) (λ q. (refl, λ d. d)) refl known
