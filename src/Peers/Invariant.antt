-- ===== src/Peers/Invariant.antt =====
-- What holds of the peers between two steps, whatever the steps are.
use porpulsion.Prelude.{
  String, Bool, true, false, ◌≡◌, refl, ◌∙◌, Option, none, some, List, [], ◌∷◌, Dict, lookup,
  contains, is_some, arith, ◌==◌, Bool-cases, inl, inr, IsDistinct,
}
use porpulsion.Prelude.{not, ◌&&◌, ◌||◌}
use porpulsion.Prelude.Text.{is_empty}
use porpulsion.Tls.{Crypto, verify_challenge}
use porpulsion.Peers.{Direction, outgoing, incoming, bidirectional, Peer, PeerStore, save_peers}
use porpulsion.Peers.Hello.{
  Hello, accept_hello, update_known, check_pin, is_outgoing, upgrade_direction, take_url,
  take_registry, admit_known, admit,
}
use porpulsion.Peers.Connect.{
  ConnectEnd, opened, upgraded, already_peered, bundle_required, invalid_bundle, unreachable,
  without_slashes, matches, meet, push_entry, settle, connect_verified, Bundle, connect_peer,
  forget_peer, meet_existing,
}
use porpulsion.Peers.Messages.{
  handle_peer_bidirectional, handle_peer_info_update, forget_disconnected, take_hello_ack,
  handle_crd_schema_announce, confirm_direction, set_registry, set_api, compare_spec_schemas,
}
use porpulsion.Peers.Steps.{
  PeerStep, hello, connect, remove, bidirectional_seen, info_update, disconnected, hello_ack,
  crd_announced, step, run,
}
use porpulsion.Peers.Stored.{
  Named, IsValid, KeepsSaved, save_if-IsValid, at_peer-IsValid, erased-IsValid, stored-IsValid,
}

confirm_direction-KeepsSaved : (p : Peer) → KeepsSaved p (confirm_direction p)
confirm_direction-KeepsSaved p = elim (Bool-cases (is_outgoing p.direction)) [
  | inl out ↦ rw out (refl, λ h. cc)
  | inr other ↦ rw other (refl, λ _. refl)
]

set_registry-KeepsSaved : (url : String) (p : Peer) → KeepsSaved p (set_registry url p)
set_registry-KeepsSaved url p = elim (Bool-cases (p.registry_proxy_url == url)) [
  | inl same ↦ rw same (refl, λ _. refl)
  | inr other ↦ rw other (refl, λ h. cc)
]

set_api-KeepsSaved :
    (url : String) (p : Peer) (r : Peer × Bool) → KeepsSaved p r → KeepsSaved p (set_api url r)
set_api-KeepsSaved url p (q, b) (n, k) =
    elim (Bool-cases (not (is_empty url) && not (q.api_url == url))) [
      | inl new ↦ rw new (n, λ h. cc)
      | inr old ↦ rw old (n, k)
    ]

upgrade_direction-KeepsSaved : (p : Peer) → KeepsSaved p (upgrade_direction p)
upgrade_direction-KeepsSaved p = elim (Bool-cases (is_outgoing p.direction)) [
  | inl out ↦ rw out (refl, λ h. cc)
  | inr other ↦ rw other (refl, λ _. refl)
]

take_url-KeepsSaved :
    (url : String) (p : Peer) (r : Peer × Bool) → KeepsSaved p r → KeepsSaved p (take_url url r)
take_url-KeepsSaved url p (q, b) (n, k) = elim (Bool-cases (not (is_empty url) && is_empty q.url)) [
  | inl new ↦ rw new (n, λ h. cc)
  | inr old ↦ rw old (n, k)
]

take_registry-KeepsSaved :
    (url : String) (p : Peer) (r : Peer × Bool)
    → KeepsSaved p r
    → KeepsSaved p (take_registry url r)
take_registry-KeepsSaved url p (q, b) (n, k) = elim (Bool-cases (url == q.registry_proxy_url)) [
  | inl same ↦ rw same (n, k)
  | inr new ↦ rw new (n, λ h. cc)
]

update_known-KeepsSaved : (h : Hello) (p : Peer) → KeepsSaved p (update_known h p)
unfolding update_known
update_known-KeepsSaved h p =
    take_registry-KeepsSaved h.registry_proxy_url p _
      (take_url-KeepsSaved h.self_url p _ (upgrade_direction-KeepsSaved p))

-- a loop over the peers that replaces one of them
abbrev pub Replaces : Dict Peer → Option (ConnectEnd × Dict Peer) → Type 0
Replaces d none = Unit
Replaces d (some (end, d')) =
    ((j : String) → is_some (lookup j d') ≡ is_some (lookup j d))
    × (Named d → Named d')
    × (IsDistinct d → IsDistinct d')

meet-name : (url ca_pem : String) (p : Peer) (d : Direction) → (meet url ca_pem p d).1.name ≡ p.name
meet-name url ca_pem p outgoing = refl
meet-name url ca_pem p incoming = refl
meet-name url ca_pem p bidirectional = refl

cons-Replaces :
    (k : String) (p p' : Peer) (end : ConnectEnd) (d : Dict Peer)
    → p'.name ≡ p.name
    → Replaces ((k, p) ∷ d) (some (end, (k, p') ∷ d))
unfolding lookup
cons-Replaces k p p' end d e = ((λ j. ground arith), (λ (h, hs). (e ∙ h, hs)), λ h. h)

push_entry-Replaces :
    (k : String) (p : Peer) (d : Dict Peer) (o : Option (ConnectEnd × Dict Peer))
    → Replaces d o
    → Replaces ((k, p) ∷ d) (push_entry (k, p) o)
unfolding lookup
push_entry-Replaces k p d none r = tt
push_entry-Replaces k p d (some (end, d')) (keys, named, distinct) = (
  (λ j. ground (arith, keys j)),
  (λ (h, hs). (h, named hs)),
  λ (h, hs). (keys k ∙ h, distinct hs),
)

pub meet_existing-Replaces :
    (crypto : Crypto) (name url ca_pem : String) (d : Dict Peer)
    → Replaces d (meet_existing crypto name url ca_pem d)
unfolding meet_existing
meet_existing-Replaces crypto name url ca_pem [] = tt
meet_existing-Replaces crypto name url ca_pem ((k, p) ∷ d) =
    elim (Bool-cases (matches crypto name url ca_pem p)) [
      | inl found ↦ rw found (
          cons-Replaces k p (meet url ca_pem p p.direction).1 (meet url ca_pem p p.direction).0 d
            (meet-name url ca_pem p p.direction))
      | inr other ↦ rw other (
          push_entry-Replaces k p d (meet_existing crypto name url ca_pem d)
            (meet_existing-Replaces crypto name url ca_pem d))
    ]

settle-IsValid :
    (now : String) (b : Bundle) (o : Option (ConnectEnd × Dict Peer)) (st : PeerStore)
    → Replaces st.peers o
    → IsValid st
    → IsValid (settle now b o st).1
unfolding save_peers
settle-IsValid now b none st r v = stored-IsValid b.agent_name _ st refl v
settle-IsValid now b (some (upgraded n, d)) st (keys, named, distinct) v = record {
  saved = refl;
  named = named v.named;
  distinct = distinct v.distinct;
}
settle-IsValid now b (some (opened n, d)) st r v = v
settle-IsValid now b (some (already_peered n, d)) st r v = v
settle-IsValid now b (some (bundle_required, d)) st r v = v
settle-IsValid now b (some (invalid_bundle, d)) st r v = v
settle-IsValid now b (some (unreachable, d)) st r v = v

module _ (crypto : Crypto) where
  admit_known-IsValid :
      (h : Hello) (p : Peer) (pin : Option Bool) (st : PeerStore)
      → lookup h.name st.peers ≡ some p
      → IsValid st
      → IsValid (admit_known crypto h p pin st).1
  admit_known-IsValid h p none st e v = v
  admit_known-IsValid h p (some false) st e v = v
  admit_known-IsValid h p (some true) st e v =
      save_if-IsValid (update_known h p).1 h.name p (update_known h p).0 st e
        (update_known-KeepsSaved h p).0 (update_known-KeepsSaved h p).1 v

  admit-IsValid :
      (now : String) (h : Hello) (o : Option Peer) (st : PeerStore)
      → lookup h.name st.peers ≡ o
      → IsValid st
      → IsValid (admit crypto now h o st).1
  admit-IsValid now h (some p) st e v = admit_known-IsValid h p (check_pin crypto p h) st e v
  admit-IsValid now h none st e v = stored-IsValid h.name _ st refl v

  hello-IsValid :
      (now : String) (h : Hello) (st : PeerStore)
      → IsValid st
      → IsValid (accept_hello crypto now h st).1
  unfolding accept_hello
  hello-IsValid now h st v =
      elim (Bool-cases
        (is_empty h.name || is_empty h.ca_pem || is_empty h.nonce || is_empty h.challenge_sig)) [
          | inl absent ↦ rw absent v
          | inr there ↦
              rw there
                (elim (Bool-cases (verify_challenge crypto h.nonce h.challenge_sig h.ca_pem)) [
                  | inl good ↦ rw good (admit-IsValid now h (lookup h.name st.peers) st refl v)
                  | inr bad ↦ rw bad v
                ])
        ]

  verified-IsValid :
      (now : String) (shut : Bool) (verified : Option Bundle) (st : PeerStore)
      → IsValid st
      → IsValid (connect_verified crypto now shut verified st).1
  verified-IsValid now shut none st v = v
  verified-IsValid now true (some b) st v = v
  verified-IsValid now false (some b) st v =
      settle-IsValid now b
        (meet_existing crypto b.agent_name (without_slashes b.url) b.ca_pem st.peers) st
        (meet_existing-Replaces crypto b.agent_name (without_slashes b.url) b.ca_pem st.peers) v

  connect-IsValid :
      (now bundle : String) (verified : Option Bundle) (shut : Bool) (st : PeerStore)
      → IsValid st
      → IsValid (connect_peer crypto now bundle verified shut st).1
  unfolding connect_peer
  connect-IsValid now bundle verified shut st v = elim (Bool-cases (is_empty bundle)) [
    | inl empty ↦ rw empty v
    | inr given ↦ rw given (verified-IsValid now shut verified st v)
  ]

  remove-IsValid : (name : String) (st : PeerStore) → IsValid st → IsValid (forget_peer name st).1
  unfolding forget_peer
  remove-IsValid name st v = elim (Bool-cases (contains name st.peers)) [
    | inl known ↦ rw known (erased-IsValid name st v)
    | inr unknown ↦ rw unknown v
  ]

  bidirectional-IsValid :
      (name : String) (st : PeerStore) → IsValid st → IsValid (handle_peer_bidirectional name st)
  unfolding handle_peer_bidirectional
  bidirectional-IsValid name st v = elim (Bool-cases (is_empty name)) [
    | inl empty ↦ rw empty v
    | inr named ↦ rw named (
        at_peer-IsValid name confirm_direction st (lookup name st.peers)
          confirm_direction-KeepsSaved refl v)
  ]

  info_update-IsValid :
      (name registry_proxy_url api_url : String) (st : PeerStore)
      → IsValid st
      → IsValid (handle_peer_info_update name registry_proxy_url api_url st)
  unfolding handle_peer_info_update
  info_update-IsValid name registry api st v = elim (Bool-cases (is_empty name)) [
    | inl empty ↦ rw empty v
    | inr named ↦ rw named (
        at_peer-IsValid name (λ p. set_api api (set_registry registry p)) st (lookup name st.peers)
          (λ p. set_api-KeepsSaved api p _ (set_registry-KeepsSaved registry p)) refl v)
  ]

  disconnect-IsValid :
      (name reason : String) (st : PeerStore)
      → IsValid st
      → IsValid (forget_disconnected name reason st)
  unfolding forget_disconnected
  disconnect-IsValid name reason st v =
      elim (Bool-cases (is_empty name || not (contains name st.peers))) [
        | inl unknown ↦ rw unknown v
        | inr known ↦ rw known (elim (Bool-cases (reason == "removed")) [
          | inl removed ↦ rw removed (erased-IsValid name st v)
          | inr other ↦ rw other v
        ])
      ]

  -- Every step keeps the invariant.
  step-IsValid : (s : PeerStep) (st : PeerStore) → IsValid st → IsValid (step crypto s st)
  unfolding step take_hello_ack handle_crd_schema_announce
  step-IsValid (hello now h) st v = hello-IsValid now h st v
  step-IsValid (connect now bundle verified shut) st v =
      connect-IsValid now bundle verified shut st v
  step-IsValid (remove name) st v = remove-IsValid name st v
  step-IsValid (bidirectional_seen name) st v = bidirectional-IsValid name st v
  step-IsValid (info_update name registry api) st v = info_update-IsValid name registry api st v
  step-IsValid (disconnected name reason) st v = disconnect-IsValid name reason st v
  step-IsValid (hello_ack name registry) st v =
      at_peer-IsValid name (set_registry registry) st (lookup name st.peers)
        (set_registry-KeepsSaved registry) refl v
  step-IsValid (crd_announced name none theirs) st v = v
  step-IsValid (crd_announced name (some ours) theirs) st v =
      at_peer-IsValid name (λ p. (record p { crd_diff = compare_spec_schemas ours theirs }, false))
        st (lookup name st.peers) (λ p. (refl, λ _. refl)) refl v

  -- Between any two changes of the peers, each stands under its own name, once, and the Secret holds
  -- the list of those in memory.
  pub run-IsValid : (ss : List PeerStep) (st : PeerStore) → IsValid st → IsValid (run crypto ss st)
  unfolding run
  run-IsValid [] st v = v
  run-IsValid (s ∷ ss) st v = run-IsValid ss (step crypto s st) (step-IsValid s st v)
