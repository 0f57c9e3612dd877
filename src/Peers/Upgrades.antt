-- ===== src/Peers/Upgrades.antt =====
-- What pasting an invite gives: a peer that workloads can be submitted to.
use porpulsion.Prelude.{
  String, Bool, true, false, ◌≡◌, refl, sym, ap, ◌∙◌, Option, none, some, [], ◌∷◌, Dict, lookup,
  ◌==◌, eq_iff, Bool-cases, inl, inr, eq_refl, lookup-insert_self, is_some, IsDistinct,
}
use porpulsion.Prelude.Text.{is_empty}
use porpulsion.Tls.{Crypto}
use porpulsion.Peers.{
  Direction, outgoing, incoming, bidirectional, Peer, can_deploy, PeerStore, save_peers,
}
use porpulsion.Peers.Connect.{
  ConnectEnd, opened, upgraded, already_peered, bundle_required, invalid_bundle, unreachable,
  Bundle, without_slashes, matches, meet, push_entry, meet_existing, settle, connect_verified,
  connect_peer,
}
use porpulsion.Peers.Stored.{Named, IsValid}
use porpulsion.Peers.Invariant.{Replaces, meet_existing-Replaces}

-- the peer that an end names, and the certificate of the invite where one was taken
abbrev pub Outcome : (ca_pem : String) → Dict Peer → ConnectEnd → Dict Peer → Type 0
Outcome ca_pem before (opened n) after =
    (p : Peer) × (lookup n after ≡ some p) × (can_deploy p ≡ true) × (p.ca_pem ≡ ca_pem)
Outcome ca_pem before (upgraded n) after =
    (p : Peer) × (lookup n after ≡ some p) × (can_deploy p ≡ true) × (p.ca_pem ≡ ca_pem)
Outcome ca_pem before (already_peered n) after =
    (after ≡ before) × ((p : Peer) × (lookup n after ≡ some p) × (can_deploy p ≡ true))
Outcome ca_pem before bundle_required after = after ≡ before
Outcome ca_pem before invalid_bundle after = after ≡ before
Outcome ca_pem before unreachable after = after ≡ before

-- the loop itself ends in no other way
abbrev Met : (ca_pem : String) → Dict Peer → Option (ConnectEnd × Dict Peer) → Type 0
Met ca_pem before none = Unit
Met ca_pem before (some (upgraded n, after)) = Outcome ca_pem before (upgraded n) after
Met ca_pem before (some (already_peered n, after)) = Outcome ca_pem before (already_peered n) after
Met ca_pem before (some (opened n, after)) = ⊥
Met ca_pem before (some (bundle_required, after)) = ⊥
Met ca_pem before (some (invalid_bundle, after)) = ⊥
Met ca_pem before (some (unreachable, after)) = ⊥

meet-Met :
    (url ca_pem k : String) (p : Peer) (d : Dict Peer) (dir : Direction)
    → p.direction ≡ dir
    → p.name ≡ k
    → Met ca_pem ((k, p) ∷ d) (some ((meet url ca_pem p dir).0, (k, (meet url ca_pem p dir).1) ∷ d))
unfolding lookup can_deploy
meet-Met url ca_pem k p d outgoing e n = (refl, (p, rw (n, eq_refl) refl, rw e refl))
meet-Met url ca_pem k p d bidirectional e n = (refl, (p, rw (n, eq_refl) refl, rw e refl))
meet-Met url ca_pem k p d incoming e n = (
  record p { direction = bidirectional; url = url; ca_pem = ca_pem },
  rw (n, eq_refl) refl,
  refl,
  refl,
)

other_key :
    (k n : String) (d : Dict Peer) (q : Peer)
    → is_some (lookup k d) ≡ false
    → lookup n d ≡ some q
    → (k == n) ≡ false
other_key k n d q absent found = elim (Bool-cases (k == n)) [
  | inl same ↦ cc ((eq_iff k n).0 same, absent, found)
  | inr other ↦ other
]

-- a peer before the one that matches is left alone
later-Met :
    (ca_pem k : String) (p : Peer) (d : Dict Peer) (o : Option (ConnectEnd × Dict Peer))
    → is_some (lookup k d) ≡ false
    → Replaces d o
    → Met ca_pem d o
    → Met ca_pem ((k, p) ∷ d) (push_entry (k, p) o)
unfolding lookup
later-Met ca_pem k p d none h r m = tt
later-Met ca_pem k p d (some (upgraded n, after)) h (keys, named, distinct) (q, e, c, m) =
    (q, rw (other_key k n after q (keys k ∙ h) e) e, c, m)
later-Met ca_pem k p d (some (already_peered n, after)) h (keys, named, distinct)
      (same, (q, e, c)) =
    (ap (λ x. (k, p) ∷ x) same, (q, rw (other_key k n after q (keys k ∙ h) e) e, c))
later-Met ca_pem k p d (some (opened n, after)) h r m = elim m [ ]
later-Met ca_pem k p d (some (bundle_required, after)) h r m = elim m [ ]
later-Met ca_pem k p d (some (invalid_bundle, after)) h r m = elim m [ ]
later-Met ca_pem k p d (some (unreachable, after)) h r m = elim m [ ]

module _ (crypto : Crypto) where
  meet_existing-Met :
      (name url ca_pem : String) (d : Dict Peer)
      → Named d
      → IsDistinct d
      → Met ca_pem d (meet_existing crypto name url ca_pem d)
  unfolding meet_existing
  meet_existing-Met name url ca_pem [] n u = tt
  meet_existing-Met name url ca_pem ((k, p) ∷ d) (n, ns) (u, us) =
      elim (Bool-cases (matches crypto name url ca_pem p)) [
        | inl found ↦ rw found (meet-Met url ca_pem k p d p.direction refl n)
        | inr other ↦ rw other (
            later-Met ca_pem k p d (meet_existing crypto name url ca_pem d) u
              (meet_existing-Replaces crypto name url ca_pem d)
              (meet_existing-Met name url ca_pem d ns us))
      ]

  settle-Outcome :
      (now : String) (b : Bundle) (o : Option (ConnectEnd × Dict Peer)) (st : PeerStore)
      → Met b.ca_pem st.peers o
      → Outcome b.ca_pem st.peers (settle now b o st).0 (settle now b o st).1.peers
  unfolding save_peers can_deploy
  settle-Outcome now b none st m = (_, lookup-insert_self b.agent_name _ st.peers, refl, refl)
  settle-Outcome now b (some (opened n, d)) st m = elim m [ ]
  settle-Outcome now b (some (upgraded n, d)) st m = m
  settle-Outcome now b (some (already_peered n, d)) st (same, m) = (refl, rw (sym same) m)
  settle-Outcome now b (some (bundle_required, d)) st m = elim m [ ]
  settle-Outcome now b (some (invalid_bundle, d)) st m = elim m [ ]
  settle-Outcome now b (some (unreachable, d)) st m = elim m [ ]

  -- Pasting an invite ends with a peer to which workloads can be submitted, under the name that the
  -- reply gives; with the certificate of the invite where the peer is new or upgraded. Where the invite
  -- is empty or its address takes no connection, the peers stay as they were.
  pub connected_peer_deploys :
      (now bundle : String) (b : Bundle) (shut : Bool) (st : PeerStore)
      → IsValid st
      → Outcome b.ca_pem st.peers
          (connect_peer crypto now bundle (some b) shut st).0
          (connect_peer crypto now bundle (some b) shut st).1.peers
  unfolding connect_peer
  connected_peer_deploys now bundle b shut st v = elim (Bool-cases (is_empty bundle)) [
    | inl empty ↦ rw empty refl
    | inr given ↦ rw given (tried shut)
  ]
    where
      tried :
          (shut : Bool)
          → Outcome b.ca_pem st.peers
              (connect_verified crypto now shut (some b) st).0
              (connect_verified crypto now shut (some b) st).1.peers
      tried true = refl
      tried false =
          settle-Outcome now b
            (meet_existing crypto b.agent_name (without_slashes b.url) b.ca_pem st.peers) st
            (meet_existing-Met b.agent_name (without_slashes b.url) b.ca_pem st.peers v.named
              v.distinct)
