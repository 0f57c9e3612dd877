-- ===== src/Peers/Persistence.antt =====
-- Restart: `load_peers` of porpulsion/tls.py and the loop of porpulsion/agent.py that restores the
-- peers, with its migration of entries of the old format.
use porpulsion.Prelude.{
  lookup-absent, String, Bool, false, ◌≡◌, refl, ◌∙◌, Option, none, some, List, [], ◌∷◌, Dict,
  lookup, insert, ◌==◌, ◌&&◌, if◌then◌else◌, Bool-cases, inl, inr, map, lookup-insert, or_default,
  IsDistinct,
}
use mathlib.Core.Option
use porpulsion.Peers.{
  Direction, outgoing, incoming, bidirectional, Peer, new_peer, Saved, snapshot, PeerStore,
}
use porpulsion.Peers.Stored.{IsValid, Named}

-- an entry of peers.json: those of the old format have no direction
pub record Entry : Type 0 where
  pub name : String
  pub url : String
  pub ca_pem : Option String
  pub direction : Option Direction
  pub initiator : Bool
  pub has_inbound : Bool

abbrev migrated : (initiator has_inbound : Bool) → Direction
migrated initiator has_inbound =
    if initiator && has_inbound then bidirectional else if initiator then outgoing else incoming

abbrev direction_of : Entry → Direction
direction_of e = or_default (migrated e.initiator e.has_inbound) e.direction

unfoldable pub load_peer : (now : String) → Entry → Peer
load_peer now e = new_peer e.name e.url (or_default "" e.ca_pem) now (direction_of e)

-- `for _p in tls.load_peers(...): state.peers[_p["name"]] = Peer(...)`
unfoldable pub restore : (now : String) → List Entry → Dict Peer → Dict Peer
restore now [] peers = peers
restore now (e ∷ es) peers = restore now es (insert e.name (load_peer now e) peers)

-- an entry as `save_peers` writes it
abbrev pub written : Saved → Entry
written s = record {
  name = s.name;
  url = s.url;
  ca_pem = some s.ca_pem;
  direction = some s.direction;
  initiator = false;
  has_inbound = false;
}

-- what is left of a peer: name, address, pinned CA and direction
abbrev pub reborn : (now : String) → Peer → Peer
reborn now p = new_peer p.name p.url p.ca_pem now p.direction

-- an entry read later wins
abbrev restored_over : (now : String) → Option Peer → Option Peer → Option Peer
restored_over now none before = before
restored_over now (some p) before = some (reborn now p)

restore-lookup :
    (now : String) (peers before : Dict Peer) (k : String)
    → Named peers
    → IsDistinct peers
    → lookup k (restore now (map written (snapshot peers)) before)
      ≡ restored_over now (lookup k peers) (lookup k before)
unfolding restore snapshot load_peer lookup
restore-lookup now [] before k h d = refl
restore-lookup now ((j, p) ∷ peers) before k (h, hs) (d, ds) =
    restore-lookup now peers (insert p.name (reborn now p) before) k hs ds
    ∙ rw (h, lookup-insert)
        (elim (Bool-cases (j == k)) [
          | inl same ↦ rw same (rw (lookup-absent j k peers same d) refl)
          | inr other ↦ rw other refl
        ])

-- A restart with the list that the Secret holds gives every peer back, and no other, with its name,
-- address, pinned certificate and direction.
pub restart_keeps_peers :
    (now : String) (st : PeerStore) (k : String)
    → IsValid st
    → lookup k (restore now (map written st.saved) []) ≡ Option.map (reborn now) (lookup k st.peers)
unfolding lookup
restart_keeps_peers now st k v =
    rw v.saved (restore-lookup now st.peers [] k v.named v.distinct ∙ over-none (lookup k st.peers))
  where
    over-none : (o : Option Peer) → restored_over now o none ≡ Option.map (reborn now) o
    over-none none = refl
    over-none (some p) = refl
