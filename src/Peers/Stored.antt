-- ===== src/Peers/Stored.antt =====
-- What a good store of peers is, and the writes that keep it good.
use porpulsion.Prelude.{
  String, Bool, true, false, ◌≡◌, refl, sym, ◌∙◌, Option, none, some, [], ◌∷◌, Dict, lookup, insert,
  erase, arith, IsDistinct, Each, insert-Each, erase-Each, lookup-Each, insert-IsDistinct,
  erase-IsDistinct,
}
use porpulsion.Peers.{Peer, saved_of, snapshot, PeerStore, save_peers, save_if}
use porpulsion.Peers.Messages.{at_peer}

-- each peer stands under its own name
abbrev pub NamedAs : String → Peer → Type 0
NamedAs k p = p.name ≡ k

abbrev pub Named : Dict Peer → Type 0
Named = Each NamedAs

pub record IsValid (st : PeerStore) : Type 0 where
  -- the list last handed to the Secret is that of the peers in memory
  pub saved : st.saved ≡ snapshot st.peers
  pub named : Named st.peers
  pub distinct : IsDistinct st.peers

pub snapshot-insert :
    (k : String) (p p' : Peer) (peers : Dict Peer)
    → lookup k peers ≡ some p
    → saved_of p' ≡ saved_of p
    → snapshot (insert k p' peers) ≡ snapshot peers
unfolding snapshot lookup insert
snapshot-insert k p p' [] h e = cc
snapshot-insert k p p' ((j, q) ∷ peers) h e = ground (arith, snapshot-insert k p p' peers)

-- a change of one peer, saved unless it touches nothing that is saved
pub save_if-IsValid :
    (b : Bool) (k : String) (p p' : Peer) (st : PeerStore)
    → lookup k st.peers ≡ some p
    → p'.name ≡ p.name
    → (b ≡ false → saved_of p' ≡ saved_of p)
    → IsValid st
    → IsValid (save_if b (record st { peers = insert k p' st.peers }))
unfolding save_peers
save_if-IsValid true k p p' st h e keeps v = record {
  saved = refl;
  named =
      insert-Each NamedAs k p' st.peers (e ∙ lookup-Each NamedAs k p st.peers v.named h) v.named;
  distinct = insert-IsDistinct k p' st.peers v.distinct;
}
save_if-IsValid false k p p' st h e keeps v = record {
  saved = v.saved ∙ sym (snapshot-insert k p p' st.peers h (keeps refl));
  named =
      insert-Each NamedAs k p' st.peers (e ∙ lookup-Each NamedAs k p st.peers v.named h) v.named;
  distinct = insert-IsDistinct k p' st.peers v.distinct;
}

pub at_peer-IsValid :
    (k : String) (f : Peer → Peer × Bool) (st : PeerStore) (o : Option Peer)
    → ((p : Peer) → ((f p).0.name ≡ p.name) × ((f p).1 ≡ false → saved_of (f p).0 ≡ saved_of p))
    → lookup k st.peers ≡ o
    → IsValid st
    → IsValid (at_peer k f st o)
at_peer-IsValid k f st none keeps h v = v
at_peer-IsValid k f st (some p) keeps h v =
    save_if-IsValid (f p).1 k p (f p).0 st h (keeps p).0 (keeps p).1 v

pub erased-IsValid :
    (k : String) (st : PeerStore)
    → IsValid st
    → IsValid (save_peers (record st { peers = erase k st.peers }))
unfolding save_peers
erased-IsValid k st v = record {
  saved = refl;
  named = erase-Each NamedAs k st.peers v.named;
  distinct = erase-IsDistinct k st.peers v.distinct;
}

abbrev pub KeepsSaved : Peer → Peer × Bool → Type 0
KeepsSaved p r = (r.0.name ≡ p.name) × (r.1 ≡ false → saved_of r.0 ≡ saved_of p)

pub stored-IsValid :
    (k : String) (p : Peer) (st : PeerStore)
    → p.name ≡ k
    → IsValid st
    → IsValid (save_peers (record st { peers = insert k p st.peers }))
unfolding save_peers
stored-IsValid k p st e v = record {
  saved = refl;
  named = insert-Each NamedAs k p st.peers e v.named;
  distinct = insert-IsDistinct k p st.peers v.distinct;
}
