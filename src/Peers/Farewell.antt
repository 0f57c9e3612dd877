-- ===== src/Peers/Farewell.antt =====
-- What is left when a peering ends.
use porpulsion.Prelude.{
  String, Bool, true, false, ◌≡◌, ◌≢◌, refl, Option, none, some, [], ◌∷◌, Dict, lookup, contains,
  ◌==◌, Bool-cases, inl, inr, All, arith, eq_iff, eq_refl, lookup-erase, lookup-insert_self,
}
use porpulsion.Prelude.Text.{is_empty}
use porpulsion.Peers.{PeerStore, save_peers}
use porpulsion.Peers.Connect.{forget_peer}
use porpulsion.Peers.Messages.{forget_disconnected}
use porpulsion.Peers.Removal.{
  Submitted, Chan, closed, disconnected, World, delete_submitted, delete_executing, pop_channel,
  remove_peer, handle_peer_disconnect,
}

-- nothing of the peer is left
pub record IsGone (name : String) (w : World) : Type 0 where
  pub peer : lookup name w.store.peers ≡ none
  pub channel : lookup name w.channels ≡ none
  pub submitted : All (λ (e : String × Submitted). (e.1.target_peer == name) ≡ false) w.submitted
  pub executing : All (λ (e : String × String). (e.1 == name) ≡ false) w.executing

kept-submitted :
    (name : String) (d : Dict Submitted)
    → All
        (λ (e : String × Submitted). (e.1.target_peer == name) ≡ false)
        (delete_submitted true name d)
kept-submitted name [] = tt
kept-submitted name ((k, s) ∷ d) = elim (Bool-cases (s.target_peer == name)) [
  | inl theirs ↦ rw theirs (kept-submitted name d)
  | inr other ↦ rw other (other, kept-submitted name d)
]

kept-executing :
    (name : String) (d : Dict String)
    → All (λ (e : String × String). (e.1 == name) ≡ false) (delete_executing true name d)
kept-executing name [] = tt
kept-executing name ((k, s) ∷ d) = elim (Bool-cases (s == name)) [
  | inl theirs ↦ rw theirs (kept-executing name d)
  | inr other ↦ rw other (other, kept-executing name d)
]

-- popping the channel is all that is left to do
popped-IsGone :
    (name : String) (o : Option Chan) (w : World)
    → lookup name w.channels ≡ o
    → lookup name w.store.peers ≡ none
    → All (λ (e : String × Submitted). (e.1.target_peer == name) ≡ false) w.submitted
    → All (λ (e : String × String). (e.1 == name) ≡ false) w.executing
    → IsGone name (pop_channel closed name o w)
popped-IsGone name none w h p s e = record { peer = p; channel = h; submitted = s; executing = e }
popped-IsGone name (some ch) w h p s e = record {
  peer = p;
  channel = rw (lookup-erase, eq_refl) refl;
  submitted = s;
  executing = e;
}

forget_peer-none :
    (name : String) (st : PeerStore)
    → contains name st.peers ≡ true
    → lookup name (forget_peer name st).1.peers ≡ none
unfolding forget_peer save_peers
forget_peer-none name st known = rw known (rw (lookup-erase, eq_refl) refl)

forget_disconnected-none :
    (name : String) (st : PeerStore)
    → is_empty name ≡ false
    → contains name st.peers ≡ true
    → lookup name (forget_disconnected name "removed" st).peers ≡ none
unfolding forget_disconnected save_peers
forget_disconnected-none name st full known = rw (full, known) (rw (lookup-erase, eq_refl) refl)

-- Removing a peer, and being told by it that it removed this agent, leave nothing of it while the API
-- answers: no entry, no channel, no workload that was submitted to it or that runs for it.
pub removal-IsGone :
    (name : String) (w : World)
    → is_empty name ≡ false
    → contains name w.store.peers ≡ true
    → IsGone name (remove_peer true name w).1
      × IsGone name (handle_peer_disconnect true name "removed" w)
unfolding remove_peer handle_peer_disconnect
removal-IsGone name w full known =
    rw (full, known)
      (
        popped-IsGone name (lookup name w.channels) _ refl (forget_peer-none name w.store known)
            (kept-submitted name w.submitted) (kept-executing name w.executing),
        popped-IsGone name (lookup name w.channels) _ refl
            (forget_disconnected-none name w.store full known) (kept-submitted name w.submitted)
            (kept-executing name w.executing),
      )

-- After a disconnection that is no removal the peer is kept, but its channel, which goes on running so as
-- to reconnect, is registered no more.
pub disconnect_orphans_channel :
    (answers : Bool) (name reason : String) (ch : Chan) (w : World)
    → is_empty name ≡ false
    → contains name w.store.peers ≡ true
    → lookup name w.channels ≡ some ch
    → reason ≢ "removed"
    → let w' = handle_peer_disconnect answers name reason w in
      (w'.store ≡ w.store)
      × (lookup name w'.channels ≡ none)
      × (lookup name w'.orphans ≡ some (disconnected ch))
      × ((disconnected ch).running ≡ ch.running)
unfolding handle_peer_disconnect
disconnect_orphans_channel answers name reason ch w full known registered other =
    rw (full, known, kept, registered)
      (
        refl,
        rw (lookup-erase, eq_refl) refl,
        lookup-insert_self name (disconnected ch) w.orphans,
        refl,
      )
  where
    kept : (reason == "removed") ≡ false
    kept = ground (arith, eq_iff reason "removed")
