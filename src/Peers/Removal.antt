-- ===== src/Peers/Removal.antt =====
-- The end of a peering, with its workloads and its channel: `remove_peer` of
-- porpulsion/routes/peers.py and `handle_peer_disconnect` of porpulsion/channel_handlers.py.
use porpulsion.Prelude.{
  String, Bool, true, false, not, ◌||◌, Option, none, some, List, [], ◌∷◌, Dict, lookup, contains,
  insert, erase, keep, map, ◌==◌, if◌then◌else◌,
}
use porpulsion.Prelude.Text.{is_empty}
use porpulsion.Peers.{PeerStore}
use porpulsion.Peers.Connect.{forget_peer}
use porpulsion.Peers.Messages.{forget_disconnected}

-- a RemoteApp resource
pub record Submitted : Type 0 where
  pub app_id : String
  pub target_peer : String
  pub phase : String

-- the flags of a `PeerChannel` that `close` and `disconnect` change
pub record Chan : Type 0 where
  pub running : Bool
  pub has_socket : Bool
  pub connected : Bool

abbrev pub closed : Chan → Chan
closed ch = record ch { running = false; has_socket = false }

abbrev pub disconnected : Chan → Chan
disconnected ch = record ch { has_socket = false; connected = false }

pub data Notice : Type 0 where
  peer_removed peer_disconnected : String → Notice

-- `submitted` and `executing` are the resources of the cluster by their names, the latter with their
-- source peers; `orphans` are channels that are not registered any more; `saved_pending` is the queue
-- of approvals that the ConfigMap holds, by ids
pub record World : Type 0 where
  pub store : PeerStore
  pub submitted : Dict Submitted
  pub executing : Dict String
  pub channels : Dict Chan
  pub orphans : Dict Chan
  pub saved_pending : List String
  pub notices : List Notice

-- the resources go while the API answers; a failure is logged
abbrev pub delete_submitted : Bool → String → Dict Submitted → Dict Submitted
delete_submitted answers name d = if answers then keep (λ e. not (e.1.target_peer == name)) d else d

abbrev pub delete_executing : Bool → String → Dict String → Dict String
delete_executing answers name d = if answers then keep (λ e. not (e.1 == name)) d else d

-- `peer_channels.pop(name, None)`, and what is done to the channel
abbrev pub pop_channel : (Chan → Chan) → String → Option Chan → World → World
pop_channel f name none w = w
pop_channel f name (some ch) w = record w {
  channels = erase name w.channels;
  orphans = insert name (f ch) w.orphans;
}

-- the calls and pushes to the peer are best effort; the state is saved without the queue
unfoldable pub remove_peer : (answers : Bool) (name : String) → World → Bool × World
remove_peer answers name w =
    if contains name w.store.peers
    then (
      true,
      pop_channel closed name (lookup name w.channels) (record w {
        store = (forget_peer name w.store).1;
        submitted = delete_submitted answers name w.submitted;
        executing = delete_executing answers name w.executing;
        saved_pending = [];
      }),
    )
    else (false, w)

abbrev pub fail_submitted : Bool → String → Dict Submitted → Dict Submitted
fail_submitted answers name d =
    if answers
    then map
        (λ e. (e.0, if e.1.target_peer == name then record (e.1) { phase = "Failed" } else e.1)) d
    else d

unfoldable pub handle_peer_disconnect : (answers : Bool) (name reason : String) → World → World
handle_peer_disconnect answers name reason w =
    if is_empty name || not (contains name w.store.peers)
    then w
    else if reason == "removed"
    then pop_channel closed name (lookup name w.channels) (record w {
      store = forget_disconnected name reason w.store;
      submitted = delete_submitted answers name w.submitted;
      executing = delete_executing answers name w.executing;
      notices = peer_removed name ∷ w.notices;
    })
    else pop_channel disconnected name (lookup name w.channels) (record w {
      submitted = fail_submitted answers name w.submitted;
      notices = peer_disconnected name ∷ w.notices;
    })
