-- ===== src/Channels.antt =====
-- The channels of an agent: the dict `peer_channels` of porpulsion/state.py, as `open_channel_to`,
-- `attach_inbound` and `accept_channel` of porpulsion/channel.py and `remove_peer` of
-- porpulsion/routes/peers.py change it. Channels are objects: the dict holds references to them.
-- What a peer/disconnect does to the dict is in Peers/Removal.
pub mod Single
mod Tests
use porpulsion.Prelude.{
  ℕ, suc, String, Bool, true, false, Option, none, some, List, [], ◌∷◌, Dict, lookup, insert, erase,
  nat_eq, if◌then◌else◌,
}

-- `live`: the channel keeps or renews its connection. A closed one does not, nor does an inbound one
-- whose socket ended.
pub record Held : Type 0 where
  pub peer_name : String
  pub live : Bool
  pub peer_remote_addr : String

-- the objects by their references, of which `next` is the next, and `peer_channels`
pub record Channels : Type 0 where
  pub next : ℕ
  pub object : ℕ → Held
  pub peer_channels : Dict ℕ

abbrev pub set_object : (r : ℕ) → Held → Channels → Channels
set_object r h c = record c { object = λ k. if nat_eq k r then h else c.object k }

-- `ch.close()`
abbrev pub close : (r : ℕ) → Channels → Channels
close r c = set_object r (record (c.object r) { live = false }) c

abbrev pub close_old : Option ℕ → Channels → Channels
close_old none c = c
close_old (some r) c = close r c

abbrev pub addr_of : Channels → Option ℕ → String
addr_of c none = ""
addr_of c (some r) = (c.object r).peer_remote_addr

-- a new object under the name
abbrev pub put_new : (peer_name remote_addr : String) → Channels → Channels
put_new peer_name remote_addr c =
    let made =
      set_object c.next
        (record { peer_name = peer_name; live = true; peer_remote_addr = remote_addr }) c in
    record made { next = suc c.next; peer_channels = insert peer_name c.next c.peer_channels }

unfoldable pub open_channel_to : (peer_name : String) → Channels → Channels
open_channel_to peer_name c =
    let old = lookup peer_name c.peer_channels in
    put_new peer_name (addr_of c old) (close_old old c)

-- the registration in `attach_inbound`, of the channel that `accept_channel` made
unfoldable pub attach_inbound : (peer_name remote_addr : String) → Channels → Channels
attach_inbound peer_name remote_addr c =
    put_new peer_name remote_addr (close_old (lookup peer_name c.peer_channels) c)

abbrev pub pop_if : (r : ℕ) (peer_name : String) → Channels → Option ℕ → Channels
pop_if r peer_name c none = c
pop_if r peer_name c (some q) =
    if nat_eq q r then record c { peer_channels = erase peer_name c.peer_channels } else c

-- the end of `accept_channel`, when the socket of the channel ended
unfoldable pub accept_ended : (r : ℕ) → Channels → Channels
accept_ended r c =
    let name = (c.object r).peer_name in pop_if r name (close r c) (lookup name c.peer_channels)

-- the end of `remove_peer`
unfoldable pub remove_channel : (peer_name : String) → Channels → Channels
remove_channel peer_name c =
    let old = lookup peer_name c.peer_channels in
    close_old old (record c { peer_channels = erase peer_name c.peer_channels })

pub data Event : Type 0 where
  opens removes : (peer_name : String) → Event
  attaches : (peer_name remote_addr : String) → Event
  ends : (r : ℕ) → Event

unfoldable pub happen : Event → Channels → Channels
unfolding open_channel_to attach_inbound accept_ended remove_channel
happen (opens peer_name) = open_channel_to peer_name
happen (removes peer_name) = remove_channel peer_name
happen (attaches peer_name remote_addr) = attach_inbound peer_name remote_addr
happen (ends r) = accept_ended r

abbrev pub history : List Event → Channels → Channels
history [] c = c
history (e ∷ es) c = history es (happen e c)

abbrev pub no_channels : Channels
no_channels = record {
  next = 0;
  object = λ r. record { peer_name = ""; live = false; peer_remote_addr = "" };
  peer_channels = [];
}
