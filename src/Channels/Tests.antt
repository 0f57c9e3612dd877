-- ===== src/Channels/Tests.antt =====
-- A run of the channels: a peer's own connection replaces the outbound one.
use porpulsion.Prelude.{true, ◌≡◌, refl, some, List, [], ◌∷◌, lookup, insert}
use porpulsion.Channels.{Event, opens, attaches, ends, happen, history, no_channels}
use porpulsion.Channels.Single.{live_is_registered}

abbrev replaced : List Event
replaced = opens "beta" ∷ opens "gamma" ∷ attaches "beta" "10.0.0.2" ∷ ends 0 ∷ []

inbound_lives : ((history replaced no_channels).object 2).live ≡ true
unfolding happen lookup insert
inbound_lives = refl

live_is_registered_example :
    lookup
      ((history replaced no_channels).object 2).peer_name
      (history replaced no_channels).peer_channels
    ≡ some 2
live_is_registered_example = live_is_registered replaced 2 inbound_lives
