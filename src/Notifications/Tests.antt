-- ===== src/Notifications/Tests.antt =====
-- Runs of the notifications at concrete inputs.
use porpulsion.Prelude.{◌≡◌, arith, false, String, List, [], ◌∷◌, ◌++◌, take}
use mathlib.Core.List.{reverse}
use porpulsion.Notifications.{Notification, max_kept, push_all}
use porpulsion.Notifications.Bounds.{push_all_newest}

abbrev note : String → Notification
note id = record { id = id; level = "info"; title = "t"; message = "m"; ts = "now"; ack = false }

abbrev held : List Notification
held = note "a" ∷ note "b" ∷ []

push_all_newest_example :
    push_all (note "c" ∷ note "d" ∷ []) held
    ≡ take max_kept (reverse (note "c" ∷ note "d" ∷ []) ++ held)
push_all_newest_example = push_all_newest (note "c" ∷ note "d" ∷ []) held (omega arith)
