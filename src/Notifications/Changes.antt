-- ===== src/Notifications/Changes.antt =====
-- What acknowledging and deleting do to the list, and what they answer.
use porpulsion.Prelude.{
  ◌≡◌, refl, Bool, false, not, String, ◌==◌, List, [], ◌∷◌, arith, any, length-keep-le,
}
use porpulsion.Notifications.{Notification, ack_notification, delete_notification}

-- some notification has the id
abbrev pub is_held : String → List Notification → Bool
is_held id kept = any (λ n. n.id == id) kept

-- Deleting answers whether the id was held; afterwards it is not held any more, and
-- acknowledging it is a 404 that changes nothing.
pub delete-then-ack :
    (id : String) (kept : List Notification)
    → let (left, ok) = delete_notification id kept in
      (ok ≡ is_held id kept) × (ack_notification id left ≡ (left, false))
unfolding delete_notification ack_notification
delete-then-ack id [] = (refl, refl)
delete-then-ack id (n ∷ kept) =
    ground
      (arith, delete-then-ack id kept, length-keep-le (λ (m : Notification). not (m.id == id)) kept)
