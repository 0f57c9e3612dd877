-- ===== src/Notifications.antt =====
-- porpulsion/notifications.py and porpulsion/routes/notifications.py: the notifications under the
-- bell icon, a list that is shared by all handlers. A new id and the time are arguments.
pub mod Bounds
pub mod Changes
mod Tests
use porpulsion.Prelude.{
  ℕ, String, Bool, true, false, not, List, [], ◌∷◌, ◌==◌, length, take, keep, ltb, if◌then◌else◌,
}

pub record Notification : Type 0 where
  pub id : String
  pub level : String
  pub title : String
  pub message : String
  pub ts : String
  pub ack : Bool

-- `_MAX`
abbrev pub max_kept : ℕ
max_kept = 50

-- `state.notifications.insert(0, n)`, then the cut
unfoldable pub push_capped : Notification → List Notification → List Notification
push_capped n kept =
    let grown = n ∷ kept in if ltb max_kept (length grown) then take max_kept grown else grown

pub add_notification : (id ts level title message : String) → List Notification → List Notification
unfolding push_capped
add_notification id ts level title message kept =
    push_capped
      (record { id = id; level = level; title = title; message = message; ts = ts; ack = false })
      kept

-- the first notification with the id is marked; the reply is `ok` or a 404
pub ack_notification : String → List Notification → List Notification × Bool
ack_notification id [] = ([], false)
ack_notification id (n ∷ kept) =
    let (rest, found) = ack_notification id kept in
    if n.id == id then (record n { ack = true } ∷ kept, true) else (n ∷ rest, found)

pub delete_notification : String → List Notification → List Notification × Bool
delete_notification id kept =
    let left = keep (λ n. not (n.id == id)) kept in (left, ltb (length left) (length kept))

pub clear_notifications : List Notification → List Notification
clear_notifications kept = []

-- a call of the API or of a backend module
pub data Call : Type 0 where
  add : Notification → Call
  ack : String → Call
  delete : String → Call
  clear : Call

pub call : Call → List Notification → List Notification
unfolding push_capped ack_notification delete_notification clear_notifications
call (add n) kept = push_capped n kept
call (ack id) kept = (ack_notification id kept).0
call (delete id) kept = (delete_notification id kept).0
call clear kept = clear_notifications kept

pub calls : List Call → List Notification → List Notification
calls [] kept = kept
calls (c ∷ cs) kept = calls cs (call c kept)

-- several additions in a row, oldest first
pub push_all : List Notification → List Notification → List Notification
push_all [] kept = kept
push_all (n ∷ ns) kept = push_all ns (push_capped n kept)
