-- ===== src/Notifications/Bounds.antt =====
-- The list never grows past its cap, and what is kept is the newest.
use porpulsion.Prelude.{
  ◌≤◌, ◌≡◌, refl, sym, ap, ◌∙◌, String, not, ◌==◌, List, [], ◌∷◌, ◌++◌, arith, length, take,
  take_all, length-take-le, length-keep-le, take-cons-take,
}
use mathlib.Core.List.{reverse, reverse-cons, append_assoc}
use porpulsion.Notifications.{
  Notification, max_kept, push_capped, ack_notification, Call, add, ack, delete, clear, call, calls,
  push_all,
}

length-push_capped-le :
    (n : Notification) (kept : List Notification) → length (push_capped n kept) ≤ max_kept
unfolding push_capped
length-push_capped-le n kept = ground (arith, length-take-le max_kept (n ∷ kept))

length-ack :
    (id : String) (kept : List Notification) → length (ack_notification id kept).0 ≡ length kept
unfolding ack_notification
length-ack id [] = refl
length-ack id (n ∷ kept) = ground (arith, length-ack id kept)

length-call-le :
    (c : Call) (kept : List Notification) → length kept ≤ max_kept → length (call c kept) ≤ max_kept
unfolding call
length-call-le (add n) kept h = length-push_capped-le n kept
length-call-le (ack id) kept h = omega (arith, length-ack id kept)
length-call-le (delete id) kept h =
    omega (arith, length-keep-le (λ (n : Notification). not (n.id == id)) kept)
length-call-le clear kept h = omega arith

-- Whatever calls are made, in whatever order, at most `max_kept` notifications are held.
pub calls_bounded :
    (cs : List Call) (kept : List Notification)
    → length kept ≤ max_kept
    → length (calls cs kept) ≤ max_kept
unfolding calls
calls_bounded [] kept h = h
calls_bounded (c ∷ cs) kept h = calls_bounded cs (call c kept) (length-call-le c kept h)

push_capped-eq-take :
    (n : Notification) (kept : List Notification) → push_capped n kept ≡ take max_kept (n ∷ kept)
unfolding push_capped
push_capped-eq-take n kept = ground (arith, take_all max_kept (n ∷ kept))

push_all-take :
    (ns kept : List Notification)
    → push_all ns (take max_kept kept) ≡ take max_kept (reverse ns ++ kept)
unfolding push_all
push_all-take [] kept = refl
push_all-take (n ∷ ns) kept =
    ap (push_all ns) (push_capped-eq-take n (take max_kept kept) ∙ take-cons-take max_kept n kept)
    ∙ push_all-take ns (n ∷ kept)
    ∙ ap (take max_kept) (rw (reverse-cons, append_assoc))

-- After any number of additions the list holds the newest `max_kept` of them, newest first, and
-- behind them what was there before, as far as the cap allows.
pub push_all_newest :
    (ns kept : List Notification)
    → length kept ≤ max_kept
    → push_all ns kept ≡ take max_kept (reverse ns ++ kept)
push_all_newest ns kept h =
    ap (push_all ns) (sym (take_all max_kept kept h)) ∙ push_all-take ns kept
