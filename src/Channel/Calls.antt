-- ===== src/Channel/Calls.antt =====
-- Requests and replies: what a caller gets.
use porpulsion.Prelude.{
  ℕ, String, Bool, true, false, ◌≡◌, refl, ◌≢◌, ap, ◌∙◌, Option, none, some, List, [], ◌∷◌, lookup,
  contains, is_some, lookup-insert, lookup-map, dict_laws, eq_iff, All, arith,
}
use porpulsion.Prelude.Text.{is_empty}
use porpulsion.Prelude.Exec.{err}
use porpulsion.Channel.{
  Frame, Payload, PeerChannel, reply_result, timed_out, send_raw, push, call_begin, call_end,
  call_result,
}
use porpulsion.Channel.Dispatch.{wake, dispatch, dispatch_push, dispatch_request, leave_loop}

module _ (up : Bool) (version : String) (now : ℕ) (frame : Frame) (ch : PeerChannel) where
  pending-send_raw : (send_raw up frame ch).1.pending ≡ ch.pending
  unfolding send_raw
  pending-send_raw = ground arith

  pending-push : (dispatch_push up version now frame ch).1.pending ≡ ch.pending
  unfolding dispatch_push push
  pending-push = ground arith

  pending-request :
      (h : Option String) → (dispatch_request up version now frame h ch).1.pending ≡ ch.pending
  unfolding dispatch_request send_raw
  pending-request h = ground arith

  -- a frame with another id leaves the caller's entry alone
  dispatch-pending_ne :
      (id : String)
      → frame.id ≢ id
      → lookup id (dispatch up version now frame ch).1.pending ≡ lookup id ch.pending
  unfolding dispatch
  dispatch-pending_ne id h = ground (
    arith,
    eq_iff frame.id id,
    pending-push,
    pending-request (lookup frame.type ch.handlers),
    lookup-insert frame.id id (record { event = true; result = some frame }) ch.pending,
  )

  dispatch-pending_self :
      is_empty frame.id ≡ false
      → contains frame.id ch.pending ≡ true
      → lookup frame.id (dispatch up version now frame ch).1.pending
        ≡ some (record { event = true; result = some frame })
  unfolding dispatch
  dispatch-pending_self h c = rw (h, c) (simp dict_laws)

-- frames from the receive loop, in order; an exception leaves the loop and drops nothing here
unfoldable pub deliver : Bool → String → ℕ → List Frame → PeerChannel → PeerChannel
deliver up version now [] ch = ch
deliver up version now (f ∷ fs) ch = deliver up version now fs (dispatch up version now f ch).1

-- none of the frames carries the id
abbrev pub Others : String → List Frame → Type 0
Others id = All (λ f. f.id ≢ id)

module _ (up : Bool) (version : String) (now : ℕ) where
  deliver-pending_ne :
      (id : String) (fs : List Frame) (ch : PeerChannel)
      → Others id fs
      → lookup id (deliver up version now fs ch).pending ≡ lookup id ch.pending
  unfolding deliver
  deliver-pending_ne id [] ch h = refl
  deliver-pending_ne id (f ∷ fs) ch (h, hs) =
      deliver-pending_ne id fs (dispatch up version now f ch).1 hs
      ∙ dispatch-pending_ne up version now f ch id h

  begun :
      (id type : String) (payload : Payload) (ch : PeerChannel)
      → lookup id (call_begin up id type payload ch).1.pending
        ≡ some (record { event = false; result = none })
  unfolding call_begin
  begun id type payload ch = simp pending-send_raw (simp dict_laws)

  -- A caller gets the reply to its own request, whatever other frames arrive before or after it:
  -- the reply's payload, or its error raised.
  pub call_gets_reply :
      (ch : PeerChannel) (reply : Frame) (type : String) (payload : Payload)
      (before behind : List Frame)
      → is_empty reply.id ≡ false
      → Others reply.id before
      → Others reply.id behind
      → let asked = (call_begin up reply.id type payload ch).1 in
        let seen = (dispatch up version now reply (deliver up version now before asked)).1 in
        (call_end true reply.id type (deliver up version now behind seen)).0 ≡ reply_result reply
  unfolding call_end
  call_gets_reply ch reply type payload before behind h hb ha = ap (call_result true type) (
      deliver-pending_ne reply.id behind _ ha
      ∙ dispatch-pending_self up version now reply _ h (ap is_some waiting))
    where
      waiting :
          lookup reply.id
            (deliver up version now before (call_begin up reply.id type payload ch).1).pending
          ≡ some (record { event = false; result = none })
      waiting = deliver-pending_ne reply.id before _ hb ∙ begun reply.id type payload ch

-- Leaving the receive loop wakes every caller: one whose reply has not come gets the timeout error.
pub lost_call_times_out :
    (id type : String) (ch : PeerChannel)
    → lookup id ch.pending ≡ some (record { event = false; result = none })
    → let gone = leave_loop ch in
      (lookup id gone.pending ≡ some (record { event = true; result = none }))
      × ((call_end true id type gone).0 ≡ err (timed_out type))
      × (gone.connected ≡ false)
unfolding leave_loop call_end
lost_call_times_out id type ch h = ground (arith, lookup-map wake id ch.pending)
