-- ===== src/Channel/Dispatch.antt =====
-- `_dispatch` and the receive loops of `PeerChannel`.
use porpulsion.Prelude.{
  ℕ, ◌-◌, String, Bool, true, false, not, ◌&&◌, Option, none, some, List, [], ◌∷◌, ◌==◌, lookup,
  contains, insert, map, is_some, nat_eq, ◌||◌, if◌then◌else◌,
}
use porpulsion.Prelude.Text.{is_empty, text}
use porpulsion.Prelude.Exec.{Result, ok, err, Exec, pure, modify, rescue}
use porpulsion.Prelude.Json.{text_at}
use porpulsion.Channel.{
  Frame, Payload, Pending, PeerChannel, run_request, run_push, version_mismatch, compare_schema,
  reply_ok, reply_error, emit, send_raw, push,
}

-- a reply wakes the caller that waits for it
unfoldable pub settle : Frame → PeerChannel → PeerChannel
settle frame ch = record ch {
  pending = insert frame.id (record { event = true; result = some frame }) ch.pending;
}

-- `version` is this agent's hash, `now` the clock in milliseconds
module _ (up : Bool) (version : String) (now : ℕ) where
  unfoldable pub dispatch_request : Frame → Option String → Exec PeerChannel Unit
  dispatch_request frame (some h) = modify (emit (run_request h frame))
  dispatch_request frame none =
      send_raw up (reply_error frame.id (text ("unknown type: " ∷ frame.type ∷ [])))

  unfoldable pub take_pong : Option ℕ → PeerChannel → PeerChannel
  take_pong none ch = ch
  take_pong (some sent) ch = record ch { latency_ms = some (now - sent); ping_sent_at = none }

  -- the peer's version, and a warning where both are known and differ
  unfoldable pub take_version : String → PeerChannel → PeerChannel
  take_version peer_ver ch =
      let ch' = record ch { peer_version_hash = peer_ver } in
      if not (is_empty peer_ver) && (not (is_empty version) && not (peer_ver == version))
      then emit (version_mismatch ch.peer_name peer_ver) ch'
      else ch'

  unfoldable pub dispatch_other : Frame → Option String → Exec PeerChannel Unit
  dispatch_other frame (some h) = modify (emit (run_push h frame))
  dispatch_other frame none = pure tt

  unfoldable pub dispatch_push : Frame → Exec PeerChannel Unit
  unfolding take_pong take_version dispatch_other
  dispatch_push frame ch =
      if frame.type == "ping"
      then push up "pong" [] ch
      else if frame.type == "pong"
      then (ok tt, take_pong ch.ping_sent_at ch)
      else if frame.type == "version/announce"
      then (ok tt, take_version (text_at "version" frame.payload) ch)
      else if frame.type == "crd/schema-announce"
      then (ok tt, emit (compare_schema ch.peer_name frame.payload) ch)
      else dispatch_other frame (lookup frame.type ch.handlers) ch

  unfoldable pub dispatch : Frame → Exec PeerChannel Unit
  unfolding settle
  dispatch frame ch =
      if is_empty frame.id
      then dispatch_push frame ch
      else if contains frame.id ch.pending
      then (ok tt, settle frame ch)
      else dispatch_request frame (lookup frame.type ch.handlers) ch

-- the job that `_dispatch` submits for a request, when its handler has ended; the second send is
-- made after the first one raised
unfoldable pub finish_request : (up up' : Bool) → String → Result Payload → Exec PeerChannel Unit
finish_request up up' id (ok payload) =
    rescue (send_raw up (reply_ok id payload)) (λ e. send_raw up' (reply_error id e))
finish_request up up' id (err e) = send_raw up' (reply_error id e)

-- after either receive loop: nobody is left waiting
abbrev pub wake : Pending → Pending
wake entry = record entry { event = true }

unfoldable pub leave_loop : PeerChannel → PeerChannel
leave_loop ch = record ch {
  ws = none;
  connected = false;
  pending = map (λ e. (e.0, wake e.1)) ch.pending;
}

-- what one `recv` gives; `nothing` is `None`, `blank` the empty text
pub data Received : Type 0 where
  broken nothing blank bad_json : Received
  message : Bool → ℕ → Frame → Received

-- how a loop stands after the events so far; `crashed` is an exception that left it
pub data LoopEnd : Type 0 where
  waiting left : LoopEnd
  crashed : String → LoopEnd

abbrev pub ended : PeerChannel → LoopEnd × PeerChannel
ended ch = (left, leave_loop ch)

abbrev pub continue :
    (PeerChannel → LoopEnd × PeerChannel) → Result Unit × PeerChannel → LoopEnd × PeerChannel
continue rest (ok _, ch) = rest ch
continue rest (err e, ch) = (crashed e, ch)

module _ (version : String) where
  -- `_recv_loop` runs while the channel runs and has a socket
  unfoldable pub recv_loop : List Received → PeerChannel → LoopEnd × PeerChannel
  recv_loop [] ch = (waiting, ch)
  recv_loop (r ∷ rs) ch =
      let rest = recv_loop rs in
      if not (ch.running && is_some ch.ws) then ended ch else elim r [
        | broken ↦ ended ch
        | nothing ↦ rest ch
        | blank ↦ ended ch
        | bad_json ↦ rest ch
        | message up now frame ↦ continue rest (dispatch up version now frame ch)
      ]

  -- `_inbound_recv_loop` does not look at the socket, and skips an empty text
  unfoldable pub inbound_recv_loop : List Received → PeerChannel → LoopEnd × PeerChannel
  inbound_recv_loop [] ch = (waiting, ch)
  inbound_recv_loop (r ∷ rs) ch =
      let rest = inbound_recv_loop rs in
      if not ch.running then ended ch else elim r [
        | broken ↦ ended ch
        | message up now frame ↦ continue rest (dispatch up version now frame ch)
        | _ ↦ rest ch
      ]

-- `_ping_loop`: one round after its sleep, in a thread of generation `gen`. It goes on or ends.
unfoldable pub ping_round : (up : Bool) (now gen : ℕ) → PeerChannel → Bool × PeerChannel
ping_round up now gen ch =
    if not ch.running || not (nat_eq ch.ping_gen gen)
    then (false, ch)
    else next (push up "ping" [] (record ch { ping_sent_at = some now }))
  where
    next : Result Unit × PeerChannel → Bool × PeerChannel
    next (ok _, ch') = (is_some ch'.ws && nat_eq ch'.ping_gen gen && ch'.running, ch')
    next (err _, ch') = (false, ch')
