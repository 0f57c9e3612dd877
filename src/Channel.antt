-- ===== src/Channel.antt =====
-- porpulsion/channel.py: one `PeerChannel`, its frames, and the request and reply traffic.
-- The thread pool, the clock and the socket are outside: a step returns what it hands to them, and
-- `up` says whether the socket takes what is sent during the step.
pub mod Dispatch
pub mod Calls
pub mod Pool
pub mod Answers
pub mod Loss
mod Tests
use porpulsion.Prelude.{
  ℕ, suc, ◌-◌, ◌*◌, String, Bool, true, false, not, ◌&&◌, Option, none, some, List, [], ◌∷◌, ◌++◌,
  ◌==◌, Dict, lookup, contains, insert, erase, is_some, map, if◌then◌else◌,
}
use porpulsion.Prelude.Text.{text}
use porpulsion.Prelude.Exec.{Result, ok, err, Exec, pure, raise, gets, modify, ◌>>=◌, ◌>>◌, rescue}
use porpulsion.Prelude.Json.{Json, text_at}

abbrev pub Payload : Type 0
Payload = Dict Json

-- A frame; an absent `id` is the empty text.
pub record Frame : Type 0 where
  pub id : String
  pub type : String
  pub ok : Bool
  pub error : Option String
  pub payload : Payload

abbrev pub request : String → String → Payload → Frame
request id type payload = record {
  id = id;
  type = type;
  ok = false;
  error = none;
  payload = payload;
}

abbrev pub reply_ok : String → Payload → Frame
reply_ok id payload = record { id = id; type = "reply"; ok = true; error = none; payload = payload }

abbrev pub reply_error : String → String → Frame
reply_error id error = record {
  id = id;
  type = "reply";
  ok = false;
  error = some error;
  payload = [];
}

-- an entry of `_pending`: the event of a blocked caller, and the reply
pub record Pending : Type 0 where
  pub event : Bool
  pub result : Option Frame

-- what a step hands to the socket, the thread pool and the notifications
pub data Output : Type 0 where
  send : ℕ → Frame → Output
  run_request run_push : String → Frame → Output
  version_mismatch : String → String → Output
  compare_schema : String → Payload → Output

-- `ws` is the socket in use; `handlers` are the registered message types
pub record PeerChannel : Type 0 where
  pub peer_name : String
  pub peer_url : String
  pub ca_pem : String
  pub peer_version_hash : String
  pub latency_ms : Option ℕ
  pub peer_remote_addr : String
  pub ws : Option ℕ
  pub pending : Dict Pending
  pub running : Bool
  pub handlers : Dict String
  pub connected : Bool
  pub ping_sent_at : Option ℕ
  pub ping_gen : ℕ
  -- what the steps have handed on so far
  pub outbox : List Output

unfoldable pub new_channel : (name url ca_pem : String) → PeerChannel
new_channel name url ca_pem = record {
  peer_name = name;
  peer_url = url;
  ca_pem = ca_pem;
  peer_version_hash = "";
  latency_ms = none;
  peer_remote_addr = "";
  ws = none;
  pending = [];
  running = true;
  handlers = [];
  connected = false;
  ping_sent_at = none;
  ping_gen = 0;
  outbox = [];
}

unfoldable pub register : String → String → PeerChannel → PeerChannel
register type handler ch = record ch { handlers = insert type handler ch.handlers }

abbrev pub emit : Output → PeerChannel → PeerChannel
emit o ch = record ch { outbox = ch.outbox ++ o ∷ [] }

-- `close` also shuts the pool down; the socket's own close cannot fail here
unfoldable pub close : PeerChannel → PeerChannel
close ch = record ch { running = false; ws = none }

unfoldable pub disconnect : PeerChannel → PeerChannel
disconnect ch = record ch { ws = none; connected = false }

abbrev pub not_connected : PeerChannel → String
not_connected ch = text ("channel to " ∷ ch.peer_name ∷ " is not connected" ∷ [])

module _ (up : Bool) where
  send_on : Frame → Option ℕ → Exec PeerChannel Unit
  send_on frame none ch = (err (not_connected ch), ch)
  send_on frame (some socket) ch =
      if up
      then (ok tt, emit (send socket frame) ch)
      else (err "channel send failed", record ch { ws = none })

  -- `_send_raw`: a failed send drops the socket
  unfoldable pub send_raw : Frame → Exec PeerChannel Unit
  unfolding send_on
  send_raw frame ch = send_on frame ch.ws ch

  unfoldable pub push : String → Payload → Exec PeerChannel Unit
  unfolding send_raw
  push type payload = send_raw (request "" type payload)

  -- `call` up to its wait, with a fresh id
  unfoldable pub call_begin : (req_id type : String) → Payload → Exec PeerChannel Unit
  unfolding send_raw
  call_begin req_id type payload = do
    modify (λ ch. record ch {
      pending = insert req_id (record { event = false; result = none }) ch.pending;
    })
    send_raw (request req_id type payload)

abbrev pub timed_out : String → String
timed_out type = text ("timeout waiting for reply to " ∷ type ∷ [])

abbrev pub error_text : Option String → String
error_text none = "peer error"
error_text (some e) = e

-- what a reply frame gives to the caller
abbrev pub reply_result : Frame → Result Payload
reply_result frame = if frame.ok then ok frame.payload else err (error_text frame.error)

abbrev answer : Bool → String → Option Frame → Result Payload
answer false type r = err (timed_out type)
answer true type none = err (timed_out type)
answer true type (some frame) = reply_result frame

abbrev call_result : Bool → String → Option Pending → Result Payload
call_result fired type none = err (timed_out type)
call_result fired type (some entry) = answer fired type entry.result

-- `call` after its wait; `fired` is what `event.wait` returned
unfoldable pub call_end : (fired : Bool) (req_id type : String) → Exec PeerChannel Payload
call_end fired req_id type ch = (
  call_result fired type (lookup req_id ch.pending),
  record ch { pending = erase req_id ch.pending },
)
