-- ===== src/Channel/Tests.antt =====
-- Runs of a channel at concrete inputs.
use porpulsion.Prelude.{
  ◌+◌, String, List, ◌≡◌, ◌≢◌, eq_iff, arith, refl, true, false, none, some, [], ◌∷◌, lookup,
}
use porpulsion.Prelude.Exec.{Result, err}
use porpulsion.Channel.{
  Frame, Payload, PeerChannel, new_channel, request, reply_ok, reply_result, push, send_raw,
  call_begin, call_end,
}
use porpulsion.Channel.Dispatch.{dispatch, dispatch_push, recv_loop, message, broken}
use porpulsion.Channel.Calls.{deliver, call_gets_reply}
use porpulsion.Channel.Pool.{Pool, Event, arrives, finishes}
use porpulsion.Channel.Answers.{history, answers, asked, answered_once}
use porpulsion.Channel.Loss.{IsLeft, recv_loop-IsLeft}

abbrev open_channel : PeerChannel
open_channel = record (new_channel "beta" "https://beta" "pem") { ws = some 1; connected = true }

abbrev asking : PeerChannel
asking = record open_channel { pending = ("r1", record { event = false; result = none }) ∷ [] }

abbrev ping : Frame
ping = request "" "ping" []

other_id : ping.id ≢ "r1"
other_id e = ground (arith, eq_iff ping.id "r1")

call_gets_reply_example :
    let asked = (call_begin true "r1" "remoteapp/status" [] open_channel).1 in
    let seen = (dispatch true "v" 7 (reply_ok "r1" []) (deliver true "v" 7 (ping ∷ []) asked)).1 in
    (call_end true "r1" "remoteapp/status" (deliver true "v" 7 (ping ∷ []) seen)).0
    ≡ reply_result (reply_ok "r1" [])
call_gets_reply_example =
    call_gets_reply true "v" 7 open_channel (reply_ok "r1" []) "remoteapp/status" [] (ping ∷ [])
      (ping ∷ []) refl (other_id, tt) (other_id, tt)

abbrev serving : Pool
serving = record {
  channel = record open_channel { handlers = ("remoteapp/logs", "logs") ∷ [] };
  jobs = [];
}

abbrev handle_any : String → Frame → Result Payload
handle_any h frame = err "no such app"

abbrev requests : List Event
requests =
    arrives 7 (request "q1" "remoteapp/logs" [])
    ∷ arrives 8 (request "q2" "remoteapp/none" [])
    ∷ arrives 9 ping
    ∷ finishes 0
    ∷ []

answered_once_example :
    answers "v" handle_any "q1" (λ f. true) (history "v" handle_any requests serving)
    ≡ answers "v" handle_any "q1" (λ f. true) serving
      + asked "v" handle_any "q1" (λ f. true) serving.channel.handlers requests
unfolding lookup new_channel
answered_once_example =
    answered_once "v" handle_any "q1" (λ f. true) 1 serving.channel.handlers requests serving refl
      (refl, refl, refl)

one_request : asked "v" handle_any "q1" (λ f. true) serving.channel.handlers requests ≡ 1
unfolding lookup
one_request = refl

recv_loop-IsLeft_example : IsLeft (recv_loop "v" (message true 7 ping ∷ broken ∷ []) asking).1
unfolding recv_loop dispatch dispatch_push push send_raw new_channel
recv_loop-IsLeft_example = recv_loop-IsLeft "v" (message true 7 ping ∷ broken ∷ []) asking refl
