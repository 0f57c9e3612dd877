-- ===== src/Channel/Pool.antt =====
-- The pool of porpulsion/channel.py that runs the handlers of requests, with what happens to a channel.
use porpulsion.Prelude.{ℕ, zero, suc, String, Option, none, some, List, [], ◌∷◌}
use porpulsion.Channel.{
  Frame, PeerChannel, Output, send, run_request, run_push, version_mismatch, compare_schema,
}

-- a submitted job: the handler, and the frame that it answers
abbrev pub Job : Type 0
Job = String × Frame

abbrev pub jobs_of : List Output → List Job
jobs_of [] = []
jobs_of (run_request h frame ∷ os) = (h, frame) ∷ jobs_of os
jobs_of (send socket frame ∷ os) = jobs_of os
jobs_of (run_push h frame ∷ os) = jobs_of os
jobs_of (version_mismatch a b ∷ os) = jobs_of os
jobs_of (compare_schema a b ∷ os) = jobs_of os

-- a channel and the jobs of its pool that have not ended
pub record Pool : Type 0 where
  pub channel : PeerChannel
  pub jobs : List Job

-- a frame comes in, or the job at a place ends
pub data Event : Type 0 where
  arrives : (now : ℕ) → Frame → Event
  finishes : (place : ℕ) → Event

abbrev pub taken : Job → Option (Job × List Job) → Option (Job × List Job)
taken j none = none
taken j (some (k, rest)) = some (k, j ∷ rest)

abbrev pub take_job : (place : ℕ) → List Job → Option (Job × List Job)
take_job place [] = none
take_job zero (j ∷ js) = some (j, js)
take_job (suc place) (j ∷ js) = taken j (take_job place js)
