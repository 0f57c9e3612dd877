-- ===== src/Reconnect/Tests.antt =====
-- Runs of the reconnect loop at concrete inputs.
use porpulsion.Prelude.{◌≡◌, leb, if◌then◌else◌}
use porpulsion.Reconnect.{fresh, connect_and_maintain}
use porpulsion.Reconnect.Schedule.{refusals, sleeps, notices, waits, outage_schedule}

outage_schedule_example :
    let (end, acts) = connect_and_maintain (refusals 6) fresh in
    (sleeps acts ≡ waits 0 6) × (notices acts ≡ (if leb 5 6 then 1 else 0))
outage_schedule_example = outage_schedule 6
