-- ===== src/LogBuffer/Tests.antt =====
-- Runs of the log buffer at concrete inputs.
use porpulsion.Prelude.{◌≡◌, String, some, List, [], ◌∷◌, last_of}
use porpulsion.Prelude.Int.{pos}
use porpulsion.LogBuffer.{LogEntry, get_logs, clamp_tail}
use porpulsion.LogBuffer.Window.{logged, logs_window}

abbrev line : String → LogEntry
line m = record { ts = 5; name = "porpulsion"; level = "INFO"; message = m }

abbrev lines : List LogEntry
lines = line "a" ∷ line "b" ∷ line "c" ∷ line "d" ∷ []

logs_window_example :
    get_logs (some (pos 2)) (logged 3 lines) ≡ last_of (clamp_tail (some (pos 2))) (last_of 3 lines)
logs_window_example = logs_window (some (pos 2)) 3 lines
