-- ===== src/LogBuffer.antt =====
-- porpulsion/log_buffer.py and the route of porpulsion/routes/logs.py: a bounded buffer of log
-- entries, made once. `none` is the buffer before `install_log_handler`.
pub mod Window
mod Tests
use porpulsion.Prelude.{
  ℕ, ◌-◌, String, Option, none, some, List, [], ◌∷◌, ◌++◌, length, drop, ltb, nat_eq, if◌then◌else◌,
}
use porpulsion.Prelude.Int.{ℤ, pos, ltb_ℤ, clamp_zero}

-- what `LogBufferHandler.emit` keeps of a record; times are whole microseconds
pub record LogEntry : Type 0 where
  pub ts : ℕ
  pub name : String
  pub level : String
  pub message : String

-- `deque(maxlen=capacity)`
pub record Buffer : Type 0 where
  pub maxlen : ℕ
  pub entries : List LogEntry

-- the handler is installed once; a later call changes nothing
pub install_log_handler : ℕ → Option Buffer → Option Buffer
install_log_handler capacity none = some (record { maxlen = capacity; entries = [] })
install_log_handler capacity (some b) = some b

-- `LogBufferHandler.emit`: a full deque drops its oldest entry
pub emit : LogEntry → Buffer → Buffer
emit e b =
    let grown = b.entries ++ e ∷ [] in
    record b { entries = if ltb b.maxlen (length grown) then drop 1 grown else grown }

pub emit_all : List LogEntry → Buffer → Buffer
emit_all [] b = b
emit_all (e ∷ es) b = emit_all es (emit e b)

pub get_recent_logs : ℕ → Option Buffer → List LogEntry
get_recent_logs limit none = []
get_recent_logs limit (some b) =
    let size = length b.entries in
    let n = if ltb limit size then limit else size in
    if nat_eq n 0 then [] else drop (size - n) b.entries

-- `get_logs` of routes/logs.py: `max(1, min(TAIL_MAX, tail))`, by default 200
pub clamp_tail : Option ℤ → ℕ
clamp_tail none = 200
clamp_tail (some tail) =
    if ltb_ℤ (pos 500) tail then 500 else if ltb_ℤ tail (pos 1) then 1 else clamp_zero tail

pub get_logs : Option ℤ → Option Buffer → List LogEntry
unfolding get_recent_logs clamp_tail
get_logs tail b = get_recent_logs (clamp_tail tail) b
