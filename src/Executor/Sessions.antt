-- ===== src/Executor/Sessions.antt =====
-- The interactive shells of porpulsion/k8s/executor.py on the executing side, with the handlers of
-- porpulsion/channel_handlers.py that call them. The stream of a shell is outside: what is written to it
-- is kept with the pod, and whether the API opens it is an argument.
use porpulsion.Prelude.{
  ℕ, String, Bool, true, false, not, ◌||◌, Option, none, some, List, [], ◌∷◌, Dict, lookup, insert,
  erase, any, ◌==◌, if◌then◌else◌,
}
use porpulsion.Prelude.Text.{is_empty, text}
use porpulsion.Prelude.Exec.{ok, err, Exec}

pub record Shell : Type 0 where
  pub pod : String
  pub shell : String
  pub stopped : Bool

-- what goes to the streams, by pod
pub data Input : Type 0 where
  typed : (pod chars : String) → Input
  sized : (pod : String) (cols rows : ℕ) → Input
  hung_up : (pod : String) → Input

-- `_exec_sessions`
pub record Shells : Type 0 where
  pub sessions : Dict Shell
  pub inputs : List Input

abbrev pub write : Input → Shells → Shells
write i s = record s { inputs = i ∷ s.inputs }

-- `_ALLOWED_SHELLS`
abbrev pub allowed_shell : String → String
allowed_shell shell = if shell == "/bin/sh" || shell == "/bin/bash" then shell else "/bin/sh"

abbrev pub not_found : String → String
not_found pod = text ("pod '" ∷ pod ∷ "' not found for this app" ∷ [])

-- `exec_open_session`; `pods` are those of the app, and `opens` is whether the API gives a stream
unfoldable pub exec_open_session :
    (pods : List String) (opens : Bool) (fresh pod shell session_id : String) (cols rows : ℕ)
    → Exec Shells String
exec_open_session pods opens fresh pod shell session_id cols rows s =
    let id = if is_empty session_id then fresh else session_id in
    if not (any (λ p. p == pod) pods)
    then (err (not_found pod), s)
    else if opens
    then (
      ok id,
      record s {
        sessions =
            insert id (record { pod = pod; shell = allowed_shell shell; stopped = false })
              s.sessions;
        inputs = sized pod cols rows ∷ s.inputs;
      },
    )
    else (err "stream failed", s)

abbrev pub closed_session : String
closed_session = "session not found or closed"

abbrev pub send_to : (chars : String) → Option Shell → Exec Shells Unit
send_to chars none s = (err closed_session, s)
send_to chars (some shell) s =
    if shell.stopped then (err closed_session, s) else (ok tt, write (typed shell.pod chars) s)

unfoldable pub exec_send_stdin : (session_id chars : String) → Exec Shells Unit
exec_send_stdin session_id chars s = send_to chars (lookup session_id s.sessions) s

abbrev pub resize_to : (cols rows : ℕ) → Option Shell → Shells → Shells
resize_to cols rows none s = s
resize_to cols rows (some shell) s =
    if shell.stopped then s else write (sized shell.pod cols rows) s

unfoldable pub exec_resize_session : (session_id : String) (cols rows : ℕ) → Shells → Shells
exec_resize_session session_id cols rows s = resize_to cols rows (lookup session_id s.sessions) s

abbrev pub hang_up : Option Shell → Shells → Shells
hang_up none s = s
hang_up (some shell) s = write (hung_up shell.pod) s

unfoldable pub exec_close_session : (session_id : String) → Shells → Shells
exec_close_session session_id s =
    hang_up (lookup session_id s.sessions) (record s { sessions = erase session_id s.sessions })

abbrev pub stop_shell : (session_id : String) → Option Shell → Shells → Shells
stop_shell session_id none s = s
stop_shell session_id (some shell) s = record s {
  sessions = insert session_id (record shell { stopped = true }) s.sessions;
}

-- the end of `_read_loop`: first the event is set, and later the entry goes
unfoldable pub read_loop_stops : (session_id : String) → Shells → Shells
read_loop_stops session_id s = stop_shell session_id (lookup session_id s.sessions) s

unfoldable pub read_loop_leaves : (session_id : String) → Shells → Shells
read_loop_leaves session_id s = record s { sessions = erase session_id s.sessions }

pub data ShellStep : Type 0 where
  opened :
      (pods : List String) (opens : Bool) (fresh pod shell session_id : String) (cols rows : ℕ)
      → ShellStep
  sent : (session_id chars : String) → ShellStep
  resized : (session_id : String) (cols rows : ℕ) → ShellStep
  closed stopped left : (session_id : String) → ShellStep

unfoldable pub shell_step : ShellStep → Shells → Shells
unfolding exec_open_session exec_send_stdin exec_resize_session exec_close_session read_loop_stops
    read_loop_leaves
shell_step (opened pods opens fresh pod shell session_id cols rows) s =
    (exec_open_session pods opens fresh pod shell session_id cols rows s).1
shell_step (sent session_id chars) s = (exec_send_stdin session_id chars s).1
shell_step (resized session_id cols rows) s = exec_resize_session session_id cols rows s
shell_step (closed session_id) s = exec_close_session session_id s
shell_step (stopped session_id) s = read_loop_stops session_id s
shell_step (left session_id) s = read_loop_leaves session_id s

unfoldable pub shell_steps : List ShellStep → Shells → Shells
unfolding shell_step
shell_steps [] s = s
shell_steps (x ∷ xs) s = shell_steps xs (shell_step x s)
