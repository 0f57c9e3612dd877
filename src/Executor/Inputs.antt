-- ===== src/Executor/Inputs.antt =====
-- What is typed into a session of porpulsion/k8s/executor.py, and the pod that it reaches.
use porpulsion.Prelude.{
  ℕ, String, true, false, not, ◌≡◌, refl, ap, ◌∙◌, Option, none, some, List, [], ◌∷◌, lookup, any,
  All, ◌==◌, if◌then◌else◌, if-holds, lookup-insert, lookup-erase, lookup-insert_self, arith,
}
use porpulsion.Prelude.Text.{is_empty}
use porpulsion.Prelude.Exec.{Result, ok}
use porpulsion.Executor.Sessions.{
  Shell, Shells, typed, allowed_shell, exec_open_session, exec_send_stdin, ShellStep, opened, sent,
  resized, closed, stopped, left, shell_step, shell_steps, hang_up, resize_to, stop_shell, send_to,
}

-- the session that a step is about
abbrev pub session_of : ShellStep → String
session_of (opened pods opens fresh pod shell session_id cols rows) =
    if is_empty session_id then fresh else session_id
session_of (sent session_id chars) = session_id
session_of (resized session_id cols rows) = session_id
session_of (closed session_id) = session_id
session_of (stopped session_id) = session_id
session_of (left session_id) = session_id

abbrev pub IsOther : String → ShellStep → Type 0
IsOther id x = (session_of x == id) ≡ false

module _ (id : String) where
  send_to-keeps :
      (chars : String) (o : Option Shell) (s : Shells) → (send_to chars o s).1.sessions ≡ s.sessions
  send_to-keeps chars none s = refl
  send_to-keeps chars (some shell) s = ground arith

  resize_to-keeps :
      (cols rows : ℕ) (o : Option Shell) (s : Shells)
      → (resize_to cols rows o s).sessions ≡ s.sessions
  resize_to-keeps cols rows none s = refl
  resize_to-keeps cols rows (some shell) s = ground arith

  hang_up-keeps : (o : Option Shell) (s : Shells) → (hang_up o s).sessions ≡ s.sessions
  hang_up-keeps none s = refl
  hang_up-keeps (some shell) s = refl

  stop_shell-keeps :
      (k : String) (o : Option Shell) (s : Shells)
      → (k == id) ≡ false
      → lookup id (stop_shell k o s).sessions ≡ lookup id s.sessions
  stop_shell-keeps k none s n = refl
  stop_shell-keeps k (some shell) s n = rw (lookup-insert, n)

  step-keeps :
      (x : ShellStep) (s : Shells)
      → IsOther id x
      → lookup id (shell_step x s).sessions ≡ lookup id s.sessions
  unfolding shell_step
  step-keeps (opened pods opens fresh pod shell session_id cols rows) s n =
      if-holds (λ (r : Result String × Shells). lookup id (r.1).sessions ≡ lookup id s.sessions)
        (not (any (λ p. p == pod) pods)) _ _ refl
        (if-holds (λ (r : Result String × Shells). lookup id (r.1).sessions ≡ lookup id s.sessions)
          opens _ _ (rw (lookup-insert, n)) refl)
  step-keeps (sent k chars) s n = ap (lookup id) (send_to-keeps chars (lookup k s.sessions) s)
  step-keeps (resized k cols rows) s n =
      ap (lookup id) (resize_to-keeps cols rows (lookup k s.sessions) s)
  step-keeps (closed k) s n =
      ap (lookup id) (hang_up-keeps (lookup k s.sessions) _) ∙ rw (lookup-erase, n)
  step-keeps (stopped k) s n = stop_shell-keeps k (lookup k s.sessions) s n
  step-keeps (left k) s n = rw (lookup-erase, n)

  steps-keep :
      (xs : List ShellStep) (s : Shells)
      → All (IsOther id) xs
      → lookup id (shell_steps xs s).sessions ≡ lookup id s.sessions
  unfolding shell_steps
  steps-keep [] s h = refl
  steps-keep (x ∷ xs) s (n, h) = steps-keep xs (shell_step x s) h ∙ step-keeps x s n

  send-found :
      (pod shell chars : String) (s : Shells)
      → lookup id s.sessions ≡ some (record { pod = pod; shell = shell; stopped = false })
      → exec_send_stdin id chars s ≡ (ok tt, record s { inputs = typed pod chars ∷ s.inputs })
  unfolding exec_send_stdin
  send-found pod shell chars s h = rw h

-- A session that was opened in a pod of the app keeps to it: whatever is done in other sessions
-- meanwhile, what is typed into it goes to that pod.
pub input_reaches_pod :
    (pods : List String) (fresh pod shell session_id chars : String) (cols rows : ℕ)
    (xs : List ShellStep) (s : Shells)
    → any (λ p. p == pod) pods ≡ true
    → is_empty session_id ≡ false
    → All (IsOther session_id) xs
    → let begun = (exec_open_session pods true fresh pod shell session_id cols rows s).1 in
      let later = shell_steps xs begun in
      exec_send_stdin session_id chars later
      ≡ (ok tt, record later { inputs = typed pod chars ∷ later.inputs })
unfolding exec_open_session
input_reaches_pod pods fresh pod shell session_id chars cols rows xs s known named others =
    send-found session_id pod (allowed_shell shell) chars _
      (steps-keep session_id xs _ others ∙ rw (known, named, lookup-insert_self))
