-- ===== src/Apps/Proxied.antt =====
-- Operating an app through the agent that submitted it, against operating it where it runs
-- (porpulsion/routes/workloads.py with porpulsion/channel_handlers.py).
use porpulsion.Prelude.{
  ℕ, String, ◌≡◌, refl, ap, sym, ◌∙◌, ◌||◌, Option, some, or_default, lookup, nat_eq, ◌==◌, inl,
  inr, if◌then◌else◌, Bool-cases, arith,
}
use porpulsion.Prelude.Text.{is_empty, strip}
use porpulsion.Prelude.Strip.{strip-strip, strip-empty}
use porpulsion.Prelude.Exec.{Result, ok, err}
use porpulsion.Prelude.Int.{ℤ, pos, negsuc}
use porpulsion.Prelude.Json.{Json}
use porpulsion.Peers.{Peer}
use porpulsion.Apps.{AppCr, submitted_side, executing_side, get_cr_by_app_id}
use porpulsion.Apps.Editing.{IsOnly, IsOnly-found}
use porpulsion.Apps.Operations.{
  Workbench, Node, PeerCall, logs_call, pods_call, exec_call, restart_call, Reply, body, failed,
  crashed, Operation, logs, pods, restart, exec, operate, serve, found_or_raise,
  handle_remoteapp_logs, handle_remoteapp_pods, handle_remoteapp_restart, handle_remoteapp_exec,
  remoteapp_logs, remoteapp_pods, remoteapp_exec, remoteapp_restart, at_side, or_502, or_500,
  or_crash, clamp_tail, tail_or_default, name_or_none, or_pod, logs_here, pods_here, exec_here,
  restart_here, restarted, remote_app,
}

-- an error of the executing side comes through the channel, and is a 502
abbrev pub relayed : Reply → Reply
relayed (body j) = body j
relayed (failed code e) = if nat_eq code 500 then failed 502 e else failed code e
relayed (crashed e) = failed 502 e

name_or_none-again : (x : Option String) → name_or_none (name_or_none x) ≡ name_or_none x
name_or_none-again x = elim (Bool-cases (is_empty (strip (or_default "" x)))) [
  | inl blank ↦ rw blank (rw strip-empty refl)
  | inr named ↦ rw named (rw (strip-strip (or_default "" x), named) refl)
]

tail-again : (n : ℤ) → tail_or_default (clamp_tail n) ≡ clamp_tail n
tail-again (negsuc n) = refl
tail-again (pos n) = ground arith

relayed-or_crash : (r : Result Json) → or_502 r ≡ relayed (or_crash r)
relayed-or_crash (ok j) = refl
relayed-or_crash (err e) = refl

relayed-or_500 : (r : Result Json) → or_502 r ≡ relayed (or_500 r)
relayed-or_500 (ok j) = refl
relayed-or_500 (err e) = refl

-- the handlers clamp and strip what was clamped and stripped
handled_logs :
    (bench : Workbench) (app_id : String) (tail : ℤ) (pod : Option String)
    (sorting cr_name : String) (cr : AppCr)
    → handle_remoteapp_logs bench app_id (clamp_tail tail) (name_or_none pod) sorting (cr_name, cr)
      ≡ bench.get_pod_logs
          (remote_app app_id "" cr_name cr)
          (clamp_tail tail)
          (name_or_none pod)
          (sorting == "time")
unfolding handle_remoteapp_logs
handled_logs bench app_id tail pod sorting cr_name cr i =
    bench.get_pod_logs (remote_app app_id "" cr_name cr) (tail-again tail i)
      (name_or_none-again pod i) (sorting == "time")

handled_exec :
    (bench : Workbench) (app_id pod command cr_name : String) (cr : AppCr)
    → handle_remoteapp_exec bench app_id (strip pod) (strip command) (cr_name, cr)
      ≡ bench.exec_in_pod (remote_app app_id "" cr_name cr) (strip pod) (strip command)
unfolding handle_remoteapp_exec
handled_exec bench app_id pod command cr_name cr i =
    bench.exec_in_pod (remote_app app_id "" cr_name cr) (strip-strip pod i) (strip-strip command i)

module _ (app_id : String) (a b : Node) (p : Peer) (a_name b_name : String) (a_cr b_cr : AppCr)
    (at : IsOnly submitted_side app_id a.desk a_name a_cr)
    (bt : IsOnly executing_side app_id b.desk b_name b_cr)
    (known : lookup a_cr.target_peer a.peers ≡ some p)
    (wired : (c : PeerCall) → a.call p.name c ≡ serve b.bench b.desk c) where
  asks :
      (code : ℕ) (c : PeerCall) (here : String × AppCr → Reply)
      → at_side code a c here (get_cr_by_app_id app_id a.desk) ≡ or_502 (serve b.bench b.desk c)
  asks code c here =
      let (found, executing) = IsOnly-found submitted_side app_id a.desk a_name a_cr at in
      rw (found, known, wired c) refl

  does :
      (code : ℕ) (c : PeerCall) (here : String × AppCr → Reply)
      → at_side code b c here (get_cr_by_app_id app_id b.desk) ≡ here (b_name, b_cr)
  does code c here =
      let (found, executing) = IsOnly-found executing_side app_id b.desk b_name b_cr bt in
      rw found refl

  -- one operation, given what the peer's handler does with the call
  same :
      (code : ℕ) (c : PeerCall) (at_a here : String × AppCr → Reply) (r : Result Json)
      → serve b.bench b.desk c ≡ r
      → or_502 r ≡ relayed (here (b_name, b_cr))
      → at_side code a c at_a (get_cr_by_app_id app_id a.desk)
        ≡ relayed (at_side code b c here (get_cr_by_app_id app_id b.desk))
  same code c at_a here r served equal =
      asks code c at_a ∙ ap or_502 served ∙ equal ∙ ap relayed (sym (does code c here))

  abbrev served_by : (String × AppCr → Result Json) → Option (String × AppCr) → Result Json
  served_by = found_or_raise b.bench

  served_logs :
      (tail : Option ℤ) (pod : Option String) (sorting : String)
      → let lines = clamp_tail (or_default (pos 200) tail) in
        serve b.bench b.desk (logs_call app_id lines (name_or_none pod) sorting)
        ≡ b.bench.get_pod_logs
            (remote_app app_id "" b_name b_cr)
            lines
            (name_or_none pod)
            (sorting == "time")
  unfolding serve handle_remoteapp_logs
  served_logs tail pod sorting =
      let lines = clamp_tail (or_default (pos 200) tail) in
      ap (served_by (handle_remoteapp_logs b.bench app_id lines (name_or_none pod) sorting)) bt.0
      ∙ handled_logs b.bench app_id (or_default (pos 200) tail) pod sorting b_name b_cr

  served_pods :
      serve b.bench b.desk (pods_call app_id) ≡ b.bench.list_pods (remote_app app_id "" b_name b_cr)
  unfolding serve handle_remoteapp_pods
  served_pods = rw bt.0 refl

  served_restart :
      serve b.bench b.desk (restart_call app_id)
      ≡ restarted (b.bench.rollout_restart (remote_app app_id b_cr.resource_name b_name b_cr))
  unfolding serve handle_remoteapp_restart
  served_restart = rw bt.0 refl

  served_exec :
      (pod command : String)
      → serve b.bench b.desk (exec_call app_id (strip pod) (strip command))
        ≡ b.bench.exec_in_pod (remote_app app_id "" b_name b_cr) (strip pod) (strip command)
  unfolding serve handle_remoteapp_exec
  served_exec pod command =
      ap (served_by (handle_remoteapp_exec b.bench app_id (strip pod) (strip command))) bt.0
      ∙ handled_exec b.bench app_id pod command b_name b_cr

  -- Where agent `a` submitted an app to a peer that it knows, the app runs at agent `b`, and what `a`
  -- calls at that peer is served by `b`: asking `a` for the logs or the pods of the app, or to restart
  -- it or to run a command in a pod, is answered as asking `b` is, errors of `b` becoming a 502.
  pub proxied_as_local : (op : Operation) → operate app_id op a ≡ relayed (operate app_id op b)
  unfolding operate remoteapp_logs remoteapp_pods remoteapp_exec remoteapp_restart
  proxied_as_local (logs tail pod order) =
      let lines = clamp_tail (or_default (pos 200) tail) in
      let sorting = or_pod (or_default "" order) in
      same 200 _ (logs_here app_id lines (name_or_none pod) sorting a)
        (logs_here app_id lines (name_or_none pod) sorting b) _ (served_logs tail pod sorting)
        (relayed-or_crash _)
  proxied_as_local pods =
      same 200 _ (pods_here app_id a) (pods_here app_id b) _ served_pods (relayed-or_crash _)
  proxied_as_local restart =
      same 503 _ (restart_here app_id a) (restart_here app_id b) _ served_restart (relayed-or_500 _)
  proxied_as_local (exec pod command) =
      elim (Bool-cases (is_empty (strip pod) || is_empty (strip command))) [
        | inl blank ↦ rw blank refl
        | inr given ↦ rw given (
            same 503 _ (exec_here app_id (strip pod) (strip command) a)
              (exec_here app_id (strip pod) (strip command) b) _ (served_exec pod command)
              (relayed-or_crash _))
      ]
