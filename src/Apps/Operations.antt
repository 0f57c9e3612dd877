-- ===== src/Apps/Operations.antt =====
-- The operations on a running app: the routes `remoteapp_logs`, `remoteapp_pods`, `remoteapp_exec` and
-- `remoteapp_restart` of porpulsion/routes/workloads.py, which for a submitted app call its peer, and the
-- handlers of the same names in porpulsion/channel_handlers.py, which answer there.
use porpulsion.Prelude.{
  ℕ, String, Bool, true, ◌||◌, Option, none, some, or_default, Dict, lookup, nat_eq, leb, ◌==◌,
  if◌then◌else◌,
}
use porpulsion.Prelude.Text.{is_empty, strip}
use porpulsion.Prelude.Exec.{Result, ok, err}
use porpulsion.Prelude.Int.{ℤ, pos, negsuc}
use porpulsion.Prelude.Json.{Json, bool, end, field, obj}
use porpulsion.Peers.{Peer}
use porpulsion.Apps.{AppCr, Desk, Side, submitted_side, executing_side, by_app_id, get_cr_by_app_id}

-- the `RemoteApp` that a handler makes for the executor; the spec plays no part in these operations
pub record ExecutedApp : Type 0 where
  pub id : String
  pub name : String
  pub source_peer : String
  pub resource_name : String

-- the operations of porpulsion/k8s/executor.py; an exception is `err`
pub record Workbench : Type 0 where
  pub get_pod_logs :
      ExecutedApp → (tail : ℕ) (pod_name : Option String) (order_by_time : Bool) → Result Json
  pub list_pods : ExecutedApp → Result Json
  pub exec_in_pod : ExecutedApp → (pod_name command : String) → Result Json
  pub rollout_restart : ExecutedApp → Result Unit

-- what is sent to the peer: the type of the frame, and its payload
pub data PeerCall : Type 0 where
  logs_call : (id : String) (tail : ℕ) (pod : Option String) (order : String) → PeerCall
  pods_call : (id : String) → PeerCall
  exec_call : (id pod command : String) → PeerCall
  restart_call : (id : String) → PeerCall

abbrev pub remote_app : (app_id resource_name cr_name : String) → AppCr → ExecutedApp
remote_app app_id resource_name cr_name cr = record {
  id = app_id;
  name = cr_name;
  source_peer = cr.source_peer;
  resource_name = resource_name;
}

-- `(x or "").strip() or None`
abbrev pub name_or_none : Option String → Option String
name_or_none x = let name = strip (or_default "" x) in if is_empty name then none else some name

-- `payload.get("tail") or 200`
abbrev pub tail_or_default : ℕ → ℕ
tail_or_default tail = if nat_eq tail 0 then 200 else tail

abbrev pub restarted : Result Unit → Result Json
restarted (ok _) = ok (obj (field "ok" (bool true) end))
restarted (err e) = err e

module _ (bench : Workbench) where
  -- the four handlers, with the resource that `get_ea_cr_by_app_id` finds
  unfoldable pub handle_remoteapp_logs :
      (id : String) (tail : ℕ) (pod : Option String) (order : String) → String × AppCr → Result Json
  handle_remoteapp_logs id tail pod order (cr_name, cr) =
      bench.get_pod_logs (remote_app id "" cr_name cr) (tail_or_default tail) (name_or_none pod)
        (order == "time")

  unfoldable pub handle_remoteapp_pods : (id : String) → String × AppCr → Result Json
  handle_remoteapp_pods id (cr_name, cr) = bench.list_pods (remote_app id "" cr_name cr)

  unfoldable pub handle_remoteapp_exec : (id pod command : String) → String × AppCr → Result Json
  handle_remoteapp_exec id pod command (cr_name, cr) =
      bench.exec_in_pod (remote_app id "" cr_name cr) (strip pod) (strip command)

  unfoldable pub handle_remoteapp_restart : (id : String) → String × AppCr → Result Json
  handle_remoteapp_restart id (cr_name, cr) =
      restarted (bench.rollout_restart (remote_app id cr.resource_name cr_name cr))

  abbrev pub found_or_raise : (String × AppCr → Result Json) → Option (String × AppCr) → Result Json
  found_or_raise f none = err "app not found"
  found_or_raise f (some e) = f e

  unfoldable pub serve : Desk → PeerCall → Result Json
  unfolding handle_remoteapp_logs handle_remoteapp_pods handle_remoteapp_exec
      handle_remoteapp_restart
  serve desk (logs_call id tail pod order) =
      found_or_raise (handle_remoteapp_logs id tail pod order) (by_app_id id desk.executing)
  serve desk (pods_call id) =
      found_or_raise (handle_remoteapp_pods id) (by_app_id id desk.executing)
  serve desk (exec_call id pod command) =
      found_or_raise (handle_remoteapp_exec id pod command) (by_app_id id desk.executing)
  serve desk (restart_call id) =
      found_or_raise (handle_remoteapp_restart id) (by_app_id id desk.executing)

-- the body, the code with an error, or an exception that no one catches
pub data Reply : Type 0 where
  body : Json → Reply
  failed : (code : ℕ) (error : String) → Reply
  crashed : String → Reply

-- an agent as its routes see it; `call` sends to a peer, and is `err` where that raises
pub record Node : Type 0 where
  pub desk : Desk
  pub peers : Dict Peer
  pub call : (peer : String) → PeerCall → Result Json
  pub bench : Workbench

abbrev pub or_502 : Result Json → Reply
or_502 (ok j) = body j
or_502 (err e) = failed 502 e

abbrev pub or_500 : Result Json → Reply
or_500 (ok j) = body j
or_500 (err e) = failed 500 e

abbrev pub or_crash : Result Json → Reply
or_crash (ok j) = body j
or_crash (err e) = crashed e

-- `unconnected` is the code where the peer is not known
abbrev pub ask_peer : (unconnected : ℕ) → Node → PeerCall → Option Peer → Reply
ask_peer unconnected node call none = failed unconnected "peer not connected"
ask_peer unconnected node call (some p) = or_502 (node.call p.name call)

abbrev pub at_side :
    (unconnected : ℕ)
    → Node
    → PeerCall
    → (String × AppCr → Reply)
    → Option (Side × String × AppCr)
    → Reply
at_side unconnected node call here none = failed 404 "app not found"
at_side unconnected node call here (some (submitted_side, cr_name, cr)) =
    ask_peer unconnected node call (lookup cr.target_peer node.peers)
at_side unconnected node call here (some (executing_side, cr_name, cr)) = here (cr_name, cr)

-- `max(1, min(500, tail))`
abbrev pub clamp_tail : ℤ → ℕ
clamp_tail (negsuc n) = 1
clamp_tail (pos n) = if leb 500 n then 500 else if nat_eq n 0 then 1 else n

-- the arguments of the requests
pub data Operation : Type 0 where
  logs : (tail : Option ℤ) (pod order : Option String) → Operation
  pods restart : Operation
  exec : (pod command : String) → Operation

-- the branches for an app that runs here
abbrev pub logs_here :
    (app_id : String) (tail : ℕ) (pod : Option String) (order : String)
    → Node
    → String × AppCr
    → Reply
logs_here app_id tail pod order node (cr_name, cr) =
    or_crash (node.bench.get_pod_logs (remote_app app_id "" cr_name cr) tail pod (order == "time"))

abbrev pub pods_here : (app_id : String) → Node → String × AppCr → Reply
pods_here app_id node (cr_name, cr) =
    or_crash (node.bench.list_pods (remote_app app_id "" cr_name cr))

abbrev pub exec_here : (app_id pod command : String) → Node → String × AppCr → Reply
exec_here app_id pod command node (cr_name, cr) =
    or_crash (node.bench.exec_in_pod (remote_app app_id "" cr_name cr) pod command)

abbrev pub restart_here : (app_id : String) → Node → String × AppCr → Reply
restart_here app_id node (cr_name, cr) =
    or_500 (restarted (node.bench.rollout_restart (remote_app app_id cr.resource_name cr_name cr)))

-- `order or "pod"`
abbrev pub or_pod : String → String
or_pod order = if is_empty order then "pod" else order

unfoldable pub remoteapp_logs :
    (app_id : String) (tail : Option ℤ) (pod order : Option String) → Node → Reply
remoteapp_logs app_id tail pod order node =
    let lines = clamp_tail (or_default (pos 200) tail) in
    let pod_name = name_or_none pod in
    let sorting = or_pod (or_default "" order) in
    at_side 200 node (logs_call app_id lines pod_name sorting)
      (logs_here app_id lines pod_name sorting node) (get_cr_by_app_id app_id node.desk)

unfoldable pub remoteapp_pods : (app_id : String) → Node → Reply
remoteapp_pods app_id node =
    at_side 200 node (pods_call app_id) (pods_here app_id node) (get_cr_by_app_id app_id node.desk)

unfoldable pub remoteapp_exec : (app_id pod command : String) → Node → Reply
remoteapp_exec app_id pod command node =
    if is_empty (strip pod) || is_empty (strip command)
    then failed 400 "pod and command are required"
    else at_side 503 node (exec_call app_id (strip pod) (strip command))
        (exec_here app_id (strip pod) (strip command) node) (get_cr_by_app_id app_id node.desk)

unfoldable pub remoteapp_restart : (app_id : String) → Node → Reply
remoteapp_restart app_id node =
    at_side 503 node (restart_call app_id) (restart_here app_id node)
      (get_cr_by_app_id app_id node.desk)

unfoldable pub operate : (app_id : String) → Operation → Node → Reply
unfolding remoteapp_logs remoteapp_pods remoteapp_exec remoteapp_restart
operate app_id (logs tail pod order) = remoteapp_logs app_id tail pod order
operate app_id pods = remoteapp_pods app_id
operate app_id restart = remoteapp_restart app_id
operate app_id (exec pod command) = remoteapp_exec app_id pod command
