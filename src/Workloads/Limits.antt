-- ===== src/Workloads/Limits.antt =====
-- What may run on the cluster of a peer.
use porpulsion.Prelude.{◌≤◌, true, ◌≡◌}
use porpulsion.Policy.{AgentSettings}
use porpulsion.Workloads.Cluster.{Cluster}
use porpulsion.Workloads.Admission.{Agent, Step, receive, update, approve, reject, delete}
use porpulsion.Workloads.Counted.{WithinLimits}

-- the agent keeps its settings and stays within them
abbrev pub Bounded : AgentSettings → Agent → Type 0
Bounded s a = (a.settings ≡ s) × WithinLimits s a.cluster

-- the quota sees the resources, a pod at least is asked for, and nothing is approved past the quota
abbrev pub IsQuotaBound : Step → Type 0
IsQuotaBound (receive now fresh lists answers valid sub) = (lists ≡ true) × (1 ≤ sub.spec.replicas)
IsQuotaBound (update lists answers valid app_id new) = (lists ≡ true) × (1 ≤ new.replicas)
IsQuotaBound (approve answers app_id) = ⊥
IsQuotaBound (reject reachable app_id) = Unit
IsQuotaBound (delete answers app_id) = Unit
