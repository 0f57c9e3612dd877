-- ===== src/Workloads.antt =====
-- Workloads: the custom resources of porpulsion/k8s/store.py, what a peer submits and what the operator
-- approves (porpulsion/channel_handlers.py, porpulsion/routes/workloads.py).
pub mod Naming
pub mod Names
pub mod Cluster
pub mod Admission
pub mod Pending
pub mod Approval
pub mod Counted
pub mod Limits
mod Tests
