-- ===== src/Orchestrator.antt =====
-- src/orchestrator: the registry of workers, the scheduling policies, the service and its start.
pub mod Cluster
pub mod Policy
pub mod Service
pub mod PriorityMap
pub mod Start
