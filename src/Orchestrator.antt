-- ===== src/Orchestrator.antt =====
-- services/orchestrator: the state machine of provisioning runs (sm.go, types.go, run_model.go).
pub mod Handlers
pub mod Enrollment
pub mod Redelivery
pub mod Completion
pub mod Lifecycle
mod Tests
