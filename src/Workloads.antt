-- ===== src/Workloads.antt =====
-- backend/internal/workloads: the guards of the operations on workloads.
pub mod Execution
pub mod Workload
pub mod Manager
pub mod Ownership
mod Tests
