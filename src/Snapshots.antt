-- ===== src/Snapshots.antt =====
-- backend/internal/snapshots/snapshots.go: the record of a snapshot of a workload.
pub mod Name
pub mod Manager
pub mod Deleted
mod Tests
use mystic_hypervisor.Prelude.Int.{ℤ}
use mystic_hypervisor.Prelude.{ℕ, String, Bool}

pub record Snapshot : Type 0 where
  pub id : String
  pub name : String
  pub workload_id : String
  pub workload_name : String
  pub stateful : Bool
  pub size_bytes : ℤ
  pub created_at : ℕ
  pub status : String
  pub description : String
