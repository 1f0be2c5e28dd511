-- ===== src/Instances.antt =====
-- backend/internal/instances/reconciler.go.
pub mod Reconciler
use mystic_hypervisor.Prelude.{Bool}

pub data SyncStatus : Type 0 where
  in_sync out_of_sync provider_missing orphaned : SyncStatus
