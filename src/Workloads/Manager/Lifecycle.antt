-- ===== src/Workloads/Manager/Lifecycle.antt =====
-- backend/internal/workloads/manager.go: StartWorkload, StopWorkload and RestartWorkload.
use mystic_hypervisor.Prelude.Maps.{get}
use mystic_hypervisor.Prelude.{none, some, String, Bool, ◌||◌, string_eq, if◌then◌else◌}
use mystic_hypervisor.Providers.{InstanceState}
use mystic_hypervisor.Workloads.Manager.Reconciliation.{reconcile_workload}
use mystic_hypervisor.Workloads.Manager.{
  Manager, Provider, Request, Result, World, WorkloadError, ok, err, illegal_transition,
  restart_failed, start_failed, stop_failed, workload_not_found, restarts, starts, stops, asked,
  set_workload,
}
use mystic_hypervisor.Workloads.Workload.{
  Workload, is_provisioning, is_running, is_stopped, is_unknown,
}

-- The provider is asked, if there is one, and the workload reconciled unless it refuses.
unfoldable pub ask_and_reconcile :
    World → Provider → Request → Bool → WorkloadError → String → Manager → Result Workload × Manager
ask_and_reconcile world p request obeyed failure id m =
    if p.attached
    then (if obeyed
        then reconcile_workload world p id (asked request m)
        else (err failure, asked request m))
    else reconcile_workload world p id m

unfoldable pub start_workload : World → Provider → String → Manager → Result Workload × Manager
start_workload world p id m = elim (get id m.workloads) [
  | none ↦ (err workload_not_found, m)
  | some w ↦
      if is_running w.status
      then (ok w, m)
      else if is_provisioning w.status || is_unknown w.status
      then (err (illegal_transition w.status), m)
      else ask_and_reconcile world p (starts w.name) (p.starts w.name) start_failed id
          (set_workload id (record w { desired_state = InstanceState.running }) m)
]

unfoldable pub stop_workload : World → Provider → String → Manager → Result Workload × Manager
stop_workload world p id m = elim (get id m.workloads) [
  | none ↦ (err workload_not_found, m)
  | some w ↦
      if is_stopped w.status
      then (ok w, m)
      else if is_provisioning w.status
      then (err (illegal_transition w.status), m)
      else ask_and_reconcile world p (stops w.name) (p.stops w.name) stop_failed id
          (set_workload id (record w { desired_state = InstanceState.stopped }) m)
]

unfoldable pub restart_workload : World → Provider → String → Manager → Result Workload × Manager
restart_workload world p id m = elim (get id m.workloads) [
  | none ↦ (err workload_not_found, m)
  | some w ↦
      if is_provisioning w.status || is_unknown w.status
      then (err (illegal_transition w.status), m)
      else ask_and_reconcile world p (restarts w.name) (p.restarts w.name) restart_failed id m
]
