-- ===== src/Workloads/Execution.antt =====
-- backend/internal/workloads/execution.go: who owns an instance, and the records of the operations
-- that ran. A method of ExecutionGuard that touches the records holds its mutex and is one step.
use mystic_hypervisor.Prelude.Maps.{GoMap, get, put}
use mystic_hypervisor.Prelude.{
  ℕ, Option, none, some, String, ◌==◌, ◌&&◌, string_eq, [], ◌∷◌, if◌then◌else◌,
}
use mystic_hypervisor.Providers.{Instance}
use mystic_hypervisor.Text.{sprint}

pub data ResultClassification : Type 0 where
  success failed unknown : ResultClassification

pub data OwnershipStatus : Type 0 where
  mystic_owned external unknown : OwnershipStatus

pub record OperationRecord : Type 0 where
  pub op_key : String
  pub workload_id : String
  pub op_type : String
  pub plan_hash : String
  pub result : ResultClassification
  pub executed_at : ℕ

-- The records; the timeout, which no method of this file reads, and the audit log are left out.
abbrev pub ExecutionGuard : Type 0
ExecutionGuard = GoMap String OperationRecord

-- `m[k]`: the empty text if there is none.
unfoldable pub lookup : String → GoMap String String → String
lookup k m = elim (get k m) [ none ↦ "" | some v ↦ v ]

-- The label under its key with the prefix `user.`, and else under the plain one.
unfoldable pub label : String → String → GoMap String String → String
label user_key key labels =
    if lookup user_key labels == "" then lookup key labels else lookup user_key labels

unfoldable pub check_ownership : Option Instance → String → OwnershipStatus
check_ownership none expected_workload_id = OwnershipStatus.unknown
check_ownership (some inst) expected_workload_id =
    if label "user.mystic.owned" "mystic.owned" inst.labels == "true"
      && label "user.mystic.workload_id" "mystic.workload_id" inst.labels == expected_workload_id
    then OwnershipStatus.mystic_owned
    else OwnershipStatus.external

unfoldable pub compute_operation_key : String → String → String → String
compute_operation_key workload_id op_type plan_hash = sprint (
    "op:"
    ∷ workload_id
    ∷ ":"
    ∷ op_type
    ∷ ":"
    ∷ (if plan_hash == "" then "noplan" else plan_hash)
    ∷ [])

unfoldable pub record_operation :
    ℕ → String → String → String → String → ResultClassification → ExecutionGuard → ExecutionGuard
record_operation now op_key workload_id op_type plan_hash res eg =
    put op_key
      (record {
        op_key = op_key;
        workload_id = workload_id;
        op_type = op_type;
        plan_hash = plan_hash;
        result = res;
        executed_at = now;
      })
      eg

unfoldable pub get_operation_record : String → ExecutionGuard → Option OperationRecord
get_operation_record op_key eg = get op_key eg
