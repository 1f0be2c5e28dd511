-- ===== src/Networking/Exposure.antt =====
-- backend/internal/networking/exposure.go: the exposure of a workload's port, and its conversions
-- from and to a forwarding rule.
use mystic_hypervisor.Hosts.{
  Protocol, ExposureMode, ExposureState, ForwardingRule, owner_mystic, state_is_unset,
}
use mystic_hypervisor.Instances.{SyncStatus, in_sync}
use mystic_hypervisor.Prelude.Int.{ℤ, pos, int_eq}
use mystic_hypervisor.Prelude.{
  ℕ, Option, none, some, String, [], ◌∷◌, ◌==◌, string_eq, if◌then◌else◌,
}
use mystic_hypervisor.Text.Decimal.{itoa}
use mystic_hypervisor.Text.{sprint}

-- Times are numbers, given by the caller; `none` is a time that was never set.
pub record NetworkExposure : Type 0 where
  pub id : String
  pub workload_id : String
  pub workload_name : String
  pub gateway_id : String
  pub exposure_mode : ExposureMode
  pub public_ip : String
  pub public_port : ℤ
  pub internal_ip : String
  pub internal_port : ℤ
  pub protocol : Protocol
  pub desired_state : ExposureState
  pub actual_state : ExposureState
  pub sync_status : SyncStatus
  pub description : String
  pub created_at : Option ℕ
  pub updated_at : Option ℕ
  pub last_sync : Option ℕ

-- `x := a; if x == 0 { x = b }`
abbrev pub or_int : ℤ → ℤ → ℤ
or_int a b = if a == pos 0 then b else a

-- `x := a; if x == "" { x = b }`
abbrev pub or_text : String → String → String
or_text a b = if a == "" then b else a

-- `exp-%s-%d`
unfoldable pub exposure_id : String → ℤ → String
exposure_id workload_id port = sprint ("exp-" ∷ workload_id ∷ "-" ∷ itoa port ∷ [])

unfoldable pub convert_forwarding_rule_to_exposure :
    ℕ → ForwardingRule → String → String → ExposureMode → NetworkExposure
convert_forwarding_rule_to_exposure now rule workload_id workload_name mode =
    let pub_port = or_int rule.external_port rule.public_port in
    record {
      id = if rule.id == "" then exposure_id workload_id pub_port else rule.id;
      workload_id = workload_id;
      workload_name = workload_name;
      gateway_id = rule.gateway_id;
      exposure_mode = mode;
      public_ip = rule.public_ip;
      public_port = pub_port;
      internal_ip = or_text rule.internal_ip rule.destination_ip;
      internal_port = or_int rule.internal_port rule.destination_port;
      protocol = rule.protocol;
      desired_state = if state_is_unset rule.state then ExposureState.configured else rule.state;
      actual_state = ExposureState.applied;
      sync_status = in_sync;
      description = rule.description;
      created_at = some now;
      updated_at = some now;
      last_sync = none;
    }

unfoldable pub to_forwarding_rule : NetworkExposure → ForwardingRule
to_forwarding_rule ne = record {
  id = ne.id;
  gateway_id = ne.gateway_id;
  public_ip = ne.public_ip;
  public_port = ne.public_port;
  protocol = ne.protocol;
  destination_host_id = "";
  destination_ip = ne.internal_ip;
  destination_port = ne.internal_port;
  workload_id = ne.workload_id;
  state = ne.desired_state;
  owner = owner_mystic;
  description = ne.description;
  upstream_ip = "";
  external_port = ne.public_port;
  internal_ip = ne.internal_ip;
  internal_port = ne.internal_port;
}
