-- ===== src/Networking/Requests.antt =====
-- backend/internal/networking/networking.go: what a port allocation is asked with and what its
-- validation answers. The texts of the answer are constructors that carry what is printed into them.
use mystic_hypervisor.Hosts.{Protocol, ExposureMode, ExposureState, ForwardingRule}
use mystic_hypervisor.Prelude.Int.{ℤ}
use mystic_hypervisor.Prelude.{ℕ, String, Bool, List}

pub data AllocationMode : Type 0 where
  single range explicit : AllocationMode
  other : String → AllocationMode

pub data GatewayManagement : Type 0 where
  managed_by_mystic externally_managed unknown : GatewayManagement
  other : String → GatewayManagement

pub data ConflictStatus : Type 0 where
  available already_allocated_by_mystic listening_on_host reserved_management : ConflictStatus
  owned_by_external_subsystem unknown pool_unconfigured : ConflictStatus

pub record WorkloadNetworkConfig : Type 0 where
  pub id : String
  pub workload_id : String
  pub workload_name : String
  pub host_id : String
  pub network_id : String
  pub network_name : String
  pub interface : String
  pub private_ipv4 : String
  pub private_ipv6 : String
  pub public_ipv4 : String
  pub public_ipv6 : String
  pub exposure_mode : ExposureMode
  pub gateway_id : String
  pub forwarding_rules : List ForwardingRule
  pub allocation_state : ExposureState
  pub verification_state : String

pub record AllocationPool : Type 0 where
  pub id : String
  pub name : String
  pub start_port : ℤ
  pub end_port : ℤ
  pub protocol : Protocol
  pub is_configured : Bool

pub record GatewayConfig : Type 0 where
  pub id : String
  pub name : String
  pub type : String
  pub public_ips : List String
  pub private_ips : List String
  pub management_address : String
  pub management_capability : GatewayManagement
  pub managed_by : String
  pub enabled : Bool

pub record PortMapping : Type 0 where
  pub external_port : ℤ
  pub internal_port : ℤ
  pub protocol : Protocol
  pub public_ip : String
  pub destination_ip : String

-- The texts of blockers, warnings, conflicts and results, in the order of the code.
pub data Message : Type 0 where
  workload_id_required destination_ip_required : Message
  invalid_destination_ip invalid_public_ip : String → Message
  invalid_protocol : Protocol → Message
  workload_does_not_exist : String → Message
  destination_differs : String → String → Message
  gateway_does_not_exist : String → Message
  gateway_externally_managed : Message
  external_out_of_range internal_out_of_range : ℤ → Message
  no_pool_configured invalid_internal_range : Message
  no_free_range : ℤ → String → ℤ → ℤ → Message
  external_start_out_of_range external_end_out_of_range : ℤ → Message
  external_start_after_end : ℤ → ℤ → Message
  internal_start_out_of_range internal_end_out_of_range : ℤ → Message
  internal_start_after_end : ℤ → ℤ → Message
  sizes_differ : ℤ → ℤ → ℤ → ℤ → ℤ → ℤ → Message
  explicit_needs_rule : Message
  explicit_external_invalid explicit_internal_invalid : ℕ → ℤ → Message
  unknown_mode : AllocationMode → Message
  duplicate_external_port : ℤ → Protocol → Message
  port_reserved port_listening : ℤ → Message
  port_allocated : ℤ → Protocol → String → Message
  failed_basic_checks pool_unconfigured failed_normalization has_conflict_blockers passed : Message
  no_allocation_needed : Message

pub record ConflictDetail : Type 0 where
  pub port : ℤ
  pub protocol : Protocol
  pub status : ConflictStatus
  pub owner : String
  pub message : Message

pub record PortAllocationRequest : Type 0 where
  pub workload_id : String
  pub host_id : String
  pub gateway_id : String
  pub mode : AllocationMode
  pub external_start_port : ℤ
  pub external_end_port : ℤ
  pub internal_start_port : ℤ
  pub internal_end_port : ℤ
  pub protocol : Protocol
  pub public_ip : String
  pub destination_ip : String
  pub explicit_rules : List ForwardingRule

pub record ValidationResult : Type 0 where
  pub is_valid : Bool
  pub status : ConflictStatus
  pub conflicts : List ConflictDetail
  pub warnings : List Message
  pub blockers : List Message
  pub normalized_mappings : List PortMapping
  pub allocation_state : ExposureState
  pub message : Message
