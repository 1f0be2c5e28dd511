-- ===== src/Networking/AllocatorEngine/Conflicts.antt =====
-- backend/internal/networking/allocator.go: part 3 of ValidateAllocation, the conflicts of the
-- mappings with each other and with the rules that exist, and the whole of ValidateAllocation.
use mystic_hypervisor.Hosts.{Protocol, ExposureState, ForwardingRule, owner_system, protocol_eq}
use mystic_hypervisor.Networking.AllocatorEngine.Normalize.{
  Normalized, unconfigured, normalized, normalize_mode,
}
use mystic_hypervisor.Networking.AllocatorEngine.{
  HostInfo, basic_checks, is_reserved_management_port, is_host_listening_port, protocols_overlap,
  rule_port, is_some,
}
use mystic_hypervisor.Networking.Requests.{
  AllocationPool, ConflictDetail, ConflictStatus, GatewayConfig, PortAllocationRequest, PortMapping,
  Message, ValidationResult, WorkloadNetworkConfig, duplicate_external_port, port_reserved,
  port_listening, port_allocated, failed_basic_checks, failed_normalization, has_conflict_blockers,
  passed, no_pool_configured,
}
use mystic_hypervisor.Prelude.Int.{int_eq}
use mystic_hypervisor.Prelude.{
  Option, String, Bool, true, false, ◌&&◌, ◌||◌, ◌==◌, List, [], ◌∷◌, ◌++◌, any, if◌then◌else◌,
  string_eq,
}
use mystic_hypervisor.Text.Decimal.{itoa}
use mystic_hypervisor.Text.{sprint}

abbrev pub protocol_text : Protocol → String
protocol_text Protocol.tcp = "TCP"
protocol_text Protocol.udp = "UDP"
protocol_text Protocol.tcp_udp = "TCP_UDP"
protocol_text Protocol.unset = ""
protocol_text (Protocol.other s) = s

-- `%d/%s`
unfoldable pub port_key : PortMapping → String
port_key m = sprint (itoa m.external_port ∷ "/" ∷ protocol_text m.protocol ∷ [])

-- The part of the result that the loop changes, and the keys it has seen.
pub record Analysis : Type 0 where
  pub status : ConflictStatus
  pub conflicts : List ConflictDetail
  pub warnings : List Message
  pub blockers : List Message
  pub seen : List String

abbrev pub is_available : ConflictStatus → Bool
is_available ConflictStatus.available = true
is_available _ = false

abbrev pub detail : PortMapping → ConflictStatus → String → Message → ConflictDetail
detail m status owner message = record {
  port = m.external_port;
  protocol = m.protocol;
  status = status;
  owner = owner;
  message = message;
}

-- A conflict that is only a warning; it shows in the status if nothing did before.
abbrev pub warn_of : PortMapping → ConflictStatus → Message → Analysis → Analysis
warn_of m status message a = record a {
  conflicts = a.conflicts ++ detail m status owner_system message ∷ [];
  warnings = a.warnings ++ message ∷ [];
  status = if is_available a.status then status else a.status;
}

abbrev pub block_of : PortMapping → String → Message → Analysis → Analysis
block_of m owner message a = record a {
  conflicts = a.conflicts ++ detail m ConflictStatus.already_allocated_by_mystic owner message ∷ [];
  blockers = a.blockers ++ message ∷ [];
}

-- Check C's test: the rule forwards the mapping's port already.
unfoldable pub is_taken_by : String → PortMapping → ForwardingRule → Bool
is_taken_by gateway_id m rule =
    rule_port rule == m.external_port
    && (rule.gateway_id == gateway_id || gateway_id == "")
    && protocols_overlap rule.protocol m.protocol

-- Check C for one rule.
unfoldable pub check_rule : String → PortMapping → ForwardingRule → Analysis → Analysis
check_rule gateway_id m rule a =
    if is_taken_by gateway_id m rule
    then record (block_of m rule.owner (port_allocated m.external_port m.protocol rule.workload_id)
        a) { status = ConflictStatus.already_allocated_by_mystic }
    else a

unfoldable pub check_rules : String → PortMapping → List ForwardingRule → Analysis → Analysis
check_rules gateway_id m [] a = a
check_rules gateway_id m (rule ∷ rules) a =
    check_rules gateway_id m rules (check_rule gateway_id m rule a)

unfoldable pub check_reserved : PortMapping → Option HostInfo → Analysis → Analysis
check_reserved m host_info a =
    if is_reserved_management_port m.external_port m.internal_port host_info
    then warn_of m ConflictStatus.reserved_management (port_reserved m.external_port) a
    else a

unfoldable pub check_listening : PortMapping → Option HostInfo → Analysis → Analysis
check_listening m host_info a =
    if is_some host_info && is_host_listening_port m.external_port host_info
    then warn_of m ConflictStatus.listening_on_host (port_listening m.external_port) a
    else a

-- Checks A, B and C, for a mapping whose key was not seen before.
unfoldable pub check_new :
    String → Option HostInfo → List ForwardingRule → PortMapping → Analysis → Analysis
check_new gateway_id host_info rules m a = check_rules gateway_id m rules (
    check_listening m host_info
      (check_reserved m host_info (record a { seen = port_key m ∷ a.seen })))

abbrev pub was_seen : PortMapping → Analysis → Bool
was_seen m a = any (λ k. k == port_key m) a.seen

-- One round of the loop over the mappings.
unfoldable pub check_mapping :
    String → Option HostInfo → List ForwardingRule → PortMapping → Analysis → Analysis
check_mapping gateway_id host_info rules m a =
    if was_seen m a
    then block_of m "REQUEST_SELF" (duplicate_external_port m.external_port m.protocol) a
    else check_new gateway_id host_info rules m a

unfoldable pub check_mappings :
    String → Option HostInfo → List ForwardingRule → List PortMapping → Analysis → Analysis
check_mappings gateway_id host_info rules [] a = a
check_mappings gateway_id host_info rules (m ∷ ms) a =
    check_mappings gateway_id host_info rules ms (check_mapping gateway_id host_info rules m a)

abbrev pub initial : List Message → Analysis
initial warnings = record {
  status = ConflictStatus.available;
  conflicts = [];
  warnings = warnings;
  blockers = [];
  seen = [];
}

-- The result of a request that does not get to the conflicts.
abbrev pub refused :
    ConflictStatus → Message → List Message → List Message → List PortMapping → ValidationResult
refused status message warnings blockers mappings = record {
  is_valid = false;
  status = status;
  conflicts = [];
  warnings = warnings;
  blockers = blockers;
  normalized_mappings = mappings;
  allocation_state = ExposureState.failed;
  message = message;
}

abbrev pub is_empty : {A : Type 0} → List A → Bool
is_empty [] = true
is_empty (x ∷ xs) = false

-- The end of ValidateAllocation.
unfoldable pub conclude : List PortMapping → Analysis → ValidationResult
conclude mappings a = record {
  is_valid = is_empty a.blockers;
  status = a.status;
  conflicts = a.conflicts;
  warnings = a.warnings;
  blockers = a.blockers;
  normalized_mappings = mappings;
  allocation_state = if is_empty a.blockers then ExposureState.configured else ExposureState.failed;
  message = if is_empty a.blockers then passed else has_conflict_blockers;
}

unfoldable pub analyse :
    String → Option HostInfo → List ForwardingRule → List Message → Normalized → ValidationResult
analyse gateway_id host_info rules warnings unconfigured =
    refused ConflictStatus.pool_unconfigured Message.pool_unconfigured warnings
      (no_pool_configured ∷ []) []
analyse gateway_id host_info rules warnings (normalized (b ∷ bs) mappings) =
    refused ConflictStatus.available failed_normalization warnings (b ∷ bs) mappings
analyse gateway_id host_info rules warnings (normalized [] mappings) =
    conclude mappings (check_mappings gateway_id host_info rules mappings (initial warnings))

unfoldable pub validate_allocation :
    PortAllocationRequest
    → Option HostInfo
    → List ForwardingRule
    → List WorkloadNetworkConfig
    → List GatewayConfig
    → Option AllocationPool
    → ValidationResult
validate_allocation req host_info rules workloads gateways pool =
    let notes = basic_checks req workloads gateways in
    if is_empty notes.blockers
    then analyse req.gateway_id host_info rules notes.warnings
        (normalize_mode req.mode req pool rules host_info)
    else refused ConflictStatus.unknown failed_basic_checks notes.warnings notes.blockers []
