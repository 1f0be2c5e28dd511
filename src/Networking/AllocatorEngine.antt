-- ===== src/Networking/AllocatorEngine.antt =====
-- backend/internal/networking/allocator.go: AllocatorEngine, which checks a request for ports. The
-- engine has no state; ValidateAllocation is cut into the parts that its comments number.
pub mod Pool
pub mod Normalize
pub mod Conflicts
pub mod Clashes
pub mod Meaning
pub mod Validity
pub mod FirstFit
pub mod Single
use mystic_hypervisor.Hosts.{Protocol, ExposureState, ForwardingRule, protocol_eq}
use mystic_hypervisor.Networking.Exposure.{or_int}
use mystic_hypervisor.Networking.Requests.{
  WorkloadNetworkConfig, GatewayManagement, GatewayConfig, PortAllocationRequest, Message,
  workload_id_required, destination_ip_required, invalid_destination_ip, invalid_public_ip,
  invalid_protocol, workload_does_not_exist, destination_differs, gateway_does_not_exist,
  gateway_externally_managed,
}
use mystic_hypervisor.Prelude.Int.{ℤ, pos, int_eq, lez, ltz}
use mystic_hypervisor.Prelude.{
  ℕ, Option, none, some, String, Bool, true, false, not, ◌&&◌, ◌||◌, ◌==◌, string_eq, List, [], ◌∷◌,
  ◌++◌, any, if◌then◌else◌,
}
use mystic_hypervisor.Text.Ip.{is_ip}
use mystic_hypervisor.Text.{trim_space}

-- hosts.HostInfo, of which the engine reads one field.
pub record HostInfo : Type 0 where
  pub os : String

abbrev pub is_reserved_management_port : ℤ → ℤ → Option HostInfo → Bool
is_reserved_management_port ext_port int_port host_info = ext_port == pos 22 || ext_port == pos 8443

-- The body splits the host's name and drops the parts.
abbrev pub is_host_listening_port : ℤ → Option HostInfo → Bool
is_host_listening_port port none = false
is_host_listening_port port (some info) = false

abbrev pub protocols_overlap : Protocol → Protocol → Bool
protocols_overlap p q = p == Protocol.tcp_udp || q == Protocol.tcp_udp || p == q

-- The port that a rule forwards from.
abbrev pub rule_port : ForwardingRule → ℤ
rule_port rule = or_int rule.external_port rule.public_port

abbrev pub is_some : {A : Type 0} → Option A → Bool
is_some none = false
is_some (some x) = true

unfoldable pub is_port_free : ℤ → Protocol → List ForwardingRule → Option HostInfo → Bool
is_port_free port proto rules host_info =
    not (is_reserved_management_port port port host_info)
    && not (is_some host_info && is_host_listening_port port host_info)
    && not (
        any
          (λ (rule : ForwardingRule).
            rule_port rule == port && protocols_overlap rule.protocol proto)
          rules)

-- What a part of the checks adds to the result.
pub record Notes : Type 0 where
  pub blockers : List Message
  pub warnings : List Message

abbrev pub nothing : Notes
nothing = record { blockers = []; warnings = [] }

abbrev pub blocked : Message → Notes
blocked m = record { blockers = m ∷ []; warnings = [] }

abbrev pub warned : Message → Notes
warned m = record { blockers = []; warnings = m ∷ [] }

abbrev pub block_if : Bool → Message → List Message
block_if true m = m ∷ []
block_if false m = []

-- Ifs one after the other, each with its blocker.
abbrev pub checks : List (Bool × Message) → List Message
checks [] = []
checks ((b, m) ∷ bs) = block_if b m ++ checks bs

-- The first element that passes a test, as the loops with `break` find it.
abbrev pub first_of : {A : Type 0} → (A → Bool) → List A → Option A
first_of p [] = none
first_of p (x ∷ xs) = elim (p x) [ true ↦ some x | false ↦ first_of p xs ]

unfoldable pub check_destination : PortAllocationRequest → List Message
check_destination req =
    if trim_space req.destination_ip == ""
    then destination_ip_required ∷ []
    else block_if (not (is_ip req.destination_ip)) (invalid_destination_ip req.destination_ip)

unfoldable pub check_public_ip : PortAllocationRequest → List Message
check_public_ip req =
    block_if (not (req.public_ip == "") && not (is_ip req.public_ip))
      (invalid_public_ip req.public_ip)

abbrev pub is_known_protocol : Protocol → Bool
is_known_protocol p = p == Protocol.tcp || p == Protocol.udp || p == Protocol.tcp_udp

unfoldable pub check_workload : PortAllocationRequest → List WorkloadNetworkConfig → Notes
check_workload req [] = nothing
check_workload req (w ∷ ws) =
    if req.workload_id == ""
    then nothing
    else elim (first_of
        (λ (x : WorkloadNetworkConfig). x.workload_id == req.workload_id || x.id == req.workload_id)
        (w ∷ ws)) [
          | none ↦ blocked (workload_does_not_exist req.workload_id)
          | some x ↦
              if not (req.destination_ip == "")
                && not (x.private_ipv4 == "")
                && not (x.private_ipv4 == req.destination_ip)
              then warned (destination_differs req.destination_ip x.private_ipv4)
              else nothing
        ]

abbrev pub is_externally_managed : GatewayManagement → Bool
is_externally_managed GatewayManagement.externally_managed = true
is_externally_managed _ = false

unfoldable pub check_gateway : PortAllocationRequest → List GatewayConfig → Notes
check_gateway req [] = nothing
check_gateway req (g ∷ gs) =
    if req.gateway_id == ""
    then nothing
    else elim (first_of (λ (x : GatewayConfig). x.id == req.gateway_id) (g ∷ gs)) [
      | none ↦ blocked (gateway_does_not_exist req.gateway_id)
      | some x ↦
          if is_externally_managed x.management_capability
          then warned gateway_externally_managed
          else nothing
    ]

-- Part 1 of ValidateAllocation.
unfoldable pub basic_checks :
    PortAllocationRequest → List WorkloadNetworkConfig → List GatewayConfig → Notes
basic_checks req workloads gateways =
    let w = check_workload req workloads in
    let g = check_gateway req gateways in
    record {
      blockers =
          block_if (trim_space req.workload_id == "") workload_id_required
          ++ check_destination req
          ++ check_public_ip req
          ++ block_if (not (is_known_protocol req.protocol)) (invalid_protocol req.protocol)
          ++ w.blockers
          ++ g.blockers;
      warnings = w.warnings ++ g.warnings;
    }
