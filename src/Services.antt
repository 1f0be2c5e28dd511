-- ===== src/Services.antt =====
-- backend/internal/services/service.go and service_manager.go: the services of the workloads and their
-- manager. The exposure resolver is the exposure manager, seen through GetNetworkExposure, or absent.
pub mod Creation
pub mod Refusal
use mystic_hypervisor.Hosts.{Protocol, protocol_eq, protocol_is_unset}
use mystic_hypervisor.Instances.{SyncStatus, in_sync}
use mystic_hypervisor.Networking.AllocatorEngine.Normalize.{bad_port}
use mystic_hypervisor.Networking.Exposure.{NetworkExposure, or_text}
use mystic_hypervisor.Prelude.Int.{ℤ, pos, int_eq, ltz}
use mystic_hypervisor.Prelude.Maps.{GoMap, get, put, delete, values}
use mystic_hypervisor.Prelude.{
  ℕ, Option, none, some, String, Bool, true, false, not, ◌&&◌, ◌||◌, ◌==◌, string_eq, List, [], ◌∷◌,
  keep, if◌then◌else◌,
}
use mystic_hypervisor.Store.Registry.{Registry, insert}
use mystic_hypervisor.Store.{Store, save, saves}
use mystic_hypervisor.Text.Decimal.{itoa}
use mystic_hypervisor.Text.Ip.{is_ip}
use mystic_hypervisor.Text.{sprint, trim_space}

pub data ServiceType : Type 0 where
  ssh http https tcp udp console unset : ServiceType
  other : String → ServiceType

pub record Service : Type 0 where
  pub id : String
  pub workload_id : String
  pub workload_name : String
  pub name : String
  pub type : ServiceType
  pub internal_ip : String
  pub internal_port : ℤ
  pub protocol : Protocol
  pub exposure_id : String
  pub desired_state : String
  pub actual_state : String
  pub sync_status : Option SyncStatus
  pub is_public : Bool
  pub description : String
  pub created_at : Option ℕ
  pub updated_at : Option ℕ

pub data ServiceError : Type 0 where
  service_nil workload_id_required name_required unsupported_type invalid_port invalid_ip :
      ServiceError
  protocol_mismatch exposure_missing exposure_of_other_workload exposure_port_differs : ServiceError
  already_exists service_not_found persist_failed : ServiceError

pub data Result (A : Type 0) : Type 0 where
  ok : A → Result A
  err : ServiceError → Result A

abbrev pub service_type_text : ServiceType → String
service_type_text ServiceType.ssh = "SSH"
service_type_text ServiceType.http = "HTTP"
service_type_text ServiceType.https = "HTTPS"
service_type_text ServiceType.tcp = "TCP"
service_type_text ServiceType.udp = "UDP"
service_type_text ServiceType.console = "CONSOLE"
service_type_text ServiceType.unset = ""
service_type_text (ServiceType.other s) = s

-- `strings.ToLower(string(t))`, where the validation has let only the six types through.
abbrev pub service_type_lower : ServiceType → String
service_type_lower ServiceType.ssh = "ssh"
service_type_lower ServiceType.http = "http"
service_type_lower ServiceType.https = "https"
service_type_lower ServiceType.tcp = "tcp"
service_type_lower ServiceType.udp = "udp"
service_type_lower ServiceType.console = "console"
service_type_lower ServiceType.unset = ""
service_type_lower (ServiceType.other s) = s

abbrev pub is_supported : ServiceType → Bool
is_supported ServiceType.unset = false
is_supported (ServiceType.other s) = false
is_supported _ = true

abbrev pub is_console : ServiceType → Bool
is_console ServiceType.console = true
is_console _ = false

abbrev pub type_is_unset : ServiceType → Bool
type_is_unset ServiceType.unset = true
type_is_unset _ = false

-- The protocol that a type takes if none is given.
abbrev pub default_protocol : ServiceType → Protocol
default_protocol ServiceType.udp = Protocol.udp
default_protocol _ = Protocol.tcp

-- A console takes any protocol that is given, the other types theirs or TCP_UDP.
abbrev pub takes_protocol : ServiceType → Protocol → Bool
takes_protocol ServiceType.console p = true
takes_protocol ServiceType.udp p = p == Protocol.udp || p == Protocol.tcp_udp
takes_protocol t p = p == Protocol.tcp || p == Protocol.tcp_udp

-- GetNetworkExposure of the resolver, `none` for a nil resolver.
abbrev pub Resolver : Type 0
Resolver = Option (String → Option NetworkExposure)

-- The checks of validateServiceConfig before it changes the protocol.
unfoldable pub check_fields : Service → Option ServiceError
check_fields svc =
    if trim_space svc.workload_id == ""
    then some workload_id_required
    else if trim_space svc.name == ""
    then some name_required
    else if not (is_supported svc.type)
    then some unsupported_type
    else if not (is_console svc.type) && bad_port svc.internal_port
    then some invalid_port
    else if not (svc.internal_ip == "") && not (is_ip svc.internal_ip)
    then some invalid_ip
    else none

unfoldable pub check_exposure : Service → NetworkExposure → Option ServiceError
check_exposure svc exp =
    if not (exp.workload_id == svc.workload_id)
    then some exposure_of_other_workload
    else if not (is_console svc.type)
        && ltz (pos 0) exp.internal_port
        && not (exp.internal_port == svc.internal_port)
    then some exposure_port_differs
    else none

-- The exposure reference: it makes the service public.
unfoldable pub check_reference : Resolver → Service → Option ServiceError × Service
check_reference none svc = (none, svc)
check_reference (some resolve) svc =
    if svc.exposure_id == "" then (none, svc) else elim (resolve svc.exposure_id) [
      | none ↦ (some exposure_missing, svc)
      | some exp ↦ elim (check_exposure svc exp) [
        | some e ↦ (some e, svc)
        | none ↦ (none, record svc { is_public = true })
      ]
    ]

-- The protocol's default.
abbrev pub with_protocol : Service → Service
with_protocol svc = record svc {
  protocol = if protocol_is_unset svc.protocol then default_protocol svc.type else svc.protocol;
}

-- validateServiceConfig: its error, if any, and the service as it leaves it.
unfoldable pub validate_service_config : Resolver → Service → Option ServiceError × Service
validate_service_config resolver svc = elim (check_fields svc) [
  | some e ↦ (some e, svc)
  | none ↦
      if not (protocol_is_unset svc.protocol) && not (takes_protocol svc.type svc.protocol)
      then (some protocol_mismatch, svc)
      else check_reference resolver (with_protocol svc)
]

-- `svc-%s-%s-%d`
unfoldable pub service_id : Service → String
service_id svc = sprint (
    "svc-"
    ∷ svc.workload_id
    ∷ "-"
    ∷ service_type_lower svc.type
    ∷ "-"
    ∷ itoa svc.internal_port
    ∷ [])

abbrev pub identified : Service → Service
identified svc = record svc { id = or_text svc.id (service_id svc) }

abbrev pub stamped : ℕ → Service → Service
stamped now svc = record svc {
  desired_state = or_text svc.desired_state "active";
  actual_state = "active";
  sync_status = some in_sync;
  created_at = some now;
  updated_at = some now;
}

-- The services and their store.
abbrev pub Manager : Type 0
Manager = Registry Service

unfoldable pub create_locked : Bool → ℕ → Service → Manager → Result Service × Manager
create_locked saved now svc m = elim (get svc.id m.entries) [
  | some old ↦ (err already_exists, m)
  | none ↦ (
    if saves saved m.store then ok (stamped now svc) else err persist_failed,
    insert saved svc.id (stamped now svc) m,
  )
]

unfoldable pub create_service :
    Resolver → Bool → ℕ → Option Service → Manager → Result Service × Manager
create_service resolver saved now none m = (err service_nil, m)
create_service resolver saved now (some svc) m =
    let (e, valid) = validate_service_config resolver svc in
    elim e [ some x ↦ (err x, m) | none ↦ create_locked saved now (identified valid) m ]

unfoldable pub get_service : String → Manager → Result Service
get_service id m = elim (get id m.entries) [ none ↦ err service_not_found | some svc ↦ ok svc ]

unfoldable pub list_services : Manager → List Service
list_services m = values m.entries

unfoldable pub list_workload_services : String → Manager → List Service
list_workload_services workload_id m =
    keep (λ (x : Service). x.workload_id == workload_id) (values m.entries)

abbrev pub updated_by : Service → Service → Service
updated_by updated old = record old {
  name = or_text updated.name old.name;
  type = if type_is_unset updated.type then old.type else updated.type;
  internal_ip = or_text updated.internal_ip old.internal_ip;
  internal_port =
      if ltz (pos 0) updated.internal_port then updated.internal_port else old.internal_port;
  protocol = if protocol_is_unset updated.protocol then old.protocol else updated.protocol;
  exposure_id = or_text updated.exposure_id old.exposure_id;
  description = or_text updated.description old.description;
  is_public = updated.is_public;
}

abbrev pub set_service : String → Service → Manager → Manager
set_service id svc m = record { entries = put id svc m.entries; store = m.store }

abbrev pub save_store : Bool → Manager → Manager
save_store saved m = record { entries = m.entries; store = save saved m.entries m.store }

-- As in the exposure manager, the object in the map has changed even if the validation refuses it.
unfoldable pub update_service :
    Resolver → Bool → ℕ → String → Service → Manager → Result Service × Manager
update_service resolver saved now id updated m = elim (get id m.entries) [
  | none ↦ (err service_not_found, m)
  | some old ↦
      let (e, valid) = validate_service_config resolver (updated_by updated old) in
      elim e [
        | some x ↦ (err x, set_service id valid m)
        | none ↦
            let done = record valid { updated_at = some now } in
            (
              if saves saved m.store then ok done else err persist_failed,
              save_store saved (set_service id done m),
            )
      ]
]

unfoldable pub delete_service : Bool → String → Manager → Option ServiceError × Manager
delete_service saved id m = elim (get id m.entries) [
  | none ↦ (some service_not_found, m)
  | some svc ↦ (
    if saves saved m.store then none else some persist_failed,
    save_store saved (record { entries = delete id m.entries; store = m.store }),
  )
]
