-- ===== src/Connections.antt =====
-- backend/internal/connections/connection.go and connection_manager.go: how one connects to a service.
pub mod Generation
pub mod Creation
use mystic_hypervisor.Networking.AllocatorEngine.Normalize.{bad_port}
use mystic_hypervisor.Networking.Exposure.{NetworkExposure, or_text}
use mystic_hypervisor.Prelude.Int.{ℤ, pos, int_eq, ltz}
use mystic_hypervisor.Prelude.Maps.{GoMap, get, put, delete, values}
use mystic_hypervisor.Prelude.{
  ℕ, Option, none, some, String, Bool, true, false, not, ◌&&◌, ◌||◌, ◌==◌, string_eq, List, [], ◌∷◌,
  keep, if◌then◌else◌,
}
use mystic_hypervisor.Services.{
  Service, ServiceType, is_console, is_supported, service_type_lower, service_type_text,
}
use mystic_hypervisor.Store.Registry.{Registry, insert}
use mystic_hypervisor.Store.{Store, save, saves}
use mystic_hypervisor.Text.Decimal.{itoa}
use mystic_hypervisor.Text.{sprint, trim_space}

pub record ConnectionProfile : Type 0 where
  pub id : String
  pub service_id : String
  pub workload_id : String
  pub label : String
  pub protocol : String
  pub endpoint_host : String
  pub endpoint_port : ℤ
  pub target_user : String
  pub credential_id : String
  pub connection_url : String
  pub cli_command : String
  pub created_at : Option ℕ
  pub updated_at : Option ℕ

pub data ConnectionError : Type 0 where
  service_nil endpoint_host_empty endpoint_port_invalid target_user_required unsupported_type :
      ConnectionError
  profile_nil service_id_required workload_id_required endpoint_host_required : ConnectionError
  already_exists connection_not_found persist_failed : ConnectionError

pub data Result (A : Type 0) : Type 0 where
  ok : A → Result A
  err : ConnectionError → Result A

-- The endpoint: the exposure's, if the service refers to one that is given and has a port.
unfoldable pub endpoint : Service → Option NetworkExposure → String × ℤ
endpoint svc none = (svc.internal_ip, svc.internal_port)
endpoint svc (some exp) =
    if not (svc.exposure_id == "") && ltz (pos 0) exp.public_port
    then (or_text exp.public_ip svc.internal_ip, exp.public_port)
    else (svc.internal_ip, svc.internal_port)

abbrev pub is_ssh : ServiceType → Bool
is_ssh ServiceType.ssh = true
is_ssh _ = false

-- `%s:%d`
abbrev pub host_port : String → ℤ → String
host_port host port = sprint (host ∷ ":" ∷ itoa port ∷ [])

-- The host with the port, unless it is the scheme's own.
abbrev pub authority : ℤ → String → ℤ → String
authority standard host port = if port == standard then host else host_port host port

-- The URL and the command; the last cases are the error.
unfoldable pub connect : ServiceType → Service → String → String → ℤ → Option (String × String)
connect ServiceType.ssh svc user host port = some (
  sprint ("ssh://" ∷ user ∷ "@" ∷ authority (pos 22) host port ∷ []),
  if port == pos 22
      then sprint ("ssh " ∷ user ∷ "@" ∷ host ∷ [])
      else sprint ("ssh -p " ∷ itoa port ∷ " " ∷ user ∷ "@" ∷ host ∷ []),
)
connect ServiceType.http svc user host port = some (
  sprint ("http://" ∷ authority (pos 80) host port ∷ []),
  sprint ("curl -v http://" ∷ authority (pos 80) host port ∷ []),
)
connect ServiceType.https svc user host port = some (
  sprint ("https://" ∷ authority (pos 443) host port ∷ []),
  sprint ("curl -v https://" ∷ authority (pos 443) host port ∷ []),
)
connect ServiceType.tcp svc user host port =
    some (
      sprint ("tcp://" ∷ host_port host port ∷ []),
      sprint ("nc -zv " ∷ host ∷ " " ∷ itoa port ∷ []),
    )
connect ServiceType.udp svc user host port = some (
  sprint ("udp://" ∷ host_port host port ∷ []),
  sprint ("nc -zuv " ∷ host ∷ " " ∷ itoa port ∷ []),
)
connect ServiceType.console svc user host port =
    some ("", sprint ("incus console " ∷ or_text svc.workload_name svc.workload_id ∷ []))
connect ServiceType.unset svc user host port = none
connect (ServiceType.other s) svc user host port = none

-- The checks of GenerateConnectionProfile.
unfoldable pub check_endpoint : Service → String → String → ℤ → Option ConnectionError
check_endpoint svc user host port =
    if not (is_console svc.type) && trim_space host == ""
    then some endpoint_host_empty
    else if not (is_console svc.type) && bad_port port
    then some endpoint_port_invalid
    else if is_ssh svc.type && trim_space user == ""
    then some target_user_required
    else none

abbrev pub profile_of :
    ℕ → Service → String → String → String → ℤ → String × String → ConnectionProfile
profile_of now svc user credential host port (url, command) = record {
  id = sprint ("conn-" ∷ svc.id ∷ "-" ∷ service_type_lower svc.type ∷ []);
  service_id = svc.id;
  workload_id = svc.workload_id;
  label = sprint (svc.name ∷ " (" ∷ service_type_text svc.type ∷ ")" ∷ []);
  protocol = service_type_text svc.type;
  endpoint_host = host;
  endpoint_port = port;
  target_user = user;
  credential_id = credential;
  connection_url = url;
  cli_command = command;
  created_at = some now;
  updated_at = some now;
}

unfoldable pub generate_at : ℕ → Service → String → String → String → ℤ → Result ConnectionProfile
generate_at now svc user credential host port = elim (check_endpoint svc user host port) [
  | some e ↦ err e
  | none ↦ elim (connect svc.type svc user host port) [
    | none ↦ err unsupported_type
    | some texts ↦ ok (profile_of now svc user credential host port texts)
  ]
]

unfoldable pub generate_connection_profile :
    ℕ → Option Service → Option NetworkExposure → String → String → Result ConnectionProfile
generate_connection_profile now none exp user credential = err service_nil
generate_connection_profile now (some svc) exp user credential =
    let (host, port) = endpoint svc exp in generate_at now svc user credential host port

-- The checks of CreateConnectionProfile before it takes the lock.
unfoldable pub check_profile : ConnectionProfile → Option ConnectionError
check_profile p =
    if p.service_id == ""
    then some service_id_required
    else if p.workload_id == ""
    then some workload_id_required
    else if trim_space p.endpoint_host == ""
    then some endpoint_host_required
    else if p.protocol == "SSH" && trim_space p.target_user == ""
    then some target_user_required
    else none

-- `conn-%s-%d`, with the clock's nanoseconds.
unfoldable pub connection_id : ConnectionProfile → ℕ → String
connection_id p nanos = sprint ("conn-" ∷ p.service_id ∷ "-" ∷ itoa (pos nanos) ∷ [])

abbrev pub filed : ℕ → ℕ → ConnectionProfile → ConnectionProfile
filed now nanos p = record p {
  id = or_text p.id (connection_id p nanos);
  created_at = some now;
  updated_at = some now;
}

abbrev pub Manager : Type 0
Manager = Registry ConnectionProfile

unfoldable pub create_locked :
    Bool → ConnectionProfile → Manager → Result ConnectionProfile × Manager
create_locked saved p m = elim (get p.id m.entries) [
  | some old ↦ (err already_exists, m)
  | none ↦ (if saves saved m.store then ok p else err persist_failed, insert saved p.id p m)
]

unfoldable pub create_connection_profile :
    Bool → ℕ → ℕ → Option ConnectionProfile → Manager → Result ConnectionProfile × Manager
create_connection_profile saved now nanos none m = (err profile_nil, m)
create_connection_profile saved now nanos (some p) m = elim (check_profile p) [
  | some e ↦ (err e, m)
  | none ↦ create_locked saved (filed now nanos p) m
]

unfoldable pub get_connection_profile : String → Manager → Result ConnectionProfile
get_connection_profile id m = elim (get id m.entries) [
  | none ↦ err connection_not_found
  | some p ↦ ok p
]

unfoldable pub list_connection_profiles : Manager → List ConnectionProfile
list_connection_profiles m = values m.entries

unfoldable pub list_service_connections : String → Manager → List ConnectionProfile
list_service_connections service_id m =
    keep (λ (x : ConnectionProfile). x.service_id == service_id) (values m.entries)

abbrev pub updated_by : ConnectionProfile → ConnectionProfile → ConnectionProfile
updated_by updated old = record old {
  label = or_text updated.label old.label;
  target_user = or_text updated.target_user old.target_user;
  credential_id = or_text updated.credential_id old.credential_id;
  connection_url = or_text updated.connection_url old.connection_url;
  cli_command = or_text updated.cli_command old.cli_command;
}

abbrev pub save_store : Bool → Manager → Manager
save_store saved m = record { entries = m.entries; store = save saved m.entries m.store }

unfoldable pub update_connection_profile :
    Bool → ℕ → String → ConnectionProfile → Manager → Result ConnectionProfile × Manager
update_connection_profile saved now id updated m = elim (get id m.entries) [
  | none ↦ (err connection_not_found, m)
  | some old ↦
      let done = record (updated_by updated old) { updated_at = some now } in
      (
        if saves saved m.store then ok done else err persist_failed,
        save_store saved (record { entries = put id done m.entries; store = m.store }),
      )
]

unfoldable pub delete_connection_profile :
    Bool → String → Manager → Option ConnectionError × Manager
delete_connection_profile saved id m = elim (get id m.entries) [
  | none ↦ (some connection_not_found, m)
  | some p ↦ (
    if saves saved m.store then none else some persist_failed,
    save_store saved (record { entries = delete id m.entries; store = m.store }),
  )
]
