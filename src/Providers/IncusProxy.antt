-- ===== src/Providers/IncusProxy.antt =====
-- backend/internal/providers/incus/proxy.go: IncusProxyDriver, which keeps an exposure as a proxy device
-- of an Incus instance. The command `incus` is a parameter: what it answers and how it changes the state
-- of the host, of any type. The shape of its JSON is left out: a query's answer is the devices.
pub mod Laws
pub mod Applied
use Prim.Native.Char.{code}
use mystic_hypervisor.Hosts.{ExposureState, Protocol}
use mystic_hypervisor.Networking.Exposure.{NetworkExposure, or_text}
use mystic_hypervisor.Prelude.Int.{ℤ, pos}
use mystic_hypervisor.Prelude.Maps.{GoMap, get}
use mystic_hypervisor.Prelude.{
  Option, none, some, String, Bool, true, false, ◌==◌, ◌&&◌, ◌||◌, nat_eq, string_eq, List, [], ◌∷◌,
  if◌then◌else◌,
}
use mystic_hypervisor.Text.Decimal.{itoa}
use mystic_hypervisor.Text.{codes, sprint, trim_space}

-- The configuration of a device.
abbrev pub Device : Type 0
Device = GoMap String String

-- `incus query /1.0/instances/NAME`: the devices, the expanded ones if there are any; an error that says
-- that there is no such instance; or any other error, of the command or of the parse.
pub data QueryAnswer : Type 0 where
  devices : GoMap String Device → QueryAnswer
  no_instance query_failed : QueryAnswer

-- `incus config device set|add|remove INSTANCE DEVICE`, with the addresses of `listen=` and `connect=`.
pub data Command : Type 0 where
  set_device add_proxy : String → String → String → String → Command
  remove_device : String → String → Command

-- A command is done, or fails because something is not found, or fails.
pub data CommandAnswer : Type 0 where
  done not_found failing : CommandAnswer

pub record Incus (S : Type 0) : Type 0 where
  pub query : String → S → QueryAnswer
  pub execute : Command → S → CommandAnswer × S

pub data DriverError : Type 0 where
  no_exposure unsupported_protocol invalid_exposure_id option_injection : DriverError
  instance_not_found query_error command_error : DriverError

-- strings.ReplaceAll(strings.ReplaceAll(s, "/", "-"), " ", "-")
unfoldable pub cleaned : String → String
cleaned String.[] = ""
cleaned (String.◌∷◌ c s) =
    let rest = cleaned s in
    if code c == b'/' || code c == b' ' then String.◌∷◌ "-" rest else String.◌∷◌ c rest

unfoldable pub device_name_for_exposure : String → String
device_name_for_exposure id = sprint ("mystic-exp-" ∷ cleaned id ∷ [])

abbrev pub starts_with_hyphen : String → Bool
starts_with_hyphen String.[] = false
starts_with_hyphen (String.◌∷◌ c s) = code c == b'-'

pub data Resolution : Type 0 where
  resolved : String → Resolution
  unresolved : DriverError → Resolution

abbrev pub checked_instance : String → Resolution
checked_instance name =
    if name == ""
    then unresolved invalid_exposure_id
    else if starts_with_hyphen name
    then unresolved option_injection
    else resolved name

-- The workload's name, or else its identity.
unfoldable pub resolve_instance_name : NetworkExposure → Resolution
resolve_instance_name exp =
    checked_instance (or_text (trim_space exp.workload_name) (trim_space exp.workload_id))

-- `tcp:%s:%d`
abbrev pub address : String → ℤ → String
address ip port = sprint ("tcp:" ∷ ip ∷ ":" ∷ itoa port ∷ [])

unfoldable pub expected_listen : NetworkExposure → String
expected_listen exp = address (or_text exp.public_ip "0.0.0.0") exp.public_port

unfoldable pub expected_connect : NetworkExposure → String
expected_connect exp = address exp.internal_ip exp.internal_port

-- `dev[key]`, the empty text if there is none.
abbrev pub field : String → Device → String
field key dev = elim (get key dev) [ none ↦ "" | some v ↦ v ]

-- The type and the addresses of a device are those of the exposure.
unfoldable pub forwards : NetworkExposure → Device → Bool
forwards exp dev =
    (field "type" dev == "" || field "type" dev == "proxy")
    && (field "listen" dev == expected_listen exp
        || field "listen" dev == address "" exp.public_port)
    && field "connect" dev == expected_connect exp

unfoldable pub is_up_to_date : NetworkExposure → Device → Bool
is_up_to_date exp dev = forwards exp dev && (field "nat" dev == "true" || field "nat" dev == "")

abbrev pub is_udp : Protocol → Bool
is_udp Protocol.udp = true
is_udp _ = false

-- networking.NetworkExposureStatus
pub record NetworkExposureStatus : Type 0 where
  pub active : Bool
  pub state : ExposureState
  pub ip_address : String
  pub port : ℤ
  pub device_name : String
  pub device_type : String
  pub listen : String
  pub connect : String
  pub nat : String
  pub instance_name : String
  pub raw_device : Option Device

abbrev pub unconfigured_status : String → String → NetworkExposureStatus
unconfigured_status inst device = record {
  active = false;
  state = ExposureState.unconfigured;
  ip_address = "";
  port = pos 0;
  device_name = device;
  device_type = "";
  listen = "";
  connect = "";
  nat = "";
  instance_name = inst;
  raw_device = none;
}

-- The status of a device that there is.
unfoldable pub device_status : NetworkExposure → String → String → Device → NetworkExposureStatus
device_status exp inst device dev = record {
  active = forwards exp dev;
  state = if forwards exp dev then ExposureState.applied else ExposureState.unconfigured;
  ip_address = exp.public_ip;
  port = exp.public_port;
  device_name = device;
  device_type = field "type" dev;
  listen = field "listen" dev;
  connect = field "connect" dev;
  nat = field "nat" dev;
  instance_name = inst;
  raw_device = some dev;
}

module _ {S : Type 0} (incus : Incus S) where
  -- An update or an addition: any error is one.
  abbrev pub executed : Command → S → Option DriverError × S
  executed c s =
      let (a, t) = incus.execute c s in
      (elim a [ done ↦ none | not_found ↦ some command_error | failing ↦ some command_error ], t)

  unfoldable pub create_on : NetworkExposure → String → S → Option DriverError × S
  create_on exp inst s =
      let device = device_name_for_exposure exp.id in
      elim (incus.query inst s) [
        | no_instance ↦ (some instance_not_found, s)
        | query_failed ↦ (some query_error, s)
        | devices ds ↦ elim (get device ds) [
          | none ↦ executed (add_proxy inst device (expected_listen exp) (expected_connect exp)) s
          | some dev ↦
              if is_up_to_date exp dev
              then (none, s)
              else executed (set_device inst device (expected_listen exp) (expected_connect exp)) s
        ]
      ]

  -- CreateExposure; `none` is the return without an error.
  unfoldable pub create_exposure : Option NetworkExposure → S → Option DriverError × S
  create_exposure none s = (some no_exposure, s)
  create_exposure (some exp) s =
      if is_udp exp.protocol
      then (some unsupported_protocol, s)
      else elim (resolve_instance_name exp) [
        | unresolved e ↦ (some e, s)
        | resolved inst ↦ create_on exp inst s
      ]

  -- DeleteExposure
  unfoldable pub delete_exposure : Option NetworkExposure → S → Option DriverError × S
  delete_exposure none s = (none, s)
  delete_exposure (some exp) s = elim (resolve_instance_name exp) [
    | unresolved e ↦ (none, s)
    | resolved inst ↦
        let (a, t) = incus.execute (remove_device inst (device_name_for_exposure exp.id)) s in
        (elim a [ done ↦ none | not_found ↦ none | failing ↦ some command_error ], t)
  ]

  -- GetExposure, where the query's error comes with a status.
  unfoldable pub get_exposure :
      Option NetworkExposure → S → NetworkExposureStatus × Option DriverError
  get_exposure none s = (unconfigured_status "" "", none)
  get_exposure (some exp) s = elim (resolve_instance_name exp) [
    | unresolved e ↦ (unconfigured_status "" "", none)
    | resolved inst ↦
        let device = device_name_for_exposure exp.id in
        elim (incus.query inst s) [
          | no_instance ↦ (unconfigured_status inst device, some instance_not_found)
          | query_failed ↦ (unconfigured_status inst device, some query_error)
          | devices ds ↦ elim (get device ds) [
            | none ↦ (unconfigured_status inst device, none)
            | some dev ↦ (device_status exp inst device dev, none)
          ]
        ]
  ]
