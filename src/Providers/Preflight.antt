-- ===== src/Providers/Preflight.antt =====
-- backend/internal/providers/interfaces/preflight.go: what a provider says of itself before it is used.
use mystic_hypervisor.Prelude.Int.{ℤ}
use mystic_hypervisor.Prelude.{String, Bool, List}

pub data ProviderAvailability : Type 0 where
  available unavailable : ProviderAvailability

pub data InstanceOwnership : Type 0 where
  mystic_owned external unknown : InstanceOwnership

pub record ProviderHealthStatus : Type 0 where
  pub installed : Bool
  pub reachable : Bool
  pub operational : Bool
  pub capable : Bool

pub record PreflightInstance : Type 0 where
  pub name : String
  pub type : String
  pub state : String
  pub ownership : InstanceOwnership
  pub ip_address : String

pub record DiscoveredNetwork : Type 0 where
  pub name : String
  pub type : String
  pub managed : Bool
  pub ipv4 : String
  pub ipv6 : String
  pub state : String

pub record DiscoveredStoragePool : Type 0 where
  pub name : String
  pub driver : String
  pub status : String
  pub used_bytes : ℤ
  pub total_bytes : ℤ

pub record DiscoveredImage : Type 0 where
  pub fingerprint : String
  pub alias : String
  pub description : String
  pub os : String
  pub release : String
  pub architecture : String
  pub size_bytes : ℤ

pub record ProviderServerInfo : Type 0 where
  pub server_version : String
  pub os : String
  pub kernel : String
  pub architecture : String
  pub kvm_supported : Bool

-- Of a warning and a blocker that the manager adds, the name and the error that it prints.
pub data Notice : Type 0 where
  missing_from_database : String → Notice
  provider_down : String → String → Notice
  other : String → Notice

pub record ProviderPreflightResult : Type 0 where
  pub provider : String
  pub availability : ProviderAvailability
  pub health_status : ProviderHealthStatus
  pub server_info : ProviderServerInfo
  pub capabilities : List String
  pub existing_instances : List PreflightInstance
  pub networks : List DiscoveredNetwork
  pub storage_pools : List DiscoveredStoragePool
  pub images : List DiscoveredImage
  pub warnings : List Notice
  pub blockers : List Notice
