-- ===== src/Providers.antt =====
-- backend/internal/providers/interfaces/types.go: what a provider says of an instance.
pub mod IncusProxy
pub mod Preflight
pub mod Registry
mod Tests
use mystic_hypervisor.Prelude.Int.{ℤ}
use mystic_hypervisor.Prelude.Maps.{GoMap}
use mystic_hypervisor.Prelude.{
  ℕ, Option, String, Bool, true, false, ◌≡◌, ◌↔◌, arith, Eq, ◌==◌, string_eq,
}

pub data InstanceType : Type 0 where
  vm container : InstanceType
  other : String → InstanceType

pub data InstanceState : Type 0 where
  running stopped frozen error creating deleting unknown unset : InstanceState
  other : String → InstanceState

abbrev pub instance_state_beq : InstanceState → InstanceState → Bool
instance_state_beq InstanceState.running InstanceState.running = true
instance_state_beq InstanceState.stopped InstanceState.stopped = true
instance_state_beq InstanceState.frozen InstanceState.frozen = true
instance_state_beq InstanceState.error InstanceState.error = true
instance_state_beq InstanceState.creating InstanceState.creating = true
instance_state_beq InstanceState.deleting InstanceState.deleting = true
instance_state_beq InstanceState.unknown InstanceState.unknown = true
instance_state_beq InstanceState.unset InstanceState.unset = true
instance_state_beq (InstanceState.other s) (InstanceState.other t) = s == t
instance_state_beq _ _ = false

pub instance_state_beq_iff : (s t : InstanceState) → (instance_state_beq s t ≡ true) ↔ (s ≡ t)
instance_state_beq_iff (InstanceState.other s) (InstanceState.other t) =
    ground (arith, string_eq.same_iff s t)
instance_state_beq_iff _ _ = ground arith

instance abbrev pub instance_state_eq : Eq InstanceState
instance_state_eq = record { same = instance_state_beq; same_iff = instance_state_beq_iff }

pub record ResourceLimits : Type 0 where
  pub cpu_cores : ℤ
  pub memory_bytes : ℤ
  pub disk_bytes : ℤ

-- A nil map reads like an empty one, and wherever the code tests for nil the two have one outcome.
pub record Instance : Type 0 where
  pub id : String
  pub name : String
  pub type : InstanceType
  pub state : InstanceState
  pub provider : String
  pub node : String
  pub ip_address : String
  pub limits : ResourceLimits
  pub labels : GoMap String String
  pub devices : GoMap String (GoMap String String)
  pub created_at : Option ℕ
  pub updated_at : Option ℕ
