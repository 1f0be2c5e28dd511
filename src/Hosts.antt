-- ===== src/Hosts.antt =====
-- backend/internal/hosts/host.go: the words of the network model. A Go string type with named
-- constants has a constructor for each, one for the empty string where the code asks for it, and one
-- for any other text.
use mystic_hypervisor.Prelude.Int.{ℤ}
use mystic_hypervisor.Prelude.{◌≡◌, ◌↔◌, Bool, true, false, String, arith, Eq, ◌==◌, string_eq}

pub data Protocol : Type 0 where
  tcp udp tcp_udp unset : Protocol
  other : String → Protocol

pub data ExposureMode : Type 0 where
  private_only nat_forwarded direct_public external_gateway unconfigured unset : ExposureMode
  other : String → ExposureMode

pub data ExposureState : Type 0 where
  unconfigured configured requested applied verified failed unset : ExposureState
  other : String → ExposureState

abbrev pub protocol_beq : Protocol → Protocol → Bool
protocol_beq Protocol.tcp Protocol.tcp = true
protocol_beq Protocol.udp Protocol.udp = true
protocol_beq Protocol.tcp_udp Protocol.tcp_udp = true
protocol_beq Protocol.unset Protocol.unset = true
protocol_beq (Protocol.other s) (Protocol.other t) = s == t
protocol_beq _ _ = false

pub protocol_beq_iff : (p q : Protocol) → (protocol_beq p q ≡ true) ↔ (p ≡ q)
protocol_beq_iff (Protocol.other s) (Protocol.other t) = ground (arith, string_eq.same_iff s t)
protocol_beq_iff _ _ = ground arith

instance abbrev pub protocol_eq : Eq Protocol
protocol_eq = record { same = protocol_beq; same_iff = protocol_beq_iff }

abbrev pub exposure_state_beq : ExposureState → ExposureState → Bool
exposure_state_beq ExposureState.unconfigured ExposureState.unconfigured = true
exposure_state_beq ExposureState.configured ExposureState.configured = true
exposure_state_beq ExposureState.requested ExposureState.requested = true
exposure_state_beq ExposureState.applied ExposureState.applied = true
exposure_state_beq ExposureState.verified ExposureState.verified = true
exposure_state_beq ExposureState.failed ExposureState.failed = true
exposure_state_beq ExposureState.unset ExposureState.unset = true
exposure_state_beq (ExposureState.other s) (ExposureState.other t) = s == t
exposure_state_beq _ _ = false

-- The empty string stands for a field that was not given.
abbrev pub protocol_is_unset : Protocol → Bool
protocol_is_unset Protocol.unset = true
protocol_is_unset _ = false

abbrev pub mode_is_unset : ExposureMode → Bool
mode_is_unset ExposureMode.unset = true
mode_is_unset _ = false

abbrev pub state_is_unset : ExposureState → Bool
state_is_unset ExposureState.unset = true
state_is_unset _ = false

-- ResourceOwner; the code never compares two owners.
abbrev pub owner_system : String
owner_system = "SYSTEM"

abbrev pub owner_mystic : String
owner_mystic = "MYSTIC"

pub record ForwardingRule : Type 0 where
  pub id : String
  pub gateway_id : String
  pub public_ip : String
  pub public_port : ℤ
  pub protocol : Protocol
  pub destination_host_id : String
  pub destination_ip : String
  pub destination_port : ℤ
  pub workload_id : String
  pub state : ExposureState
  pub owner : String
  pub description : String
  pub upstream_ip : String
  pub external_port : ℤ
  pub internal_ip : String
  pub internal_port : ℤ
