-- ===== src/Networking/SshAllocation.antt =====
-- backend/internal/networking/ssh_allocation.go: a public SSH port given to a workload.
use mystic_hypervisor.Prelude.Int.{ℤ, pos, lez}
use mystic_hypervisor.Prelude.{
  ℕ, Option, String, Bool, true, false, ◌&&◌, ◌==◌, string_eq, [], ◌∷◌, if◌then◌else◌,
}
use mystic_hypervisor.Text.Decimal.{itoa}
use mystic_hypervisor.Text.{sprint}

abbrev pub ssh_port_min : ℕ
ssh_port_min = 22100

abbrev pub ssh_port_max : ℕ
ssh_port_max = 22200

abbrev pub ssh_total_ports : ℕ
ssh_total_ports = 101

-- The lifecycle words, and any other text that a store may hold.
pub data SshAllocationStatus : Type 0 where
  allocated provisioning active releasing released failed : SshAllocationStatus
  other : String → SshAllocationStatus

abbrev pub is_released : SshAllocationStatus → Bool
is_released SshAllocationStatus.released = true
is_released _ = false

pub record SshAllocation : Type 0 where
  pub id : String
  pub public_port : ℤ
  pub protocol : String
  pub purpose : String
  pub workload_id : String
  pub instance_id : String
  pub instance_name : String
  pub incus_host_id : String
  pub incus_host_address : String
  pub public_ssh_host : String
  pub private_ip : String
  pub destination_port : ℤ
  pub status : SshAllocationStatus
  pub created_at : ℕ
  pub updated_at : ℕ
  pub released_at : Option ℕ

-- What a client is told of the way to its workload.
pub record SshAccessInfo : Type 0 where
  pub host : String
  pub port : ℤ
  pub username : String
  pub protocol : String
  pub status : SshAllocationStatus
  pub allocation_id : String
  pub incus_host_id : String
  pub connection_command : String

-- `port >= SSHPortMin && port <= SSHPortMax`
abbrev pub in_range : ℤ → Bool
in_range p = lez (pos ssh_port_min) p && lez p (pos ssh_port_max)

-- What the environment variables MYSTIC_PUBLIC_SSH_HOST and MYSTIC_INCUS_HOST_ADDRESS hold.
pub record Env : Type 0 where
  pub public_ssh_host : String
  pub incus_host_address : String

unfoldable pub get_public_ssh_host : Env → String
get_public_ssh_host env =
    if env.public_ssh_host == "" then "ssh.mysticservers.com" else env.public_ssh_host

unfoldable pub get_incus_host_address : Env → String
get_incus_host_address env =
    if env.incus_host_address == "" then "100.67.231.100" else env.incus_host_address

-- `ssh-alloc-%d`
unfoldable pub allocation_id : ℤ → String
allocation_id port = sprint ("ssh-alloc-" ∷ itoa port ∷ [])

unfoldable pub generate_ssh_connection_command : Env → String → ℤ → String → String
generate_ssh_connection_command env host port user = sprint (
    "ssh -p "
    ∷ itoa port
    ∷ " "
    ∷ (if user == "" then "root" else user)
    ∷ "@"
    ∷ (if host == "" then get_public_ssh_host env else host)
    ∷ [])
