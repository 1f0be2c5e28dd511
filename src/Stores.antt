-- ===== src/Stores.antt =====
-- The file stores of the backend, each at its own type: networking/ssh_allocation_store.go,
-- networking/exposure_store.go, services/service_store.go, connections/connection_store.go and
-- snapshots/store.go under backend/internal. `Store.FileStore` is the program that they share.
use mystic_hypervisor.Connections.{ConnectionProfile}
use mystic_hypervisor.Networking.Exposure.{NetworkExposure, or_text}
use mystic_hypervisor.Networking.SshAllocation.{SshAllocation}
use mystic_hypervisor.Prelude.Maps.{GoMap}
use mystic_hypervisor.Prelude.{String, Option, []}
use mystic_hypervisor.Services.{Service}
use mystic_hypervisor.Snapshots.{Snapshot}
use mystic_hypervisor.Store.FileStore.{
  MapCodec, Files, LoadCalls, Loaded, SaveCalls, StoreError, load, save,
}

-- The path that a constructor takes: the one given, or the environment's, or the default.
abbrev pub store_path : String → String → String → String
store_path default env given = or_text given (or_text env default)

abbrev pub ssh_allocation_store_path : String → String → String
ssh_allocation_store_path = store_path "/var/lib/mystic/ssh_allocations.json"

abbrev pub exposure_store_path : String → String → String
exposure_store_path = store_path "/var/lib/mystic/network_exposures.json"

abbrev pub service_store_path : String → String → String
service_store_path = store_path "/var/lib/mystic/services.json"

abbrev pub connection_store_path : String → String → String
connection_store_path = store_path "/var/lib/mystic/connection_profiles.json"

abbrev pub snapshot_store_path : String → String → String
snapshot_store_path = store_path "/var/lib/mystic/snapshots.json"

abbrev pub save_ssh_allocations :
    MapCodec SshAllocation
    → SaveCalls
    → String
    → GoMap String SshAllocation
    → Files
    → Files × Option StoreError
save_ssh_allocations codec = save codec

abbrev pub load_ssh_allocations :
    MapCodec SshAllocation → LoadCalls → String → Files → Loaded (GoMap String SshAllocation)
load_ssh_allocations codec calls path = load codec calls path []

abbrev pub save_exposures :
    MapCodec NetworkExposure
    → SaveCalls
    → String
    → GoMap String NetworkExposure
    → Files
    → Files × Option StoreError
save_exposures codec = save codec

abbrev pub load_exposures :
    MapCodec NetworkExposure → LoadCalls → String → Files → Loaded (GoMap String NetworkExposure)
load_exposures codec calls path = load codec calls path []

abbrev pub save_services :
    MapCodec Service → SaveCalls → String → GoMap String Service → Files → Files × Option StoreError
save_services codec = save codec

abbrev pub load_services :
    MapCodec Service → LoadCalls → String → Files → Loaded (GoMap String Service)
load_services codec calls path = load codec calls path []

abbrev pub save_connections :
    MapCodec ConnectionProfile
    → SaveCalls
    → String
    → GoMap String ConnectionProfile
    → Files
    → Files × Option StoreError
save_connections codec = save codec

abbrev pub load_connections :
    MapCodec ConnectionProfile
    → LoadCalls
    → String
    → Files
    → Loaded (GoMap String ConnectionProfile)
load_connections codec calls path = load codec calls path []

abbrev pub save_snapshots :
    MapCodec Snapshot
    → SaveCalls
    → String
    → GoMap String Snapshot
    → Files
    → Files × Option StoreError
save_snapshots codec = save codec

abbrev pub load_snapshots :
    MapCodec Snapshot → LoadCalls → String → Files → Loaded (GoMap String Snapshot)
load_snapshots codec calls path = load codec calls path []
