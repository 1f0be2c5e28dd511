-- ===== src/Lib.antt =====
-- Verification library of the Mystic Hypervisor backend (the Go program under backend/). It models the
-- control plane's bookkeeping: which public port belongs to which workload, which exposures and
-- services exist, and what of it reaches the disk. The program is a daemon whose HTTP handlers call
-- managers; a manager keeps its objects in a map behind a mutex and saves the whole map to a JSON
-- file after every change. The exposure manager asks the allocation engine whether a port may be
-- exposed, and owns the allocator of public SSH ports, which in turn asks the exposure manager
-- whether a port is in use. The workload manager has plans validated by the engine, asks the provider
-- for instances, and gives each workload a public SSH port and an exposure; it is also what tells the
-- snapshot manager which instance a workload has. The service manager asks the exposure manager
-- whether an exposure exists; a connection profile is made from a service and an exposure.
--
-- Files, and the code that they model (paths from the repository's root, below backend/internal/):
--   Prelude         shared names, Boolean tests, lists, the native integers, and Prelude/Maps, which is
--                   Go's map as an association list in which the first entry of a key counts, and
--                   Prelude/Membership
--   Text            package strings, strconv and fmt as the code uses them; Text/Ip is net.ParseIP
--   Hosts           hosts/host.go: protocols, exposure states, forwarding rules
--   Providers       providers/interfaces/types.go: instances and their limits
--   Instances       instances/reconciler.go; Instances/Reconciler has Reconcile and its theorems
--   Networking/Requests, Exposure, SshAllocation
--                   networking/networking.go, exposure.go and ssh_allocation.go: the data
--   Networking/AllocatorEngine
--                   networking/allocator.go: ValidateAllocation is validate_allocation, cut along the
--                   numbered comments of the source into basic_checks here, normalize_mode in Normalize
--                   and analyse in Conflicts; findFreePoolRange is in Pool
--   Networking/ExposureManager
--                   networking/exposure_manager.go: one function for each method, under its name
--   Networking/SshAllocator
--                   networking/ssh_allocator.go: one function for each method; the methods that read
--                   devices and exposures are in Discovery, and Calls has the calls and histories
--   Store           what a manager sees of its store; Store/FileStore is Save and Load of the file
--                   stores, that of workloads/store.go too; Store/Registry is the map and store that
--                   the managers share
--   Stores          networking/ssh_allocation_store.go, networking/exposure_store.go,
--                   services/service_store.go, connections/connection_store.go,
--                   snapshots/store.go: the file stores
--   Services        services/service.go and service_manager.go
--   Connections     connections/connection.go and connection_manager.go
--   Config          config/config.go
--   Rbac            rbac/rbac.go
--   Workloads       Workloads/Execution is workloads/execution.go: ownership of instances, records of
--                   operations; Workloads/Workload is workloads/workloads.go
--   Workloads/Manager
--                   workloads/manager.go: one function for each method, in Creation, Adoption, Planning,
--                   Provisioning, Lifecycle, Deletion, Reconciliation and Preflight; Launch is the end
--                   of ProvisionWorkload, Access the SSH endpoint that provisioning and reconciliation
--                   keep; Histories has the calls and histories
--   Snapshots       snapshots/snapshots.go; Snapshots/Name is the check of a name and the key of a record,
--                   Snapshots/Manager is snapshots/manager.go, one function for each method (those that
--                   change snapshots are in Changes), and
--                   Snapshots/Deleted has it with the workload manager as its resolver, as api/router.go does
--   Providers/Registry, Preflight
--                   providers/interfaces/provider.go, capabilities.go and preflight.go
--   Providers/IncusProxy
--                   providers/incus/proxy.go: the driver that keeps an exposure as a proxy device
-- The other files below a component prove what their names say; the files named Tests run the model
-- on concrete inputs.
--
-- How the code corresponds. A method takes the state last and returns its result and the new state;
-- it holds the manager's mutex throughout, so it is one step, and a history is a list of calls. The
-- methods of the workload and snapshot managers that give it up while they ask the provider are one
-- step too: what another method does in between is not modelled.
-- A pointer that two maps share is an address into a heap of objects (the SSH allocator); where one
-- map holds the only pointer, the map holds the object. A map that is ranged over is ranged over in
-- the order of its list, and the theorems hold for every such order. Errors are constructors, with
-- what the code prints into them. What a method reads from outside is an argument: the time, the
-- environment variables, whether the store's Load and Save succeed, the answers of a provider's
-- driver, and for the file stores the encoding and the outcome of every call of the file system.
-- A Go int is an integer, and the sums and differences of ports wrap around at 64 bits (add_int and
-- sub_int).
--
-- Bounds and fuel. The port search of the SSH allocator has the 101 rounds of the loop's own bounds.
-- The search of the pool has as many rounds as the pool has ports from the first candidate on, which
-- the loop cannot exceed, since each round moves the candidate up by at least one. The other loops are
-- recursion on a list. A number is printed with room for twenty digits, which any of 64 bits fits in.
--
-- Not modelled: the goroutine that calls ReconcileAll from time to time and the audit log of
-- workloads/, the REST client of providers/incus/incus.go and the KVM and LXC stubs, the HTTP router
-- of api/, logging, and the packages that declare types only; SHA-256, which is a parameter; the
-- wording of messages where it is only printed; the mutexes.
pub mod Prelude
pub mod Text
pub mod Store
pub mod Hosts
pub mod Providers
pub mod Instances
pub mod Networking
pub mod Services
pub mod Connections
pub mod Stores
pub mod Rbac
pub mod Tests
pub mod Config
pub mod Workloads
pub mod Snapshots
