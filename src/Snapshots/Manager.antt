-- ===== src/Snapshots/Manager.antt =====
-- backend/internal/snapshots/manager.go: the manager of the snapshots. The provider and the resolver that
-- the state holds answer as they do in the course of one method; what they come to answer later is what
-- SetProvider and SetResolver put in their place. A method that gives the mutex up while it asks the
-- provider is still one step.
pub mod Changes
pub mod Book
pub mod RoundTrips
pub mod Listing
pub mod Filing
pub mod Restoration
pub mod Histories
use mystic_hypervisor.Prelude.Maps.{GoMap, get, put, delete, values}
use mystic_hypervisor.Prelude.{
  ℕ, ◌≡◌, refl, Option, none, some, String, Bool, true, false, not, ◌==◌, ◌||◌, nat_eq, string_eq,
  List, [], ◌∷◌, ◌++◌, any, keep, map, if◌then◌else◌,
}
use mystic_hypervisor.Prelude.Int.{pos}
use mystic_hypervisor.Snapshots.Name.{NameFault, make_snapshot_id, validate_snapshot_name}
use mystic_hypervisor.Snapshots.{Snapshot}
use mystic_hypervisor.Store.{Store, save}
use mystic_hypervisor.Text.{trim_space}

-- interfaces.Snapshot, less the instance, which no method reads. A time is a number, 0 the zero time.
pub record ProviderSnapshot : Type 0 where
  pub name : String
  pub stateful : Bool
  pub created_at : ℕ

-- The answers of a SnapshotProvider: `none` and `false` are errors. A creation without an error may
-- return no snapshot.
pub record SnapshotProvider : Type 0 where
  pub list_snapshots : String → Option (List ProviderSnapshot)
  pub create_snapshot : String → String → Bool → Option (Option ProviderSnapshot)
  pub restore_snapshot : String → String → Bool
  pub delete_snapshot : String → String → Bool

-- What the manager asked a provider to change, for an instance and a snapshot's name.
pub data Request : Type 0 where
  creates restores deletes : String → String → Request

-- `provider` is `none` if there is none, `some none` if it has no SnapshotProvider. A resolver answers
-- `none` for an error. `requests` has the last request first.
pub record Manager : Type 0 where
  pub snapshots : GoMap String Snapshot
  pub store : Store Snapshot
  pub provider : Option (Option SnapshotProvider)
  pub resolver : Option (String → Option String)
  pub requests : List Request

pub data SnapshotError : Type 0 where
  invalid_snapshot_name : NameFault → SnapshotError
  snapshot_not_found snapshot_exists workload_not_found : SnapshotError
  provider_unavailable unsupported_operation provider_failed : SnapshotError

pub data Result (A : Type 0) : Type 0 where
  ok : A → Result A
  err : SnapshotError → Result A

-- `if err != nil { return err }`, where nothing was changed.
abbrev pub given : {A B : Type 0} → Result A → (A → Result B) → Result B
given (ok a) f = f a
given (err e) f = err e

-- The same in a method that changes the state.
abbrev pub given_in :
    {A B : Type 0} → Manager → Result A → (A → Result B × Manager) → Result B × Manager
given_in m (ok a) f = f a
given_in m (err e) f = (err e, m)

-- What holds of the error and of what follows a success holds of both.
pub given_elim :
    {A B : Type 0} (P : Result B → Type 0) (r : Result A) (f : A → Result B)
    → ((e : SnapshotError) → r ≡ err e → P (err e))
    → ((a : A) → r ≡ ok a → P (f a))
    → P (given r f)
given_elim P (ok a) f g h = h a refl
given_elim P (err e) f g h = g e refl

pub given_in_elim :
    {A B : Type 0} (P : Result B × Manager → Type 0) (m : Manager) (r : Result A)
    (f : A → Result B × Manager)
    → ((e : SnapshotError) → r ≡ err e → P (err e, m))
    → ((a : A) → r ≡ ok a → P (f a))
    → P (given_in m r f)
given_in_elim P m (ok a) f g h = h a refl
given_in_elim P m (err e) f g h = g e refl

-- NewManager, with what Load returns: `none` for an error.
unfoldable pub new_manager :
    Option (GoMap String Snapshot)
    → Store Snapshot
    → Option (Option SnapshotProvider)
    → Option (String → Option String)
    → Manager
new_manager loaded store provider resolver = record {
  snapshots = elim store [
    | none ↦ []
    | some _ ↦ elim loaded [ none ↦ [] | some snapshots ↦ snapshots ]
  ];
  store = store;
  provider = provider;
  resolver = resolver;
  requests = [];
}

unfoldable pub set_provider : Option (Option SnapshotProvider) → Manager → Manager
set_provider p m = record m { provider = p }

unfoldable pub set_resolver : Option (String → Option String) → Manager → Manager
set_resolver r m = record m { resolver = r }

-- `if err := ValidateSnapshotName(name); err != nil { return nil, err }`
unfoldable pub checked : String → Result Unit
checked name = elim (validate_snapshot_name name) [
  | none ↦ ok _
  | some f ↦ err (invalid_snapshot_name f)
]

unfoldable pub get_snapshot_provider : Manager → Result SnapshotProvider
get_snapshot_provider m = elim m.provider [
  | none ↦ err provider_unavailable
  | some none ↦ err unsupported_operation
  | some (some p) ↦ ok p
]

-- What a resolver says of an identity, and the identity itself if it says nothing.
abbrev pub resolved : Option (String → Option String) → String → Result String
resolved none id = ok id
resolved (some f) id = elim (f id) [
  | none ↦ err workload_not_found
  | some name ↦ ok (if name == "" then id else name)
]

unfoldable pub resolve_instance_name : String → Manager → Result String
resolve_instance_name workload_id m =
    if trim_space workload_id == ""
    then err workload_not_found
    else resolved m.resolver (trim_space workload_id)

-- The record that is made of a snapshot that only the provider has.
unfoldable pub provided : String → String → ProviderSnapshot → Snapshot
provided workload_id inst ps = record {
  id = make_snapshot_id workload_id ps.name;
  name = ps.name;
  workload_id = workload_id;
  workload_name = inst;
  stateful = ps.stateful;
  size_bytes = pos 0;
  created_at = ps.created_at;
  status = "ACTIVE";
  description = "";
}

-- Those of the provider's whose names the result so far does not have.
abbrev pub missing_from : List Snapshot → List ProviderSnapshot → List ProviderSnapshot
missing_from known = keep (λ ps. not (any (λ (s : Snapshot). s.name == ps.name) known))

abbrev pub with_provided : String → String → List Snapshot → List ProviderSnapshot → List Snapshot
with_provided workload_id inst known listed =
    known ++ map (provided workload_id inst) (missing_from known listed)

-- The stored snapshots of a workload, by its identity or the name of its instance.
abbrev pub stored_of : String → String → GoMap String Snapshot → List Snapshot
stored_of workload_id inst m =
    keep (λ (s : Snapshot). s.workload_id == workload_id || s.workload_name == inst) (values m)

unfoldable pub list_snapshots : String → Manager → Result (List Snapshot)
list_snapshots workload_id m = given (resolve_instance_name workload_id m) (λ inst.
    let known = stored_of workload_id inst m.snapshots in
    elim (get_snapshot_provider m) [
      | err e ↦ ok known
      | ok p ↦ elim (p.list_snapshots inst) [
        | none ↦ ok known
        | some listed ↦ ok (with_provided workload_id inst known listed)
      ]
    ])

-- The first of the provider's snapshots that has the name.
unfoldable pub find_named : String → String → String → List ProviderSnapshot → Result Snapshot
find_named workload_id inst name [] = err snapshot_not_found
find_named workload_id inst name (ps ∷ rest) =
    let later = find_named workload_id inst name rest in
    if ps.name == name then ok (provided workload_id inst ps) else later

unfoldable pub get_from_provider : String → String → String → Manager → Result Snapshot
get_from_provider workload_id inst name m = elim (get_snapshot_provider m) [
  | err e ↦ err snapshot_not_found
  | ok p ↦ elim (p.list_snapshots inst) [
    | none ↦ err snapshot_not_found
    | some listed ↦ find_named workload_id inst name listed
  ]
]

unfoldable pub get_snapshot : String → String → Manager → Result Snapshot
get_snapshot workload_id name m = given (checked name) (λ _.
    elim (get (make_snapshot_id workload_id name) m.snapshots) [
      | some s ↦ ok s
      | none ↦
          given (resolve_instance_name workload_id m)
            (λ inst. get_from_provider workload_id inst name m)
    ])
