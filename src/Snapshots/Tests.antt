-- ===== src/Snapshots/Tests.antt =====
-- backend/internal/snapshots/manager.go, run with a provider that does what it is asked for.
use mystic_hypervisor.Prelude.Maps.{get, put}
use mystic_hypervisor.Prelude.{
  ◌≡◌, ◌↔◌, ◌⊎◌, refl, none, some, true, false, List, [], ◌∷◌, string_eq,
}
use mystic_hypervisor.Snapshots.Manager.Filing.{IsFiled, IsOf}
use mystic_hypervisor.Snapshots.Manager.Histories.{
  Call, Outcome, called, called-Outcome, create, run, run-IsOf,
}
use mystic_hypervisor.Prelude.Membership.{In}
use mystic_hypervisor.Snapshots.Manager.Listing.{IsProvided, IsStored, list_snapshots_lem}
use mystic_hypervisor.Snapshots.Manager.RoundTrips.{
  create_snapshot-get_snapshot, delete_snapshot-get_snapshot,
}
use mystic_hypervisor.Snapshots.Manager.Changes.{
  after_creation, create_snapshot, create_vacant, new_snapshot, delete_snapshot,
}
use mystic_hypervisor.Snapshots.Manager.{
  Manager, ProviderSnapshot, SnapshotProvider, checked, get_snapshot, get_snapshot_provider,
  list_snapshots, new_manager, ok, err, resolve_instance_name, snapshot_exists, snapshot_not_found,
}
use mystic_hypervisor.Snapshots.Name.Syntax.{IsName, validate_snapshot_name_iff}
use mystic_hypervisor.Snapshots.Name.{
  byte_length, hyphen, invalid_characters, is_alphanumeric, is_name_character, make_snapshot_id,
  matches_name, matches_rest, name_fault, validate_snapshot_name, width,
}
use mystic_hypervisor.Snapshots.{Snapshot}
use mystic_hypervisor.Text.{codes, sprint, trim_space}

abbrev nightly : ProviderSnapshot
nightly = record { name = "nightly"; stateful = false; created_at = 7 }

abbrev provider : SnapshotProvider
provider = record {
  list_snapshots = λ _. some (nightly ∷ []);
  create_snapshot = λ _ _ _. some none;
  restore_snapshot = λ _ _. true;
  delete_snapshot = λ _ _. true;
}

abbrev start : Manager
start = new_manager none none (some (some provider)) (some (λ _. some "web"))

abbrev calls : List Call
calls = create 1 true "wl-1" "before" false "" ∷ []

test_hyphen : validate_snapshot_name "-force" ≡ some hyphen
unfolding validate_snapshot_name name_fault trim_space
test_hyphen = refl

test_slash : validate_snapshot_name "a/b" ≡ some invalid_characters
unfolding validate_snapshot_name name_fault trim_space byte_length width matches_name matches_rest
    is_alphanumeric is_name_character
test_slash = refl

-- A name of 64 letters passes the check of the length and fails that of the characters.
test_64 :
    validate_snapshot_name "aaaaaaaaaaaaaaaaaaaaaaaaaaaaaaaaaaaaaaaaaaaaaaaaaaaaaaaaaaaaaaaa"
    ≡ some invalid_characters
unfolding validate_snapshot_name name_fault trim_space byte_length width matches_name matches_rest
    is_alphanumeric is_name_character
test_64 = refl

-- The white space at its ends does not count.
accepted : validate_snapshot_name " before" ≡ none
unfolding validate_snapshot_name name_fault trim_space byte_length width matches_name matches_rest
    is_alphanumeric is_name_character
accepted = refl

before_is_accepted : validate_snapshot_name "before" ≡ none
unfolding validate_snapshot_name name_fault trim_space byte_length width matches_name matches_rest
    is_alphanumeric is_name_character
before_is_accepted = refl

at_web : resolve_instance_name "wl-1" start ≡ ok "web"
unfolding resolve_instance_name new_manager trim_space
at_web = refl

by_provider : get_snapshot_provider start ≡ ok provider
unfolding get_snapshot_provider new_manager
by_provider = refl

nothing_kept : get (make_snapshot_id "wl-1" "before") start.snapshots ≡ none
unfolding get new_manager
nothing_kept = refl

kept :
    get_snapshot "wl-1" "before" (run calls start)
    ≡ ok (new_snapshot 1 "wl-1" "web" "before" false "" none)
unfolding run called create_snapshot create_vacant after_creation get_snapshot checked
    validate_snapshot_name name_fault trim_space byte_length width matches_name matches_rest
    is_alphanumeric is_name_character resolve_instance_name get_snapshot_provider new_manager
    make_snapshot_id sprint get put new_snapshot
kept = refl

start-IsFiled : IsFiled start.snapshots
unfolding new_manager get
start-IsFiled k s e = cc

validate_snapshot_name_iff_example :
    (validate_snapshot_name " before" ≡ none) ↔ IsName (codes (trim_space " before"))
validate_snapshot_name_iff_example = validate_snapshot_name_iff " before"

called-Outcome_example : Outcome (create 1 true "wl-1" "before" false "") start
called-Outcome_example = called-Outcome (create 1 true "wl-1" "before" false "") start start-IsFiled

run-IsOf_example : IsOf "wl-1" "before" (new_snapshot 1 "wl-1" "web" "before" false "" none)
run-IsOf_example =
    run-IsOf none none (some (some provider)) (some (λ _. some "web")) calls "wl-1" "before"
      (new_snapshot 1 "wl-1" "web" "before" false "" none) (λ ss e. cc) kept

create_snapshot-get_snapshot_example :
    (let s = new_snapshot 1 "wl-1" "web" "before" false "" none in
      let (r, n) = create_snapshot 1 true "wl-1" "before" false "" start in
      (r ≡ ok s)
      × (get_snapshot "wl-1" "before" n ≡ ok s)
      × (create_snapshot 1 true "wl-1" "before" false "" n ≡ (err snapshot_exists, n)))
create_snapshot-get_snapshot_example =
    create_snapshot-get_snapshot 1 true "wl-1" "before" start "web" provider before_is_accepted
      at_web by_provider false "" none nothing_kept refl

delete_snapshot-get_snapshot_example :
    get_snapshot "wl-1" "before" (delete_snapshot true "wl-1" "before" start).1
    ≡ err snapshot_not_found
delete_snapshot-get_snapshot_example =
    delete_snapshot-get_snapshot 1 true "wl-1" "before" start "web" provider before_is_accepted
      at_web by_provider (nightly ∷ []) refl refl (λ e. cc e, _)

-- A manager that keeps a snapshot of the workload and one of another.
abbrev of_db : Snapshot
of_db = record (new_snapshot 1 "wl-2" "db" "other" false "" none) { description = "db" }

abbrev two : Manager
two = record start {
  snapshots =
      ("wl-1/before", new_snapshot 1 "wl-1" "web" "before" false "" none)
      ∷ ("wl-2/other", of_db)
      ∷ [];
}

at_two : resolve_instance_name "wl-1" two ≡ ok "web"
unfolding resolve_instance_name new_manager trim_space
at_two = refl

by_two : get_snapshot_provider two ≡ ok provider
unfolding get_snapshot_provider new_manager
by_two = refl

list_snapshots_lem_example :
    (all : List Snapshot) × (list_snapshots "wl-1" two ≡ ok all)
    × ((s : Snapshot)
        → In s all ↔ (
            IsStored "wl-1" "web" two.snapshots s
            ⊎ IsProvided "wl-1" "web" two.snapshots (nightly ∷ []) s))
list_snapshots_lem_example =
    list_snapshots_lem "wl-1" "web" two provider (nightly ∷ []) at_two by_two refl
