-- ===== src/Networking/ExposureManager/Tests.antt =====
-- The theorems on the exposure manager and the allocator engine at concrete inputs.
use mystic_hypervisor.Hosts.{ExposureMode, ExposureState, ForwardingRule, Protocol}
use mystic_hypervisor.Instances.{in_sync}
use mystic_hypervisor.Networking.AllocatorEngine.Conflicts.{
  analyse, check_listening, check_mapping, check_mappings, check_new, check_reserved, check_rule,
  check_rules, conclude, is_taken_by, port_key, validate_allocation,
}
use mystic_hypervisor.Networking.AllocatorEngine.FirstFit.{
  IsFirstFit, find_free_pool_range-IsFirstFit,
}
use mystic_hypervisor.Networking.AllocatorEngine.Normalize.{
  bad_internal_range, normalize_found, normalize_from_pool, normalize_given_range, normalize_mode,
  normalize_pool_range, normalize_range, normalize_single, range_blockers, range_mappings,
}
use mystic_hypervisor.Networking.AllocatorEngine.Pool.{find_free_pool_range, pool_rounds, scan_pool}
use mystic_hypervisor.Networking.AllocatorEngine.Validity.{Sound, validate_allocation-Sound}
use mystic_hypervisor.Networking.AllocatorEngine.{
  basic_checks, check_destination, check_gateway, check_public_ip, check_workload, is_port_free,
}
use mystic_hypervisor.Networking.Exposure.{
  NetworkExposure, convert_forwarding_rule_to_exposure, to_forwarding_rule,
}
use mystic_hypervisor.Networking.ExposureManager.Changes.{
  delete_network_exposure-update_network_exposure,
}
use mystic_hypervisor.Networking.ExposureManager.Creation.{Outcome, create_network_exposure-Outcome}
use mystic_hypervisor.Networking.ExposureManager.Histories.{
  Call, OrderlyRules, OrderlyRun, creates, applies, migrates, updates, run, run-Unique, step,
}
use mystic_hypervisor.Networking.ExposureManager.Unique.{Unique}
use mystic_hypervisor.Networking.ExposureManager.Validation.{IsAcceptable, validate_exposure_iff}
use mystic_hypervisor.Networking.ExposureManager.{
  ExposureError, Manager, err, delete_network_exposure, update_network_exposure, accepts,
  check_new as check_new_exposure, create_locked, create_network_exposure, insert,
  migrate_forwarding_rules, migrate_rule, migrate_rules, other_rules, updated_by, validate_exposure,
}
use mystic_hypervisor.Networking.Requests.{AllocationMode, AllocationPool, PortAllocationRequest}
use mystic_hypervisor.Prelude.Int.{ℤ, pos, add_int, sub_int}
use mystic_hypervisor.Prelude.Maps.{GoMap, get, put}
use mystic_hypervisor.Prelude.{
  ℕ, ◌+◌, ◌≡◌, ◌↔◌, ◌≢◌, refl, subst, none, some, String, true, List, [], ◌∷◌, arith, string_eq,
}
use mystic_hypervisor.Text.Decimal.{emit, itoa}
use mystic_hypervisor.Text.Ip.{is_ip}
use mystic_hypervisor.Text.{sprint, trim_space}

abbrev exposure : String → ℤ → NetworkExposure
exposure id port = record {
  id = id;
  workload_id = "web";
  workload_name = "web";
  gateway_id = "gw";
  exposure_mode = ExposureMode.nat_forwarded;
  public_ip = "";
  public_port = port;
  internal_ip = "10.0.0.5";
  internal_port = pos 80;
  protocol = Protocol.tcp;
  desired_state = ExposureState.unset;
  actual_state = ExposureState.unset;
  sync_status = in_sync;
  description = "";
  created_at = none;
  updated_at = none;
  last_sync = none;
}

abbrev empty : Manager
empty = record { exposures = []; store = none; driver = none }

empty-Unique : Unique empty.exposures
unfolding get
empty-Unique = record { filed = λ k x g. cc; apart = λ k j x y g h ne. cc }

-- A rule that is migrated when the manager is empty.
abbrev old_rule : ForwardingRule
old_rule = record {
  id = "m";
  gateway_id = "gw";
  public_ip = "";
  public_port = pos 9000;
  protocol = Protocol.tcp;
  destination_host_id = "";
  destination_ip = "10.0.0.6";
  destination_port = pos 90;
  workload_id = "old";
  state = ExposureState.unset;
  owner = "";
  description = "";
  upstream_ip = "";
  external_port = pos 0;
  internal_ip = "";
  internal_port = pos 0;
}

abbrev first_calls : List (ℕ × Call)
first_calls =
    (1, migrates true "old" "old" ExposureMode.nat_forwarded (old_rule ∷ []))
    ∷ (2, creates true (exposure "b" (pos 8081)))
    ∷ []

-- The exposure `b`, as it is after these calls.
abbrev made_b : NetworkExposure
made_b = elim (get "b" (run first_calls empty).exposures) [
  | none ↦ exposure "b" (pos 8081)
  | some x ↦ x
]

-- Then `b` is moved to another port.
abbrev calls : List (ℕ × Call)
calls =
    (1, migrates true "old" "old" ExposureMode.nat_forwarded (old_rule ∷ []))
    ∷ (2, creates true (exposure "b" (pos 8081)))
    ∷ (3, updates true "b" (exposure "" (pos 8082)))
    ∷ (4, applies true "b")
    ∷ []

abbrev changed_b : NetworkExposure
changed_b = updated_by (exposure "" (pos 8082)) made_b

update_is_accepted :
    (get "b" (run first_calls empty).exposures ≡ some made_b)
    × (accepts (validate_exposure changed_b (put "b" changed_b (run first_calls empty).exposures))
        ≡ true)
unfolding run step create_network_exposure check_new_exposure create_locked insert
    migrate_forwarding_rules migrate_rules migrate_rule convert_forwarding_rule_to_exposure get
    validate_exposure put validate_allocation basic_checks trim_space check_destination is_ip
    check_public_ip check_workload check_gateway analyse normalize_mode normalize_single conclude
    check_mappings check_mapping check_new check_rules other_rules check_listening check_reserved
    check_rule is_taken_by port_key bad_internal_range normalize_found normalize_from_pool
    normalize_given_range normalize_pool_range normalize_range range_blockers range_mappings
    find_free_pool_range pool_rounds scan_pool is_port_free to_forwarding_rule add_int sub_int itoa
    sprint emit
update_is_accepted = (refl, refl)

rule_is_orderly :
    OrderlyRules 1 "old" "old" ExposureMode.nat_forwarded (old_rule ∷ []) (0, empty.exposures)
unfolding get convert_forwarding_rule_to_exposure
rule_is_orderly = (
  λ e. (
    ((9000, refl, omega arith, omega arith), (λ q. ground (arith, q)), λ q. ground (arith, q)),
    λ j y g. cc,
  ),
  _,
)

calls_are_orderly : OrderlyRun calls empty
unfolding run
calls_are_orderly = (
  rule_is_orderly,
  (
    _,
    (
      λ old e.
          let same : made_b ≡ old = cc (update_is_accepted.0, e) in
          subst
            (λ (x : NetworkExposure).
              accepts (
                validate_exposure (updated_by (exposure "" (pos 8082)) x) (
                  put "b" (updated_by (exposure "" (pos 8082)) x)
                    (run first_calls empty).exposures))
              ≡ true)
            same update_is_accepted.1,
      (_, _),
    ),
  ),
)

run-Unique_example : Unique (run calls empty).exposures
run-Unique_example = run-Unique calls empty calls_are_orderly empty-Unique

abbrev two : GoMap String NetworkExposure
two = ("a", exposure "a" (pos 8080)) ∷ ("b", exposure "b" (pos 8081)) ∷ []

abbrev manager : Manager
manager = record { exposures = two; store = none; driver = none }

validate_exposure_iff_example :
    (accepts (validate_exposure (exposure "c" (pos 8082)) two) ≡ true)
    ↔ IsAcceptable (exposure "c" (pos 8082)) two
validate_exposure_iff_example = validate_exposure_iff (exposure "c" (pos 8082)) two

create_network_exposure-Outcome_example :
    Outcome 4
      (exposure "c" (pos 8082))
      manager
      (create_network_exposure true 4 (some (exposure "c" (pos 8082))) manager)
create_network_exposure-Outcome_example =
    create_network_exposure-Outcome true 4 (exposure "c" (pos 8082)) manager

-- `b` is moved to the port 22, and `a` is deleted.
abbrev stored : Manager
stored = record manager { store = some two }

abbrev moved : NetworkExposure
moved = updated_by (exposure "" (pos 22)) (exposure "b" (pos 8081))

two_entries :
    (get "a" two ≡ some (exposure "a" (pos 8080))) × (get "b" two ≡ some (exposure "b" (pos 8081)))
unfolding get
two_entries = (refl, refl)

a_ne_b : ◌≢◌ {A = String} "a" "b"
a_ne_b e = cc ((string_eq.same_iff "a" "b").1 e)

delete_network_exposure-update_network_exposure_example :
    (let (r, n) = update_network_exposure true 5 "b" (exposure "" (pos 22)) stored in
      ((e : ExposureError) × (r ≡ err e))
      × (contents : GoMap String NetworkExposure) × ((delete_network_exposure true "a" n).1.store
          ≡ some contents)
      × (get "b" contents ≡ some moved))
delete_network_exposure-update_network_exposure_example =
    delete_network_exposure-update_network_exposure true 5 "b" (exposure "" (pos 22))
      (exposure "b" (pos 8081)) stored two_entries.1 "a" (exposure "a" (pos 8080)) two
      (λ ok. ok.unreserved.0 refl) refl two_entries.0 a_ne_b

abbrev pool : AllocationPool
pool = record {
  id = "p";
  name = "pool";
  start_port = pos 8440;
  end_port = pos 8450;
  protocol = Protocol.tcp;
  is_configured = true;
}

find_free_pool_range-IsFirstFit_example :
    IsFirstFit
      (λ p. is_port_free p Protocol.tcp [] none)
      4
      8440
      (8450 + 1)
      (find_free_pool_range (some pool) (pos 4) Protocol.tcp [] none)
find_free_pool_range-IsFirstFit_example =
    find_free_pool_range-IsFirstFit pool 4 8440 8450 Protocol.tcp [] none refl refl (omega arith)
      (omega arith) (omega arith) (omega arith)

-- The port 8443 is in the way, so the first four are those from 8444 on.
test_pool : find_free_pool_range (some pool) (pos 4) Protocol.tcp [] none ≡ pos 8444
unfolding find_free_pool_range scan_pool pool_rounds is_port_free add_int
test_pool = refl

abbrev request : PortAllocationRequest
request = record {
  workload_id = "web";
  host_id = "host-main";
  gateway_id = "";
  mode = AllocationMode.range;
  external_start_port = pos 0;
  external_end_port = pos 0;
  internal_start_port = pos 80;
  internal_end_port = pos 83;
  protocol = Protocol.tcp;
  public_ip = "";
  destination_ip = "10.0.0.5";
  explicit_rules = [];
}

is_valid : (validate_allocation request none [] [] [] (some pool)).is_valid ≡ true
unfolding validate_exposure put validate_allocation basic_checks trim_space check_destination is_ip
    check_public_ip check_workload check_gateway analyse normalize_mode normalize_single conclude
    check_mappings check_mapping check_new check_rules other_rules check_listening check_reserved
    check_rule is_taken_by port_key bad_internal_range normalize_found normalize_from_pool
    normalize_given_range normalize_pool_range normalize_range range_blockers range_mappings
    find_free_pool_range pool_rounds scan_pool is_port_free to_forwarding_rule add_int sub_int itoa
    sprint emit
is_valid = refl

validate_allocation-Sound_example :
    Sound "" [] (validate_allocation request none [] [] [] (some pool)).normalized_mappings
validate_allocation-Sound_example =
    validate_allocation-Sound request none [] [] [] (some pool) is_valid
