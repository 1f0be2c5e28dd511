-- ===== src/Networking/ExposureManager/Histories.antt =====
-- Histories of ExposureManager's operations. UpdateNetworkExposure and MigrateForwardingRules file
-- exposures that no validation has accepted, so what the histories ask of their calls is written out.
use mystic_hypervisor.Hosts.{ExposureMode, ForwardingRule}
use mystic_hypervisor.Networking.Exposure.{NetworkExposure, convert_forwarding_rule_to_exposure}
use mystic_hypervisor.Networking.ExposureManager.Changes.{
  delete_network_exposure-Unique, apply_exposure-Unique, reconcile_exposure-Unique,
  reconcile_all_exposures-Unique, update_network_exposure-Unique, update_network_exposure-absent,
}
use mystic_hypervisor.Networking.ExposureManager.Creation.{create_network_exposure-Unique}
use mystic_hypervisor.Networking.ExposureManager.Unique.{HasPublicPort, Unique, put-Unique}
use mystic_hypervisor.Networking.ExposureManager.Validation.{Clash}
use mystic_hypervisor.Networking.ExposureManager.{
  Driver, Manager, accepts, apply_exposure, create_network_exposure, delete_network_exposure,
  migrate_forwarding_rules, migrate_rule, migrate_rules, reconcile_all_exposures,
  reconcile_exposure, update_network_exposure, updated_by, validate_exposure,
}
use mystic_hypervisor.Prelude.Maps.{GoMap, get, put}
use mystic_hypervisor.Prelude.{
  ℕ, ◌≡◌, inl, inr, refl, if_elim, none, Option, some, String, Bool, true, List, [], ◌∷◌,
  Option-cases, string_eq,
}

-- The Boolean of a call says whether the store's Save would succeed.
pub data Call : Type 0 where
  creates : Bool → NetworkExposure → Call
  updates : Bool → String → NetworkExposure → Call
  deletes : Bool → String → Call
  applies : Bool → String → Call
  reconciles : Bool → String → Call
  reconciles_all : Bool → Call
  sets_driver : Option Driver → Call
  migrates : Bool → String → String → ExposureMode → List ForwardingRule → Call

-- SetDriver has no definition of its own.
unfoldable pub step : ℕ × Call → Manager → Manager
step (now, creates saved exp) m = (create_network_exposure saved now (some exp) m).1
step (now, updates saved id updated) m = (update_network_exposure saved now id updated m).1
step (now, deletes saved id) m = (delete_network_exposure saved id m).1
step (now, applies saved id) m = (apply_exposure saved now id m).1
step (now, reconciles saved id) m = (reconcile_exposure saved now id m).1
step (now, reconciles_all saved) m = reconcile_all_exposures saved now m
step (now, sets_driver driver) m = record m { driver = driver }
step (now, migrates saved workload_id workload_name mode rules) m =
    (migrate_forwarding_rules saved now workload_id workload_name mode rules m).1

unfoldable pub run : List (ℕ × Call) → Manager → Manager
run [] m = m
run (c ∷ cs) m = run cs (step c m)

-- Every rule that a migration files is of a port that can be exposed and clashes with no exposure that
-- is there when its turn comes.
abbrev pub OrderlyRules :
    ℕ
    → String
    → String
    → ExposureMode
    → List ForwardingRule
    → ℕ × GoMap String NetworkExposure
    → Type 0
OrderlyRules now workload_id workload_name mode [] s = Unit {0}
OrderlyRules now workload_id workload_name mode (rule ∷ rules) s =
    (let exp = convert_forwarding_rule_to_exposure now rule workload_id workload_name mode in
      get exp.id s.1 ≡ none
      → HasPublicPort exp
        × ((j : String) (y : NetworkExposure) → get j s.1 ≡ some y → ¬ Clash y exp))
    × OrderlyRules now workload_id workload_name mode rules
        (migrate_rule now workload_id workload_name mode rule s)

-- An update is one that the validation accepts, and a migration is of rules that clash with nothing.
abbrev pub OrderlyCall : ℕ × Call → Manager → Type 0
OrderlyCall (now, updates saved id updated) m =
    (old : NetworkExposure)
    → get id m.exposures ≡ some old
    → accepts
        (validate_exposure (updated_by updated old) (put id (updated_by updated old) m.exposures))
      ≡ true
OrderlyCall (now, migrates saved workload_id workload_name mode rules) m =
    OrderlyRules now workload_id workload_name mode rules (0, m.exposures)
OrderlyCall (now, _) m = Unit {0}

abbrev pub OrderlyRun : List (ℕ × Call) → Manager → Type 0
OrderlyRun [] m = Unit {0}
OrderlyRun (c ∷ cs) m = OrderlyCall c m × OrderlyRun cs (step c m)

-- The exposures of a round of a migration.
record Apart (s : ℕ × GoMap String NetworkExposure) : Type 0 where
  unique : Unique s.1

migrate_rules-Apart :
    (now : ℕ) (workload_id workload_name : String) (mode : ExposureMode)
    (rules : List ForwardingRule) (s : ℕ × GoMap String NetworkExposure)
    → OrderlyRules now workload_id workload_name mode rules s
    → Apart s
    → Apart (migrate_rules now workload_id workload_name mode rules s)
unfolding migrate_rules migrate_rule convert_forwarding_rule_to_exposure
migrate_rules-Apart now workload_id workload_name mode [] s o u = u
migrate_rules-Apart now workload_id workload_name mode (rule ∷ rules) (n, m) (o, os) u =
    migrate_rules-Apart now workload_id workload_name mode rules
      (migrate_rule now workload_id workload_name mode rule (n, m)) os round
  where
    exp : NetworkExposure
    exp = convert_forwarding_rule_to_exposure now rule workload_id workload_name mode

    round : Apart (migrate_rule now workload_id workload_name mode rule (n, m))
    round = elim (Option-cases (get exp.id m)) [
      | inr (old, e) ↦ rw (migrate_rule, e) u
      | inl e ↦
          rw (migrate_rule, e)
            (record {
              unique = put-Unique exp.id exp m u.unique refl (o e).0 (λ j y g ne. (o e).1 j y g);
            })
    ]

migrate_forwarding_rules-Unique :
    (saved : Bool) (now : ℕ) (workload_id workload_name : String) (mode : ExposureMode)
    (rules : List ForwardingRule) (m : Manager)
    → OrderlyRules now workload_id workload_name mode rules (0, m.exposures)
    → Unique m.exposures
    → Unique (migrate_forwarding_rules saved now workload_id workload_name mode rules m).1.exposures
unfolding migrate_forwarding_rules
migrate_forwarding_rules-Unique saved now workload_id workload_name mode rules m o u =
    if_elim (λ (x : Manager). Unique x.exposures) _ _ _ (λ _. all.unique) (λ _. all.unique)
  where
    all : Apart (migrate_rules now workload_id workload_name mode rules (0, m.exposures))
    all =
        migrate_rules-Apart now workload_id workload_name mode rules (0, m.exposures) o
          (record { unique = u })

step-Unique :
    (c : ℕ × Call) (m : Manager)
    → OrderlyCall c m
    → Unique m.exposures
    → Unique (step c m).exposures
unfolding step
step-Unique (now, creates saved exp) m o u = create_network_exposure-Unique saved now exp m u
step-Unique (now, updates saved id updated) m o u = elim (Option-cases (get id m.exposures)) [
  | inl e ↦ rw (update_network_exposure-absent saved now id updated m e) u
  | inr (old, e) ↦ update_network_exposure-Unique saved now id updated old m e u (o old e)
]
step-Unique (now, deletes saved id) m o u = delete_network_exposure-Unique saved id m u
step-Unique (now, applies saved id) m o u = apply_exposure-Unique saved now id m u
step-Unique (now, reconciles saved id) m o u = reconcile_exposure-Unique saved now id m u
step-Unique (now, reconciles_all saved) m o u = reconcile_all_exposures-Unique saved now m u
step-Unique (now, sets_driver driver) m o u = u
step-Unique (now, migrates saved workload_id workload_name mode rules) m o u =
    migrate_forwarding_rules-Unique saved now workload_id workload_name mode rules m o u

-- In every history of creations, updates, deletions, applications, reconciliations, changes of the
-- driver and migrations, whose updates the validation accepts and whose migrations file only rules of
-- ports that can be exposed and that clash with no exposure, from exposures that do not clash: each
-- exposure is filed under its id, none has the public port 22 or 8443 or one outside 1 to 65535, and no
-- two of one gateway have the same public port with protocols that overlap.
pub run-Unique :
    (calls : List (ℕ × Call)) (m : Manager)
    → OrderlyRun calls m
    → Unique m.exposures
    → Unique (run calls m).exposures
unfolding run
run-Unique [] m o u = u
run-Unique (c ∷ cs) m (o, os) u = run-Unique cs (step c m) os (step-Unique c m o u)
