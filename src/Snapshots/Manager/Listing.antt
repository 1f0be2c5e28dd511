-- ===== src/Snapshots/Manager/Listing.antt =====
-- Which snapshots ListSnapshots returns.
use mystic_hypervisor.Prelude.Maps.{GoMap, values}
use mystic_hypervisor.Prelude.Membership.{In, In-append, In-keep, In-map, any_iff}
use mystic_hypervisor.Prelude.{
  ◌≡◌, ◌≢◌, ◌↔◌, ◌⊎◌, refl, ap, some, String, true, not, ◌==◌, ◌||◌, string_eq, List, arith, any,
  map, Bool, Bool-cases, inl, inr,
}
use mystic_hypervisor.Snapshots.Manager.{
  Manager, ProviderSnapshot, SnapshotProvider, ok, get_snapshot_provider, list_snapshots,
  missing_from, provided, resolve_instance_name, stored_of, with_provided,
}
use mystic_hypervisor.Snapshots.{Snapshot}

-- The manager keeps the snapshot, and it is the workload's, by the identity that was given or by the
-- name of the instance.
abbrev pub IsStored : String → String → GoMap String Snapshot → Snapshot → Type 0
IsStored w inst m s = In s (values m) × ((s.workload_id ≡ w) ⊎ (s.workload_name ≡ inst))

-- The snapshot is one that the provider lists, under a name that no stored snapshot of the workload has.
abbrev pub IsProvided :
    String → String → GoMap String Snapshot → List ProviderSnapshot → Snapshot → Type 0
IsProvided w inst m listed s =
    (ps : ProviderSnapshot) × In ps listed
    × (provided w inst ps ≡ s)
    × ((t : Snapshot) → IsStored w inst m t → t.name ≢ ps.name)

module _ (w inst : String) (m : GoMap String Snapshot) where
  In-stored_of : (s : Snapshot) → In s (stored_of w inst m) ↔ IsStored w inst m s
  In-stored_of s = (
    λ h. let (i, e) = (In-keep test s (values m)).0 h in (i, by_test e),
    λ (i, u). (In-keep test s (values m)).1 (i, to_test u),
  )
    where
      test : Snapshot → Bool
      test t = t.workload_id == w || t.workload_name == inst

      by_test :
          (s.workload_id == w || s.workload_name == inst) ≡ true
          → (s.workload_id ≡ w) ⊎ (s.workload_name ≡ inst)
      by_test e = elim (Bool-cases (s.workload_id == w)) [
        | inl t ↦ inl ((string_eq.same_iff s.workload_id w).0 t)
        | inr t ↦ inr ((string_eq.same_iff s.workload_name inst).0 (ground (arith, e, t)))
      ]

      to_test :
          (s.workload_id ≡ w) ⊎ (s.workload_name ≡ inst)
          → (s.workload_id == w || s.workload_name == inst) ≡ true
      to_test (inl e) = ground (arith, (string_eq.same_iff s.workload_id w).1 e)
      to_test (inr e) = ground (arith, (string_eq.same_iff s.workload_name inst).1 e)

  -- The test of the names says that no stored snapshot has the name.
  new_iff :
      (ps : ProviderSnapshot)
      → (not (any (λ (s : Snapshot). s.name == ps.name) (stored_of w inst m)) ≡ true)
        ↔ ((t : Snapshot) → IsStored w inst m t → t.name ≢ ps.name)
  new_iff ps = (
    λ h t i e.
        let hit =
          (any_iff (λ (s : Snapshot). s.name == ps.name) (stored_of w inst m)).1
            (t, (In-stored_of t).1 i, (string_eq.same_iff t.name ps.name).1 e) in
        ground (arith, h, hit),
    λ none_has. elim (Bool-cases (any (λ (s : Snapshot). s.name == ps.name) (stored_of w inst m))) [
      | inl h ↦
          let (t, i, e) =
            (any_iff (λ (s : Snapshot). s.name == ps.name) (stored_of w inst m)).0 h in
          absurd (none_has t ((In-stored_of t).0 i) ((string_eq.same_iff t.name ps.name).0 e))
      | inr h ↦ ap not h
    ],
  )

  In-missing_from :
      (listed : List ProviderSnapshot) (s : Snapshot)
      → In s (map (provided w inst) (missing_from (stored_of w inst m) listed))
        ↔ IsProvided w inst m listed s
  In-missing_from listed s = (
    λ h.
        let (ps, i, e) = (In-map (provided w inst) s _).0 h in
        let (j, new) = (In-keep _ ps listed).0 i in (ps, j, e, (new_iff ps).0 new),
    λ (ps, j, e, new).
        (In-map (provided w inst) s _).1 (ps, (In-keep _ ps listed).1 (j, (new_iff ps).1 new), e),
  )

  In-with_provided :
      (listed : List ProviderSnapshot) (s : Snapshot)
      → In s (with_provided w inst (stored_of w inst m) listed)
        ↔ (IsStored w inst m s ⊎ IsProvided w inst m listed s)
  In-with_provided listed s = (
    λ h. elim ((In-append s (stored_of w inst m) _).0 h) [
      | inl i ↦ inl ((In-stored_of s).0 i)
      | inr i ↦ inr ((In-missing_from listed s).0 i)
    ],
    λ h. elim h [
      | inl i ↦ (In-append s (stored_of w inst m) _).1 (inl ((In-stored_of s).1 i))
      | inr i ↦ (In-append s (stored_of w inst m) _).1 (inr ((In-missing_from listed s).1 i))
    ],
  )

-- Where the workload has an instance whose snapshots the provider lists, ListSnapshots succeeds, and a
-- snapshot is in its result exactly if the manager keeps it, with the workload's identity or the name of
-- the instance, or it is made of one that the provider lists under a name that no such stored one has.
pub list_snapshots_lem :
    (w inst : String) (m : Manager) (p : SnapshotProvider) (listed : List ProviderSnapshot)
    → resolve_instance_name w m ≡ ok inst
    → get_snapshot_provider m ≡ ok p
    → p.list_snapshots inst ≡ some listed
    → (all : List Snapshot) × (list_snapshots w m ≡ ok all)
      × ((s : Snapshot)
          → In s all ↔ (IsStored w inst m.snapshots s ⊎ IsProvided w inst m.snapshots listed s))
unfolding list_snapshots
list_snapshots_lem w inst m p listed at by lists = (
  with_provided w inst (stored_of w inst m.snapshots) listed,
  rw (list_snapshots, at, by, lists) refl,
  In-with_provided w inst m.snapshots listed,
)
