-- ===== src/Snapshots/Manager/RoundTrips.antt =====
-- A snapshot that was created is found, and one that was deleted is not.
use mystic_hypervisor.Prelude.Maps.{delete, get, put, get-put_self, get-delete_self}
use mystic_hypervisor.Prelude.{
  ℕ, ◌≡◌, ◌≢◌, refl, sym, ap, subst, ◌∙◌, Option, none, some, String, Bool, true, string_eq, List,
  [], ◌∷◌, All, arith, ==_ne,
}
use mystic_hypervisor.Snapshots.Manager.Book.{book}
use mystic_hypervisor.Snapshots.Manager.Changes.{
  asked, after_creation, create_snapshot, create_vacant, delete_snapshot, delete_with,
  keep_snapshots, new_snapshot,
}
use mystic_hypervisor.Snapshots.Manager.{
  Manager, ProviderSnapshot, Result, SnapshotProvider, ok, err, checked, creates, snapshot_exists,
  snapshot_not_found, deletes, find_named, get_from_provider, get_snapshot, get_snapshot_provider,
  resolve_instance_name,
}
use mystic_hypervisor.Snapshots.Name.{make_snapshot_id, validate_snapshot_name}
use mystic_hypervisor.Snapshots.{Snapshot}

module _ (now : ℕ) (saved : Bool) (w name : String) (m : Manager) (inst : String)
    (p : SnapshotProvider) (valid : validate_snapshot_name name ≡ none)
    (at : resolve_instance_name w m ≡ ok inst) (by : get_snapshot_provider m ≡ ok p) where
  passes : checked name ≡ ok _
  unfolding checked
  passes = ground (arith, valid)

  -- The answers that do not depend on what is kept.
  still : (n : Manager) → n.resolver ≡ m.resolver → resolve_instance_name w n ≡ ok inst
  unfolding resolve_instance_name
  still n e = rw e at

  same_provider : (n : Manager) → n.provider ≡ m.provider → get_snapshot_provider n ≡ ok p
  unfolding get_snapshot_provider
  same_provider n e = rw e by

  not_found :
      (xs : List ProviderSnapshot)
      → All (λ (ps : ProviderSnapshot). ps.name ≢ name) xs
      → find_named w inst name xs ≡ err snapshot_not_found
  unfolding find_named
  not_found [] h = refl
  not_found (ps ∷ rest) h = rw (find_named, ==_ne ps.name name h.0) (not_found rest h.1)

  -- If the name is accepted, the workload has an instance, none is kept under the name and the provider
  -- creates the snapshot, then CreateSnapshot returns its record, GetSnapshot returns the same record
  -- afterwards, whatever the provider then says, and a second creation is refused.
  pub create_snapshot-get_snapshot :
      (stateful : Bool) (description : String) (made : Option ProviderSnapshot)
      → book m.snapshots w name ≡ none
      → p.create_snapshot inst name stateful ≡ some made
      → (let s = new_snapshot now w inst name stateful description made in
          let (r, n) = create_snapshot now saved w name stateful description m in
          (r ≡ ok s)
          × (get_snapshot w name n ≡ ok s)
          × (create_snapshot now saved w name stateful description n ≡ (err snapshot_exists, n)))
  unfolding create_snapshot create_vacant after_creation get_snapshot new_snapshot
  create_snapshot-get_snapshot stateful description made vacant answer =
      let s = new_snapshot now w inst name stateful description made in
      let n = keep_snapshots saved (put s.id s m.snapshots) (asked (creates inst name) m) in
      let here : get (make_snapshot_id w name) n.snapshots ≡ some s =
        get-put_self (make_snapshot_id w name) s m.snapshots in
      let step : create_snapshot now saved w name stateful description m ≡ (ok s, n) =
        rw (create_snapshot, passes, at, vacant, create_vacant, by, answer, after_creation) refl in
      subst
        (λ ((r, n) : Result Snapshot × Manager).
          (r ≡ ok s)
          × (get_snapshot w name n ≡ ok s)
          × (create_snapshot now saved w name stateful description n ≡ (err snapshot_exists, n)))
        (sym step)
        (
          refl,
          rw (get_snapshot, passes, here) refl,
          rw (create_snapshot, passes, still n refl, here) refl,
        )

  -- If the name is accepted, the workload has an instance, and the provider deletes the snapshot and
  -- then lists none of the name, GetSnapshot finds none after DeleteSnapshot.
  pub delete_snapshot-get_snapshot :
      (listed : List ProviderSnapshot)
      → p.delete_snapshot inst name ≡ true
      → p.list_snapshots inst ≡ some listed
      → All (λ (ps : ProviderSnapshot). ps.name ≢ name) listed
      → get_snapshot w name (delete_snapshot saved w name m).1 ≡ err snapshot_not_found
  unfolding delete_snapshot delete_with get_snapshot get_from_provider
  delete_snapshot-get_snapshot listed gone lists others =
      let n =
        keep_snapshots saved (delete (make_snapshot_id w name) m.snapshots)
          (asked (deletes inst name) m) in
      let empty : get (make_snapshot_id w name) n.snapshots ≡ none =
        get-delete_self (make_snapshot_id w name) m.snapshots in
      let step : delete_snapshot saved w name m ≡ (ok (make_snapshot_id w name), n) =
        rw (delete_snapshot, passes, at, by, delete_with, gone) refl in
      ap (λ ((r, n) : Result String × Manager). get_snapshot w name n) step
      ∙ rw
          (
            get_snapshot,
            passes,
            empty,
            still n refl,
            get_from_provider,
            same_provider n refl,
            lists,
          )
          (not_found listed others)
