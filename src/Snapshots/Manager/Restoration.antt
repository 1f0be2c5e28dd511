-- ===== src/Snapshots/Manager/Restoration.antt =====
-- What RestoreSnapshot does, on every branch.
use mystic_hypervisor.Prelude.Maps.{get, put}
use mystic_hypervisor.Prelude.{
  ◌≡◌, ◌⊎◌, inl, inr, refl, sym, ap, ◌∙◌, subst, Option, none, some, String, Bool, true, false,
  ◌==◌, ◌&&◌, string_eq, ◌∷◌, Option-cases, and_split, if◌then◌else◌, if_elim,
}
use mystic_hypervisor.Snapshots.Manager.Book.{Failed, Rewritten, book, checked-ok, put-Rewritten}
use mystic_hypervisor.Snapshots.Manager.Filing.{IsFiled, get_snapshot-IsOf}
use mystic_hypervisor.Snapshots.Manager.Changes.{asked, mark_active, restore_snapshot, restore_with}
use mystic_hypervisor.Snapshots.Manager.{
  Manager, Result, SnapshotProvider, ok, checked, get_snapshot, get_snapshot_provider,
  given_in_elim, resolve_instance_name, restores,
}
use mystic_hypervisor.Snapshots.Name.{make_snapshot_id, validate_snapshot_name}
use mystic_hypervisor.Snapshots.{Snapshot}

-- A kept record, with the status of a restored snapshot.
abbrev pub activated : Option Snapshot → Option Snapshot
activated none = none
activated (some s) = some (record s { status = "ACTIVE" })

module _ (saved : Bool) (w name : String) (m : Manager) where
  abbrev pub RestoreOutcome : Result Snapshot × Manager → Type 0
  RestoreOutcome (r, n) =
      Failed saved w name m (λ inst. restores inst name)
        (λ p inst. p.restore_snapshot inst name ≡ false) (r, n)
      ⊎ ((inst : String) × (s : Snapshot) × (p : SnapshotProvider) × (get_snapshot_provider m
            ≡ ok p)
          × (p.restore_snapshot inst name ≡ true)
          × (resolve_instance_name w m ≡ ok inst)
          × (get_snapshot w name m ≡ ok s)
          × (r ≡ ok s)
          × (n.requests ≡ restores inst name ∷ m.requests)
          × Rewritten w name (activated (book m.snapshots w name)) m.snapshots n.snapshots)

  none_kept :
      (v k : String)
      → book m.snapshots w name ≡ none
      → book m.snapshots v k ≡ (if v == w && k == name then none else book m.snapshots v k)
  none_kept v k e =
      if_elim (λ x. book m.snapshots v k ≡ x) (v == w && k == name) none (book m.snapshots v k)
        (λ t.
          let (p, q) = and_split (v == w) (k == name) t in
          ap (λ x. book m.snapshots x k) ((string_eq.same_iff v w).0 p)
          ∙ ap (λ x. book m.snapshots w x) ((string_eq.same_iff k name).0 q)
          ∙ e)
        (λ _. refl)

  mark_active-Rewritten :
      (n : Manager)
      → n.snapshots ≡ m.snapshots
      → validate_snapshot_name name ≡ none
      → Rewritten w name
          (activated (book m.snapshots w name))
          m.snapshots
          (mark_active saved (make_snapshot_id w name) n).snapshots
  unfolding mark_active
  mark_active-Rewritten n same valid = elim (Option-cases (book m.snapshots w name)) [
    | inl e ↦ λ v k fine.
        rw (mark_active, ap (get (make_snapshot_id w name)) same ∙ e, e)
          (ap (get (make_snapshot_id v k)) same ∙ none_kept v k e)
    | inr (s, e) ↦ λ v k fine.
        let t : Snapshot = record s { status = "ACTIVE" } in
        rw (mark_active, ap (get (make_snapshot_id w name)) same ∙ e, e)
          (ap (λ x. get (make_snapshot_id v k) (put (make_snapshot_id w name) t x)) same
            ∙ put-Rewritten w name m.snapshots valid t v k fine)
  ]

  mark_active-requests :
      (id : String) (n : Manager) → (mark_active saved id n).requests ≡ n.requests
  unfolding mark_active
  mark_active-requests id n = elim (Option-cases (get id n.snapshots)) [
    | inl e ↦ rw (mark_active, e) refl
    | inr (s, e) ↦ rw (mark_active, e) refl
  ]

  -- RestoreSnapshot, where the records are filed, either fails, with nothing but a request to the
  -- provider behind it, and then with the provider's error; or it returns the snapshot that GetSnapshot
  -- returns, the workload's instance was asked to go back to it, its record, if it has one, is active,
  -- and what is kept of every other workload and name is as it was.
  pub restore_snapshot-Outcome :
      IsFiled m.snapshots → RestoreOutcome (restore_snapshot saved w name m)
  unfolding restore_snapshot restore_with
  restore_snapshot-Outcome filed =
      given_in_elim RestoreOutcome m (checked name) _ (λ e _. inl (inl (e, refl, refl)))
        (λ u fine.
          given_in_elim RestoreOutcome m (resolve_instance_name w m) _
            (λ e _. inl (inl (e, refl, refl)))
            (λ inst at.
              given_in_elim RestoreOutcome m (get_snapshot w name m) _
                (λ e _. inl (inl (e, refl, refl)))
                (λ s found.
                  given_in_elim RestoreOutcome m (get_snapshot_provider m) _
                    (λ e _. inl (inl (e, refl, refl)))
                    (λ p by.
                      if_elim RestoreOutcome (p.restore_snapshot inst name) _ _
                        (λ obeyed.
                          let (_, _, key) = get_snapshot-IsOf m filed w name s found in
                          inr (
                            inst,
                            s,
                            p,
                            by,
                            obeyed,
                            at,
                            found,
                            refl,
                            mark_active-requests s.id (asked (restores inst name) m),
                            subst
                                (λ id.
                                  Rewritten w name (activated (book m.snapshots w name)) m.snapshots
                                    (mark_active saved id (asked (restores inst name) m)).snapshots)
                                (sym key)
                                (mark_active-Rewritten (asked (restores inst name) m) refl
                                  (checked-ok name u fine)),
                          ))
                        (λ refused. inl (inr (inst, p, at, by, refused, refl, refl)))))))
