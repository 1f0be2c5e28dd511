-- ===== src/Snapshots/Manager/Book.antt =====
-- The manager of the snapshots as a book: what it keeps of each snapshot of each workload, and how the
-- methods change that.
use mystic_hypervisor.Prelude.Maps.{GoMap, get, put, delete, get-put, get-delete}
use mystic_hypervisor.Prelude.{
  ℕ, ◌≡◌, ◌≢◌, ◌⊎◌, true, false, inl, inr, refl, sym, ap, ◌∙◌, Option, none, some, String, Bool,
  ◌==◌, ◌&&◌, string_eq, ◌∷◌, arith, Bool-cases, if◌then◌else◌, if_elim, and_split, option_elim,
}
use mystic_hypervisor.Snapshots.Manager.Changes.{
  asked, after_creation, create_snapshot, create_vacant, delete_snapshot, delete_with, new_snapshot,
}
use mystic_hypervisor.Snapshots.Manager.{
  Manager, ProviderSnapshot, Request, SnapshotProvider, Result, SnapshotError, ok, err, checked,
  creates, deletes, provider_failed, snapshot_exists, get_snapshot_provider, given_in_elim,
  resolve_instance_name,
}
use mystic_hypervisor.Snapshots.Name.Keys.{make_snapshot_id_injective}
use mystic_hypervisor.Snapshots.Name.Syntax.{validate_snapshot_name-Lacks}
use mystic_hypervisor.Snapshots.Name.{make_snapshot_id, validate_snapshot_name}
use mystic_hypervisor.Snapshots.{Snapshot}
use mystic_hypervisor.Store.{save}

-- What is kept of a workload's snapshot.
abbrev pub book : GoMap String Snapshot → String → String → Option Snapshot
book m workload_id name = get (make_snapshot_id workload_id name) m

-- A book with another entry for one snapshot of one workload, at the names that are accepted.
abbrev pub Rewritten :
    String → String → Option Snapshot → GoMap String Snapshot → GoMap String Snapshot → Type 0
Rewritten w name entry m n =
    (v k : String)
    → validate_snapshot_name k ≡ none
    → book n v k ≡ (if v == w && k == name then entry else book m v k)

-- Two keys are one exactly if workload and name are.
same_key :
    (w name v k : String)
    → validate_snapshot_name name ≡ none
    → validate_snapshot_name k ≡ none
    → (make_snapshot_id w name == make_snapshot_id v k) ≡ (v == w && k == name)
same_key w name v k a b = elim (Bool-cases (make_snapshot_id w name == make_snapshot_id v k)) [
  | inl t ↦
      let (p, q) =
        make_snapshot_id_injective w name v k (validate_snapshot_name-Lacks name a)
          (validate_snapshot_name-Lacks k b) ((string_eq.same_iff _ _).0 t) in
      t ∙ sym (rw ((string_eq.same_iff v w).1 (sym p), (string_eq.same_iff k name).1 (sym q)) refl)
  | inr t ↦
      t
      ∙ sym (elim (Bool-cases (v == w && k == name)) [
        | inl u ↦
            let (p, q) = and_split (v == w) (k == name) u in
            let same : make_snapshot_id w name ≡ make_snapshot_id v k =
              rw ((string_eq.same_iff v w).0 p, (string_eq.same_iff k name).0 q) refl in
            cc (t, (string_eq.same_iff _ _).1 same)
        | inr u ↦ u
      ])
]

pub checked-ok :
    (name : String) (u : Unit) → checked name ≡ ok u → validate_snapshot_name name ≡ none
unfolding checked
checked-ok name u h = ground (arith, h)

module _ (w name : String) (m : GoMap String Snapshot)
    (valid : validate_snapshot_name name ≡ none) where
  pub put-Rewritten :
      (s : Snapshot) → Rewritten w name (some s) m (put (make_snapshot_id w name) s m)
  put-Rewritten s v k fine =
      get-put (make_snapshot_id w name) (make_snapshot_id v k) s m
      ∙ ap (λ b. if b then some s else book m v k) (same_key w name v k valid fine)

  delete-Rewritten : Rewritten w name none m (delete (make_snapshot_id w name) m)
  delete-Rewritten v k fine =
      get-delete (make_snapshot_id w name) (make_snapshot_id v k) m
      ∙ ap (λ b. if b then none else book m v k) (same_key w name v k valid fine)

module _ (saved : Bool) (w name : String) (m : Manager) where
  -- A snapshot was asked for, the provider made it, and it is kept.
  pub record Made (stateful : Bool) (s : Snapshot) (n : Manager) : Type 0 where
    pub provider : SnapshotProvider
    pub provided_by : get_snapshot_provider m ≡ ok provider
    pub made : provider.create_snapshot s.workload_name name stateful ≢ none
    pub workload : s.workload_id ≡ w
    pub named : s.name ≡ name
    pub vacant : book m.snapshots w name ≡ none
    pub instance_name : resolve_instance_name w m ≡ ok s.workload_name
    pub requests : n.requests ≡ creates s.workload_name name ∷ m.requests
    pub stored : n.store ≡ save saved n.snapshots m.store
    pub rewritten : Rewritten w name (some s) m.snapshots n.snapshots

  -- A method fails before it asks the provider, or because the provider refuses, as `Refuses` says.
  abbrev pub Failed :
      (String → Request)
      → (SnapshotProvider → String → Type 0)
      → {A : Type 0} → Result A × Manager
      → Type 0
  Failed request Refuses (r, n) =
      ((e : SnapshotError) × (r ≡ err e) × (n ≡ m))
      ⊎ ((inst : String) × (p : SnapshotProvider) × (resolve_instance_name w m ≡ ok inst)
          × (get_snapshot_provider m ≡ ok p)
          × Refuses p inst
          × (r ≡ err provider_failed)
          × (n ≡ asked (request inst) m))

  abbrev pub CreateOutcome : Bool → Result Snapshot × Manager → Type 0
  CreateOutcome stateful (r, n) =
      Failed (λ inst. creates inst name) (λ p inst. p.create_snapshot inst name stateful ≡ none)
        (r, n)
      ⊎ ((s : Snapshot) × (r ≡ ok s) × Made stateful s n)

  module _ (now : ℕ) (stateful : Bool) (description : String) where
    after_creation-Outcome :
        (inst : String) (p : SnapshotProvider) (made : Option (Option ProviderSnapshot))
        → get_snapshot_provider m ≡ ok p
        → p.create_snapshot inst name stateful ≡ made
        → validate_snapshot_name name ≡ none
        → resolve_instance_name w m ≡ ok inst
        → book m.snapshots w name ≡ none
        → CreateOutcome stateful (
            after_creation now saved w inst name stateful description made
              (asked (creates inst name) m))
    unfolding after_creation new_snapshot
    after_creation-Outcome inst p none by answer valid at vacant =
        inl (inr (inst, p, at, by, answer, refl, refl))
    after_creation-Outcome inst p (some made) by answer valid at vacant = inr (
      _,
      refl,
      record {
        provider = p;
        provided_by = by;
        made = λ q. cc (answer, q);
        workload = refl;
        named = refl;
        vacant = vacant;
        instance_name = at;
        requests = refl;
        stored = refl;
        rewritten = put-Rewritten w name m.snapshots valid _;
      },
    )

    -- CreateSnapshot either fails, with nothing but a request to the provider behind it, and then with
    -- the provider's error; or it keeps a snapshot of the workload under the name, where none was kept
    -- and for which the instance's provider was asked, saves the map, and leaves what is kept of every
    -- other workload and every other name as it was.
    pub create_snapshot-Outcome :
        CreateOutcome stateful (create_snapshot now saved w name stateful description m)
    unfolding create_snapshot create_vacant
    create_snapshot-Outcome =
        given_in_elim (CreateOutcome stateful) m (checked name) _ (λ e _. inl (inl (e, refl, refl)))
          (λ u fine.
            given_in_elim (CreateOutcome stateful) m (resolve_instance_name w m) _
              (λ e _. inl (inl (e, refl, refl)))
              (λ inst at.
                option_elim (CreateOutcome stateful) (book m.snapshots w name) _ _
                  (λ vacant.
                    given_in_elim (CreateOutcome stateful) m (get_snapshot_provider m) _
                      (λ e _. inl (inl (e, refl, refl)))
                      (λ p by.
                        after_creation-Outcome inst p (p.create_snapshot inst name stateful) by refl
                          (checked-ok name u fine) at vacant))
                  (λ s _. inl (inl (snapshot_exists, refl, refl)))))

  -- The outcomes of DeleteSnapshot.
  abbrev pub DeleteOutcome : Result String × Manager → Type 0
  DeleteOutcome (r, n) =
      Failed (λ inst. deletes inst name) (λ p inst. p.delete_snapshot inst name ≡ false) (r, n)
      ⊎ ((inst : String) × (p : SnapshotProvider) × (get_snapshot_provider m ≡ ok p)
          × (p.delete_snapshot inst name ≡ true)
          × (resolve_instance_name w m ≡ ok inst)
          × (r ≡ ok (make_snapshot_id w name))
          × (n.requests ≡ deletes inst name ∷ m.requests)
          × (n.store ≡ save saved n.snapshots m.store)
          × Rewritten w name none m.snapshots n.snapshots)

  -- DeleteSnapshot either fails, with nothing but a request to the provider behind it, and then with the
  -- provider's error; or the workload's instance was asked to delete the snapshot, none is kept under the
  -- name any more, the map is saved, and what is kept of every other workload and name is as it was.
  pub delete_snapshot-Outcome : DeleteOutcome (delete_snapshot saved w name m)
  unfolding delete_snapshot delete_with
  delete_snapshot-Outcome =
      given_in_elim DeleteOutcome m (checked name) _ (λ e _. inl (inl (e, refl, refl)))
        (λ u fine.
          given_in_elim DeleteOutcome m (resolve_instance_name w m) _
            (λ e _. inl (inl (e, refl, refl)))
            (λ inst at.
              given_in_elim DeleteOutcome m (get_snapshot_provider m) _
                (λ e _. inl (inl (e, refl, refl)))
                (λ p by.
                  if_elim DeleteOutcome (p.delete_snapshot inst name) _ _
                    (λ obeyed. inr (
                      inst,
                      p,
                      by,
                      obeyed,
                      at,
                      refl,
                      refl,
                      refl,
                      delete-Rewritten w name m.snapshots (checked-ok name u fine),
                    ))
                    (λ refused. inl (inr (inst, p, at, by, refused, refl, refl))))))
