-- ===== src/Snapshots/Manager/Filing.antt =====
-- The invariant of the snapshots' map, and what GetSnapshot returns by it.
use mystic_hypervisor.Prelude.Maps.{GoMap, get, put, get-put_cases, get-delete_cases}
use mystic_hypervisor.Prelude.{
  ℕ, ◌≡◌, inl, inr, refl, sym, ap, ◌∙◌, subst, Option, none, some, String, Bool, ◌==◌, string_eq,
  List, [], ◌∷◌, if_elim, option_elim,
}
use mystic_hypervisor.Snapshots.Manager.Book.{checked-ok}
use mystic_hypervisor.Snapshots.Manager.Changes.{
  asked, after_creation, create_snapshot, create_vacant, delete_snapshot, delete_with, mark_active,
  new_snapshot, restore_snapshot, restore_with,
}
use mystic_hypervisor.Snapshots.Manager.{
  Manager, ProviderSnapshot, Result, SnapshotProvider, ok, err, checked, creates, restores,
  find_named, get_from_provider, get_snapshot, get_snapshot_provider, given, given_elim,
  given_in_elim, provided, resolve_instance_name, snapshot_not_found,
}
use mystic_hypervisor.Snapshots.Name.Keys.{make_snapshot_id_injective}
use mystic_hypervisor.Snapshots.Name.Syntax.{validate_snapshot_name-Lacks}
use mystic_hypervisor.Snapshots.Name.{make_snapshot_id, validate_snapshot_name}
use mystic_hypervisor.Snapshots.{Snapshot}

-- A record has the key that its workload and its name make, and an accepted name.
pub record IsFiledAt (k : String) (s : Snapshot) : Type 0 where
  pub id : s.id ≡ k
  pub key : k ≡ make_snapshot_id s.workload_id s.name
  pub valid : validate_snapshot_name s.name ≡ none

abbrev pub IsFiled : GoMap String Snapshot → Type 0
IsFiled m = (k : String) (s : Snapshot) → get k m ≡ some s → IsFiledAt k s

put-IsFiled :
    (k : String) (s : Snapshot) (m : GoMap String Snapshot)
    → IsFiledAt k s
    → IsFiled m
    → IsFiled (put k s m)
put-IsFiled k s m here filed j t e = elim (get-put_cases k j s t m e) [
  | inl (p, q) ↦ subst (IsFiledAt j) q (subst (λ i. IsFiledAt i s) p here)
  | inr (_, before) ↦ filed j t before
]

-- A method leaves a map that is filed.
pub record Leaves {A : Type 0} (answer : A × Manager) : Type 0 where
  pub filed : IsFiled answer.1.snapshots

-- The snapshot of a workload with a name.
abbrev pub IsOf : String → String → Snapshot → Type 0
IsOf w name s = (s.workload_id ≡ w) × (s.name ≡ name) × (s.id ≡ make_snapshot_id w name)

record Answers (w name : String) (r : Result Snapshot) : Type 0 where
  right : (s : Snapshot) → r ≡ ok s → IsOf w name s

answer : (w name : String) (s : Snapshot) → IsOf w name s → Answers w name (ok s)
answer w name s h = record { right = λ t e. let same : s ≡ t = cc e in subst (IsOf w name) same h }

module _ (m : Manager) (filed : IsFiled m.snapshots) where
  same_map : {A : Type 0} {a : A} {n : Manager} → n.snapshots ≡ m.snapshots → Leaves (a, n)
  same_map e = record { filed = subst IsFiled (sym e) filed }

  pub create_snapshot-IsFiled :
      (now : ℕ) (saved : Bool) (w name : String) (stateful : Bool) (description : String)
      → Leaves (create_snapshot now saved w name stateful description m)
  unfolding create_snapshot create_vacant after_creation new_snapshot
  create_snapshot-IsFiled now saved w name stateful description =
      given_in_elim Leaves m (checked name) _ (λ e _. same_map refl)
        (λ u fine.
          given_in_elim Leaves m (resolve_instance_name w m) _ (λ e _. same_map refl)
            (λ inst at.
              option_elim Leaves (get (make_snapshot_id w name) m.snapshots) _ _
                (λ vacant.
                  given_in_elim Leaves m (get_snapshot_provider m) _ (λ e _. same_map refl)
                    (λ p _.
                      made inst (checked-ok name u fine) (p.create_snapshot inst name stateful)))
                (λ s _. same_map refl)))
    where
      made :
          (inst : String)
          → validate_snapshot_name name ≡ none
          → (answer : Option (Option ProviderSnapshot))
          → Leaves (
              after_creation now saved w inst name stateful description answer
                (asked (creates inst name) m))
      made inst valid none = same_map refl
      made inst valid (some answer) = record {
        filed =
            put-IsFiled (make_snapshot_id w name) _ m.snapshots
              (record { id = refl; key = refl; valid = valid }) filed;
      }

  pub delete_snapshot-IsFiled :
      (saved : Bool) (w name : String) → Leaves (delete_snapshot saved w name m)
  unfolding delete_snapshot delete_with
  delete_snapshot-IsFiled saved w name =
      given_in_elim Leaves m (checked name) _ (λ e _. same_map refl)
        (λ u fine.
          given_in_elim Leaves m (resolve_instance_name w m) _ (λ e _. same_map refl)
            (λ inst at.
              given_in_elim Leaves m (get_snapshot_provider m) _ (λ e _. same_map refl)
                (λ p _.
                  if_elim Leaves (p.delete_snapshot inst name) _ _
                    (λ _. record {
                      filed = λ k s e.
                          filed k s
                            (get-delete_cases (make_snapshot_id w name) k s m.snapshots e).1;
                    })
                    (λ _. same_map refl))))

  mark_active-IsFiled :
      (saved : Bool) (id : String) (n : Manager)
      → n.snapshots ≡ m.snapshots
      → IsFiled (mark_active saved id n).snapshots
  unfolding mark_active
  mark_active-IsFiled saved id n same =
      option_elim (λ (x : Manager). IsFiled x.snapshots) (get id n.snapshots) _ _
        (λ _. subst IsFiled (sym same) filed)
        (λ s here.
          let at = filed id s (sym (ap (get id) same) ∙ here) in
          put-IsFiled id _ n.snapshots (record { id = at.id; key = at.key; valid = at.valid })
            (subst IsFiled (sym same) filed))

  pub restore_snapshot-IsFiled :
      (saved : Bool) (w name : String) → Leaves (restore_snapshot saved w name m)
  unfolding restore_snapshot restore_with
  restore_snapshot-IsFiled saved w name =
      given_in_elim Leaves m (checked name) _ (λ e _. same_map refl)
        (λ u fine.
          given_in_elim Leaves m (resolve_instance_name w m) _ (λ e _. same_map refl)
            (λ inst at.
              given_in_elim Leaves m (get_snapshot w name m) _ (λ e _. same_map refl)
                (λ s _.
                  given_in_elim Leaves m (get_snapshot_provider m) _ (λ e _. same_map refl)
                    (λ p _.
                      if_elim Leaves (p.restore_snapshot inst name) _ _
                        (λ _. record {
                          filed =
                              mark_active-IsFiled saved s.id (asked (restores inst name) m) refl;
                        })
                        (λ _. same_map refl)))))

  find_named-Answers :
      (w inst name : String) (xs : List ProviderSnapshot)
      → Answers w name (find_named w inst name xs)
  unfolding find_named provided
  find_named-Answers w inst name [] = record { right = λ s e. cc }
  find_named-Answers w inst name (ps ∷ rest) =
      if_elim (Answers w name) (ps.name == name) _ _
        (λ t.
          let same = (string_eq.same_iff ps.name name).0 t in
          answer w name _ (refl, same, ap (make_snapshot_id w) same))
        (λ _. find_named-Answers w inst name rest)

  get_from_provider-Answers :
      (w inst name : String) → Answers w name (get_from_provider w inst name m)
  unfolding get_from_provider
  get_from_provider-Answers w inst name = by_provider (get_snapshot_provider m)
    where
      by_provider :
          (r : Result SnapshotProvider)
          → Answers w name (elim r [
            | err e ↦ err snapshot_not_found
            | ok p ↦ elim (p.list_snapshots inst) [
              | none ↦ err snapshot_not_found
              | some listed ↦ find_named w inst name listed
            ]
          ])
      by_provider (err e) = record { right = λ s e. cc }
      by_provider (ok p) =
          option_elim (Answers w name) (p.list_snapshots inst) _ _
            (λ _. record { right = λ s e. cc }) (λ listed _. find_named-Answers w inst name listed)

  get_snapshot-Answers : (w name : String) → Answers w name (get_snapshot w name m)
  unfolding get_snapshot
  get_snapshot-Answers w name =
      given_elim (Answers w name) (checked name) _ (λ e _. record { right = λ s e. cc })
        (λ u fine. stored (checked-ok name u fine) (get (make_snapshot_id w name) m.snapshots) refl)
    where
      stored :
          validate_snapshot_name name ≡ none
          → (o : Option Snapshot) → get (make_snapshot_id w name) m.snapshots ≡ o
          → Answers w name (elim o [
            | some s ↦ ok s
            | none ↦ given (resolve_instance_name w m) (λ inst. get_from_provider w inst name m)
          ])
      stored valid none e =
          given_elim (Answers w name) (resolve_instance_name w m) _
            (λ e _. record { right = λ s e. cc }) (λ inst _. get_from_provider-Answers w inst name)
      stored valid (some s) e =
          let at = filed (make_snapshot_id w name) s e in
          let (p, q) =
            make_snapshot_id_injective w name s.workload_id s.name
              (validate_snapshot_name-Lacks name valid)
              (validate_snapshot_name-Lacks s.name at.valid) at.key in
          answer w name s (sym p, sym q, at.id)

  -- In a map that is filed, what GetSnapshot returns is the snapshot of that workload with that name,
  -- under the key that they make, be it stored or only the provider's.
  pub get_snapshot-IsOf :
      (w name : String) (s : Snapshot) → get_snapshot w name m ≡ ok s → IsOf w name s
  get_snapshot-IsOf w name s e = (get_snapshot-Answers w name).right s e
