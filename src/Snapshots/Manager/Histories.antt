-- ===== src/Snapshots/Manager/Histories.antt =====
-- Histories of the manager of the snapshots: any methods in any order.
use mystic_hypervisor.Prelude.Maps.{GoMap, get}
use mystic_hypervisor.Prelude.{
  ℕ, ◌≡◌, refl, Option, none, some, String, string_eq, Bool, List, [], ◌∷◌,
}
use mystic_hypervisor.Snapshots.Manager.Book.{
  CreateOutcome, DeleteOutcome, create_snapshot-Outcome, delete_snapshot-Outcome,
}
use mystic_hypervisor.Snapshots.Manager.Restoration.{RestoreOutcome, restore_snapshot-Outcome}
use mystic_hypervisor.Snapshots.Manager.Filing.{
  IsFiled, IsOf, create_snapshot-IsFiled, delete_snapshot-IsFiled, get_snapshot-IsOf,
  restore_snapshot-IsFiled,
}
use mystic_hypervisor.Snapshots.Manager.Changes.{create_snapshot, delete_snapshot, restore_snapshot}
use mystic_hypervisor.Snapshots.Manager.{
  Manager, SnapshotProvider, ok, get_snapshot, new_manager, set_provider, set_resolver,
}
use mystic_hypervisor.Snapshots.{Snapshot}
use mystic_hypervisor.Store.{Store}

-- A call of a method that changes the manager, with what it is told from outside.
pub data Call : Type 0 where
  create : ℕ → Bool → String → String → Bool → String → Call
  restore delete_one : Bool → String → String → Call
  set_to : Option (Option SnapshotProvider) → Option (String → Option String) → Call

unfoldable pub called : Call → Manager → Manager
called (create now saved w name stateful description) m =
    (create_snapshot now saved w name stateful description m).1
called (restore saved w name) m = (restore_snapshot saved w name m).1
called (delete_one saved w name) m = (delete_snapshot saved w name m).1
called (set_to p r) m = set_resolver r (set_provider p m)

unfoldable pub run : List Call → Manager → Manager
run [] m = m
run (c ∷ cs) m = run cs (called c m)

-- What a call does, by the outcomes of its method. A provider or a resolver is put in the place of the
-- one there was, and nothing else changes.
abbrev pub Outcome : Call → Manager → Type 0
Outcome (create now saved w name stateful description) m =
    CreateOutcome saved w name m stateful (create_snapshot now saved w name stateful description m)
Outcome (restore saved w name) m = RestoreOutcome saved w name m (restore_snapshot saved w name m)
Outcome (delete_one saved w name) m = DeleteOutcome saved w name m (delete_snapshot saved w name m)
Outcome (set_to p r) m = called (set_to p r) m ≡ record m { provider = p; resolver = r }

-- Seen as a book that keeps at most one record for each workload and name, and where the records are
-- filed, a creation, a restoration and a deletion end in one of three ways. They fail and change
-- nothing; or they fail with the provider, which was asked once for the workload's instance and
-- refused, and change nothing else; or the provider, asked once, does not refuse, and the book changes
-- at that workload and name only: a creation writes a record where there was none, a restoration marks
-- the record active, if there is one, and returns what GetSnapshot returns, and a deletion leaves none.
pub called-Outcome : (c : Call) (m : Manager) → IsFiled m.snapshots → Outcome c m
unfolding called set_resolver set_provider
called-Outcome (create now saved w name stateful description) m filed =
    create_snapshot-Outcome saved w name m now stateful description
called-Outcome (restore saved w name) m filed = restore_snapshot-Outcome saved w name m filed
called-Outcome (delete_one saved w name) m filed = delete_snapshot-Outcome saved w name m
called-Outcome (set_to p r) m filed = refl

called-IsFiled : (c : Call) (m : Manager) → IsFiled m.snapshots → IsFiled (called c m).snapshots
unfolding called set_resolver set_provider
called-IsFiled (create now saved w name stateful description) m filed =
    (create_snapshot-IsFiled m filed now saved w name stateful description).filed
called-IsFiled (restore saved w name) m filed =
    (restore_snapshot-IsFiled m filed saved w name).filed
called-IsFiled (delete_one saved w name) m filed =
    (delete_snapshot-IsFiled m filed saved w name).filed
called-IsFiled (set_to p r) m filed = filed

-- Whatever methods a manager runs, in any order, with any answers of the provider, the resolver and
-- the store, its records stay filed: each under the key of its own workload and name, and with a name
-- that is accepted.
pub run-IsFiled :
    (cs : List Call) (m : Manager) → IsFiled m.snapshots → IsFiled (run cs m).snapshots
unfolding run
run-IsFiled [] m filed = filed
run-IsFiled (c ∷ cs) m filed = run-IsFiled cs (called c m) (called-IsFiled c m filed)

-- A manager starts from records that stand under the keys of their workloads and names, and runs any
-- methods in any order, with any provider and resolver. Then what GetSnapshot returns is the snapshot of
-- the workload and with the name that it was asked for.
pub run-IsOf :
    (loaded : Option (GoMap String Snapshot)) (store : Store Snapshot)
    (p : Option (Option SnapshotProvider)) (r : Option (String → Option String)) (cs : List Call)
    (w name : String) (s : Snapshot)
    → ((ss : GoMap String Snapshot) → loaded ≡ some ss → IsFiled ss)
    → get_snapshot w name (run cs (new_manager loaded store p r)) ≡ ok s
    → IsOf w name s
unfolding new_manager get
run-IsOf loaded store p r cs w name s sound e =
    get_snapshot-IsOf (run cs (new_manager loaded store p r))
      (run-IsFiled cs (new_manager loaded store p r) (first loaded store sound)) w name s e
  where
    first :
        (loaded : Option (GoMap String Snapshot)) (store : Store Snapshot)
        → ((ss : GoMap String Snapshot) → loaded ≡ some ss → IsFiled ss)
        → IsFiled (new_manager loaded store p r).snapshots
    first loaded none sound = λ k s e. cc
    first none (some x) sound = λ k s e. cc
    first (some ss) (some x) sound = sound ss refl
