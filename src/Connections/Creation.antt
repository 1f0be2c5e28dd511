-- ===== src/Connections/Creation.antt =====
-- What CreateConnectionProfile does on its branches.
use mystic_hypervisor.Connections.{
  ConnectionError, ConnectionProfile, Manager, ok, err, already_exists, persist_failed,
  check_profile, create_connection_profile, create_locked, filed,
}
use mystic_hypervisor.Prelude.Maps.{get}
use mystic_hypervisor.Prelude.{
  ℕ, ◌≡◌, refl, ◌⊎◌, inl, inr, none, some, Bool, Bool-cases, Option-cases, string_eq,
}
use mystic_hypervisor.Store.Registry.{Inserted, Kept, kept, insert-Inserted, insert-Kept}
use mystic_hypervisor.Store.{saves}

-- CreateConnectionProfile either returns the profile, with its id made up if it had none and its times
-- set: then it passed the checks, its id was not in use, and it is in the map and in the store; or it
-- returns an error, and the map holds what it held and the store is as it was.
pub create_connection_profile_lem :
    (saved : Bool) (now nanos : ℕ) (p : ConnectionProfile) (m : Manager)
    → (let (r, n) = create_connection_profile saved now nanos (some p) m in
        ((r ≡ ok (filed now nanos p))
          × (check_profile p ≡ none)
          × (get (filed now nanos p).id m.entries ≡ none)
          × Inserted (filed now nanos p).id (filed now nanos p) m n)
        ⊎ ((e : ConnectionError) × (r ≡ err e) × Kept m n))
unfolding create_connection_profile create_locked
create_connection_profile_lem saved now nanos p m = elim (Option-cases (check_profile p)) [
  | inr (x, e) ↦ rw (e, create_connection_profile) (inr (x, refl, kept m))
  | inl c ↦
      rw (c, create_connection_profile)
        (elim (Option-cases (get (filed now nanos p).id m.entries)) [
          | inr (old, e) ↦ rw (e, create_locked) (inr (already_exists, refl, kept m))
          | inl e ↦
              rw (e, create_locked)
                (elim (Bool-cases (saves saved m.store)) [
                  | inl s ↦ rw (s) (
                      inl (
                        refl,
                        refl,
                        refl,
                        insert-Inserted saved (filed now nanos p).id (filed now nanos p) m s,
                      ))
                  | inr s ↦ rw (s) (
                      inr (
                        persist_failed,
                        refl,
                        insert-Kept saved (filed now nanos p).id (filed now nanos p) m e s,
                      ))
                ])
        ])
]
