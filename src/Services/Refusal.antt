-- ===== src/Services/Refusal.antt =====
-- backend/internal/services/service_manager.go: what stays of an UpdateService that is refused.
use mystic_hypervisor.Prelude.Maps.{
  GoMap, get, put, delete, get-put_self, get-put_ne, get-delete_ne,
}
use mystic_hypervisor.Prelude.{
  ℕ, ◌≡◌, ◌≢◌, refl, sym, ap, ◌∙◌, inl, inr, some, String, Bool, true, Option-cases, string_eq,
}
use mystic_hypervisor.Services.Creation.{Valid, validate_service_config-Valid}
use mystic_hypervisor.Services.{
  Manager, Resolver, Service, ServiceError, err, delete_service, update_service, updated_by,
  validate_service_config,
}
use mystic_hypervisor.Store.{save}

delete_service-store :
    (k : String) (x : Service) (disk : GoMap String Service) (n : Manager)
    → get k n.entries ≡ some x
    → n.store ≡ some disk
    → (delete_service true k n).1.store ≡ some (delete k n.entries)
unfolding delete_service
delete_service-store k x disk n e s = rw (e, delete_service) (ap (save true (delete k n.entries)) s)

-- UpdateService of a service to one that is not valid, its protocol settled, returns an error, but the
-- change stays. If another service is then deleted, with a store whose Save succeeds, the store has
-- the service that was refused.
pub delete_service-update_service :
    (resolver : Resolver) (saved : Bool) (now : ℕ) (id : String) (updated old : Service)
    (m : Manager) (k : String) (x : Service) (disk : GoMap String Service)
    → get id m.entries ≡ some old
    → ¬ Valid resolver (validate_service_config resolver (updated_by updated old)).1
    → m.store ≡ some disk
    → get k m.entries ≡ some x
    → k ≢ id
    → (let (r, n) = update_service resolver saved now id updated m in
        ((e : ServiceError) × (r ≡ err e))
        × (contents : GoMap String Service) × ((delete_service true k n).1.store ≡ some contents)
        × (get id contents ≡ some (validate_service_config resolver (updated_by updated old)).1))
unfolding update_service
delete_service-update_service resolver saved now id updated old m k x disk here wrong stored other
      ne =
    elim (Option-cases (validate_service_config resolver (updated_by updated old)).0) [
      | inl e ↦ absurd (wrong (validate_service_config-Valid resolver (updated_by updated old) e).0)
      | inr (f, e) ↦
          rw (here, update_service)
            (rw (e) (
              (f, refl),
              delete k (put id new m.entries),
              delete_service-store k x disk (record m { entries = put id new m.entries })
                  (get-put_ne id k new m.entries (λ q. ne (sym q)) ∙ other) stored,
              get-delete_ne k id (put id new m.entries) ne ∙ get-put_self id new m.entries,
            ))
    ]
  where
    new : Service
    new = (validate_service_config resolver (updated_by updated old)).1
