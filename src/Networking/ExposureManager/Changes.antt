-- ===== src/Networking/ExposureManager/Changes.antt =====
-- The operations on exposures that exist.
use mystic_hypervisor.Store.{save}
use mystic_hypervisor.Hosts.{ExposureState}
use mystic_hypervisor.Instances.{in_sync, out_of_sync}
use mystic_hypervisor.Networking.Exposure.{NetworkExposure}
use mystic_hypervisor.Networking.ExposureManager.Unique.{
  Unique, SameEndpoint, put-Unique, delete-Unique, replace-Unique, map-Unique,
}
use mystic_hypervisor.Networking.ExposureManager.Validation.{
  IsAcceptable, accepted-Clash, validate_exposure_iff,
}
use mystic_hypervisor.Networking.ExposureManager.{
  Driver, ExposureError, Manager, err, accepts, apply_exposure, delete_network_exposure, observe,
  reconcile_all_exposures, reconcile_exposure, reconciled, reconciled_in_all,
  update_network_exposure, updated_by, validate_exposure,
}
use mystic_hypervisor.Prelude.Maps.{
  GoMap, get, put, delete, get-put_self, get-put_ne, get-delete_ne,
}
use mystic_hypervisor.Prelude.{
  ℕ, ◌≡◌, ◌≢◌, ap, refl, sym, ◌∙◌, inl, inr, Option, none, some, String, Bool, true, Bool-cases,
  Option-cases, string_eq,
}

pub delete_network_exposure-Unique :
    (saved : Bool) (id : String) (m : Manager)
    → Unique m.exposures
    → Unique (delete_network_exposure saved id m).1.exposures
unfolding delete_network_exposure
delete_network_exposure-Unique saved id m u = elim (Option-cases (get id m.exposures)) [
  | inl e ↦ rw (e, delete_network_exposure) u
  | inr (x, e) ↦ rw (e, delete_network_exposure) (delete-Unique id m.exposures u)
]

same : (x : NetworkExposure) → SameEndpoint x x
same x = record {
  id = refl;
  gateway_id = refl;
  public_port = refl;
  internal_port = refl;
  protocol = refl;
}

observe-SameEndpoint : (d : Driver) (x : NetworkExposure) → SameEndpoint x (observe d x)
observe-SameEndpoint d x = elim (Option-cases (d.active x)) [
  | inl e ↦ rw (e, observe) (same x)
  | inr (b, e) ↦
      rw (e, observe)
        (record {
          id = refl;
          gateway_id = refl;
          public_port = refl;
          internal_port = refl;
          protocol = refl;
        })
]

reconciled-SameEndpoint :
    (d : Option Driver) (now : ℕ) (x : NetworkExposure) → SameEndpoint x (reconciled d now x)
unfolding reconciled
reconciled-SameEndpoint none now x = record {
  id = refl;
  gateway_id = refl;
  public_port = refl;
  internal_port = refl;
  protocol = refl;
}
reconciled-SameEndpoint (some d) now x =
    let s = observe-SameEndpoint d (record x { last_sync = some now }) in
    record {
      id = s.id;
      gateway_id = s.gateway_id;
      public_port = s.public_port;
      internal_port = s.internal_port;
      protocol = s.protocol;
    }

reconciled_in_all-SameEndpoint :
    (d : Option Driver) (now : ℕ) (x : NetworkExposure) → SameEndpoint x (reconciled_in_all d now x)
unfolding reconciled_in_all
reconciled_in_all-SameEndpoint none now x = record {
  id = refl;
  gateway_id = refl;
  public_port = refl;
  internal_port = refl;
  protocol = refl;
}
reconciled_in_all-SameEndpoint (some d) now x =
    let s = observe-SameEndpoint d (record x { last_sync = some now }) in
    record {
      id = s.id;
      gateway_id = s.gateway_id;
      public_port = s.public_port;
      internal_port = s.internal_port;
      protocol = s.protocol;
    }

pub reconcile_exposure-Unique :
    (saved : Bool) (now : ℕ) (id : String) (m : Manager)
    → Unique m.exposures
    → Unique (reconcile_exposure saved now id m).1.exposures
unfolding reconcile_exposure
reconcile_exposure-Unique saved now id m u = elim (Option-cases (get id m.exposures)) [
  | inl e ↦ rw (e, reconcile_exposure) u
  | inr (x, e) ↦
      rw (e, reconcile_exposure)
        (replace-Unique id x (reconciled m.driver now x) m.exposures u e
          (reconciled-SameEndpoint m.driver now x))
]

pub reconcile_all_exposures-Unique :
    (saved : Bool) (now : ℕ) (m : Manager)
    → Unique m.exposures
    → Unique (reconcile_all_exposures saved now m).exposures
unfolding reconcile_all_exposures
reconcile_all_exposures-Unique saved now m u =
    map-Unique (reconciled_in_all m.driver now) m.exposures
      (reconciled_in_all-SameEndpoint m.driver now) u

pub apply_exposure-Unique :
    (saved : Bool) (now : ℕ) (id : String) (m : Manager)
    → Unique m.exposures
    → Unique (apply_exposure saved now id m).1.exposures
unfolding apply_exposure
apply_exposure-Unique saved now id m u = elim (Option-cases (get id m.exposures)) [
  | inl e ↦ rw (e, apply_exposure) u
  | inr (x, e) ↦
      rw (e, apply_exposure)
        (elim (Option-cases m.driver) [
          | inl d ↦ rw (d) u
          | inr (driver, d) ↦ rw (d) (elim (Bool-cases (driver.creates (asked x))) [
            | inl t ↦ rw (t) (
                replace-Unique id x (applied x) m.exposures u e (record {
                  id = refl;
                  gateway_id = refl;
                  public_port = refl;
                  internal_port = refl;
                  protocol = refl;
                }))
            | inr t ↦ rw (t) (
                replace-Unique id x (failed x) m.exposures u e (record {
                  id = refl;
                  gateway_id = refl;
                  public_port = refl;
                  internal_port = refl;
                  protocol = refl;
                }))
          ])
        ])
]
  where
    asked : NetworkExposure → NetworkExposure
    asked exp = record exp { desired_state = ExposureState.applied; updated_at = some now }

    applied : NetworkExposure → NetworkExposure
    applied exp = record exp {
      desired_state = ExposureState.applied;
      updated_at = some now;
      actual_state = ExposureState.applied;
      sync_status = in_sync;
      last_sync = some now;
    }

    failed : NetworkExposure → NetworkExposure
    failed exp = record exp {
      desired_state = ExposureState.applied;
      updated_at = some now;
      actual_state = ExposureState.unconfigured;
      sync_status = out_of_sync;
    }

pub update_network_exposure-absent :
    (saved : Bool) (now : ℕ) (id : String) (updated : NetworkExposure) (m : Manager)
    → get id m.exposures ≡ none
    → (update_network_exposure saved now id updated m).1 ≡ m
unfolding update_network_exposure
update_network_exposure-absent saved now id updated m e = rw (e, update_network_exposure) refl

delete_network_exposure-store :
    (k : String) (x : NetworkExposure) (disk : GoMap String NetworkExposure) (n : Manager)
    → get k n.exposures ≡ some x
    → n.store ≡ some disk
    → (delete_network_exposure true k n).1.store ≡ some (delete k n.exposures)
unfolding delete_network_exposure
delete_network_exposure-store k x disk n e s =
    rw (e, delete_network_exposure) (ap (save true (delete k n.exposures)) s)

module _ (saved : Bool) (now : ℕ) (id : String) (updated old : NetworkExposure) (m : Manager)
    (here : get id m.exposures ≡ some old) where
  abbrev changed : NetworkExposure
  changed = updated_by updated old

  abbrev written : GoMap String NetworkExposure
  written = put id changed m.exposures

  -- UpdateNetworkExposure of an exposure to one that is not acceptable returns an error, but the change
  -- stays. If another exposure is then deleted, with a store whose Save succeeds, the store has the
  -- exposure that was refused.
  pub delete_network_exposure-update_network_exposure :
      (k : String) (x : NetworkExposure) (disk : GoMap String NetworkExposure)
      → ¬ IsAcceptable changed written
      → m.store ≡ some disk
      → get k m.exposures ≡ some x
      → k ≢ id
      → (let (r, n) = update_network_exposure saved now id updated m in
          ((e : ExposureError) × (r ≡ err e))
          × (contents : GoMap String NetworkExposure) × ((delete_network_exposure true k n).1.store
              ≡ some contents)
          × (get id contents ≡ some changed))
  unfolding update_network_exposure
  delete_network_exposure-update_network_exposure k x disk wrong stored other ne =
      elim (Bool-cases (accepts (validate_exposure changed written))) [
        | inl h ↦ absurd (wrong ((validate_exposure_iff changed written).0 h))
        | inr h ↦
            rw (here, update_network_exposure)
              (rw (h) (
                (_, refl),
                delete k written,
                delete_network_exposure-store k x disk (record m { exposures = written })
                    (get-put_ne id k changed m.exposures (λ q. ne (sym q)) ∙ other) stored,
                get-delete_ne k id written ne ∙ get-put_self id changed m.exposures,
              ))
      ]

  pub update_network_exposure-Unique :
      Unique m.exposures
      → accepts (validate_exposure changed written) ≡ true
      → Unique (update_network_exposure saved now id updated m).1.exposures
  unfolding update_network_exposure
  update_network_exposure-Unique u h =
      rw (here, update_network_exposure)
        (rw (h) (
          replace-Unique id changed (record changed { updated_at = some now }) written
            written_unique (get-put_self id changed m.exposures)
            (record {
              id = refl;
              gateway_id = refl;
              public_port = refl;
              internal_port = refl;
              protocol = refl;
            })))
    where
      filed : changed.id ≡ id
      filed = (u.filed id old here).0

      written_unique : Unique written
      written_unique =
          let a = (validate_exposure_iff changed written).0 h in
          put-Unique id changed m.exposures u filed (a.external, a.unreserved.0, a.unreserved.1)
            (λ j y g ne.
              accepted-Clash changed written j y h
                (get-put_ne id j changed m.exposures (λ q. ne (sym q)) ∙ g)
                (λ q. ne (sym (u.filed j y g).0 ∙ q ∙ filed)))
