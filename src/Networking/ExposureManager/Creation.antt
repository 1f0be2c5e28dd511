-- ===== src/Networking/ExposureManager/Creation.antt =====
-- What CreateNetworkExposure does on its branches.
use mystic_hypervisor.Networking.Exposure.{NetworkExposure}
use mystic_hypervisor.Networking.ExposureManager.Unique.{Unique, put-Unique}
use mystic_hypervisor.Networking.ExposureManager.Validation.{
  IsAcceptable, accepted-Clash, validate_exposure_iff,
}
use mystic_hypervisor.Networking.ExposureManager.{
  Manager, ExposureError, Result, ok, err, already_exists, persist_failed, accepts,
  validate_exposure, create_network_exposure, create_locked, insert, stamped, with_defaults,
  check_new,
}
use mystic_hypervisor.Prelude.Maps.{get, put, get-put, get-delete}
use mystic_hypervisor.Prelude.{
  ℕ, ◌≡◌, refl, sym, ◌∙◌, ◌⊎◌, inl, inr, subst, none, some, String, Bool, true, arith, Bool-cases,
  Option-cases, string_eq,
}
use mystic_hypervisor.Store.{save, saves, save_of_saves, save_of_fails}

-- `n` is `m` with the exposure, filled in and stamped, under its id.
pub record Created (now : ℕ) (exp : NetworkExposure) (m n : Manager) : Type 0 where
  pub absent : get (with_defaults exp).id m.exposures ≡ none
  pub acceptable : IsAcceptable (with_defaults exp) m.exposures
  pub exposures :
      n.exposures ≡ put (with_defaults exp).id (stamped now (with_defaults exp)) m.exposures
  pub persisted : n.store ≡ save true n.exposures m.store
  pub driver : n.driver ≡ m.driver

-- `n` holds the exposures that `m` holds.
pub record Unchanged (m n : Manager) : Type 0 where
  pub exposures : (k : String) → get k n.exposures ≡ get k m.exposures
  pub store : n.store ≡ m.store
  pub driver : n.driver ≡ m.driver

abbrev pub Outcome : ℕ → NetworkExposure → Manager → Result NetworkExposure × Manager → Type 0
Outcome now exp m (r, n) =
    ((r ≡ ok (stamped now (with_defaults exp))) × Created now exp m n)
    ⊎ (e : ExposureError) × (r ≡ err e) × Unchanged m n

unchanged : (m : Manager) → Unchanged m m
unchanged m = record { exposures = λ k. refl; store = refl; driver = refl }

module _ (saved : Bool) (now : ℕ) (exp : NetworkExposure) (m : Manager) where
  abbrev new : NetworkExposure
  new = stamped now (with_defaults exp)

  insert_lem :
      get (with_defaults exp).id m.exposures ≡ none
      → IsAcceptable (with_defaults exp) m.exposures
      → Outcome now exp m (insert saved new m)
  unfolding insert
  insert_lem gone a = elim (Bool-cases (saves saved m.store)) [
    | inl s ↦ rw s (
        inl (
          refl,
          record {
            absent = gone;
            acceptable = a;
            exposures = refl;
            persisted = save_of_saves saved _ m.store s;
            driver = refl;
          },
        ))
    | inr s ↦ rw s (
        inr (
          persist_failed,
          refl,
          record {
            exposures = λ k.
                get-delete new.id k (put new.id new m.exposures)
                ∙ ground
                    (arith, get-put new.id k new m.exposures, string_eq.same_iff new.id k, gone);
            store = save_of_fails saved _ m.store s;
            driver = refl;
          },
        ))
  ]

  create_locked_lem : Outcome now exp m (create_locked saved now (with_defaults exp) m)
  unfolding create_locked
  create_locked_lem = elim (Option-cases (get (with_defaults exp).id m.exposures)) [
    | inr (old, e) ↦ rw (e, create_locked) (inr (already_exists, refl, unchanged m))
    | inl e ↦
        rw (e, create_locked)
          (elim (Bool-cases (accepts (validate_exposure (with_defaults exp) m.exposures))) [
            | inl t ↦
                rw (t) (insert_lem e ((validate_exposure_iff (with_defaults exp) m.exposures).0 t))
            | inr t ↦ rw (t) (inr (_, refl, unchanged m))
          ])
  ]

  -- CreateNetworkExposure either returns the exposure, filled in and stamped: then its id was not in
  -- use, the validation accepts it, and it is in the map and in the store; or it returns an error, and
  -- the map holds what it held and the store is as it was, whichever check or the store failed.
  pub create_network_exposure-Outcome :
      Outcome now exp m (create_network_exposure saved now (some exp) m)
  unfolding create_network_exposure
  create_network_exposure-Outcome = elim (Option-cases (check_new exp)) [
    | inl e ↦ rw (e, create_network_exposure) create_locked_lem
    | inr (x, e) ↦ rw (e, create_network_exposure) (inr (x, refl, unchanged m))
  ]

  Unchanged-Unique : (n : Manager) → Unchanged m n → Unique m.exposures → Unique n.exposures
  Unchanged-Unique n s u = record {
    filed = λ k x g. u.filed k x (sym (s.exposures k) ∙ g);
    apart =
        λ i j x y g h ne. u.apart i j x y (sym (s.exposures i) ∙ g) (sym (s.exposures j) ∙ h) ne;
  }

  pub create_network_exposure-Unique :
      Unique m.exposures → Unique (create_network_exposure saved now (some exp) m).1.exposures
  create_network_exposure-Unique u = elim create_network_exposure-Outcome [
    | inr (_, _, s) ↦ Unchanged-Unique _ s u
    | inl (_, c) ↦ subst Unique (sym c.exposures) (
        put-Unique new.id new m.exposures u refl
          (c.acceptable.external, c.acceptable.unreserved.0, c.acceptable.unreserved.1)
          (λ j y g ne.
            accepted-Clash (with_defaults exp) m.exposures j y
              ((validate_exposure_iff (with_defaults exp) m.exposures).1 c.acceptable) g
              (λ q. ne (sym (u.filed j y g).0 ∙ q))))
  ]
