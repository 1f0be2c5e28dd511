-- ===== src/Providers/IncusProxy/Applied.antt =====
-- backend/internal/providers/incus/proxy.go: CreateExposure, and what GetExposure then says.
use mystic_hypervisor.Providers.IncusProxy.Laws.{
  IsProxy, Obedient, readdressed, readdressed-forwards,
}
use mystic_hypervisor.Hosts.{ExposureState}
use mystic_hypervisor.Networking.Exposure.{NetworkExposure}
use mystic_hypervisor.Prelude.Maps.{GoMap, get}
use mystic_hypervisor.Prelude.{
  ◌≡◌, inl, inr, refl, sym, ap, ◌∙◌, subst, Option, none, some, String, Bool, true, false,
  string_eq, [], ◌∷◌, Bool-cases, and_split, if◌then◌else◌,
}
use mystic_hypervisor.Providers.IncusProxy.{
  CommandAnswer, NetworkExposureStatus, unsupported_protocol, Device, Incus, QueryAnswer, devices,
  done, not_found, failing, no_instance, query_failed, resolved, add_proxy, set_device,
  create_exposure, create_on, device_name_for_exposure, device_status, expected_connect,
  expected_listen, forwards, Command, command_error, executed, get_exposure, instance_not_found,
  query_error, DriverError, is_udp, is_up_to_date, resolve_instance_name,
}

module _ {S : Type 0} (incus : Incus S) (laws : Obedient incus) (exp : NetworkExposure)
    (inst : String) where
  abbrev device : String
  device = device_name_for_exposure exp.id

  -- The exposure is active and applied, under its device and its instance.
  pub record IsActive (answer : NetworkExposureStatus × Option DriverError) : Type 0 where
    pub answered : answer.1 ≡ none
    pub active : answer.0.active ≡ true
    pub state : answer.0.state ≡ ExposureState.applied
    pub instance_name : answer.0.instance_name ≡ inst
    pub device_name : answer.0.device_name ≡ device

  -- A query of the instance shows the exposure's device, with its addresses.
  record Shown (t : S) : Type 0 where
    ds : GoMap String Device
    dev : Device
    shows : incus.query inst t ≡ devices ds
    there : get device ds ≡ some dev
    right : forwards exp dev ≡ true

  executed-done :
      (c : Command) (s t : S) → executed incus c s ≡ (none, t) → incus.execute c s ≡ (done, t)
  executed-done c s t = by_answer (incus.execute c s)
    where
      by_answer :
          (x : CommandAnswer × S)
          → ◌≡◌ {A = Option DriverError × S}
              (
                elim x.0 [
                  | done ↦ none
                  | not_found ↦ some command_error
                  | failing ↦ some command_error
                ],
                x.1,
              )
              (none, t)
          → x ≡ (done, t)
      by_answer (done, u) e = ap (λ (p : Option DriverError × S). (done, p.1)) e
      by_answer (not_found, u) e = cc
      by_answer (failing, u) e = cc

  module _ (s t : S)
      (proxies : (ds : GoMap String Device) (dev : Device)
        → incus.query inst s ≡ devices ds
        → get device ds ≡ some dev
        → IsProxy dev) where
    -- The devices that a command left.
    shown :
        (dev : Device)
        → IsProxy dev
        → (ds : GoMap String Device) × (incus.query inst t ≡ devices ds)
          × (get device ds ≡ some (readdressed (expected_listen exp) (expected_connect exp) dev))
        → Shown t
    shown dev proxy (ds, q, e) = record {
      ds = ds;
      dev = readdressed (expected_listen exp) (expected_connect exp) dev;
      shows = q;
      there = e;
      right = readdressed-forwards exp dev proxy;
    }

    by_date :
        (ds : GoMap String Device) (dev : Device)
        → incus.query inst s ≡ devices ds
        → get device ds ≡ some dev
        → (b : Bool) → is_up_to_date exp dev ≡ b
        → (if b
            then (none, s)
            else executed incus
                (set_device inst device (expected_listen exp) (expected_connect exp))
                s)
          ≡ (none, t)
        → Shown t
    unfolding is_up_to_date
    by_date ds dev q g true u e =
        let unmoved : s ≡ t = ap (λ (x : Option DriverError × S). x.1) e in
        record {
          ds = ds;
          dev = dev;
          shows = subst (λ x. incus.query inst x ≡ devices ds) unmoved q;
          there = g;
          right = (and_split (forwards exp dev) _ u).0;
        }
    by_date ds dev q g false u e =
        shown dev (proxies ds dev q g) (laws.sets _ _ _ _ s t ds dev q g (executed-done _ s t e))

    by_device :
        (ds : GoMap String Device)
        → incus.query inst s ≡ devices ds
        → (o : Option Device) → get device ds ≡ o
        → (elim o [
          | none ↦
              executed incus (add_proxy inst device (expected_listen exp) (expected_connect exp)) s
          | some dev ↦
              if is_up_to_date exp dev
              then (none, s)
              else executed incus
                  (set_device inst device (expected_listen exp) (expected_connect exp))
                  s
        ])
          ≡ (none, t)
        → Shown t
    unfolding get
    by_device ds q none g e =
        shown (("type", "proxy") ∷ []) refl (laws.adds _ _ _ _ s t (executed-done _ s t e))
    by_device ds q (some dev) g e = by_date ds dev q g (is_up_to_date exp dev) refl e

    create_on-Shown : create_on incus exp inst s ≡ (none, t) → Shown t
    unfolding create_on
    create_on-Shown e = by_query (incus.query inst s) refl e
      where
        by_query :
            (a : QueryAnswer)
            → incus.query inst s ≡ a
            → (elim a [
              | no_instance ↦ (some instance_not_found, s)
              | query_failed ↦ (some query_error, s)
              | devices ds ↦ elim (get device ds) [
                | none ↦
                    executed incus
                      (add_proxy inst device (expected_listen exp) (expected_connect exp))
                      s
                | some dev ↦
                    if is_up_to_date exp dev
                    then (none, s)
                    else executed incus
                        (set_device inst device (expected_listen exp) (expected_connect exp))
                        s
              ]
            ])
              ≡ (none, t)
            → Shown t
        by_query no_instance q e = cc
        by_query query_failed q e = cc
        by_query (devices ds) q e = by_device ds q (get device ds) refl e

    is_active :
        resolve_instance_name exp ≡ resolved inst
        → Shown t
        → IsActive (get_exposure incus (some exp) t)
    unfolding get_exposure device_status
    is_active at seen =
        let status : get_exposure incus (some exp) t
            ≡ (device_status exp inst device seen.dev, none) =
          rw (get_exposure, at, seen.shows, seen.there) refl in
        subst IsActive (sym status) (record {
          answered = refl;
          active = seen.right;
          state =
              ap (λ b. if b then ExposureState.applied else ExposureState.unconfigured) seen.right;
          instance_name = refl;
          device_name = refl;
        })

    -- With an Incus whose queries show what its commands have done, and where no other kind of device has
    -- the exposure's device name, an exposure that CreateExposure created without an error is active and
    -- applied when GetExposure asks next, under the device and the instance that it was created for.
    pub create_exposure-get_exposure :
        resolve_instance_name exp ≡ resolved inst
        → create_exposure incus (some exp) s ≡ (none, t)
        → IsActive (get_exposure incus (some exp) t)
    unfolding create_exposure
    create_exposure-get_exposure at e = elim (Bool-cases (is_udp exp.protocol)) [
      | inl u ↦
          let step : create_exposure incus (some exp) s ≡ (some unsupported_protocol, s) =
            rw (create_exposure, u) refl in
          cc (sym step ∙ e)
      | inr u ↦
          let step : create_exposure incus (some exp) s ≡ create_on incus exp inst s =
            rw (create_exposure, u, at) refl in
          is_active at (create_on-Shown (sym step ∙ e))
    ]
