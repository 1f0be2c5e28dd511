-- ===== src/Services/Creation.antt =====
-- What CreateService does on its branches, and what a service is that was let in.
use mystic_hypervisor.Hosts.{protocol_eq, protocol_is_unset}
use mystic_hypervisor.Networking.AllocatorEngine.Normalize.{bad_port}
use mystic_hypervisor.Networking.Exposure.{NetworkExposure}
use mystic_hypervisor.Prelude.Int.{int_eq}
use mystic_hypervisor.Prelude.Maps.{get}
use mystic_hypervisor.Prelude.{
  ℕ, ◌≡◌, ◌≢◌, refl, ap, ◌∙◌, ◌⊎◌, inl, inr, Option, none, some, String, Bool, true, false, not,
  ◌&&◌, ◌==◌, arith, Bool-cases, Option-cases, string_eq, if◌then◌else◌, ==_ne,
}
use mystic_hypervisor.Services.{
  Manager, Resolver, Service, ServiceError, ServiceType, ok, err, workload_id_required,
  name_required, unsupported_type, invalid_port, invalid_ip, already_exists, persist_failed,
  check_exposure, check_fields, default_protocol, exposure_missing, check_reference, create_locked,
  create_service, identified, is_console, is_supported, stamped, takes_protocol,
  validate_service_config, with_protocol,
}
use mystic_hypervisor.Store.Registry.{Inserted, Kept, kept, insert-Inserted, insert-Kept}
use mystic_hypervisor.Store.{saves}
use mystic_hypervisor.Text.Ip.{is_ip}
use mystic_hypervisor.Text.{trim_space}

-- A service whose fields the manager accepts, as they are stored.
pub record Valid (resolver : Resolver) (svc : Service) : Type 0 where
  pub workload : trim_space svc.workload_id ≢ ""
  pub name : trim_space svc.name ≢ ""
  pub supported : is_supported svc.type ≡ true
  pub port : is_console svc.type ≡ false → bad_port svc.internal_port ≡ false
  pub address : svc.internal_ip ≢ "" → is_ip svc.internal_ip ≡ true
  pub protocol : takes_protocol svc.type svc.protocol ≡ true
  pub reference :
      (resolve : String → Option NetworkExposure)
      → resolver ≡ some resolve
      → svc.exposure_id ≢ ""
      → (exp : NetworkExposure) × (resolve svc.exposure_id ≡ some exp)
        × (check_exposure svc exp ≡ none)
        × (svc.is_public ≡ true)

no_error :
    (a : Bool) (x : ServiceError) (rest : Option ServiceError)
    → (if a then some x else rest) ≡ none
    → (a ≡ false) × (rest ≡ none)
no_error true x rest h = cc
no_error false x rest h = (refl, h)

and_false : (x y : Bool) → (x && y) ≡ false → x ≡ true → y ≡ false
and_false x y h k = ground (arith, h, k)

not-false : (x : Bool) → not x ≡ false → x ≡ true
not-false x h = ground (arith, h)

check_fields_lem :
    (svc : Service)
    → check_fields svc ≡ none
    → (trim_space svc.workload_id ≢ "")
      × (trim_space svc.name ≢ "")
      × (is_supported svc.type ≡ true)
      × (is_console svc.type ≡ false → bad_port svc.internal_port ≡ false)
      × (svc.internal_ip ≢ "" → is_ip svc.internal_ip ≡ true)
unfolding check_fields
check_fields_lem svc h =
    let (a, h1) = no_error (trim_space svc.workload_id == "") workload_id_required _ h in
    let (b, h2) = no_error (trim_space svc.name == "") name_required _ h1 in
    let (c, h3) = no_error (not (is_supported svc.type)) unsupported_type _ h2 in
    let (d, h4) =
      no_error (not (is_console svc.type) && bad_port svc.internal_port) invalid_port _ h3 in
    let (e, _) =
      no_error (not (svc.internal_ip == "") && not (is_ip svc.internal_ip)) invalid_ip none h4 in
    (
      λ q. ground (arith, a, q, string_eq.same_iff (trim_space svc.workload_id) ""),
      λ q. ground (arith, b, q, string_eq.same_iff (trim_space svc.name) ""),
      ground (arith, c),
      λ q. and_false _ _ d (ap not q),
      λ q. not-false _ (and_false _ _ e (ap not (==_ne svc.internal_ip "" q))),
    )

-- What an accepted service has kept of the one that was given.
pub record Extends (old svc : Service) : Type 0 where
  pub id : svc.id ≡ old.id
  pub workload_id : svc.workload_id ≡ old.workload_id
  pub type : svc.type ≡ old.type
  pub name : svc.name ≡ old.name
  pub port : svc.internal_port ≡ old.internal_port

-- The branches of the reference's check.
pub check_reference_cases {ℓ} :
    (P : Option ServiceError × Service → Type ℓ) (resolve : String → Option NetworkExposure)
    (svc : Service)
    → (svc.exposure_id ≡ "" → P (none, svc))
    → ((x : ServiceError) → P (some x, svc))
    → (svc.exposure_id ≢ ""
        → (exp : NetworkExposure) → resolve svc.exposure_id ≡ some exp
        → check_exposure svc exp ≡ none
        → P (none, record svc { is_public = true }))
    → P (check_reference (some resolve) svc)
unfolding check_reference
check_reference_cases P resolve svc unreferenced refused public =
    elim (Bool-cases (svc.exposure_id == "")) [
      | inl t ↦ rw (t, check_reference) (unreferenced ((string_eq.same_iff svc.exposure_id "").0 t))
      | inr t ↦
          rw (t, check_reference)
            (elim (Option-cases (resolve svc.exposure_id)) [
              | inl e ↦ rw (e) (refused exposure_missing)
              | inr (exp, e) ↦ rw (e) (elim (Option-cases (check_exposure svc exp)) [
                | inr (x, c) ↦ rw (c) (refused x)
                | inl c ↦
                    rw (c)
                      (public (λ q. cc (t, (string_eq.same_iff svc.exposure_id "").1 q)) exp e c)
              ])
            ])
    ]

-- The end of the validation, where the protocol is settled.
check_reference_lem :
    (resolver : Resolver) (svc : Service)
    → check_fields svc ≡ none
    → takes_protocol svc.type svc.protocol ≡ true
    → (check_reference resolver svc).0 ≡ none
    → Valid resolver (check_reference resolver svc).1 × Extends svc (check_reference resolver svc).1
unfolding check_reference check_exposure
check_reference_lem none svc f t =
    let (a, b, c, d, e) = check_fields_lem svc f in
    λ h. (
      record {
        workload = a;
        name = b;
        supported = c;
        port = d;
        address = e;
        protocol = t;
        reference = λ r q. cc;
      },
      record { id = refl; workload_id = refl; type = refl; name = refl; port = refl },
    )
check_reference_lem (some resolve) svc f t =
    let (a, b, c, d, e) = check_fields_lem svc f in
    check_reference_cases (λ (x, v). x ≡ none → Valid (some resolve) v × Extends svc v) resolve svc
      (λ q _. (
        record {
          workload = a;
          name = b;
          supported = c;
          port = d;
          address = e;
          protocol = t;
          reference = λ r z ne. absurd (ne q);
        },
        record { id = refl; workload_id = refl; type = refl; name = refl; port = refl },
      ))
      (λ x h. cc)
      (λ ne exp q z _. (
        record {
          workload = a;
          name = b;
          supported = c;
          port = d;
          address = e;
          protocol = t;
          reference = λ r y _. (exp, (ground (arith, y, q)), z, refl);
        },
        record { id = refl; workload_id = refl; type = refl; name = refl; port = refl },
      ))

-- Every type takes its own default.
takes_default : (t : ServiceType) → takes_protocol t (default_protocol t) ≡ true
takes_default ServiceType.console = refl
takes_default ServiceType.udp = refl
takes_default ServiceType.ssh = refl
takes_default ServiceType.http = refl
takes_default ServiceType.https = refl
takes_default ServiceType.tcp = refl
takes_default ServiceType.unset = refl
takes_default (ServiceType.other s) = refl

takes_settled :
    (svc : Service)
    → (not (protocol_is_unset svc.protocol) && not (takes_protocol svc.type svc.protocol)) ≡ false
    → takes_protocol (with_protocol svc).type (with_protocol svc).protocol ≡ true
takes_settled svc h = elim (Bool-cases (protocol_is_unset svc.protocol)) [
  | inl u ↦ rw (u) (takes_default svc.type)
  | inr u ↦ rw (u) (not-false _ (and_false _ _ h (ap not u)))
]

check_fields_protocol : (svc : Service) → check_fields (with_protocol svc) ≡ check_fields svc
unfolding check_fields
check_fields_protocol svc = refl

-- What the validation accepts is valid, and is the service that was given but for protocol and flag.
pub validate_service_config-Valid :
    (resolver : Resolver) (svc : Service)
    → (validate_service_config resolver svc).0 ≡ none
    → Valid resolver (validate_service_config resolver svc).1
      × Extends svc (validate_service_config resolver svc).1
unfolding validate_service_config
validate_service_config-Valid resolver svc = elim (Option-cases (check_fields svc)) [
  | inr (x, e) ↦ rw (e, validate_service_config) (λ h. cc)
  | inl e ↦
      rw (e, validate_service_config)
        (elim (Bool-cases
          (not (protocol_is_unset svc.protocol) && not (takes_protocol svc.type svc.protocol))) [
            | inl t ↦ rw (t) (λ h. cc)
            | inr t ↦ rw (t) (λ h.
                let (v, x) =
                  check_reference_lem resolver (with_protocol svc) (check_fields_protocol svc ∙ e)
                    (takes_settled svc t) h in
                (
                  v,
                  record {
                    id = x.id;
                    workload_id = x.workload_id;
                    type = x.type;
                    name = x.name;
                    port = x.port;
                  },
                ))
          ])
]

-- CreateService either returns the service, with its protocol settled, its id made up if it had none,
-- and stamped: then it is valid, its id was not in use, and it is in the map and in the store; or it
-- returns an error, and the map holds what it held and the store is as it was.
pub create_service_lem :
    (resolver : Resolver) (saved : Bool) (now : ℕ) (svc : Service) (m : Manager)
    → (let (r, n) = create_service resolver saved now (some svc) m in
        ((v : Service) × (r ≡ ok (stamped now (identified v)))
          × Valid resolver v
          × Extends svc v
          × (get (identified v).id m.entries ≡ none)
          × Inserted (identified v).id (stamped now (identified v)) m n)
        ⊎ ((e : ServiceError) × (r ≡ err e) × Kept m n))
unfolding create_service create_locked
create_service_lem resolver saved now svc m =
    elim (Option-cases (validate_service_config resolver svc).0) [
      | inr (x, e) ↦ rw (e, create_service) (inr (x, refl, kept m))
      | inl e ↦ rw (e, create_service) (locked (validate_service_config-Valid resolver svc e))
    ]
  where
    new : Service
    new = identified (validate_service_config resolver svc).1

    locked :
        Valid resolver (validate_service_config resolver svc).1
          × Extends svc (validate_service_config resolver svc).1
        → (let (r, n) = create_locked saved now new m in
            ((v : Service) × (r ≡ ok (stamped now (identified v)))
              × Valid resolver v
              × Extends svc v
              × (get (identified v).id m.entries ≡ none)
              × Inserted (identified v).id (stamped now (identified v)) m n)
            ⊎ ((e : ServiceError) × (r ≡ err e) × Kept m n))
    locked (v, x) = elim (Option-cases (get new.id m.entries)) [
      | inr (old, e) ↦ rw (e, create_locked) (inr (already_exists, refl, kept m))
      | inl e ↦
          rw (e, create_locked)
            (elim (Bool-cases (saves saved m.store)) [
              | inl s ↦ rw (s) (
                  inl (
                    (validate_service_config resolver svc).1,
                    refl,
                    v,
                    x,
                    e,
                    insert-Inserted saved new.id (stamped now new) m s,
                  ))
              | inr s ↦
                  rw (s)
                    (inr (persist_failed, refl, insert-Kept saved new.id (stamped now new) m e s))
            ])
    ]
