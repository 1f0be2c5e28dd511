-- ===== src/Connections/Generation.antt =====
-- What a generated profile promises, and that the manager then takes it.
use mystic_hypervisor.Connections.{
  ConnectionProfile, ConnectionError, ok, check_endpoint, check_profile, connect, endpoint,
  endpoint_host_required, generate_at, generate_connection_profile, is_ssh, profile_of,
}
use mystic_hypervisor.Networking.AllocatorEngine.Normalize.{bad_port}
use mystic_hypervisor.Networking.Exposure.{NetworkExposure, or_text}
use mystic_hypervisor.Prelude.Int.{ℤ, pos, ltz}
use mystic_hypervisor.Prelude.{
  ℕ, ◌≡◌, ◌≢◌, refl, subst, sym, ap, ◌∙◌, Option, none, some, String, Bool, true, false, not, ◌&&◌,
  ◌==◌, string_eq, arith, ==_ne, Option-cases, inl, inr, if◌then◌else◌,
}
use mystic_hypervisor.Services.{Service, ServiceType, is_console, is_supported, service_type_text}
use mystic_hypervisor.Text.{trim_space}

-- The service refers to an exposure, and it is given with a positive public port.
abbrev pub IsReached : Service → Option NetworkExposure → NetworkExposure → Type 0
IsReached svc exp x = (exp ≡ some x) × (svc.exposure_id ≢ "") × (ltz (pos 0) x.public_port ≡ true)

-- The endpoint is the exposure's public one, with the service's internal address where the exposure has
-- none; and without such an exposure it is the service's internal one.
pub record IsEndpoint (svc : Service) (exp : Option NetworkExposure) (host : String) (port : ℤ)
    : Type 0 where
  pub exposed :
      (x : NetworkExposure)
      → IsReached svc exp x
      → (port ≡ x.public_port)
        × (x.public_ip ≢ "" → host ≡ x.public_ip)
        × (x.public_ip ≡ "" → host ≡ svc.internal_ip)
  pub internal :
      ((x : NetworkExposure) → ¬ IsReached svc exp x)
      → (host ≡ svc.internal_ip) × (port ≡ svc.internal_port)

abbrev IsEndpointAt : Service → Option NetworkExposure → String × ℤ → Type 0
IsEndpointAt svc exp (host, port) = IsEndpoint svc exp host port

endpoint-IsEndpoint :
    (svc : Service) (exp : Option NetworkExposure)
    → IsEndpoint svc exp (endpoint svc exp).0 (endpoint svc exp).1
unfolding endpoint
endpoint-IsEndpoint svc none = record { exposed = λ x (e, _, _). cc; internal = λ _. (refl, refl) }
endpoint-IsEndpoint svc (some y) =
    by_test (svc.exposure_id == "") (ltz (pos 0) y.public_port) refl refl
  where
    by_test :
        (b c : Bool)
        → (svc.exposure_id == "") ≡ b
        → ltz (pos 0) y.public_port ≡ c
        → IsEndpointAt svc (some y) (
            if not b && c
            then (or_text y.public_ip svc.internal_ip, y.public_port)
            else (svc.internal_ip, svc.internal_port))
    by_test true c s t = record {
      exposed = λ x (_, ne, _). absurd (ne ((string_eq.same_iff svc.exposure_id "").0 s));
      internal = λ _. (refl, refl);
    }
    by_test false false s t = record {
      exposed = λ x (e, _, g).
          let same : y ≡ x = cc e in
          cc (ap (λ (z : NetworkExposure). ltz (pos 0) z.public_port) same, t, g);
      internal = λ _. (refl, refl);
    }
    by_test false true s t = record {
      exposed = λ x (e, _, _).
          let same : y ≡ x = cc e in
          (
            ap (λ (z : NetworkExposure). z.public_port) same,
            λ ne.
                let there = ap (λ (z : NetworkExposure). z.public_ip) same in
                ground (arith, there, ==_ne y.public_ip "" (λ q. ne (sym there ∙ q))),
            λ none_given.
                let there = ap (λ (z : NetworkExposure). z.public_ip) same in
                ground (arith, (string_eq.same_iff y.public_ip "").1 (there ∙ none_given)),
          );
      internal =
          λ no. absurd (no y (refl, λ q. cc ((string_eq.same_iff svc.exposure_id "").1 q, s), t));
    }

-- What a profile says of the service and the exposure that it was made for.
pub record Describes (svc : Service) (exp : Option NetworkExposure) (p : ConnectionProfile)
    : Type 0 where
  pub service : p.service_id ≡ svc.id
  pub workload : p.workload_id ≡ svc.workload_id
  pub protocol : p.protocol ≡ service_type_text svc.type
  pub supported : is_supported svc.type ≡ true
  pub endpoint_of : IsEndpoint svc exp p.endpoint_host p.endpoint_port
  pub reachable :
      is_console svc.type ≡ false
      → (trim_space p.endpoint_host ≢ "") × (bad_port p.endpoint_port ≡ false)
  pub user : is_ssh svc.type ≡ true → trim_space p.target_user ≢ ""

endpoint_ok :
    (svc : Service) (user host : String) (port : ℤ)
    → check_endpoint svc user host port ≡ none
    → (is_console svc.type ≡ false → (trim_space host ≢ "") × (bad_port port ≡ false))
      × (is_ssh svc.type ≡ true → trim_space user ≢ "")
unfolding check_endpoint
endpoint_ok svc user host port h =
    go (is_console svc.type) (trim_space host == "") (bad_port port) (is_ssh svc.type)
      (trim_space user == "") refl refl h
  where
    go :
        (c e b s u : Bool)
        → (trim_space host == "") ≡ e
        → (trim_space user == "") ≡ u
        → (if not c && e
            then some ConnectionError.endpoint_host_empty
            else if not c && b
            then some ConnectionError.endpoint_port_invalid
            else if s && u
            then some ConnectionError.target_user_required
            else none)
          ≡ none
        → (c ≡ false → (trim_space host ≢ "") × (b ≡ false)) × (s ≡ true → trim_space user ≢ "")
    go c e b s u eh eu h = (
      λ q. (
        λ z. ground (arith, h, q, eh, (string_eq.same_iff (trim_space host) "").1 z),
        ground (arith, h, q),
      ),
      λ q z. ground (arith, h, q, eu, (string_eq.same_iff (trim_space user) "").1 z),
    )

connect_supported :
    (t : ServiceType) (svc : Service) (user host : String) (port : ℤ) (x : String × String)
    → connect t svc user host port ≡ some x
    → is_supported t ≡ true
unfolding connect
connect_supported ServiceType.unset svc user host port x e = cc
connect_supported (ServiceType.other s) svc user host port x e = cc
connect_supported _ svc user host port x e = refl

-- A profile that GenerateConnectionProfile returns carries the service's and the workload's id and the
-- protocol of a supported service type. If the service refers to an exposure, and one is given with a
-- positive public port, its endpoint is that port at the exposure's public address, or at the
-- service's internal address if the exposure has none; else it is the service's internal address and
-- port. Unless the service is a console
-- the host is not blank and the port is between 1 and 65535, and an SSH profile names a user.
pub generate_connection_profile-Describes :
    (now : ℕ) (svc : Service) (exp : Option NetworkExposure) (user credential : String)
    (p : ConnectionProfile)
    → generate_connection_profile now (some svc) exp user credential ≡ ok p
    → Describes svc exp p
unfolding generate_connection_profile generate_at
generate_connection_profile-Describes now svc exp user credential p =
    elim (Option-cases (check_endpoint svc user (endpoint svc exp).0 (endpoint svc exp).1)) [
      | inr (x, e) ↦ rw (e, generate_at) (λ h. cc)
      | inl e ↦
          rw (e, generate_at)
            (elim (Option-cases
              (connect svc.type svc user (endpoint svc exp).0 (endpoint svc exp).1)) [
                | inl c ↦ rw (c) (λ h. cc)
                | inr (t, c) ↦ rw (c) (λ h.
                    let (r, u) = endpoint_ok svc user (endpoint svc exp).0 (endpoint svc exp).1 e in
                    let q : profile_of now svc user credential (endpoint svc exp).0
                          (endpoint svc exp).1 t
                        ≡ p =
                      cc in
                    subst (Describes svc exp) q (record {
                      service = refl;
                      workload = refl;
                      protocol = refl;
                      supported =
                          connect_supported svc.type svc user (endpoint svc exp).0
                            (endpoint svc exp).1 t c;
                      endpoint_of = endpoint-IsEndpoint svc exp;
                      reachable = r;
                      user = u;
                    }))
              ])
    ]

is_ssh_of_text : (t : ServiceType) → is_supported t ≡ true → service_type_text t == "SSH" ≡ is_ssh t
is_ssh_of_text ServiceType.unset h = cc
is_ssh_of_text (ServiceType.other s) h = cc
is_ssh_of_text _ h = refl

-- A generated profile of a service with an id and a workload passes the checks of
-- CreateConnectionProfile, unless it is a console's and its host is blank: that one is refused.
pub check_profile-generate_connection_profile :
    (now : ℕ) (svc : Service) (exp : Option NetworkExposure) (user credential : String)
    (p : ConnectionProfile)
    → generate_connection_profile now (some svc) exp user credential ≡ ok p
    → svc.id ≢ ""
    → svc.workload_id ≢ ""
    → check_profile p ≡ (
        if is_console svc.type && trim_space p.endpoint_host == ""
        then some endpoint_host_required
        else none)
unfolding check_profile
check_profile-generate_connection_profile now svc exp user credential p h i w =
    let d = generate_connection_profile-Describes now svc exp user credential p h in
    rw
      (
        ==_ne p.service_id "" (λ q. i (sym d.service ∙ q)),
        ==_ne p.workload_id "" (λ q. w (sym d.workload ∙ q)),
      )
      (go (is_console svc.type) (trim_space p.endpoint_host == "") (p.protocol == "SSH")
        (trim_space p.target_user == "")
        (λ q. ==_ne (trim_space p.endpoint_host) "" (d.reachable q).0)
        (λ q. ==_ne (trim_space p.target_user) "" (
          d.user (
            sym (is_ssh_of_text svc.type d.supported)
            ∙ ap (λ x. x == "SSH") (sym d.protocol)
            ∙ q))))
  where
    go :
        (c e s u : Bool)
        → (c ≡ false → e ≡ false)
        → (s ≡ true → u ≡ false)
        → (if e
            then some endpoint_host_required
            else if s && u
            then some ConnectionError.target_user_required
            else none)
          ≡ (if c && e then some endpoint_host_required else none)
    go c e s u f g = ground (arith, f, g)
