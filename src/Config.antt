-- ===== src/Config.antt =====
-- backend/internal/config/config.go: the configuration, its defaults, the environment and the checks.
use mystic_hypervisor.Prelude.Int.{ℤ, pos, int_eq, lez, ltz}
use mystic_hypervisor.Prelude.{
  ◌≡◌, ◌↔◌, ◌⊎◌, refl, sym, Option, none, some, String, Bool, true, false, ◌||◌, ◌==◌, string_eq,
  arith, if◌then◌else◌, Option-cases, Bool-cases, inl, inr, ◌∙◌, ap,
}
use mystic_hypervisor.Networking.Exposure.{or_text}
use mystic_hypervisor.Text.Decimal.{atoi}

pub record Config : Type 0 where
  pub server_host : String
  pub server_port : ℤ
  pub database_driver : String
  pub database_path : String
  pub workload_store_path : String
  pub jwt_secret : String
  pub token_expiry_hours : ℤ
  pub session_timeout_minute : ℤ
  pub default_provider : String
  pub incus_socket : String
  pub lxc_socket : String
  pub kvm_path : String
  pub default_bridge : String
  pub enable_nat : Bool
  pub subnet_cidr : String
  pub interval_seconds : ℤ
  pub retention_days : ℤ
  pub tls_enabled : Bool
  pub cert_file : String
  pub key_file : String
  pub log_level : String
  pub log_format : String

unfoldable pub default_config : Config
default_config = record {
  server_host = "127.0.0.1";
  server_port = pos 8443;
  database_driver = "sqlite";
  database_path = "/var/lib/mystic/mystic.db";
  workload_store_path = "/var/lib/mystic/workloads.json";
  jwt_secret = "";
  token_expiry_hours = pos 24;
  session_timeout_minute = pos 60;
  default_provider = "incus";
  incus_socket = "/var/lib/incus/unix.socket";
  lxc_socket = "/var/lib/lxc/unix.socket";
  kvm_path = "/usr/bin/qemu-system-x86_64";
  default_bridge = "mysticbr0";
  enable_nat = true;
  subnet_cidr = "10.250.0.0/24";
  interval_seconds = pos 5;
  retention_days = pos 7;
  tls_enabled = true;
  cert_file = "/etc/mystic/certs/server.crt";
  key_file = "/etc/mystic/certs/server.key";
  log_level = "info";
  log_format = "json";
}

-- The environment variables that are read; "" is one that is not set.
pub record Environment : Type 0 where
  pub server_host : String
  pub server_port : String
  pub db_driver : String
  pub db_path : String
  pub workload_store_path : String
  pub jwt_secret : String
  pub default_provider : String
  pub log_level : String

pub data ConfigError : Type 0 where
  invalid_server_port : ℤ → ConfigError
  database_path_empty default_provider_empty : ConfigError
  unsupported_provider : String → ConfigError

-- Validate; `none` is no error.
unfoldable pub validate : Config → Option ConfigError
validate c =
    if lez c.server_port (pos 0) || ltz (pos 65535) c.server_port
    then some (invalid_server_port c.server_port)
    else if c.database_path == ""
    then some database_path_empty
    else if c.default_provider == ""
    then some default_provider_empty
    else if c.default_provider == "incus"
        || c.default_provider == "lxc"
        || c.default_provider == "kvm"
    then none
    else some (unsupported_provider c.default_provider)

-- A port that is not a number is ignored, and so is one that is not set, which is no number either.
abbrev pub port_from : String → ℤ → ℤ
port_from text port = elim (atoi text) [ none ↦ port | some n ↦ n ]

unfoldable pub overridden : Environment → Config
unfolding default_config
overridden env = record default_config {
  server_host = or_text env.server_host default_config.server_host;
  server_port =
      if env.server_port == ""
      then default_config.server_port
      else port_from env.server_port default_config.server_port;
  database_driver = or_text env.db_driver default_config.database_driver;
  database_path = or_text env.db_path default_config.database_path;
  workload_store_path = or_text env.workload_store_path default_config.workload_store_path;
  jwt_secret = or_text env.jwt_secret default_config.jwt_secret;
  default_provider = or_text env.default_provider default_config.default_provider;
  log_level = or_text env.log_level default_config.log_level;
}

unfoldable pub load_from_env : Environment → Config × Option ConfigError
load_from_env env = (overridden env, validate (overridden env))

-- The environment's port, if it names one, is a port, and its provider is one of the three.
abbrev pub Sensible : Environment → Type 0
Sensible env =
    ((env.server_port ≡ "")
      ⊎ (atoi env.server_port ≡ none)
      ⊎ (p : ℤ) × (atoi env.server_port ≡ some p)
        × (ltz (pos 0) p ≡ true)
        × (ltz (pos 65535) p ≡ false))
    × ((env.default_provider ≡ "")
        ⊎ (env.default_provider ≡ "incus")
        ⊎ (env.default_provider ≡ "lxc")
        ⊎ (env.default_provider ≡ "kvm"))

abbrev bad_server_port : ℤ → Bool
bad_server_port p = lez p (pos 0) || ltz (pos 65535) p

abbrev is_supported : String → Bool
is_supported p = p == "incus" || p == "lxc" || p == "kvm"

validate_iff :
    (c : Config)
    → (validate c ≡ none)
      ↔ (bad_server_port c.server_port ≡ false)
        × ((c.database_path == "") ≡ false)
        × (is_supported c.default_provider ≡ true)
unfolding validate
validate_iff c =
    go (bad_server_port c.server_port) (c.database_path == "") (c.default_provider == "")
      (is_supported c.default_provider) nonempty
  where
    nonempty : (c.default_provider == "") ≡ true → is_supported c.default_provider ≡ false
    nonempty h = let e = (string_eq.same_iff c.default_provider "").0 h in rw (e) refl

    go :
        (a b d e : Bool)
        → (d ≡ true → e ≡ false)
        → ((if a
              then some (invalid_server_port c.server_port)
              else if b
              then some database_path_empty
              else if d
              then some default_provider_empty
              else if e
              then none
              else some (unsupported_provider c.default_provider))
            ≡ none)
          ↔ (a ≡ false) × (b ≡ false) × (e ≡ true)
    go a b d e n = (λ h. ground (arith, h, n), λ h. ground (arith, h, n))

port_iff :
    (t : String)
    → (bad_server_port (if t == "" then pos 8443 else port_from t (pos 8443)) ≡ false) ↔ (
        (t ≡ "")
        ⊎ (atoi t ≡ none)
        ⊎ (p : ℤ) × (atoi t ≡ some p) × (ltz (pos 0) p ≡ true) × (ltz (pos 65535) p ≡ false))
port_iff t = elim (Bool-cases (t == "")) [
  | inl h ↦ (λ _. inl ((string_eq.same_iff t "").0 h), λ _. rw h refl)
  | inr h ↦ elim (Option-cases (atoi t)) [
    | inl e ↦
        let q : (if t == "" then pos 8443 else port_from t (pos 8443)) ≡ pos 8443 =
          picked h ∙ rw (e, port_from) refl in
        (λ _. inr (inl e), λ _. ap bad_server_port q)
    | inr (p, e) ↦
        let q : (if t == "" then pos 8443 else port_from t (pos 8443)) ≡ p =
          picked h ∙ rw (e, port_from) refl in
        (
          λ k.
              let r = sym (ap bad_server_port q) ∙ k in
              inr (inr (p, e, ground (arith, r), ground (arith, r))),
          λ k. ap bad_server_port q ∙ elim k [
            | inl z ↦ absurd (cc ((string_eq.same_iff t "").1 z, h))
            | inr (inl z) ↦ absurd (cc (e, z))
            | inr (inr (p', z, lo, hi)) ↦ same p p' (cc (e, z)) lo hi
          ],
        )
  ]
]
  where
    picked :
        (t == "") ≡ false
        → (if t == "" then pos 8443 else port_from t (pos 8443)) ≡ port_from t (pos 8443)
    picked h = rw h refl

    same :
        (p p' : ℤ)
        → some p ≡ some p'
        → ltz (pos 0) p' ≡ true
        → ltz (pos 65535) p' ≡ false
        → bad_server_port p ≡ false
    same p p' z lo hi = ground (arith, z, lo, hi)

supported_iff :
    (t : String)
    → (is_supported (or_text t "incus") ≡ true)
      ↔ ((t ≡ "") ⊎ (t ≡ "incus") ⊎ (t ≡ "lxc") ⊎ (t ≡ "kvm"))
supported_iff t = (
  λ h. ground (
    arith,
    h,
    string_eq.same_iff t "",
    string_eq.same_iff t "incus",
    string_eq.same_iff t "lxc",
    string_eq.same_iff t "kvm",
  ),
  λ h. elim h [
    | inl e ↦ rw (e) refl
    | inr (inl e) ↦ rw (e) refl
    | inr (inr (inl e)) ↦ rw (e) refl
    | inr (inr (inr e)) ↦ rw (e) refl
  ],
)

-- LoadFromEnv returns no error exactly if the port that the environment names is between 1 and 65535,
-- or is no number, or is not named, and the provider is not named or is one of the three.
pub load_from_env_iff : (env : Environment) → ((load_from_env env).1 ≡ none) ↔ Sensible env
unfolding load_from_env overridden default_config
load_from_env_iff env =
    let (f, g) = validate_iff (overridden env) in
    let p = port_iff env.server_port in
    let s = supported_iff env.default_provider in
    (λ h. let (x, _, z) = f h in (p.0 x, s.0 z), λ (x, z). g (p.1 x, path env.db_path, s.1 z))
  where
    path : (t : String) → (or_text t "/var/lib/mystic/mystic.db" == "") ≡ false
    path t = elim (Bool-cases (t == "")) [ inl h ↦ rw h refl | inr h ↦ rw h h ]
