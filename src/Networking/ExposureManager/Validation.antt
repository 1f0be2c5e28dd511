-- ===== src/Networking/ExposureManager/Validation.antt =====
-- What the manager's validation says of the exposures that it holds.
use mystic_hypervisor.Hosts.{ForwardingRule, Protocol}
use mystic_hypervisor.Networking.AllocatorEngine.Conflicts.{is_taken_by}
use mystic_hypervisor.Networking.AllocatorEngine.Meaning.{
  IsPort, Overlap, Takes, bad_port_iff, reserved_iff, is_known_protocol_iff, not_taken, untaken,
}
use mystic_hypervisor.Networking.AllocatorEngine.Single.{
  Acceptable, single_accepted_iff, single_mapping,
}
use mystic_hypervisor.Networking.AllocatorEngine.{rule_port}
use mystic_hypervisor.Networking.Exposure.{NetworkExposure, to_forwarding_rule}
use mystic_hypervisor.Networking.ExposureManager.{
  accepts, exposure_request, other_rules, validate_exposure,
}
use mystic_hypervisor.Prelude.Int.{pos, int_eq}
use mystic_hypervisor.Prelude.Maps.{GoMap, get, values}
use mystic_hypervisor.Prelude.{
  ◌≡◌, ◌≢◌, ◌↔◌, ◌⊎◌, refl, sym, ◌∙◌, subst, some, String, Bool, true, false, ◌==◌, List, [], ◌∷◌,
  All, All-map, arith, Bool-cases, inl, inr, string_eq, if◌then◌else◌, ==_ne,
}
use mystic_hypervisor.Text.Ip.{is_ip}
use mystic_hypervisor.Text.{trim_space}

-- `x` gets traffic that `exp` asks for: at the gateway of `exp`, or at any if `exp` names none.
abbrev pub Blocks : NetworkExposure → NetworkExposure → Type 0
Blocks x exp =
    (x.public_port ≡ exp.public_port)
    × ((x.gateway_id ≡ exp.gateway_id) ⊎ (exp.gateway_id ≡ ""))
    × Overlap x.protocol exp.protocol

-- What is asked of an exposure next to those that exist.
pub record IsAcceptable (exp : NetworkExposure) (exposures : GoMap String NetworkExposure)
    : Type 0 where
  pub named : trim_space exp.workload_id ≢ ""
  pub given : trim_space exp.internal_ip ≢ ""
  pub internal_address : is_ip exp.internal_ip ≡ true
  pub public_address : (exp.public_ip ≡ "") ⊎ (is_ip exp.public_ip ≡ true)
  pub known :
      (exp.protocol ≡ Protocol.tcp)
      ⊎ (exp.protocol ≡ Protocol.udp)
      ⊎ (exp.protocol ≡ Protocol.tcp_udp)
  pub external : IsPort exp.public_port
  pub internal : IsPort exp.internal_port
  pub unreserved : (exp.public_port ≢ pos 22) × (exp.public_port ≢ pos 8443)
  pub apart : All (λ (x : NetworkExposure). x.id ≢ exp.id → ¬ Blocks x exp) (values exposures)

All-if :
    (P : ForwardingRule → Type 0) (b : Bool) (r : ForwardingRule) (rest : List ForwardingRule)
    → All P (if b then rest else r ∷ rest)
    → All P rest × (b ≡ false → P r)
All-if P true r rest all = (all, λ e. cc)
All-if P false r rest all = (all.1, λ e. all.0)

if-All :
    (P : ForwardingRule → Type 0) (b : Bool) (r : ForwardingRule) (rest : List ForwardingRule)
    → All P rest
    → (b ≡ false → P r)
    → All P (if b then rest else r ∷ rest)
if-All P true r rest all here = all
if-All P false r rest all here = (here refl, all)

module _ (P : ForwardingRule → Type 0) (id : String) where
  -- The rules that are compared are those of the exposures with another id.
  All-other_rules :
      (xs : List NetworkExposure)
      → All P (other_rules id xs)
        ↔ All (λ (x : NetworkExposure). x.id ≢ id → P (to_forwarding_rule x)) xs
  unfolding other_rules
  All-other_rules [] = (λ h. h, λ h. h)
  All-other_rules (x ∷ xs) = (
    λ h.
        let (rest, here) = All-if P (x.id == id) (to_forwarding_rule x) (other_rules id xs) h in
        (λ ne. here (==_ne x.id id ne), (All-other_rules xs).0 rest),
    λ h.
        if-All P (x.id == id) (to_forwarding_rule x) (other_rules id xs)
          ((All-other_rules xs).1 h.1) (λ e. h.0 (λ q. cc (e, (string_eq.same_iff x.id id).1 q))),
  )

-- For the rule of an exposure, the engine's comparison is `Blocks`.
Takes-iff :
    (x exp : NetworkExposure)
    → Takes exp.gateway_id (single_mapping (exposure_request exp)) (to_forwarding_rule x)
      ↔ Blocks x exp
unfolding to_forwarding_rule
Takes-iff x exp = (λ (p, g, o). (sym same ∙ p, g, o), λ (p, g, o). (same ∙ p, g, o))
  where
    same : rule_port (to_forwarding_rule x) ≡ x.public_port
    same = ground arith

-- The engine finds that the rule does not have the port of the exposure.
abbrev IsFree : NetworkExposure → ForwardingRule → Type 0
IsFree exp rule = is_taken_by exp.gateway_id (single_mapping (exposure_request exp)) rule ≡ false

-- An exposure is accepted exactly if its workload is named, its addresses and protocol are valid, its
-- ports are between 1 and 65535, the public one is not 22 or 8443, and no exposure with another id has
-- its port with an overlapping protocol, at its gateway (at any gateway, if it names none).
pub validate_exposure_iff :
    (exp : NetworkExposure) (exposures : GoMap String NetworkExposure)
    → (accepts (validate_exposure exp exposures) ≡ true) ↔ IsAcceptable exp exposures
unfolding validate_exposure
validate_exposure_iff exp exposures = (
  λ h.
      let a = accepted.0 h in
      record {
        named = a.named;
        given = a.destination_given;
        internal_address = a.destination;
        public_address = ground (arith, a.public_address, string_eq.same_iff exp.public_ip "");
        known = (is_known_protocol_iff exp.protocol).0 a.known;
        external = (bad_port_iff exp.public_port).0 a.external;
        internal = (bad_port_iff exp.internal_port).0 a.internal;
        unreserved = (reserved_iff exp.public_port exp.internal_port).0 a.unreserved;
        apart =
            All-map (λ x free ne b. not_taken _ _ _ (free ne) ((Takes-iff x exp).1 b))
              (values exposures) (others.0 a.untaken);
      },
  λ a. accepted.1 (record {
    named = a.named;
    destination_given = a.given;
    destination = a.internal_address;
    public_address = ground (arith, a.public_address, string_eq.same_iff exp.public_ip "");
    known = (is_known_protocol_iff exp.protocol).1 a.known;
    external = (bad_port_iff exp.public_port).1 a.external;
    internal = (bad_port_iff exp.internal_port).1 a.internal;
    unreserved = (reserved_iff exp.public_port exp.internal_port).1 a.unreserved;
    untaken = others.1 (
        All-map (λ x free ne. untaken _ _ _ (λ t. free ne ((Takes-iff x exp).0 t)))
          (values exposures) a.apart);
  }),
)
  where
    accepted :
        (accepts (validate_exposure exp exposures) ≡ true)
        ↔ Acceptable (other_rules exp.id (values exposures)) (exposure_request exp)
    accepted =
        single_accepted_iff (other_rules exp.id (values exposures)) (exposure_request exp) refl

    others :
        All (IsFree exp) (other_rules exp.id (values exposures))
        ↔ All
            (λ (x : NetworkExposure). x.id ≢ exp.id → IsFree exp (to_forwarding_rule x))
            (values exposures)
    others = All-other_rules (IsFree exp) exp.id (values exposures)

-- Two exposures that would both get the traffic of one port of one gateway.
abbrev pub Clash : NetworkExposure → NetworkExposure → Type 0
Clash x y =
    (x.gateway_id ≡ y.gateway_id) × (x.public_port ≡ y.public_port) × Overlap x.protocol y.protocol

All-get :
    (P : NetworkExposure → Type 0) (k : String) (m : GoMap String NetworkExposure)
    (x : NetworkExposure)
    → All P (values m)
    → get k m ≡ some x
    → P x
unfolding get
All-get P k [] x all e = cc
All-get P k ((j, y) ∷ m) x all e = elim (Bool-cases (j == k)) [
  | inl t ↦ let same : y ≡ x = ground (arith, e, t) in subst P same all.0
  | inr t ↦ let found : get k m ≡ some x = ground (arith, e, t) in All-get P k m x all.1 found
]

-- An accepted exposure clashes with no exposure that has another id.
pub accepted-Clash :
    (exp : NetworkExposure) (m : GoMap String NetworkExposure) (k : String) (x : NetworkExposure)
    → accepts (validate_exposure exp m) ≡ true
    → get k m ≡ some x
    → x.id ≢ exp.id
    → ¬ Clash x exp
accepted-Clash exp m k x h e ne (g, p, o) =
    All-get (λ (y : NetworkExposure). y.id ≢ exp.id → ¬ Blocks y exp) k m x
      ((validate_exposure_iff exp m).0 h).apart e ne (p, inl g, o)
