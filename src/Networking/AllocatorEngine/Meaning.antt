-- ===== src/Networking/AllocatorEngine/Meaning.antt =====
-- What the engine's tests on ports, protocols and rules mean.
use mystic_hypervisor.Hosts.{ForwardingRule, Protocol, protocol_eq}
use mystic_hypervisor.Networking.AllocatorEngine.Conflicts.{is_taken_by}
use mystic_hypervisor.Networking.AllocatorEngine.Normalize.{bad_port}
use mystic_hypervisor.Networking.AllocatorEngine.{
  is_known_protocol, is_reserved_management_port, protocols_overlap, rule_port,
}
use mystic_hypervisor.Networking.Requests.{PortMapping}
use mystic_hypervisor.Prelude.Int.{ℤ, pos, negsuc, int_eq}
use mystic_hypervisor.Prelude.{
  ℕ, ◌<◌, ◌≡◌, ◌≢◌, ◌↔◌, ◌⊎◌, refl, sym, subst, none, String, true, false, arith, string_eq,
  Bool-cases, inl, inr,
}

-- A number from 1 to 65535.
abbrev pub IsPort : ℤ → Type 0
IsPort p = (n : ℕ) × (p ≡ pos n) × (0 < n) × (n < 65536)

-- One packet can have both protocols.
abbrev pub Overlap : Protocol → Protocol → Type 0
Overlap p q = (p ≡ Protocol.tcp_udp) ⊎ (q ≡ Protocol.tcp_udp) ⊎ (p ≡ q)

-- The rule, of the gateway or of any if none is named, gets traffic that the mapping would get.
abbrev pub Takes : String → PortMapping → ForwardingRule → Type 0
Takes gateway_id m rule =
    (rule_port rule ≡ m.external_port)
    × ((rule.gateway_id ≡ gateway_id) ⊎ (gateway_id ≡ ""))
    × Overlap rule.protocol m.protocol

pub bad_port_iff : (p : ℤ) → (bad_port p ≡ false) ↔ IsPort p
bad_port_iff (pos n) = (
  λ h. (n, refl, ground arith, ground arith),
  λ (m, e, a, b). subst (λ x. bad_port x ≡ false) (sym e) (ground arith),
)
bad_port_iff (negsuc n) = (λ h. absurd (ground arith), λ (m, e, a, b). cc)

pub protocols_overlap_iff : (p q : Protocol) → (protocols_overlap p q ≡ true) ↔ Overlap p q
protocols_overlap_iff p q = (
  λ h. ground (
    arith,
    h,
    protocol_eq.same_iff p Protocol.tcp_udp,
    protocol_eq.same_iff q Protocol.tcp_udp,
    protocol_eq.same_iff p q,
  ),
  λ h. ground (
    arith,
    h,
    protocol_eq.same_iff p Protocol.tcp_udp,
    protocol_eq.same_iff q Protocol.tcp_udp,
    protocol_eq.same_iff p q,
  ),
)

pub is_taken_by_iff :
    (g : String) (m : PortMapping) (rule : ForwardingRule)
    → (is_taken_by g m rule ≡ true) ↔ Takes g m rule
unfolding is_taken_by
is_taken_by_iff g m rule = (
  λ h. ground (
    arith,
    h,
    int_eq.same_iff (rule_port rule) m.external_port,
    string_eq.same_iff rule.gateway_id g,
    string_eq.same_iff g "",
    protocols_overlap_iff rule.protocol m.protocol,
  ),
  λ h. ground (
    arith,
    h,
    int_eq.same_iff (rule_port rule) m.external_port,
    string_eq.same_iff rule.gateway_id g,
    string_eq.same_iff g "",
    protocols_overlap_iff rule.protocol m.protocol,
  ),
)

pub not_taken :
    (g : String) (m : PortMapping) (rule : ForwardingRule)
    → is_taken_by g m rule ≡ false
    → ¬ Takes g m rule
not_taken g m rule h t = cc (h, (is_taken_by_iff g m rule).1 t)

pub untaken :
    (g : String) (m : PortMapping) (rule : ForwardingRule)
    → ¬ Takes g m rule
    → is_taken_by g m rule ≡ false
untaken g m rule n = elim (Bool-cases (is_taken_by g m rule)) [
  | inl t ↦ absurd (n ((is_taken_by_iff g m rule).0 t))
  | inr t ↦ t
]

-- The two ports of the management plane.
pub reserved_iff :
    (p i : ℤ) → (is_reserved_management_port p i none ≡ false) ↔ (p ≢ pos 22) × (p ≢ pos 8443)
reserved_iff p i = (
  λ h. ground (arith, h, int_eq.same_iff p (pos 22), int_eq.same_iff p (pos 8443)),
  λ h. ground (arith, h, int_eq.same_iff p (pos 22), int_eq.same_iff p (pos 8443)),
)

pub is_known_protocol_iff :
    (p : Protocol)
    → (is_known_protocol p ≡ true)
      ↔ (p ≡ Protocol.tcp) ⊎ (p ≡ Protocol.udp) ⊎ (p ≡ Protocol.tcp_udp)
is_known_protocol_iff p = (
  λ h. ground (
    arith,
    h,
    protocol_eq.same_iff p Protocol.tcp,
    protocol_eq.same_iff p Protocol.udp,
    protocol_eq.same_iff p Protocol.tcp_udp,
  ),
  λ h. ground (
    arith,
    h,
    protocol_eq.same_iff p Protocol.tcp,
    protocol_eq.same_iff p Protocol.udp,
    protocol_eq.same_iff p Protocol.tcp_udp,
  ),
)
