-- ===== src/Networking/AllocatorEngine/Clashes.antt =====
-- What it takes for the loop over the mappings to add no blocker.
use mystic_hypervisor.Hosts.{ForwardingRule}
use mystic_hypervisor.Networking.AllocatorEngine.Conflicts.{
  Analysis, block_of, check_new, check_rule, was_seen, check_rules, check_reserved, check_listening,
  check_mapping, check_mappings, is_taken_by, port_key,
}
use mystic_hypervisor.Networking.AllocatorEngine.{HostInfo}
use mystic_hypervisor.Networking.Requests.{
  PortMapping, Message, port_allocated, duplicate_external_port,
}
use mystic_hypervisor.Prelude.Int.{int_eq}
use mystic_hypervisor.Prelude.{
  ◌≡◌, ◌≢◌, refl, sym, ap, ◌∙◌, subst, if◌then◌else◌, Option, none, some, String, Bool, true, false,
  ◌==◌, List, [], ◌∷◌, ◌++◌, any, All, arith, string_eq,
}

-- No rule has the mapping's port.
abbrev pub IsUntaken : String → List ForwardingRule → PortMapping → Type 0
IsUntaken gateway_id rules m = All (λ rule. is_taken_by gateway_id m rule ≡ false) rules

-- No two mappings have the same external port and protocol.
abbrev pub NoClash : List PortMapping → Type 0
NoClash [] = Unit {0}
NoClash (m ∷ ms) =
    All (λ (n : PortMapping). m.external_port ≡ n.external_port → m.protocol ≢ n.protocol) ms
    × NoClash ms

append_nonempty : (xs : List Message) (x : Message) → (xs ++ x ∷ []) ≢ []
append_nonempty [] x = λ e. cc
append_nonempty (y ∷ xs) x = λ e. cc

check_rule_lem :
    (g : String) (m : PortMapping) (rule : ForwardingRule) (a : Analysis)
    → ((check_rule g m rule a).seen ≡ a.seen)
      × ((check_rule g m rule a).blockers ≡ [] → (a.blockers ≡ []) × (is_taken_by g m rule ≡ false))
unfolding check_rule
check_rule_lem g m rule a = (
  ground arith,
  λ e. ground (
    arith,
    e,
    append_nonempty a.blockers (port_allocated m.external_port m.protocol rule.workload_id),
  ),
)

pub check_rules_lem :
    (g : String) (m : PortMapping) (rules : List ForwardingRule) (a : Analysis)
    → ((check_rules g m rules a).seen ≡ a.seen)
      × ((check_rules g m rules a).blockers ≡ [] → (a.blockers ≡ []) × IsUntaken g rules m)
unfolding check_rules
check_rules_lem g m [] a = (refl, λ e. (e, _))
check_rules_lem g m (rule ∷ rules) a =
    let (s, k) = check_rules_lem g m rules (check_rule g m rule a) in
    let (t, l) = check_rule_lem g m rule a in
    (s ∙ t, λ e. ((l (k e).0).0, ((l (k e).0).1, (k e).1)))

check_warnings_lem :
    (m : PortMapping) (host_info : Option HostInfo) (a : Analysis)
    → ((check_listening m host_info (check_reserved m host_info a)).seen ≡ a.seen)
      × ((check_listening m host_info (check_reserved m host_info a)).blockers ≡ a.blockers)
unfolding check_listening check_reserved
check_warnings_lem m none a = (ground arith, ground arith)
check_warnings_lem m (some h) a = (ground arith, ground arith)

module _ (g : String) (host_info : Option HostInfo) (rules : List ForwardingRule) where
  pub check_new_lem :
      (m : PortMapping) (a : Analysis)
      → ((check_new g host_info rules m a).seen ≡ port_key m ∷ a.seen)
        × ((check_new g host_info rules m a).blockers ≡ []
            → (a.blockers ≡ []) × IsUntaken g rules m)
  unfolding check_new
  check_new_lem m a =
      let (s, k) = check_rules_lem g m rules (
        check_listening m host_info
          (check_reserved m host_info (record a { seen = port_key m ∷ a.seen }))) in
      let (t, l) = check_warnings_lem m host_info (record a { seen = port_key m ∷ a.seen }) in
      (s ∙ t, λ e. (sym l ∙ (k e).0, (k e).1))

  check_mapping_new :
      (m : PortMapping) (a : Analysis)
      → was_seen m a ≡ false
      → check_mapping g host_info rules m a ≡ check_new g host_info rules m a
  unfolding check_mapping
  check_mapping_new m a t = ground (arith, t)

  check_mapping_lem :
      (m : PortMapping) (a : Analysis)
      → (check_mapping g host_info rules m a).blockers ≡ []
      → (a.blockers ≡ [])
        × (was_seen m a ≡ false)
        × IsUntaken g rules m
        × ((check_mapping g host_info rules m a).seen ≡ port_key m ∷ a.seen)
  unfolding check_mapping
  check_mapping_lem m a h = go (was_seen m a) refl h
    where
      go :
          (b : Bool)
          → was_seen m a ≡ b
          → (if b
              then block_of m "REQUEST_SELF" (duplicate_external_port m.external_port m.protocol) a
              else check_new g host_info rules m a).blockers
            ≡ []
          → (a.blockers ≡ [])
            × (was_seen m a ≡ false)
            × IsUntaken g rules m
            × ((check_mapping g host_info rules m a).seen ≡ port_key m ∷ a.seen)
      go true t h = absurd (append_nonempty a.blockers _ h)
      go false t h =
          let (s, k) = check_new_lem m a in
          ((k h).0, t, (k h).1, ap (λ (x : Analysis). x.seen) (check_mapping_new m a t) ∙ s)

  -- Keys that were seen, or that stand earlier, are not those of a later mapping.
  abbrev Unseen : List PortMapping → List String → Type 0
  Unseen ms seen = All (λ m. any (λ k. k == port_key m) seen ≡ false) ms

  Unseen-tail :
      (k : String) (seen : List String) (ms : List PortMapping)
      → Unseen ms (k ∷ seen)
      → All (λ m. (k ≢ port_key m)) ms × Unseen ms seen
  Unseen-tail k seen [] u = (_, _)
  Unseen-tail k seen (m ∷ ms) (u, us) =
      let (x, y) = Unseen-tail k seen ms us in
      ((ground (arith, u, string_eq.same_iff k (port_key m)), x), (ground (arith, u), y))

  NoClash_of_keys :
      (m : PortMapping) (ms : List PortMapping)
      → All (λ n. port_key m ≢ port_key n) ms
      → All (λ (n : PortMapping). m.external_port ≡ n.external_port → m.protocol ≢ n.protocol) ms
  unfolding port_key
  NoClash_of_keys m [] u = _
  NoClash_of_keys m (n ∷ ns) (u, us) = (λ e f. u (cc), NoClash_of_keys m ns us)

  pub check_mappings_lem :
      (ms : List PortMapping) (a : Analysis)
      → (check_mappings g host_info rules ms a).blockers ≡ []
      → (a.blockers ≡ []) × Unseen ms a.seen × All (IsUntaken g rules) ms × NoClash ms
  unfolding check_mappings
  check_mappings_lem [] a h = (h, _, _, _)
  check_mappings_lem (m ∷ ms) a h =
      let (b, u, f, c) = check_mappings_lem ms (check_mapping g host_info rules m a) h in
      let (b', t, f', s) = check_mapping_lem m a b in
      let (k, v) = Unseen-tail (port_key m) a.seen ms (subst (Unseen ms) s u) in
      (b', (t, v), (f', f), (NoClash_of_keys m ms k, c))

-- Rules that do not have the port change nothing.
pub check_rules_untaken :
    (g : String) (m : PortMapping) (rules : List ForwardingRule) (a : Analysis)
    → IsUntaken g rules m
    → check_rules g m rules a ≡ a
unfolding check_rules check_rule
check_rules_untaken g m [] a u = refl
check_rules_untaken g m (rule ∷ rules) a (t, u) = rw t (check_rules_untaken g m rules a u)
