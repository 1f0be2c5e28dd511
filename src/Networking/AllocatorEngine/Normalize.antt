-- ===== src/Networking/AllocatorEngine/Normalize.antt =====
-- backend/internal/networking/allocator.go: part 2 of ValidateAllocation, which turns each of the
-- three modes of a request into a list of mappings.
use mystic_hypervisor.Hosts.{ForwardingRule, protocol_is_unset}
use mystic_hypervisor.Networking.AllocatorEngine.Pool.{find_free_pool_range}
use mystic_hypervisor.Networking.AllocatorEngine.{HostInfo, checks, rule_port}
use mystic_hypervisor.Networking.Exposure.{or_int, or_text}
use mystic_hypervisor.Networking.Requests.{
  AllocationMode, AllocationPool, PortAllocationRequest, PortMapping, Message,
  external_out_of_range, internal_out_of_range, invalid_internal_range, no_free_range,
  external_start_out_of_range, external_end_out_of_range, external_start_after_end,
  internal_start_out_of_range, internal_end_out_of_range, internal_start_after_end, sizes_differ,
  explicit_needs_rule, explicit_external_invalid, explicit_internal_invalid, unknown_mode,
}
use mystic_hypervisor.Prelude.Int.{ℤ, pos, pos_part, int_eq, ltz, add_int, sub_int}
use mystic_hypervisor.Prelude.{
  ℕ, zero, suc, Option, none, some, Bool, not, ◌&&◌, ◌||◌, ◌==◌, List, [], ◌∷◌, ◌++◌, if◌then◌else◌,
  string_eq,
}

-- `x < 1 || x > 65535`
abbrev pub bad_port : ℤ → Bool
bad_port p = ltz p (pos 1) || ltz (pos 65535) p

-- What the switch leaves behind; `unconfigured` is its own return.
pub data Normalized : Type 0 where
  unconfigured : Normalized
  normalized : List Message → List PortMapping → Normalized

abbrev pub mapping : PortAllocationRequest → ℤ → ℤ → PortMapping
mapping req ext int = record {
  external_port = ext;
  internal_port = int;
  protocol = req.protocol;
  public_ip = req.public_ip;
  destination_ip = req.destination_ip;
}

-- The mappings are made only if there is no blocker.
abbrev pub unless_blocked : List Message → List PortMapping → Normalized
unless_blocked [] ms = normalized [] ms
unless_blocked (b ∷ bs) ms = normalized (b ∷ bs) []

unfoldable pub normalize_single : PortAllocationRequest → Normalized
normalize_single req =
    unless_blocked
      (checks (
        (bad_port req.external_start_port, external_out_of_range req.external_start_port)
        ∷ (bad_port req.internal_start_port, internal_out_of_range req.internal_start_port)
        ∷ []))
      (mapping req req.external_start_port req.internal_start_port ∷ [])

-- `for i := 0; i < extSize; i++`, with the rounds that are left.
unfoldable pub range_mappings : PortAllocationRequest → ℕ → ℕ → List PortMapping
range_mappings req zero i = []
range_mappings req (suc rounds) i =
    mapping req (add_int req.external_start_port (pos i)) (add_int req.internal_start_port (pos i))
    ∷ range_mappings req rounds (suc i)

abbrev pub range_size : ℤ → ℤ → ℤ
range_size first last = add_int (sub_int last first) (pos 1)

unfoldable pub range_blockers : PortAllocationRequest → List Message
range_blockers req =
    let es = req.external_start_port in
    let ee = req.external_end_port in
    let is = req.internal_start_port in
    let ie = req.internal_end_port in
    checks (
      (bad_port es, external_start_out_of_range es)
      ∷ (bad_port ee, external_end_out_of_range ee)
      ∷ (ltz ee es, external_start_after_end es ee)
      ∷ (bad_port is, internal_start_out_of_range is)
      ∷ (bad_port ie, internal_end_out_of_range ie)
      ∷ (ltz ie is, internal_start_after_end is ie)
      ∷ (
        not (range_size es ee == range_size is ie),
        sizes_differ (range_size es ee) es ee (range_size is ie) is ie,
      )
      ∷ [])

-- The checks of a range and its mappings, behind the blockers of the search in the pool.
unfoldable pub normalize_given_range : List Message → PortAllocationRequest → Normalized
normalize_given_range before req =
    unless_blocked (before ++ range_blockers req)
      (range_mappings req (pos_part (range_size req.external_start_port req.external_end_port)) 0)

-- The range that was found in the pool is written into the request.
unfoldable pub normalize_found : PortAllocationRequest → AllocationPool → ℤ → ℤ → Normalized
normalize_found req pool size found =
    if found == pos 0
    then normalize_given_range (no_free_range size pool.name pool.start_port pool.end_port ∷ []) req
    else normalize_given_range [] (record req {
      external_start_port = found;
      external_end_port = sub_int (add_int found size) (pos 1);
    })

unfoldable pub bad_internal_range : PortAllocationRequest → Bool
bad_internal_range req =
    ltz req.internal_start_port (pos 1)
    || ltz (pos 65535) req.internal_end_port
    || ltz req.internal_end_port req.internal_start_port

unfoldable pub normalize_pool_range :
    PortAllocationRequest → AllocationPool → List ForwardingRule → Option HostInfo → Normalized
normalize_pool_range req pool rules host_info =
    let size = range_size req.internal_start_port req.internal_end_port in
    if bad_internal_range req
    then normalized (invalid_internal_range ∷ []) []
    else normalize_found req pool size
        (find_free_pool_range (some pool) size req.protocol rules host_info)

unfoldable pub normalize_from_pool :
    PortAllocationRequest
    → Option AllocationPool
    → List ForwardingRule
    → Option HostInfo
    → Normalized
normalize_from_pool req none rules host_info = unconfigured
normalize_from_pool req (some pool) rules host_info =
    if pool.is_configured then normalize_pool_range req pool rules host_info else unconfigured

unfoldable pub normalize_range :
    PortAllocationRequest
    → Option AllocationPool
    → List ForwardingRule
    → Option HostInfo
    → Normalized
normalize_range req pool rules host_info =
    if req.external_start_port == pos 0 && req.external_end_port == pos 0
    then normalize_from_pool req pool rules host_info
    else normalize_given_range [] req

abbrev pub explicit_mapping : PortAllocationRequest → ForwardingRule → PortMapping
explicit_mapping req rule = record {
  external_port = rule_port rule;
  internal_port = or_int rule.internal_port rule.destination_port;
  protocol = if protocol_is_unset rule.protocol then req.protocol else rule.protocol;
  public_ip = rule.public_ip;
  destination_ip = or_text (or_text rule.internal_ip rule.destination_ip) req.destination_ip;
}

-- One round of the loop over the explicit rules, whose number is `idx + 1`.
unfoldable pub explicit_blockers : PortAllocationRequest → ℕ → List ForwardingRule → List Message
explicit_blockers req idx [] = []
explicit_blockers req idx (rule ∷ rules) =
    let m = explicit_mapping req rule in
    checks (
      (bad_port m.external_port, explicit_external_invalid (suc idx) m.external_port)
      ∷ (bad_port m.internal_port, explicit_internal_invalid (suc idx) m.internal_port)
      ∷ [])
    ++ explicit_blockers req (suc idx) rules

unfoldable pub explicit_mappings : PortAllocationRequest → List ForwardingRule → List PortMapping
explicit_mappings req [] = []
explicit_mappings req (rule ∷ rules) = explicit_mapping req rule ∷ explicit_mappings req rules

unfoldable pub normalize_explicit : PortAllocationRequest → List ForwardingRule → Normalized
normalize_explicit req [] = normalized (explicit_needs_rule ∷ []) []
normalize_explicit req (rule ∷ rules) =
    normalized (explicit_blockers req 0 (rule ∷ rules)) (explicit_mappings req (rule ∷ rules))

unfoldable pub normalize_mode :
    AllocationMode
    → PortAllocationRequest
    → Option AllocationPool
    → List ForwardingRule
    → Option HostInfo
    → Normalized
normalize_mode AllocationMode.single req pool rules host_info = normalize_single req
normalize_mode AllocationMode.range req pool rules host_info =
    normalize_range req pool rules host_info
normalize_mode AllocationMode.explicit req pool rules host_info =
    normalize_explicit req req.explicit_rules
normalize_mode (AllocationMode.other m) req pool rules host_info =
    normalized (unknown_mode (AllocationMode.other m) ∷ []) []
