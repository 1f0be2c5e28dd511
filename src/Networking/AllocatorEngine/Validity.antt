-- ===== src/Networking/AllocatorEngine/Validity.antt =====
-- What a request promises that ValidateAllocation finds valid.
use mystic_hypervisor.Hosts.{ForwardingRule, protocol_eq}
use mystic_hypervisor.Networking.AllocatorEngine.Clashes.{NoClash, check_mappings_lem}
use mystic_hypervisor.Networking.AllocatorEngine.Conflicts.{
  analyse, conclude, validate_allocation, is_empty, initial, refused,
}
use mystic_hypervisor.Networking.AllocatorEngine.Normalize.{
  Normalized, unconfigured, normalized, normalize_mode, normalize_single, normalize_range,
  normalize_explicit, normalize_given_range, normalize_found, bad_internal_range,
  normalize_from_pool, normalize_pool_range, bad_port, unless_blocked, range_mappings, range_size,
  range_blockers, explicit_mapping, explicit_mappings, explicit_blockers,
}
use mystic_hypervisor.Networking.AllocatorEngine.Meaning.{IsPort, Takes, bad_port_iff, not_taken}
use mystic_hypervisor.Networking.AllocatorEngine.{HostInfo, basic_checks, block_if, checks}
use mystic_hypervisor.Networking.Requests.{
  AllocationMode, AllocationPool, GatewayConfig, PortAllocationRequest, PortMapping, Message,
  WorkloadNetworkConfig, ConflictStatus, failed_basic_checks, invalid_internal_range, no_free_range,
  explicit_external_invalid, explicit_internal_invalid,
}
use mystic_hypervisor.Prelude.Int.{
  ℤ, pos, pos_part, add_int, sub_int, int_eq, ltz, add_int-pos, sub_int-pos,
}
use mystic_hypervisor.Prelude.{
  ℕ, zero, suc, ◌+◌, ◌≤◌, ◌<◌, ◌-◌, ◌≡◌, refl, Option, none, some, String, Bool, true, false, not,
  ◌==◌, List, [], ◌∷◌, ◌++◌, All, All-map, arith, string_eq, if◌then◌else◌,
}

-- Both ports of a mapping are ports.
abbrev pub HasPorts : PortMapping → Type 0
HasPorts m = (bad_port m.external_port ≡ false) × (bad_port m.internal_port ≡ false)

pub append-empty : {A : Type 0} (xs ys : List A) → xs ++ ys ≡ [] → (xs ≡ []) × (ys ≡ [])
append-empty [] ys h = (refl, h)
append-empty (x ∷ xs) ys h = cc

pub block_if_empty : (b : Bool) (m : Message) → block_if b m ≡ [] → b ≡ false
block_if_empty true m h = cc
block_if_empty false m h = refl

-- The mappings that a normalization gives without a blocker.
abbrev Gives : Normalized → (List PortMapping → Type 0) → Type 0
Gives unconfigured P = Unit {0}
Gives (normalized [] ms) P = P ms
Gives (normalized (b ∷ bs) ms) P = Unit {0}

unless_blocked_lem :
    (P : List PortMapping → Type 0) (bs : List Message) (ms : List PortMapping)
    → (bs ≡ [] → P ms)
    → Gives (unless_blocked bs ms) P
unless_blocked_lem P [] ms h = h refl
unless_blocked_lem P (b ∷ bs) ms h = _

pub checks-empty : (bs : List (Bool × Message)) → checks bs ≡ [] → All (λ b. b.0 ≡ false) bs
checks-empty [] h = _
checks-empty ((b, m) ∷ bs) h =
    let (x, y) = append-empty (block_if b m) (checks bs) h in
    (block_if_empty b m x, checks-empty bs y)

normalize_single_lem : (req : PortAllocationRequest) → Gives (normalize_single req) (All HasPorts)
unfolding normalize_single
normalize_single_lem req =
    unless_blocked_lem (All HasPorts) _ _
      (λ e. let u = checks-empty (_ ∷ _ ∷ []) e in ((u.0, u.1.0), _))

range_mappings_lem :
    (req : PortAllocationRequest) (rounds i es is : ℕ)
    → req.external_start_port ≡ pos es
    → req.internal_start_port ≡ pos is
    → 0 < es
    → 0 < is
    → es + (i + rounds) ≤ 65536
    → is + (i + rounds) ≤ 65536
    → All HasPorts (range_mappings req rounds i)
unfolding range_mappings
range_mappings_lem req zero i es is e f p q h k = _
range_mappings_lem req (suc n) i es is e f p q h k = (
  (
    rw (e) (rw (add_int-pos es i (omega arith) (omega arith)) (ground arith)),
    rw (f) (rw (add_int-pos is i (omega arith) (omega arith)) (ground arith)),
  ),
  range_mappings_lem req n (suc i) es is e f p q (omega arith) (omega arith),
)

port_of : (p : ℤ) → bad_port p ≡ false → (n : ℕ) × (p ≡ pos n) × (0 < n) × (n < 65536)
port_of p h = (bad_port_iff p).0 h

-- Ranges that no check refuses: their ports, and the size that they share.
pub record GoodRange (req : PortAllocationRequest) : Type 0 where
  pub ext : ℕ
  pub int : ℕ
  pub size : ℕ
  pub ext_start : req.external_start_port ≡ pos ext
  pub int_start : req.internal_start_port ≡ pos int
  pub ext_positive : 0 < ext
  pub int_positive : 0 < int
  pub ext_end : req.external_end_port ≡ pos (ext + size)
  pub int_end : req.internal_end_port ≡ pos (int + size)
  pub ext_below : ext + size < 65536
  pub int_below : int + size < 65536

range_size-pos : (a b : ℕ) → a ≤ b → b < 65536 → range_size (pos a) (pos b) ≡ pos (b - a + 1)
range_size-pos a b h k =
    rw (sub_int-pos b a h (omega arith)) (add_int-pos (b - a) 1 (omega arith) (omega arith))

range_blockers-GoodRange : (req : PortAllocationRequest) → range_blockers req ≡ [] → GoodRange req
unfolding range_blockers
range_blockers-GoodRange req e =
    let u = checks-empty (_ ∷ _ ∷ _ ∷ _ ∷ _ ∷ _ ∷ _ ∷ []) e in
    let (a, ea, a1, a2) = port_of req.external_start_port u.0 in
    let (b, eb, _, b2) = port_of req.external_end_port u.1.0 in
    let (c, ec, c1, c2) = port_of req.internal_start_port u.1.1.1.0 in
    let (d, ed, _, d2) = port_of req.internal_end_port u.1.1.1.1.0 in
    go a b c d ea eb ec ed a1 b2 c1 d2 u.1.1.0 u.1.1.1.1.1.0 u.1.1.1.1.1.1.0
  where
    go :
        (a b c d : ℕ)
        → req.external_start_port ≡ pos a
        → req.external_end_port ≡ pos b
        → req.internal_start_port ≡ pos c
        → req.internal_end_port ≡ pos d
        → 0 < a
        → b < 65536
        → 0 < c
        → d < 65536
        → ltz req.external_end_port req.external_start_port ≡ false
        → ltz req.internal_end_port req.internal_start_port ≡ false
        → not (
            range_size req.external_start_port req.external_end_port
            == range_size req.internal_start_port req.internal_end_port)
          ≡ false
        → GoodRange req
    go a b c d ea eb ec ed a1 b2 c1 d2 lb ld same =
        let le : a ≤ b = ground (arith, ea, eb, lb) in
        let le' : c ≤ d = ground (arith, ec, ed, ld) in
        let x = range_size-pos a b le b2 in
        let y = range_size-pos c d le' d2 in
        let size : b - a ≡ d - c = ground (arith, ea, eb, ec, ed, same, x, y) in
        record {
          ext = a;
          int = c;
          size = b - a;
          ext_start = ea;
          int_start = ec;
          ext_positive = a1;
          int_positive = c1;
          ext_end = ground (arith, eb);
          int_end = ground (arith, ed, size);
          ext_below = omega arith;
          int_below = omega arith;
        }

normalize_given_range_lem :
    (before : List Message) (req : PortAllocationRequest)
    → Gives (normalize_given_range before req) (All HasPorts)
unfolding normalize_given_range
normalize_given_range_lem before req =
    unless_blocked_lem (All HasPorts) (before ++ range_blockers req) _
      (λ e. go (range_blockers-GoodRange req (append-empty before _ e).1))
  where
    go :
        GoodRange req
        → All HasPorts (
            range_mappings req
              (pos_part (range_size req.external_start_port req.external_end_port))
              0)
    go g =
        let s = range_size-pos g.ext (g.ext + g.size) (omega arith) g.ext_below in
        let t : pos_part (range_size req.external_start_port req.external_end_port) ≡ g.size + 1 =
          rw (g.ext_start, g.ext_end, s) (omega arith) in
        range_mappings_lem req (pos_part (range_size req.external_start_port req.external_end_port))
          0 g.ext g.int g.ext_start g.int_start g.ext_positive g.int_positive
          (omega (arith, t, g.ext_below)) (omega (arith, t, g.int_below))

Gives_if :
    (P : List PortMapping → Type 0) (b : Bool) (x y : Normalized)
    → Gives x P
    → Gives y P
    → Gives (if b then x else y) P
Gives_if P true x y h k = h
Gives_if P false x y h k = k

normalize_found_lem :
    (req : PortAllocationRequest) (pool : AllocationPool) (size found : ℤ)
    → Gives (normalize_found req pool size found) (All HasPorts)
unfolding normalize_found
normalize_found_lem req pool size found =
    Gives_if (All HasPorts) (found == pos 0)
      (normalize_given_range (no_free_range size pool.name pool.start_port pool.end_port ∷ []) req)
      _ (normalize_given_range_lem _ req)
      (normalize_given_range_lem [] (record req {
        external_start_port = found;
        external_end_port = sub_int (add_int found size) (pos 1);
      }))

normalize_pool_lem :
    (req : PortAllocationRequest) (pool : Option AllocationPool) (rules : List ForwardingRule)
    (host_info : Option HostInfo)
    → Gives (normalize_from_pool req pool rules host_info) (All HasPorts)
unfolding normalize_from_pool normalize_pool_range
normalize_pool_lem req none rules host_info = _
normalize_pool_lem req (some pool) rules host_info =
    Gives_if (All HasPorts) pool.is_configured (normalize_pool_range req pool rules host_info)
      unconfigured
      (Gives_if (All HasPorts) (bad_internal_range req)
        (normalized (invalid_internal_range ∷ []) []) _ _ (normalize_found_lem req pool _ _))
      _

normalize_range_lem :
    (req : PortAllocationRequest) (pool : Option AllocationPool) (rules : List ForwardingRule)
    (host_info : Option HostInfo)
    → Gives (normalize_range req pool rules host_info) (All HasPorts)
unfolding normalize_range
normalize_range_lem req pool rules host_info =
    Gives_if (All HasPorts) _ _ _ (normalize_pool_lem req pool rules host_info)
      (normalize_given_range_lem [] req)

explicit_lem :
    (req : PortAllocationRequest) (idx : ℕ) (rules : List ForwardingRule)
    → explicit_blockers req idx rules ≡ []
    → All HasPorts (explicit_mappings req rules)
unfolding explicit_blockers explicit_mappings
explicit_lem req idx [] e = _
explicit_lem req idx (rule ∷ rules) e =
    let m = explicit_mapping req rule in
    let (e1, e2) =
      append-empty
        (checks (
          (bad_port m.external_port, explicit_external_invalid (suc idx) m.external_port)
          ∷ (bad_port m.internal_port, explicit_internal_invalid (suc idx) m.internal_port)
          ∷ []))
        (explicit_blockers req (suc idx) rules) e in
    let u = checks-empty (_ ∷ _ ∷ []) e1 in ((u.0, u.1.0), explicit_lem req (suc idx) rules e2)

Gives_of :
    (P : List PortMapping → Type 0) (bs : List Message) (ms : List PortMapping)
    → (bs ≡ [] → P ms)
    → Gives (normalized bs ms) P
Gives_of P [] ms h = h refl
Gives_of P (b ∷ bs) ms h = _

normalize_explicit_lem :
    (req : PortAllocationRequest) (rules : List ForwardingRule)
    → Gives (normalize_explicit req rules) (All HasPorts)
unfolding normalize_explicit
normalize_explicit_lem req [] = _
normalize_explicit_lem req (rule ∷ rules) =
    Gives_of (All HasPorts) _ _ (explicit_lem req 0 (rule ∷ rules))

normalize_mode_lem :
    (mode : AllocationMode) (req : PortAllocationRequest) (pool : Option AllocationPool)
    (rules : List ForwardingRule) (host_info : Option HostInfo)
    → Gives (normalize_mode mode req pool rules host_info) (All HasPorts)
unfolding normalize_mode
normalize_mode_lem AllocationMode.single req pool rules host_info = normalize_single_lem req
normalize_mode_lem AllocationMode.range req pool rules host_info =
    normalize_range_lem req pool rules host_info
normalize_mode_lem AllocationMode.explicit req pool rules host_info =
    normalize_explicit_lem req req.explicit_rules
normalize_mode_lem (AllocationMode.other m) req pool rules host_info = _

-- What a valid result promises of its mappings.
pub record Sound (gateway_id : String) (rules : List ForwardingRule) (ms : List PortMapping)
    : Type 0 where
  pub ports : All (λ (m : PortMapping). IsPort m.external_port × IsPort m.internal_port) ms
  pub distinct : NoClash ms
  pub untaken : All (λ m. All (λ rule. ¬ Takes gateway_id m rule) rules) ms

pub empty_lem : {A : Type 0} (xs : List A) → is_empty xs ≡ true → xs ≡ []
empty_lem [] h = refl
empty_lem (x ∷ xs) h = cc

analyse_lem :
    (g : String) (host_info : Option HostInfo) (rules : List ForwardingRule)
    (warnings : List Message) (n : Normalized)
    → Gives n (All HasPorts)
    → (analyse g host_info rules warnings n).is_valid ≡ true
    → Sound g rules (analyse g host_info rules warnings n).normalized_mappings
unfolding analyse conclude
analyse_lem g host_info rules warnings unconfigured gives h = cc
analyse_lem g host_info rules warnings (normalized (b ∷ bs) ms) gives h = cc
analyse_lem g host_info rules warnings (normalized [] ms) gives h =
    let (_, _, f, c) = check_mappings_lem g host_info rules ms (initial warnings) (empty_lem _ h) in
    record {
      ports =
          All-map
            (λ m h. ((bad_port_iff m.external_port).0 h.0, (bad_port_iff m.internal_port).0 h.1)) ms
            gives;
      distinct = c;
      untaken = All-map (λ m. All-map (λ rule. not_taken g m rule) rules) ms f;
    }

-- A result that is valid gives mappings whose ports, external and internal, are all between 1 and
-- 65535, whatever the mode; no two of them have the same external port and protocol; and no rule that
-- exists, of the gateway asked for (of any, if none is named), has the external port of one of them
-- with a protocol that overlaps.
pub validate_allocation-Sound :
    (req : PortAllocationRequest) (host_info : Option HostInfo) (rules : List ForwardingRule)
    (workloads : List WorkloadNetworkConfig) (gateways : List GatewayConfig)
    (pool : Option AllocationPool)
    → (validate_allocation req host_info rules workloads gateways pool).is_valid ≡ true
    → Sound req.gateway_id rules
        (validate_allocation req host_info rules workloads gateways pool).normalized_mappings
unfolding validate_allocation
validate_allocation-Sound req host_info rules workloads gateways pool h =
    go (is_empty (basic_checks req workloads gateways).blockers) h
  where
    go :
        (b : Bool)
        → (let r =
              if b
              then analyse req.gateway_id host_info rules
                  (basic_checks req workloads gateways).warnings
                  (normalize_mode req.mode req pool rules host_info)
              else refused ConflictStatus.unknown failed_basic_checks
                  (basic_checks req workloads gateways).warnings
                  (basic_checks req workloads gateways).blockers
                  [] in
            r.is_valid ≡ true → Sound req.gateway_id rules r.normalized_mappings)
    go true h =
        analyse_lem req.gateway_id host_info rules _ _
          (normalize_mode_lem req.mode req pool rules host_info) h
    go false h = cc
