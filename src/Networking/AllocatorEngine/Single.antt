-- ===== src/Networking/AllocatorEngine/Single.antt =====
-- ValidateAllocation of one port, as the exposure manager asks it: exactly when it accepts.
use mystic_hypervisor.Hosts.{ForwardingRule, protocol_eq}
use mystic_hypervisor.Networking.AllocatorEngine.Clashes.{
  IsUntaken, check_rules_untaken, check_new_lem,
}
use mystic_hypervisor.Networking.AllocatorEngine.Conflicts.{
  Analysis, analyse, conclude, validate_allocation, check_mapping, check_mappings, check_new,
  check_reserved, check_listening, is_empty, initial, is_available,
}
use mystic_hypervisor.Networking.AllocatorEngine.Normalize.{
  normalized, normalize_mode, normalize_single, bad_port, mapping,
}
use mystic_hypervisor.Networking.AllocatorEngine.Validity.{append-empty, block_if_empty, empty_lem}
use mystic_hypervisor.Networking.AllocatorEngine.{
  basic_checks, check_destination, check_public_ip, check_workload, check_gateway,
  is_known_protocol, is_reserved_management_port, block_if,
}
use mystic_hypervisor.Networking.Requests.{
  AllocationMode, PortAllocationRequest, PortMapping, Message, ValidationResult,
  workload_id_required, invalid_protocol,
}
use mystic_hypervisor.Prelude.Int.{int_eq}
use mystic_hypervisor.Prelude.{
  ◌≡◌, ◌≢◌, ◌↔◌, refl, sym, ap, ◌∙◌, none, Bool, true, false, not, ◌&&◌, ◌||◌, ◌==◌, List, [], ◌∷◌,
  ◌++◌, arith, Bool-cases, inl, inr, string_eq,
}
use mystic_hypervisor.Text.Ip.{is_ip}
use mystic_hypervisor.Text.{trim_space}

-- The one mapping of a request for a single port.
abbrev pub single_mapping : PortAllocationRequest → PortMapping
single_mapping req = mapping req req.external_start_port req.internal_start_port

-- What is asked of a request for one port.
pub record Acceptable (rules : List ForwardingRule) (req : PortAllocationRequest) : Type 0 where
  pub named : trim_space req.workload_id ≢ ""
  pub destination_given : trim_space req.destination_ip ≢ ""
  pub destination : is_ip req.destination_ip ≡ true
  pub public_address : (req.public_ip == "" || is_ip req.public_ip) ≡ true
  pub known : is_known_protocol req.protocol ≡ true
  pub external : bad_port req.external_start_port ≡ false
  pub internal : bad_port req.internal_start_port ≡ false
  pub unreserved :
      is_reserved_management_port req.external_start_port req.internal_start_port none ≡ false
  pub untaken : IsUntaken req.gateway_id rules (single_mapping req)

module _ (rules : List ForwardingRule) (req : PortAllocationRequest)
    (is_single : req.mode ≡ AllocationMode.single) where
  abbrev result : ValidationResult
  result = validate_allocation req none rules [] [] none

  abbrev accepted : Bool
  accepted = result.is_valid && is_available result.status

  basic_empty :
      ((basic_checks req [] []).blockers ≡ [])
      ↔ (trim_space req.workload_id ≢ "")
        × (trim_space req.destination_ip ≢ "")
        × (is_ip req.destination_ip ≡ true)
        × ((req.public_ip == "" || is_ip req.public_ip) ≡ true)
        × (is_known_protocol req.protocol ≡ true)
  unfolding basic_checks check_destination check_public_ip check_workload check_gateway
  basic_empty = (
    λ h.
        let c1 = block_if (trim_space req.workload_id == "") workload_id_required in
        let c4 = block_if (not (is_known_protocol req.protocol)) (invalid_protocol req.protocol) in
        let cd = check_destination req in
        let cp = check_public_ip req in
        let (t1, _) = append-empty (c1 ++ cd ++ cp ++ c4 ++ []) [] h in
        let (t2, _) = append-empty (c1 ++ cd ++ cp ++ c4) [] t1 in
        let (t3, h4) = append-empty (c1 ++ cd ++ cp) c4 t2 in
        let (t4, h3) = append-empty (c1 ++ cd) cp t3 in
        let (h1, h2) = append-empty c1 cd t4 in
        (
          λ e.
              ground (
                arith,
                block_if_empty _ _ h1,
                string_eq.same_iff (trim_space req.workload_id) "",
                e,
              ),
          λ e. ground (arith, h2, string_eq.same_iff (trim_space req.destination_ip) "", e),
          ground (arith, h2),
          ground (arith, h3),
          ground (arith, block_if_empty _ _ h4),
        ),
    λ (a, b, c, d, e). ground (
      arith,
      string_eq.same_iff (trim_space req.workload_id) "",
      string_eq.same_iff (trim_space req.destination_ip) "",
    ),
  )

  abbrev NotesOk : Type 0
  NotesOk = (basic_checks req [] []).blockers ≡ []

  abbrev warnings : List Message
  warnings = (basic_checks req [] []).warnings

  -- The analysis of the one mapping.
  abbrev analysis : Analysis
  analysis = check_new req.gateway_id none rules (single_mapping req) (initial warnings)

  result_blocked : is_empty (basic_checks req [] []).blockers ≡ false → result.is_valid ≡ false
  unfolding validate_allocation
  result_blocked h = ground (arith, h)

  result_normalized :
      is_empty (basic_checks req [] []).blockers ≡ true
      → result ≡ analyse req.gateway_id none rules warnings (normalize_single req)
  unfolding validate_allocation normalize_mode
  result_normalized h = rw h (
      ap (λ m. analyse req.gateway_id none rules warnings (normalize_mode m req none rules none))
        is_single)

  normalized_good :
      bad_port req.external_start_port ≡ false
      → bad_port req.internal_start_port ≡ false
      → normalize_single req ≡ normalized [] (single_mapping req ∷ [])
  unfolding normalize_single
  normalized_good e i = rw (e, i) refl

  normalized_bad :
      (w : List Message)
      → (analyse req.gateway_id none rules w (normalize_single req)).is_valid ≡ true
      → (bad_port req.external_start_port ≡ false) × (bad_port req.internal_start_port ≡ false)
  unfolding normalize_single analyse
  normalized_bad w h = elim (Bool-cases (bad_port req.external_start_port)) [
    | inl e ↦ ground (arith, h, e)
    | inr e ↦ elim (Bool-cases (bad_port req.internal_start_port)) [
      | inl i ↦ ground (arith, h, e, i)
      | inr i ↦ (e, i)
    ]
  ]

  analyse_one :
      analyse req.gateway_id none rules warnings (normalized [] (single_mapping req ∷ []))
      ≡ conclude (single_mapping req ∷ []) analysis
  unfolding analyse check_mappings check_mapping
  analyse_one = refl

  analysis_status :
      IsUntaken req.gateway_id rules (single_mapping req)
      → (analysis.blockers ≡ [])
        × (is_available analysis.status
            ≡ not
                (is_reserved_management_port req.external_start_port req.internal_start_port none))
  unfolding check_new check_reserved check_listening
  analysis_status u =
      rw (check_rules_untaken req.gateway_id (single_mapping req) rules _ u)
        (ground arith, ground arith)

  accepts_analysis :
      is_empty (basic_checks req [] []).blockers ≡ true
      → bad_port req.external_start_port ≡ false
      → bad_port req.internal_start_port ≡ false
      → accepted ≡ (is_empty analysis.blockers && is_available analysis.status)
  unfolding conclude
  accepts_analysis h e i =
      let q =
        result_normalized h
        ∙ ap (λ n. analyse req.gateway_id none rules warnings n) (normalized_good e i)
        ∙ analyse_one in
      ap (λ (r : ValidationResult). r.is_valid && is_available r.status) q

  -- ValidateAllocation of one port accepts exactly what is asked for.
  pub single_accepted_iff : (accepted ≡ true) ↔ Acceptable rules req
  single_accepted_iff = (forward, backward)
    where
      backward : Acceptable rules req → accepted ≡ true
      backward a =
          let n =
            basic_empty.1
              (a.named, a.destination_given, a.destination, a.public_address, a.known) in
          let (b, s) = analysis_status a.untaken in
          accepts_analysis (ap is_empty n) a.external a.internal ∙ rw (b, s, a.unreserved) refl

      forward : accepted ≡ true → Acceptable rules req
      forward h = elim (Bool-cases (is_empty (basic_checks req [] []).blockers)) [
        | inr n ↦ absurd (cc (result_blocked n, h))
        | inl n ↦
            let v : result.is_valid ≡ true = ground (arith, h) in
            let (e, i) =
              normalized_bad warnings
                (sym (ap (λ (r : ValidationResult). r.is_valid) (result_normalized n)) ∙ v) in
            let q = sym (accepts_analysis n e i) ∙ h in
            let b : analysis.blockers ≡ [] = empty_lem analysis.blockers (ground (arith, q)) in
            let (_, k) =
              check_new_lem req.gateway_id none rules (single_mapping req) (initial warnings) in
            let u = (k b).1 in
            let (_, s) = analysis_status u in
            let (x1, x2, x3, x4, x5) = basic_empty.0 (empty_lem _ n) in
            record {
              named = x1;
              destination_given = x2;
              destination = x3;
              public_address = x4;
              known = x5;
              external = e;
              internal = i;
              unreserved = ground (arith, q, s);
              untaken = u;
            }
      ]
