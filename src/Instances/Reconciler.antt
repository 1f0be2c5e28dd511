-- ===== src/Instances/Reconciler.antt =====
-- backend/internal/instances/reconciler.go: the Reconciler, which has no state.
use Prim.Native.Nat.{◌/◌}
use mystic_hypervisor.Instances.{SyncStatus, in_sync, out_of_sync, provider_missing, orphaned}
use mystic_hypervisor.Prelude.Int.{ℤ, pos, negsuc, int_eq, ltz, ◌-ℤ◌}
use mystic_hypervisor.Prelude.{
  ℕ, suc, ◌≡◌, ◌↔◌, Option, none, some, String, Bool, false, not, ◌&&◌, ◌==◌, List, [], arith, ◌⊎◌,
  if◌then◌else◌,
}
use mystic_hypervisor.Providers.{Instance, InstanceState, InstanceType, instance_state_eq}

pub record InstanceMetadata : Type 0 where
  pub id : String
  pub name : String
  pub type : InstanceType
  pub desired_state : InstanceState
  pub cpu_cores : ℤ
  pub memory_bytes : ℤ
  pub disk_bytes : ℤ
  pub owner_id : String
  pub node : String
  pub tags : List String
  pub created_at : Option ℕ
  pub updated_at : Option ℕ

-- LiveMetrics is never set by the reconciler.
pub record ReconciledInstance : Type 0 where
  pub metadata : InstanceMetadata
  pub authoritative_state : InstanceState
  pub sync_status : SyncStatus
  pub live_ip_address : String

-- Go's division by a positive number, which rounds towards zero.
unfoldable pub quotient : ℤ → ℕ → ℤ
unfolding ◌-ℤ◌
quotient (pos n) d = pos (n / d)
quotient (negsuc n) d = pos 0 -ℤ pos (suc n / d)

-- `a > 0 && b > 0 && a != b`
abbrev pub differ : ℤ → ℤ → Bool
differ a b = ltz (pos 0) a && ltz (pos 0) b && not (a == b)

abbrev pub mebibyte : ℕ
mebibyte = 1048576

abbrev pub gibibyte : ℕ
gibibyte = 1073741824

abbrev pub mark_if : Bool → SyncStatus → SyncStatus
mark_if b status = if b then out_of_sync else status

-- The status where both exist.
unfoldable pub resolve : InstanceMetadata → Instance → SyncStatus
resolve meta inst = mark_if (differ meta.cpu_cores inst.limits.cpu_cores) (
    mark_if (differ (quotient meta.disk_bytes gibibyte) (quotient inst.limits.disk_bytes gibibyte))
      (mark_if
        (differ (quotient meta.memory_bytes mebibyte) (quotient inst.limits.memory_bytes mebibyte))
        (mark_if
          (not (meta.desired_state == InstanceState.unset)
            && not (meta.desired_state == inst.state))
          in_sync)))

abbrev pub metadata_of : Instance → InstanceMetadata
metadata_of inst = record {
  id = inst.id;
  name = inst.name;
  type = inst.type;
  desired_state = InstanceState.unset;
  cpu_cores = pos 0;
  memory_bytes = pos 0;
  disk_bytes = pos 0;
  owner_id = "";
  node = inst.node;
  tags = [];
  created_at = inst.created_at;
  updated_at = none;
}

unfoldable pub reconcile : Option InstanceMetadata → Option Instance → Option ReconciledInstance
reconcile none none = none
reconcile none (some inst) = some (record {
  metadata = metadata_of inst;
  authoritative_state = inst.state;
  sync_status = orphaned;
  live_ip_address = inst.ip_address;
})
reconcile (some meta) none = some (record {
  metadata = meta;
  authoritative_state = InstanceState.unknown;
  sync_status = provider_missing;
  live_ip_address = "";
})
reconcile (some meta) (some inst) = some (record {
  metadata = meta;
  authoritative_state = inst.state;
  sync_status = resolve meta inst;
  live_ip_address = inst.ip_address;
})

-- Two amounts are the same in whole units, or one of them is not known or below one unit.
abbrev pub Agree : ℕ → ℤ → ℤ → Type 0
Agree unit a b =
    (ltz (pos 0) (quotient a unit) ≡ false)
    ⊎ (ltz (pos 0) (quotient b unit) ≡ false)
    ⊎ (quotient a unit ≡ quotient b unit)

abbrev pub AgreeCores : ℤ → ℤ → Type 0
AgreeCores a b = (ltz (pos 0) a ≡ false) ⊎ (ltz (pos 0) b ≡ false) ⊎ (a ≡ b)

differ_iff : (a b : ℤ) → (differ a b ≡ false) ↔ AgreeCores a b
differ_iff a b =
    (λ h. ground (arith, h, int_eq.same_iff a b), λ h. ground (arith, h, int_eq.same_iff a b))

resolve_iff :
    (meta : InstanceMetadata) (inst : Instance)
    → (resolve meta inst ≡ in_sync)
      ↔ ((not (meta.desired_state == InstanceState.unset) && not (meta.desired_state == inst.state))
          ≡ false)
        × (differ (quotient meta.memory_bytes mebibyte) (quotient inst.limits.memory_bytes mebibyte)
            ≡ false)
        × (differ (quotient meta.disk_bytes gibibyte) (quotient inst.limits.disk_bytes gibibyte)
            ≡ false)
        × (differ meta.cpu_cores inst.limits.cpu_cores ≡ false)
unfolding resolve
resolve_iff meta inst =
    go (not (meta.desired_state == InstanceState.unset) && not (meta.desired_state == inst.state)) _
      _ _
  where
    go :
        (a b c d : Bool)
        → (mark_if d (mark_if c (mark_if b (mark_if a in_sync))) ≡ in_sync)
          ↔ (a ≡ false) × (b ≡ false) × (c ≡ false) × (d ≡ false)
    go a b c d = (λ h. ground (arith, h), λ h. ground (arith, h))

-- An instance that the metadata and the provider both know is in sync exactly if the state is the one
-- that is desired, or none is, and memory in whole MiB, disk in whole GiB and cores are the same
-- wherever both sides name an amount of at least one unit.
pub resolve_in_sync_iff :
    (meta : InstanceMetadata) (inst : Instance)
    → (resolve meta inst ≡ in_sync)
      ↔ ((meta.desired_state ≡ InstanceState.unset) ⊎ (meta.desired_state ≡ inst.state))
        × Agree mebibyte meta.memory_bytes inst.limits.memory_bytes
        × Agree gibibyte meta.disk_bytes inst.limits.disk_bytes
        × AgreeCores meta.cpu_cores inst.limits.cpu_cores
resolve_in_sync_iff meta inst =
    let (f, g) = resolve_iff meta inst in
    let m =
      differ_iff (quotient meta.memory_bytes mebibyte)
        (quotient inst.limits.memory_bytes mebibyte) in
    let d =
      differ_iff (quotient meta.disk_bytes gibibyte) (quotient inst.limits.disk_bytes gibibyte) in
    let c = differ_iff meta.cpu_cores inst.limits.cpu_cores in
    (
      λ h. let (x, y, z, w) = f h in (state.0 x, m.0 y, d.0 z, c.0 w),
      λ (x, y, z, w). g (state.1 x, m.1 y, d.1 z, c.1 w),
    )
  where
    state :
        ((not (meta.desired_state == InstanceState.unset) && not (meta.desired_state == inst.state))
          ≡ false)
        ↔ ((meta.desired_state ≡ InstanceState.unset) ⊎ (meta.desired_state ≡ inst.state))
    state = (
      λ h. ground (
        arith,
        h,
        instance_state_eq.same_iff meta.desired_state InstanceState.unset,
        instance_state_eq.same_iff meta.desired_state inst.state,
      ),
      λ h. ground (
        arith,
        h,
        instance_state_eq.same_iff meta.desired_state InstanceState.unset,
        instance_state_eq.same_iff meta.desired_state inst.state,
      ),
    )

-- Whatever the metadata says, and whether there is any, the state and the address that are shown of an
-- instance that the provider knows are the provider's.
pub reconcile_authoritative :
    (meta : Option InstanceMetadata) (inst : Instance) (r : ReconciledInstance)
    → reconcile meta (some inst) ≡ some r
    → (r.authoritative_state ≡ inst.state) × (r.live_ip_address ≡ inst.ip_address)
unfolding reconcile
reconcile_authoritative none inst r e = (ground (arith, e), ground (arith, e))
reconcile_authoritative (some meta) inst r e = (ground (arith, e), ground (arith, e))
