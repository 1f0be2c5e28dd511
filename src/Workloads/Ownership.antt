-- ===== src/Workloads/Ownership.antt =====
-- backend/internal/workloads/execution.go: when CheckOwnership finds that Mystic owns an instance.
use mystic_hypervisor.Prelude.Maps.{GoMap}
use mystic_hypervisor.Prelude.{
  ◌≡◌, ◌≢◌, ◌↔◌, ◌⊎◌, inl, inr, refl, Option, none, some, String, ◌==◌, string_eq, Bool-cases,
  arith, true,
}
use mystic_hypervisor.Providers.{Instance}
use mystic_hypervisor.Workloads.Execution.{OwnershipStatus, check_ownership, label, lookup}

-- The text stands under the first key, or nothing does and it stands under the second.
abbrev pub Carries : String → String → GoMap String String → String → Type 0
Carries user_key key labels v =
    ((lookup user_key labels ≢ "") × (lookup user_key labels ≡ v))
    ⊎ (lookup user_key labels ≡ "") × (lookup key labels ≡ v)

label_iff :
    (user_key key : String) (labels : GoMap String String) (v : String)
    → (label user_key key labels ≡ v) ↔ Carries user_key key labels v
unfolding label
label_iff user_key key labels v = elim (Bool-cases (lookup user_key labels == "")) [
  | inl t ↦
      let e = (string_eq.same_iff (lookup user_key labels) "").0 t in
      rw t (λ h. inr (e, h), λ c. elim c [ inl (n, _) ↦ absurd (n e) | inr (_, q) ↦ q ])
  | inr t ↦
      let n : lookup user_key labels ≢ "" =
        λ e. cc (t, (string_eq.same_iff (lookup user_key labels) "").1 e) in
      rw t (λ h. inl (n, h), λ c. elim c [ inl (_, q) ↦ q | inr (e, _) ↦ absurd (n e) ])
]

-- The labels of the instance say that it is owned, and for which workload.
abbrev pub IsOwned : Option Instance → String → Type 0
IsOwned none id = ⊥
IsOwned (some inst) id =
    Carries "user.mystic.owned" "mystic.owned" inst.labels "true"
    × Carries "user.mystic.workload_id" "mystic.workload_id" inst.labels id

-- CheckOwnership answers that Mystic owns the instance exactly if there is one whose labels say that
-- it is owned and name the workload, each under its key with the prefix or, if nothing stands there,
-- under the plain key. It answers that it does not know exactly if there is no instance.
pub check_ownership_iff :
    (inst : Option Instance) (id : String)
    → ((check_ownership inst id ≡ OwnershipStatus.mystic_owned) ↔ IsOwned inst id)
      × ((check_ownership inst id ≡ OwnershipStatus.unknown) ↔ (inst ≡ none))
unfolding check_ownership
check_ownership_iff none id = ((λ h. cc, λ h. absurd h), (λ h. refl, λ h. refl))
check_ownership_iff (some inst) id = (
  (
    λ h. (
      (label_iff _ _ inst.labels "true").0 (ground (arith, h, owned)),
      (label_iff _ _ inst.labels id).0 (ground (arith, h, for)),
    ),
    λ (a, b).
        let p = (label_iff _ _ inst.labels "true").1 a in
        let q = (label_iff _ _ inst.labels id).1 b in ground (arith, p, q, owned, for),
  ),
  (λ h. absurd (ground (arith, h)), λ h. cc),
)
  where
    owned :
        ((label "user.mystic.owned" "mystic.owned" inst.labels == "true") ≡ true)
        ↔ (label "user.mystic.owned" "mystic.owned" inst.labels ≡ "true")
    owned = string_eq.same_iff _ _

    for :
        ((label "user.mystic.workload_id" "mystic.workload_id" inst.labels == id) ≡ true)
        ↔ (label "user.mystic.workload_id" "mystic.workload_id" inst.labels ≡ id)
    for = string_eq.same_iff _ _
