-- ===== src/Rbac.antt =====
-- backend/internal/rbac/rbac.go: the roles and what they may do.
use mystic_hypervisor.Prelude.{
  ℕ, ◌≤◌, ◌≡◌, String, Bool, true, false, ◌==◌, string_eq, List, [], ◌∷◌, any, arith, if◌then◌else◌,
}

abbrev pub viewer_permissions : List String
viewer_permissions = "host.read" ∷ "instance.read" ∷ "network.read" ∷ "storage.read" ∷ []

abbrev pub operator_permissions : List String
operator_permissions =
    "host.read" ∷ "instance.read" ∷ "instance.create" ∷ "instance.start" ∷ "instance.stop"
    ∷ "instance.console" ∷ "network.read" ∷ "storage.read" ∷ []

-- A `switch` on the permission, with one case.
abbrev pub is_one_of : String → List String → Bool
is_one_of s = any (λ x. s == x)

unfoldable pub has_permission : String → String → Bool
has_permission role permission =
    if role == "administrator"
    then true
    else if role == "operator"
    then is_one_of permission operator_permissions
    else if role == "viewer"
    then is_one_of permission viewer_permissions
    else false

-- How much a role may do: the administrator most, then the operator, then the viewer, any other nothing.
abbrev pub rank : String → ℕ
rank role =
    if role == "administrator"
    then 3
    else if role == "operator"
    then 2
    else if role == "viewer"
    then 1
    else 0

-- A permission that a role has is one that every role of at least its rank has.
pub has_permission_monotone :
    (role above permission : String)
    → rank role ≤ rank above
    → has_permission role permission ≡ true
    → has_permission above permission ≡ true
unfolding has_permission
has_permission_monotone role above permission le h =
    go (role == "administrator") (role == "operator") (role == "viewer") (above == "administrator")
      (above == "operator") (above == "viewer") le h
  where
    go :
        (a b c d e f : Bool)
        → (if a then 3 else if b then 2 else if c then 1 else 0)
          ≤ (if d then 3 else if e then 2 else if f then 1 else 0)
        → (if a
            then true
            else if b
            then is_one_of permission operator_permissions
            else if c
            then is_one_of permission viewer_permissions
            else false)
          ≡ true
        → (if d
            then true
            else if e
            then is_one_of permission operator_permissions
            else if f
            then is_one_of permission viewer_permissions
            else false)
          ≡ true
    go a b c d e f le h = ground (arith, le, h)
