-- ===== src/Networking/SshAllocator/Used.antt =====
-- Which ports the allocator and the exposures use, apart from the loop's test, and the lowest of the
-- SSH range that is not used.
use native.Mathlib.Decide.{dec_le}
use mystic_hypervisor.Networking.Exposure.{NetworkExposure}
use mystic_hypervisor.Networking.SshAllocation.{ssh_port_min}
use mystic_hypervisor.Networking.SshAllocator.Search.{AllBusy, IsLowest}
use mystic_hypervisor.Networking.SshAllocator.{is_busy, is_public_port_in_use}
use mystic_hypervisor.Prelude.Int.{ℤ, pos, int_eq}
use mystic_hypervisor.Prelude.Maps.{GoMap, get, values}
use mystic_hypervisor.Prelude.{
  ℕ, ◌≤◌, ◌<◌, ◌≡◌, ◌↔◌, ◌⊎◌, ◌∷◌, ◌==◌, inl, inr, Option, none, some, true, false, String, List,
  [], any, arith, Bool-cases, Option-cases,
}

-- An exposure of the list has the public port.
abbrev pub IsPublic : ℤ → List NetworkExposure → Type 0
IsPublic port [] = ⊥
IsPublic port (x ∷ xs) = (x.public_port ≡ port) ⊎ IsPublic port xs

abbrev pub IsExposed : ℤ → Option (GoMap String NetworkExposure) → Type 0
IsExposed port none = ⊥
IsExposed port (some exposures) = IsPublic port (values exposures)

-- The allocator has an allocation at the port, or an exposure has it as its public port.
abbrev pub IsUsed : Option (GoMap String NetworkExposure) → GoMap ℤ ℕ → ℕ → Type 0
IsUsed em port_map port = ((r : ℕ) × (get (pos port) port_map ≡ some r)) ⊎ IsExposed (pos port) em

any_iff :
    (port : ℤ) (xs : List NetworkExposure)
    → (any (λ (x : NetworkExposure). x.public_port == port) xs ≡ true) ↔ IsPublic port xs
any_iff port [] = (λ h. cc, λ h. absurd h)
any_iff port (x ∷ xs) = step (any_iff port xs)
  where
    step :
        (any (λ (y : NetworkExposure). y.public_port == port) xs ≡ true) ↔ IsPublic port xs
        → (any (λ (y : NetworkExposure). y.public_port == port) (x ∷ xs) ≡ true)
          ↔ IsPublic port (x ∷ xs)
    step ih = (
      λ h. elim (Bool-cases (x.public_port == port)) [
        | inl t ↦ inl ((int_eq.same_iff x.public_port port).0 t)
        | inr t ↦ inr (ih.0 (ground (arith, h, t)))
      ],
      λ u. elim u [
        | inl e ↦ ground (arith, (int_eq.same_iff x.public_port port).1 e)
        | inr i ↦ ground (arith, ih.1 i)
      ],
    )

in_use_iff :
    (em : Option (GoMap String NetworkExposure)) (port : ℤ)
    → (is_public_port_in_use em port ≡ true) ↔ IsExposed port em
unfolding is_public_port_in_use
in_use_iff none port = (λ h. cc, λ h. absurd h)
in_use_iff (some exposures) port = any_iff port (values exposures)

-- The loop's test finds exactly the ports that are used.
pub is_busy_iff :
    (em : Option (GoMap String NetworkExposure)) (port_map : GoMap ℤ ℕ) (port : ℕ)
    → (is_busy em port_map port ≡ true) ↔ IsUsed em port_map port
unfolding is_busy
is_busy_iff em port_map port = (to, from)
  where
    to : is_busy em port_map port ≡ true → IsUsed em port_map port
    to h = elim (Option-cases (get (pos port) port_map)) [
      | inl e ↦ inr ((in_use_iff em (pos port)).0 (ground (arith, h, e)))
      | inr (r, e) ↦ inl (r, e)
    ]

    from : IsUsed em port_map port → is_busy em port_map port ≡ true
    from (inl (r, e)) = ground (arith, e)
    from (inr i) = ground (arith, (in_use_iff em (pos port)).1 i)

module _ (em : Option (GoMap String NetworkExposure)) (port_map : GoMap ℤ ℕ) where
  -- The port is the lowest SSH port that is not used.
  pub record IsLowestUnused (q : ℕ) : Type 0 where
    pub above : ssh_port_min ≤ q
    pub below : q < 22201
    pub unused : ¬ IsUsed em port_map q
    pub first : (x : ℕ) → ssh_port_min ≤ x → x < q → IsUsed em port_map x

  -- Every SSH port is used.
  abbrev pub AllUsed : Type 0
  AllUsed = (x : ℕ) → ssh_port_min ≤ x → x < 22201 → IsUsed em port_map x

  pub AllBusy-AllUsed : AllBusy (is_busy em port_map) ssh_port_min 22201 → AllUsed
  AllBusy-AllUsed all x p q = (is_busy_iff em port_map x).0 (all x p q)

  pub IsLowest-IsLowestUnused :
      (q : ℕ) → IsLowest (is_busy em port_map) ssh_port_min 22201 q → IsLowestUnused q
  IsLowest-IsLowestUnused q l = record {
    above = l.above;
    below = l.below;
    unused = λ u. cc ((is_busy_iff em port_map q).1 u, l.free);
    first = λ x p r. (is_busy_iff em port_map x).0 (l.first x p r);
  }

  pub IsLowestUnused-le :
      (p q : ℕ) → IsLowestUnused p → ssh_port_min ≤ q → is_busy em port_map q ≡ false → p ≤ q
  IsLowestUnused-le p q l lo free = elim (dec_le p q) [
    | yes h ↦ h
    | no n ↦ absurd (cc ((is_busy_iff em port_map q).1 (l.first q lo (omega (arith, n))), free))
  ]
