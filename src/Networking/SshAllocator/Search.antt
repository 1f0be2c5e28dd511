-- ===== src/Networking/SshAllocator/Search.antt =====
-- The search loop of AllocatePort finds the lowest port that is not busy.
use native.Mathlib.Decide.{ℕ_discrete}
use mystic_hypervisor.Networking.SshAllocation.{in_range, ssh_port_min}
use mystic_hypervisor.Networking.SshAllocator.{find_port}
use mystic_hypervisor.Prelude.Int.{pos}
use mystic_hypervisor.Prelude.{
  ℕ, zero, suc, ◌+◌, ◌≤◌, ◌<◌, ◌≡◌, refl, ◌⊎◌, inl, inr, Bool, true, false, arith, Bool-cases,
  subst,
}

-- `q` is the first port from `lo` on, below `hi`, that the test does not refuse.
pub record IsLowest (busy : ℕ → Bool) (lo hi q : ℕ) : Type 0 where
  pub above : lo ≤ q
  pub below : q < hi
  pub free : busy q ≡ false
  pub first : (x : ℕ) → lo ≤ x → x < q → busy x ≡ true

-- Every port from `lo` on, below `hi`, is refused.
abbrev pub AllBusy : (ℕ → Bool) → ℕ → ℕ → Type 0
AllBusy busy lo hi = (x : ℕ) → lo ≤ x → x < hi → busy x ≡ true

-- A range that is refused, from one port earlier on.
AllBusy-extend :
    (busy : ℕ → Bool) (lo hi : ℕ) → busy lo ≡ true → AllBusy busy (suc lo) hi → AllBusy busy lo hi
AllBusy-extend busy lo hi taken all x p q = elim (ℕ_discrete lo x) [
  | yes e ↦ subst (λ y. busy y ≡ true) e taken
  | no n ↦ all x (omega arith) q
]

-- The search over a span of ports from a positive one returns 0 if every port of it is busy, and
-- otherwise the lowest port of it that is free.
pub find_port_cases :
    (busy : ℕ → Bool) (rounds lo : ℕ)
    → 0 < lo
    → ((find_port busy rounds lo ≡ 0) × AllBusy busy lo (lo + rounds))
      ⊎ IsLowest busy lo (lo + rounds) (find_port busy rounds lo)
unfolding find_port
find_port_cases busy zero lo h = inl (refl, λ x p q. absurd (omega arith))
find_port_cases busy (suc f) lo h = elim (Bool-cases (busy lo)) [
  | inr here ↦ inr (
      rw here (record {
        above = omega arith;
        below = omega arith;
        free = here;
        first = λ x p q. absurd (omega arith);
      }))
  | inl taken ↦ rw taken (later taken (find_port_cases busy f (suc lo) (omega arith)))
]
  where
    later :
        busy lo ≡ true
        → ((find_port busy f (suc lo) ≡ 0) × AllBusy busy (suc lo) (suc lo + f))
          ⊎ IsLowest busy (suc lo) (suc lo + f) (find_port busy f (suc lo))
        → ((find_port busy f (suc lo) ≡ 0) × AllBusy busy lo (lo + suc f))
          ⊎ IsLowest busy lo (lo + suc f) (find_port busy f (suc lo))
    later taken (inl (e, all)) =
        inl (e, λ x p q. AllBusy-extend busy lo (suc lo + f) taken all x p (omega arith))
    later taken (inr l) = inr (record {
      above = omega (arith, l.above);
      below = omega (arith, l.below);
      free = l.free;
      first = AllBusy-extend busy lo _ taken l.first;
    })

-- Such a port of the SSH range is an SSH port.
pub IsLowest-in_range :
    (busy : ℕ → Bool) (q : ℕ) → IsLowest busy ssh_port_min 22201 q → in_range (pos q) ≡ true
IsLowest-in_range busy q l = ground (arith, l.above, l.below)
